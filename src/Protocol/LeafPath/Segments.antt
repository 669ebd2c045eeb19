-- ===== src/Protocol/LeafPath/Segments.antt =====
-- Paths as lists of segments: what prefixes and namespaces mean there.
use lumencast_go.Common.{
  ◌≡◌, refl, Text, codes, Bool, true, false, ◌&&◌, ◌||◌, List, [], ◌∷◌, ◌++◌, arith, any, text_eq,
  starts_with, split_dots,
}
use lumencast_go.Protocol.LeafPath.{has_prefix, is_reserved, namespace, reserved_namespaces}

abbrev pub segments : Text → List Text
segments p = let (first, others) = split_dots p in first ∷ others

-- One list of segments begins another.
unfoldable pub begins : List Text → List Text → Bool
begins [] ys = true
begins (x ∷ xs) [] = false
begins (x ∷ xs) (y ∷ ys) = text_eq x y && begins xs ys

-- A path falls under a prefix exactly if the segments of the prefix begin those of the path.
pub has_prefix-eq-begins :
    (p prefix : Text) → has_prefix p prefix ≡ begins (segments prefix) (segments p)
unfolding has_prefix begins split_dots text_eq starts_with
has_prefix-eq-begins [] [] = refl
has_prefix-eq-begins [] (d ∷ q) = ground arith
has_prefix-eq-begins (c ∷ p) [] = ground arith
has_prefix-eq-begins (c ∷ p) (d ∷ q) = ground (arith, has_prefix-eq-begins p q)

-- The namespace is the first segment.
pub namespace-eq-first : (p : Text) → namespace p ≡ (split_dots p).0
unfolding namespace split_dots
namespace-eq-first [] = refl
namespace-eq-first (c ∷ p) = ground (arith, namespace-eq-first p)

-- The test of has_prefix, written out.
has_prefix_test :
    (p ns : Text)
    → (text_eq p ns || starts_with p (ns ++ codes ".")) ≡ begins (segments ns) (segments p)
unfolding has_prefix
has_prefix_test p ns = has_prefix-eq-begins p ns

begins_one : (ns x : Text) (xs : List Text) → begins (ns ∷ []) (x ∷ xs) ≡ text_eq ns x
unfolding begins
begins_one ns x xs = ground arith

-- A path is reserved exactly if its namespace is one of the four reserved ones.
pub is_reserved-eq-any :
    (p : Text) → is_reserved p ≡ any (λ ns. text_eq ns (namespace p)) reserved_namespaces
unfolding is_reserved split_dots
is_reserved-eq-any p = rw (
  namespace-eq-first,
  has_prefix_test p (codes "__inputs"),
  has_prefix_test p (codes "__system"),
  has_prefix_test p (codes "__test"),
  has_prefix_test p (codes "__schema"),
  begins_one (codes "__inputs"),
  begins_one (codes "__system"),
  begins_one (codes "__test"),
  begins_one (codes "__schema"),
)
