-- ===== src/Examples/Data.antt =====
-- Values that the other examples share.
use lumencast_go.Common.{
  Text, codes, true, false, ◌&&◌, ◌||◌, none, some, [], ◌∷◌, refl, Map, leb, HasDistinctKeys,
  text_eq,
}
use lumencast_go.Json.{str, Raw}
use lumencast_go.Protocol.LeafPath.{Unicode}
use lumencast_go.Server.Replay.{with_capacity}
use lumencast_go.Server.Store.{Value, raw, encode_value}
use lumencast_go.Server.Store.Apply.{Encodes}
use lumencast_go.Server.Subscription.{Subscription, Heap}
use lumencast_go.Server.Scene.{Scene}
use lumencast_go.Server.Scene.Client.{Client, Follows}

-- The ASCII rows alone.
abbrev pub ascii : Unicode
ascii = record {
  is_letter = λ c. leb b'A' c && leb c b'Z' || leb b'a' c && leb c b'z';
  is_digit = λ c. leb b'0' c && leb c b'9';
  letter_ascii = λ c h. refl;
  digit_ascii = λ c h. refl;
}

abbrev pub title : Text
title = codes "__inputs.title"

abbrev pub score : Text
score = codes "__inputs.score"

abbrev pub hello : Raw
hello = record { bytes = codes "\"hi\""; value = some (str (codes "hi")) }

abbrev pub bye : Raw
bye = record { bytes = codes "\"bye\""; value = some (str (codes "bye")) }

abbrev pub broken : Raw
broken = record { bytes = codes "{"; value = none }

abbrev pub patches : Map Value
patches = (title, raw hello) ∷ (score, raw bye) ∷ []

abbrev pub encoded : Map Raw
encoded = (title, hello) ∷ (score, bye) ∷ []

pub patches-Encodes : Encodes patches encoded
unfolding encode_value
patches-Encodes = (refl, refl, (refl, refl, tt))

pub encoded-HasDistinctKeys : HasDistinctKeys encoded
unfolding text_eq
encoded-HasDistinctKeys = ((refl, tt), (tt, tt))

-- A scene at number 3 with one subscriber, whose queue has room for one frame.
abbrev pub scene : Scene
scene = record {
  id = codes "intro";
  version = codes "v1";
  store = (title, bye) ∷ [];
  seq = record { cur = 3 };
  replay = with_capacity 2;
  subscribers = some (0 ∷ []);
  last_metadata = none;
  declared_inputs = [];
  rejection = none;
}

abbrev pub idle : Subscription
idle = record { out = []; cap = 1; closed = false; stale = false; live = true; proto11 = true }

abbrev pub heap : Heap
heap = record { next = 1; at = λ i. idle }

abbrev pub client : Client
client = record { tracker = record { cur = 3 }; state = (title, bye) ∷ [] }

pub client-Follows : Follows scene client
client-Follows = record { numbered = refl; leaves = λ j. refl }
