-- ===== src/Lib.antt =====
-- A verification library for lumencast-go, the Go server kit of the LSDP/1 protocol.
--
-- A server (server/server.go) owns scenes. A scene (server/scene.go) is a map of leaves, named by
-- dotted paths (protocol/leaf_path.go) and holding raw JSON (server/store.go). It numbers its
-- emissions (protocol/sequence.go), keeps the latest of them in a ring (server/replay_buffer.go), and
-- queues a snapshot or deltas for its subscribers. A client that comes back names the last number
-- that it saw, and gets the deltas that it missed or a snapshot. Input frames from clients pass the
-- write scope of the connection's identity (server/auth.go) and the scene's input declarations. A
-- connection (server/ws_handler.go) reads a Subscribe frame, authenticates, is given a scene, writes
-- what the subscription opens with, and then reads messages and drains its queue; frames cross the
-- socket as JSON text (protocol/codec.go). Scenes come from LSML bundles (lsml/), which are checked
-- and hashed apart from the server. For tests, a control plane (interop/control) sets a server up over
-- HTTP, and a harness (conformance/) runs scenarios against one.
--
-- Which file models what:
--   Protocol/Sequence      protocol/sequence.go: NextServer, Current, Reset, ObserveServer,
--                          ObserveSnapshot are next_server, current, reset, observe_server,
--                          observe_snapshot
--   Protocol/Frames        protocol/frames.go: a record for each frame, and Frame for their union
--   Protocol/Codec         protocol/envelope.go and protocol/codec.go: Encode, Decode and
--                          DecodeServer are encode, decode and decode_server
--   Protocol/LeafPath      protocol/leaf_path.go: validatePath and its helpers, the prefix and
--                          namespace tests, and Substitute (substitute, with its loop expand)
--   Protocol/Roles         protocol/types.go
--   Protocol/ErrorCodes    protocol/errors.go
--   Server/Replay          server/replay_buffer.go: push, since, reset and length on the ring
--   Server/Store           server/store.go: applyPatches (apply_patches with its loop apply_loop)
--                          and encodeValue
--   Server/Subscription    server/scene.go: the subscription, as a bounded queue in a heap
--   Server/Scene           server/scene.go: Set, EmitWithCause, sendDelta, refreshAll,
--                          subscribeWithResume and unsubscribe are set, emit_with_cause, send_delta,
--                          refresh_all, subscribe_with_resume and unsubscribe
--   Server/Concurrent      server/scene.go: emitWithCause, Set, subscribeWithResume and unsubscribe
--                          of one scene, cut where they take and release the locks of the store and
--                          of the scene, as the steps of one relation, with the calls that fail and the
--                          patches that they have written before
--   Server/Inputs          server/scene.go: applyInput, acceptsInputPath and checkConstraint
--   Server/Auth            server/auth.go: CanWrite, matchPathPattern and StaticTokens
--   Server/Hub             server/server.go: the scenes by id, the active one, the holding scene,
--                          the roster and the overlay apps; NewScene, SetActive, Reset, detach and
--                          migrateLive are register_scene, set_active, drop_scenes, detach and
--                          migrate_live
--   Server/Session         server/ws_handler.go: serveLSDP is open_session, with its steps admit,
--                          enter_scene and start_session, and end_session for the deferred detach;
--                          the reader of runConnection is read_all, its rounds handle_message; a
--                          round of writerLoop is writer_round or ping_round
--   Server/HttpPoll        server/adapters/http_poll.go: the loop of HTTPPoll is poll_all, with what
--                          pollOnce returned as its input, and nextBackoff is next_backoff
--   Lsml/Capture           lsml/capture.go: CheckZabCaptureNodes and what it calls
--   Lsml/Hash              lsml/hash.go: HashRaw and what it calls, down to writeCanonical
--   Lsml/Validate          lsml/bundle.go and lsml/validate.go: Validate is validate_bundle, and
--                          validateNode is validate_node
--   Conformance/Match      conformance/match.go: matchFrame and matchValue
--   Conformance/Harness    conformance/scenario.go and conformance/harness.go: Run is run, on what
--                          runScenario returns; its steps are run_steps and run_step, on what the
--                          socket and the driver answer
--   Interop/Control        interop/control/control.go: handleSetup, handleReset, handleState,
--                          handleEmit and handleHealth are handle_setup, handle_reset, handle_state,
--                          handle_emit and handle_health of Interop/Control/Handlers;
--                          installTokens is install_tokens
-- The modules below these hold the proofs, and Examples holds concrete runs.
--
-- How code is modelled:
--   - A method returns the new state beside its results, and is one step, also where the code takes
--     two locks one after the other (emitWithCause, Set, migrateLive): other calls in between are
--     left out, but for those of one scene, which Server/Concurrent runs in any order. Between steps
--     the writer of a connection takes frames from its queue. It may also do so between the two
--     sends of sendDelta: `taken` says how many frames it takes there,
--     for each subscription, and is arbitrary.
--   - A uint64 is a natural number, with the wrap of an addition written out. An int is an integer.
--     A float64 that JSON gave is an integer count of 2^-1074, which every finite float64 is, or the
--     negative zero, which is printed otherwise than zero and compares as equal to it.
--   - A string is a list of code points. A Go map is an association list, whose order is the order
--     in which a range would meet it; functions that range over a map take that order as it comes.
--   - JSON text is kept beside the value that encoding/json reads from it, or none if it is not
--     JSON. A caller's other Go values are seen only through what json.Marshal makes of them.
--   - Subscriptions are shared, so they have addresses in a heap: the subscribers of a scene are a
--     set of addresses. The channel of a subscription is a list of frames with a capacity.
--   - unicode.IsLetter and unicode.IsDigit are a parameter, of which only the ASCII rows are known.
--   - encoding/json on the frames is a parameter (JsonCodec); theorems about what a client reads have
--     its documented round trip as a hypothesis (IsFaithful). The sources of identity and the wording
--     of errors are parameters too (Surroundings). SHA-256 and the printing of strings and numbers are
--     the parameter of the hash (Printer).
--   - A socket is the list of the texts written to it and the number of writes that it still takes. A
--     connection whose scene was replaced or dropped from the server is left out of its later rounds.
--   - A Report of Validate lists the same issues; its messages are constructors with what they quote.
-- Every loop is structural recursion on a list, on a JSON value or on the number of records in the
-- ring, but for two: the stack of CheckZabCaptureNodes runs on fuel, the number of values in the layout, of
-- which each turn takes one; and the printing of a number has one unit of fuel more than the number,
-- which has no more digits than that.
--
-- Not modelled: the WebSocket library, deadlines and the scheduling of a connection's two goroutines,
-- HTTP serving and static bundles, the requests of HTTPPoll and the other adapters, HashBundle (which
-- is HashRaw on what json.Marshal makes of a bundle), the sockets, the drivers and the files of the conformance harness, the
-- commands, and logging and clocks: `ts` is empty.
pub mod Common
pub mod Json
pub mod Lsml
pub mod Conformance
pub mod Protocol
pub mod Server
pub mod Interop
pub mod Examples
