-- ===== src/Lib.antt =====
-- A model of the mycore engine, a game's deterministic prediction with rollback, the time library
-- under it and the network in memory, and of the wire protocol of the game Dots.
--
-- The program's parts and the files that model them:
--   Base: what the components share. Numbers are the native ones; an unsigned 64-bit value keeps its
--     wrap-around written out (Base/Word), and a signed one is an integer with C++'s truncated
--     division and casts, and the sum of two 64-bit values (Base/Int), which wraps around where C++
--     leaves it open. Base/Results has a result or an error, and Base/Chains the chains of checks that
--     a function makes before it returns.
--   Time: engine/time. Time.antt has every function of src/time.cpp and the arithmetic of ticks of
--     include/mycore/time/time.hpp. A call that throws returns `invalid_argument` or
--     `overflow_error`. The conversion to the steady clock's duration is a parameter.
--   Rollback: engine/rollback, include/mycore/rollback/types.hpp and timeline.hpp.
--     Types has the enumerations, the records and `RollbackModel`, the interface that a game
--       supplies: it is a parameter of all that follows, as the concept is of the template.
--     Keyed has the maps, as association lists; no code observes the order of a map.
--     Journal has `append_events`, `build_event_map` and `validate_authority_events`.
--     Resolve has `resolve_event_changes`, one function per loop body; Resolve/Due says, without its
--       loops, what change a key is due.
--     Timeline has the object, its outcomes and the private helpers; Timeline/Operations has
--       `initialize`, `advance`, `reconcile`, `refresh_authority`, `rebase_scope`, `hard_resync` and
--       the variants with a stimulus refresh, each a chain of the steps of the C++ function: a step
--       that returns a failure ends the chain. An operation takes the timeline and returns it with
--       the outcome, so that a failure shows what it left behind.
--     AuthorityOnly has `resolve_authority_only_events` and `event_batch_from_commit`.
--     Router has `StaticConsequenceRouter` of consequence_router.hpp. A slot holds a handler with the
--       storage of its policy; the game's callbacks are fields of the slot, and take a handler to
--       what they make of it. Router/Changes checks a change, Once and Cancelables have what the
--       policies do with it, Handlers sends it to each handler, and Consume takes a batch. A null
--       pointer that is dereferenced is `none`.
--     Calls puts the operations together as calls, with the timelines that calls reach.
--     Invariant has what holds of all of them.
--     Tests has a small game that the theorems are applied to.
--   Protocol: games/dots/protocol, messages.hpp, codec.hpp and src/codec.cpp.
--     Messages has the messages. A StrongId and a scoped enumeration are their numbers, since a
--       decoded one can have any value of its width, and a float is its 32 bits.
--     Float32 compares such bits as IEEE 754 does; the sum and the product of two floats are rounded
--       by the target's floating-point unit, which is a parameter, FloatUnit.
--     Bytes has `Writer` and `Reader`: a write is the bytes that it appends, and a read takes the
--       bytes that are left to a value and what is left after it.
--     Validate, Validate/Snapshot and Validate/Session have `validate` for each message. The sets and
--       indices that it fills are association lists.
--     Encode has the `encode_` functions, Fields and Decode the `decode_` functions: each step of a
--       decoder is an error or goes on with the bytes that are left. Codec has `encode` and `decode`.
--     Consistent says what the checks of a snapshot establish, Codec/Sizes, Codec/RoundTrip,
--       Codec/Delivered and Codec/Limits what holds of the codec, and Tests has messages and their
--       bytes.
--   Network: engine/net_transport, src/in_memory_network.cpp. Network.antt has the endpoints and the
--     connections of `InMemoryNetwork`, with a function for each method. A pointer to an endpoint says
--     whose it is. Wire is the abstract view without pointers, Represents, Connects and Refines relate
--     the two, and Runs and Ends are about sequences of calls.
--
-- How the parts interact: a timeline predicts by `RollbackModel::step` and records a frame per
-- command; an authority frame takes the acknowledged frames away and replays the others; the
-- difference of the predicted events goes out with the commit, and the router turns it into calls
-- of the handlers, once for each occurrence. Ticks and their arithmetic are
-- those of engine/time. The protocol carries what the two sides of the network exchange: the
-- client's inputs, and the server's snapshots with the receipts of its events, as the payloads that a
-- network takes from one end to the other.
--
-- Loops are structural recursion on the lists that they run over or on the number that a packet
-- gives of its parts, so no fuel is needed.
--
-- Not modelled: const accessors of the timeline, moves and copies (values are immutable), and the
-- thread and allocation behaviour; the drawing, windowing, asset, logging and socket code, which
-- calls other libraries; the rest of the game in games/dots, whose simulation is in floating point;
-- the metrics of engine/debug, which are averages in floating point; the tests and tools.

pub mod Base
pub mod Time
pub mod Rollback
pub mod Protocol
pub mod Network
