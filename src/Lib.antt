-- ===== src/Lib.antt =====
-- ded-swarm: a swarm of nodes that generate one text together with a masked diffusion model. Every
-- node runs a model of its own, and the nodes agree, sync by sync, on the tokens to commit. This
-- library models the parts of the program that decide what the nodes agree on, as functions that
-- can be run, and proves what makes them correct.
--
-- The parts, and how they interact:
-- - Consensus (diffusion/consensus.py): `detect_disputes`, `resolve_disputes` and
--   `merge_consensus`, which every participant calls once a sync with the commits and the scores
--   that it has received.
-- - Stop (diffusion/stop_detection.py): `StopDetector.check`, called after every merge with the
--   merged state; it finds the boundary from which the text is at its end.
-- - Peers (node/peers.py): `PeerTable`, which peers are alive and who leads.
-- - Round (node/round.py): `RoundManager`, the round that a node is in, whose leader and whose
--   participants are locked when it starts.
-- - Swarm (node/swarm.py): `SwarmNode`, the one reader of the socket. `_dispatch` feeds Peers and
--   Round, and files the messages of a sync in the inbox; `collect_until` is the barrier of a sync.
--   Swarm.Heartbeat: the thread that sends heartbeats.
-- - LocalStep (diffusion/local_step.py): `local_step`, one denoising step of a block: which masks
--   are committed, which settled tokens are reopened. Torch: the operations of torch that it calls.
-- - Generation (node/generation.py): `GenerationRunner._do_sync`, which publishes the node's commits,
--   waits for those of the others, resolves the disputes by a second exchange, merges, and checks
--   the stop boundary. Generation.Loop: `run_round`, which polls and makes a local step in every step
--   of every block, and syncs at the last step of a block and at others between.
--   Generation.Loop.Together relates two participants that take these steps side by side, and
--   Generation.Parties all the participants of one sync. Generation.Debug and Generation.Report are
--   what is printed of a step and of a sync, as values.
-- - Membership (node/node.py): the membership program, with the turns of its loop and its end.
-- - Protocol and Wire (common/protocol.py): the messages, and the dicts that `encode` and `decode`
--   put on the wire. Transport (node/transport.py): `publish` and `poll_recv`. Config
--   (common/config.py): the constants.
-- - Float: what the code does with floats, and the laws that a theorem asks of them.
-- - Base: notation, dicts, exceptions, `sorted`, and the lemmas that the parts share.
-- - Tests: the scenarios of tests/ as runs of the model, and each theorem at a concrete input.
--
-- How code is modelled. A class is a record, `self` is passed on explicitly, and a method returns the
-- new record. A dict is a list of entries in insertion order without duplicate keys; a set is a
-- list without duplicates, and the order in which the interpreter iterates over it is a parameter.
-- An exception is a `raise` of the result type. Integers of the source (positions, tokens, lengths)
-- are naturals: none is ever negative where the code uses it. `time.time()` is an argument. A loop
-- over a collection is recursion on the list. A loop over the socket is recursion on a list of
-- ticks, one for each turn, which says what the clock reads and what the socket delivers; where the
-- ticks run out the model says that the code still waits. `str` of a number runs on as much fuel as
-- the number, which has fewer digits than that.
--
-- Floats are an interface of operations, with the laws of their order, of IEEE sums (commutative,
-- with 0.0 neutral) and of exact sums stated separately: a theorem names the laws that it needs. The
-- tests use whole ticks, and one theorem uses sums that round.
--
-- Tensors are functions of their last index, for a batch of one row. The operations of torch are a
-- parameter: the laws that a theorem asks for are those that torch documents of `topk`, of a softmax
-- and of -inf. Looking up a score that the output of the model does not hold raises IndexError, by
-- the length of the sequence and the size of the vocabulary; a closed socket raises ZMQError. What msgpack does is a parameter as well, with what it documents of integers and of
-- the keys of dicts. The swarm's code reads a typed message; Wire says what a decoded dict holds
-- of it.
--
-- `run_round` is given, for every block and step, what the world does then: what the poll reads, the
-- clocks, the random numbers, and what the barriers of a sync read. Its result is the final state
-- with what was published, or that the round failed and was given up, or that a barrier still
-- waits. Its loops count down the steps and the blocks that are left, so no fuel is needed.
--
-- In Generation.Parties a sync has any number of participants, each with its own run of `_do_sync`. The
-- network between them is a condition on what each reads: a payload under a key of the sync that
-- stands in the name of another participant is one that the other published in its run. Order,
-- repetition, messages that come early and messages of strangers are free.
--
-- Not modelled: the wording, the headings and the rounding of what is printed, arguments of the
-- command line (node/node.py), the relay (relay/relay.py), which is a proxy of ZeroMQ without logic
-- of its own, and the sockets themselves: what ZeroMQ delivers is what the theorems quantify over.
-- The tokenizer is a parameter, as a function from tokens to text.
pub mod Base
pub mod Float
pub mod Torch
pub mod Wire
pub mod Transport
pub mod Consensus
pub mod Stop
pub mod Peers
pub mod Config
pub mod Protocol
pub mod Round
pub mod Swarm
pub mod LocalStep
pub mod Generation
pub mod Membership
mod Tests
