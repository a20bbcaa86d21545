-- ===== src/Lib.antt =====
-- The core of a replicated state machine by Multi-Paxos, whose parts are WebAssembly components
-- (paxos-wasm/core). A proposer that leads picks a slot and a ballot for a client's value and
-- asks the acceptors; an acceptor promises ballots and accepts values; a learner counts the votes
-- of the acceptors for each slot and hands out learned values in the order of the slots; the
-- key/value store applies their commands. A failure detector grades the nodes by their heartbeats
-- and tells a leader detector, which picks the proposer to lead. The agents, the runners and the
-- network (paxos-wasm/agents, runners, network-ws, runner-ws) carry messages between the
-- components.
--
-- Files and code. Acceptor and its children model MyAcceptorResource and StorageHelper of
-- paxos-wasm/core/acceptor/src/acceptor.rs; Learner those of
-- paxos-wasm/core/learner/src/learner.rs; Proposer those of
-- paxos-wasm/core/proposer/src/proposer.rs; KvStore models
-- paxos-wasm/core/kv-store/src/kv-store.rs, LeaderDetector
-- paxos-wasm/core/leader-detector/src/leader-detector.rs, FailureDetector
-- paxos-wasm/core/failure-detector/src/failure-detector.rs. Storage models
-- paxos-wasm/core/storage/src/storage.rs, the files of one key. ProposerAgent, AcceptorAgent and
-- LearnerAgent model the agents of paxos-wasm/agents (proposer-agent, acceptor-agent and
-- learner-agent/src), with the messages that they send, their ticks and their start; each works
-- on the state of the component that it drives. Coordinator models
-- paxos-wasm/runners/paxos-coordinator/src/coordinator.rs, which runs the agents of a node, hands
-- them the messages, drives the two phases of a node that has all three agents, and follows the
-- failure detector. Each agent has its own state of the network client, as in the code; the order
-- between the messages of two agents of a node is not kept. Each resource is a record and each of
-- its methods a function of the same name that takes the state and returns it. Types holds the
-- records and variants of paxos-wasm/shared/wit/types.wit, Types/Messages the messages, Network
-- the interface of the network client (paxos-wasm/shared/wit/network.wit), Persistence what the
-- components use of their environment, Common the shared helpers: tests on numbers, lists,
-- ordered maps, results.
--
-- Numbers. A u64 is a native number; sums that can leave the range wrap at 2^64 (add_u64),
-- saturating operations are written as such, and `as usize` is taken modulo 2^32, the size of
-- usize on wasm32. Theorems about slots and ballots that must not wrap say so in a hypothesis.
--
-- State and errors. A method that changes its object through Cell or RefCell returns the new
-- state beside its answer; one that returns a Result keeps what it wrote before an error. An
-- answer `none` where the code has none of its own is a panic: of `panic!`, of `expect` on a
-- failed save, of a remainder by zero in the learner's and the acceptor's StorageHelper::new, or
-- of an addition that would leave the range in a walk. A BTreeMap is the list of its entries in
-- order, a HashMap any list with one entry for each key; nothing is proved of the order in which
-- a HashMap iterates.
--
-- Loops. They are structural recursion over the lists and maps that the code iterates. The walk
-- of to_be_executed, a `while let` over a map, takes one more step than the map has entries as
-- its fuel, since each round uses up an entry. The loop that reads the changelog takes as fuel
-- one step more than the file has bytes, since each round reads at least the four bytes of a
-- length.
--
-- Files. The disk of Storage holds the state file, the changelog and the directory of snapshots,
-- with a list of faults: each call of the file system that changes a file takes the next one, and
-- fails with its error where there is one. A write that fails may have written a first part of
-- its bytes, as the fault says; a seek, a truncation, a creation, a renaming, a removal or a sync
-- that fails has no effect. The state file is written at the position of its handle, over what it
-- holds there. A buffered write that fails in part keeps the rest in the buffer. Reads do not
-- fail on their own.
--
-- Parameters. The network client is any operations over any state; theorems about what is sent
-- rely on SendsInOrder: each message that the client is given is handed over once, in the order
-- of the calls. Network/Outbox is an instance. The storage resource (any operations over any
-- state), the encodings of bincode, the two clocks, and the hash of a node's id are arguments of
-- the definitions. One call reads the clock once; the code reads it up to three times in a call,
-- which differs by less than the milliseconds that the intervals count, unless the process is
-- stopped in between. Persistence/InMemory gives an instance at which the examples run.
--
-- Not modelled: logging, the runners, the serialisers and servers of the network, the host
-- functions, the demonstration client, and the earlier versions in archive, paxos-rust, pocs and
-- wasm-examples.
pub mod Common
pub mod Types
pub mod Network
pub mod Persistence
pub mod Acceptor
pub mod Learner
pub mod Proposer
pub mod KvStore
pub mod LeaderDetector
pub mod FailureDetector
pub mod Storage
pub mod ProposerAgent
pub mod AcceptorAgent
pub mod LearnerAgent
pub mod Coordinator
