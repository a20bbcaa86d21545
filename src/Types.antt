-- ===== src/Types.antt =====
-- The data types that the components exchange: paxos-wasm/shared/wit/types.wit. The bindings that
-- the build generates from that file turn its records into structs and its variants into enums; a
-- u64 is a native number, and `Eq` on values is the Boolean test `value_eq` with its law.
pub mod Equality
pub mod Samples
pub mod Messages
use wasm_master.Common.{ℕ, String, Bool, Option, List}

pub record KvPair : Type 0 where
  pub key : String
  pub value : String

pub data Operation : Type 0 where
  get : String → Operation
  set : KvPair → Operation
  remove : String → Operation
  clear : Operation
  demo : Operation

abbrev pub Cmd : Type 0
Cmd = Option Operation

pub data CmdResult : Type 0 where
  no_op : CmdResult
  cmd_value : Option String → CmdResult

pub record Value : Type 0 where
  pub command : Cmd
  pub client_id : String
  pub client_seq : ℕ

abbrev pub Slot : Type 0
Slot = ℕ

abbrev pub Ballot : Type 0
Ballot = ℕ

pub data PaxosRole : Type 0 where
  coordinator proposer acceptor learner client : PaxosRole

pub data PaxosPhase : Type 0 where
  start prepare_send prepare_pending accept_commit stop crash : PaxosPhase

pub record Node : Type 0 where
  pub node_id : ℕ
  pub address : String
  pub role : PaxosRole

-- The fields of `run-config` that the components read.
pub record RunConfig : Type 0 where
  pub is_event_driven : Bool
  pub acceptors_send_learns : Bool
  pub learners_send_executed : Bool
  pub prepare_timeout : ℕ
  pub batch_size : ℕ
  pub exec_interval_ms : ℕ
  pub retry_interval_ms : ℕ
  pub learn_max_gap : ℕ
  pub message_batch_size : ℕ
  pub persistent_storage : Bool
  pub crashes : List (List ℕ)
  pub storage_load_snapshots : ℕ
  pub storage_max_snapshots : ℕ
  pub storage_flush_state_count : ℕ
  pub storage_flush_state_interval_ms : ℕ
  pub storage_flush_change_count : ℕ
  pub storage_flush_change_interval_ms : ℕ
  pub storage_snapshot_slot_interval : ℕ

pub record ClientResponse : Type 0 where
  pub client_id : String
  pub client_seq : ℕ
  pub success : Bool
  pub command_result : CmdResult

pub record PValue : Type 0 where
  pub slot : Slot
  pub ballot : Ballot
  pub value : Option Value

pub record Proposal : Type 0 where
  pub slot : Slot
  pub ballot : Ballot
  pub value : Value

pub record Promise : Type 0 where
  pub slot : Slot
  pub ballot : Ballot
  pub accepted : List PValue

pub record Accepted : Type 0 where
  pub slot : Slot
  pub ballot : Ballot
  pub success : Bool

pub record Learn : Type 0 where
  pub slot : Slot
  pub value : Value

pub record LearnedEntry : Type 0 where
  pub slot : Slot
  pub value : Value

pub data PromiseResult : Type 0 where
  promised : Promise → PromiseResult
  rejected : Ballot → PromiseResult

pub data AcceptedResult : Type 0 where
  accepted : Accepted → AcceptedResult
  rejected : Ballot → AcceptedResult

pub data LearnResult : Type 0 where
  execute : List LearnedEntry → LearnResult
  ignore : LearnResult

pub data PrepareResult : Type 0 where
  success quorum_failure is_event_driven : PrepareResult

pub data AcceptResult : Type 0 where
  accepted : ℕ → AcceptResult
  missing_proposal quorum_failure is_event_driven : AcceptResult

pub data ProposalStatus : Type 0 where
  in_flight chosen commit_pending finalized : ProposalStatus

pub record ProposalEntry : Type 0 where
  pub proposal : Proposal
  pub status : ProposalStatus

pub record ExecuteResult : Type 0 where
  pub value : Value
  pub slot : Slot
  pub success : Bool
  pub cmd_result : CmdResult

pub record Executed : Type 0 where
  pub results : List ExecuteResult
  pub adu : Slot
