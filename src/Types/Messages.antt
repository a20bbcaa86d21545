-- ===== src/Types/Messages.antt =====
-- The messages of `network-types` in paxos-wasm/shared/wit/types.wit, and the requests of its
-- `paxos-types` that only they carry.
use wasm_master.Common.{ℕ, String, List}
use wasm_master.Types.{
  Slot, Ballot, Value, Node, ClientResponse, Promise, Accepted, Learn, Executed,
}

pub record Prepare : Type 0 where
  pub slot : Slot
  pub ballot : Ballot

pub record Accept : Type 0 where
  pub slot : Slot
  pub ballot : Ballot
  pub value : Value

pub record RetryLearns : Type 0 where
  pub slots : List Slot

pub record Benchmark : Type 0 where
  pub send_timestamp : ℕ
  pub payload : String

pub data MessagePayload : Type 0 where
  ignore : MessagePayload
  client_request : Value → MessagePayload
  client_response : ClientResponse → MessagePayload
  prepare : Prepare → MessagePayload
  promise : Promise → MessagePayload
  accept : Accept → MessagePayload
  accepted : Accepted → MessagePayload
  learn : Learn → MessagePayload
  heartbeat : MessagePayload
  executed : Executed → MessagePayload
  retry_learns : RetryLearns → MessagePayload
  benchmark : Benchmark → MessagePayload
  adu : Slot → MessagePayload

pub record NetworkMessage : Type 0 where
  pub sender : Node
  pub payload : MessagePayload

pub data RetryLearnResult : Type 0 where
  no_gap : RetryLearnResult
  skip : Slot → RetryLearnResult
  retry : List Slot → RetryLearnResult
