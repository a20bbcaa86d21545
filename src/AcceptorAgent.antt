-- ===== src/AcceptorAgent.antt =====
-- `MyAcceptorAgentResource` of paxos-wasm/agents/acceptor-agent/src/acceptor-agent.rs: the dispatch
-- of messages to the acceptor, the replies, and the learns that go to the learners. An error of the
-- storage is logged by the source and otherwise ignored, as here.
pub mod Replies
pub mod Learns
pub mod Events
pub mod Examples
use wasm_master.Common.{
  ℕ, Bool, true, false, Option, none, some, List, [], ◌∷◌, if◌then◌else◌, ◌&&◌, not,
}
use wasm_master.Types.{
  Slot, Ballot, Value, Node, PValue, Promise, Accepted, Learn, PromiseResult, AcceptedResult,
  RunConfig,
}
use wasm_master.Types.Messages.{Prepare, Accept, RetryLearns, MessagePayload, NetworkMessage}
use wasm_master.Persistence.{StorageOps, Clock}
use wasm_master.Network.{NetworkOps, message_from, may_propose, may_learn, with_role}
use wasm_master.Acceptor
use wasm_master.Acceptor.{Acceptor}
use wasm_master.Acceptor.Storage.{Codecs}

pub record AcceptorAgent (S N : Type 0) : Type 0 where
  pub config : RunConfig
  pub node : Node
  pub learners : List Node
  pub proposers : List Node
  pub acceptor : Acceptor S
  pub network : N
  pub all_nodes : List Node

-- The value that stands for a slot without an accepted one.
abbrev pub no_op : Value
no_op = record { command = none; client_id = ""; client_seq = 0 }

abbrev pub value_or_no_op : Option Value → Value
value_or_no_op none = no_op
value_or_no_op (some v) = v

-- `get_accepted(slot).and_then(|p| p.value).unwrap_or_else(…)`
abbrev pub value_to_retry : Option PValue → Value
value_to_retry none = no_op
value_to_retry (some p) = value_or_no_op p.value

module _ {S N : Type 0} (ops : StorageOps S) (net : NetworkOps N) (codecs : Codecs) where
  -- `hash`, `store` and `network` are what the constructors of the resources make; `none` is a panic.
  unfoldable pub new : ℕ → S → N → Node → List Node → RunConfig → Clock → Option (AcceptorAgent S N)
  new hash store network node nodes config clock = elim (Acceptor.new hash store config clock) [
    | none ↦ none
    | some acceptor ↦ some (record {
      config = config;
      node = node;
      learners = with_role may_learn nodes;
      proposers = with_role may_propose nodes;
      acceptor = (Acceptor.load_state ops codecs acceptor).1;
      network = network;
      all_nodes = nodes;
    })
  ]

  abbrev pub send_forget : List Node → MessagePayload → AcceptorAgent S N → AcceptorAgent S N
  send_forget nodes payload a = record a {
    network = net.send_message_forget nodes (message_from a.node payload) a.network;
  }

  -- The learn is answered, and sent to the learners; `none` is a panic.
  unfoldable pub commit_phase :
      Slot → Value → AcceptorAgent S N → Option (Option Learn × AcceptorAgent S N)
  commit_phase slot value a =
      let learn : Learn = record { slot = slot; value = value } in
      if a.config.acceptors_send_learns
      then some (some learn, send_forget a.learners (MessagePayload.learn learn) a)
      else none

  unfoldable pub retry_slots : List Slot → AcceptorAgent S N → AcceptorAgent S N
  retry_slots [] a = a
  retry_slots (slot ∷ slots) a =
      let value = value_to_retry (Acceptor.get_accepted a.acceptor slot) in
      let learn : Learn = record { slot = slot; value = value } in
      retry_slots slots (send_forget a.learners (MessagePayload.learn learn) a)

  abbrev pub retry_learns : RetryLearns → Node → AcceptorAgent S N → AcceptorAgent S N
  retry_learns request sender a = retry_slots request.slots a

  unfoldable pub send_heartbeat : AcceptorAgent S N → AcceptorAgent S N
  send_heartbeat a = send_forget a.all_nodes MessagePayload.heartbeat a

  module _ (clock : Clock) where
    abbrev pub process_prepare :
        Slot → Ballot → AcceptorAgent S N → PromiseResult × AcceptorAgent S N
    process_prepare slot ballot a =
        let (r, acceptor) = Acceptor.prepare ops codecs clock slot ballot a.acceptor in
        (r, record a { acceptor = acceptor })

    abbrev pub process_accept :
        Slot → Ballot → Value → AcceptorAgent S N → AcceptedResult × AcceptorAgent S N
    process_accept slot ballot value a =
        let (r, acceptor) = Acceptor.accept ops codecs clock slot ballot value a.acceptor in
        (r, record a { acceptor = acceptor })

    abbrev pub answer_prepare :
        Node → PromiseResult × AcceptorAgent S N → MessagePayload × AcceptorAgent S N
    answer_prepare sender (PromiseResult.promised promise, a) =
        let reply = MessagePayload.promise promise in
        (reply, if a.config.is_event_driven then send_forget (sender ∷ []) reply a else a)
    answer_prepare sender (PromiseResult.rejected ballot, a) = (MessagePayload.ignore, a)

    abbrev pub announce_accepted : Node → Value → Accepted → AcceptorAgent S N → AcceptorAgent S N
    announce_accepted sender value acc a =
        if a.config.acceptors_send_learns
        then send_forget a.learners
            (MessagePayload.learn (record { slot = acc.slot; value = value })) a
        else send_forget (sender ∷ []) (MessagePayload.accepted acc) a

    abbrev pub answer_accept :
        Node → Value → AcceptedResult × AcceptorAgent S N → MessagePayload × AcceptorAgent S N
    answer_accept sender value (AcceptedResult.accepted acc, a) = (
      MessagePayload.accepted acc,
      if a.config.is_event_driven then announce_accepted sender value acc a else a,
    )
    answer_accept sender value (AcceptedResult.rejected ballot, a) = (MessagePayload.ignore, a)

    abbrev pub handle_payload :
        MessagePayload → Node → AcceptorAgent S N → MessagePayload × AcceptorAgent S N
    handle_payload (MessagePayload.prepare p) sender a =
        answer_prepare sender (process_prepare p.slot p.ballot a)
    handle_payload (MessagePayload.accept p) sender a =
        answer_accept sender p.value (process_accept p.slot p.ballot p.value a)
    handle_payload (MessagePayload.retry_learns request) sender a =
        (MessagePayload.ignore, retry_learns request sender a)
    handle_payload _ sender a = (MessagePayload.ignore, a)

    unfoldable pub handle_message :
        NetworkMessage → AcceptorAgent S N → NetworkMessage × AcceptorAgent S N
    handle_message message a =
        let (reply, a') = handle_payload message.payload message.sender a in
        (message_from a.node reply, a')

    unfoldable pub maybe_flush_state : AcceptorAgent S N → AcceptorAgent S N
    maybe_flush_state a = record a {
      acceptor = (Acceptor.maybe_flush ops codecs clock a.acceptor).1;
    }

    abbrev pub handle_tick : AcceptorAgent S N → AcceptorAgent S N
    handle_tick a = maybe_flush_state a
