-- ===== src/ProposerAgent/Handlers.antt =====
-- The start, the messages and the ticks of `MyProposerAgentResource` in
-- paxos-wasm/agents/proposer-agent/src/proposer-agent.rs.
use wasm_master.Common.{
  ℕ, Bool, true, false, not, Option, none, some, List, [], ◌∷◌, ◌==◌, ◌+◌, if◌then◌else◌, add_u64,
  as_usize, length,
}
use wasm_master.Types.{Slot, Value, Node, PaxosPhase, PrepareResult, ClientResponse, RunConfig}
use wasm_master.Types.PaxosPhase.{start, prepare_send, prepare_pending, accept_commit, stop, crash}
use wasm_master.Types.Messages.{MessagePayload, NetworkMessage}
use wasm_master.Persistence.{StorageOps, Codec, Clock}
use wasm_master.Network.{NetworkOps, message_from, may_accept, may_learn, is_coordinator, with_role}
use wasm_master.Proposer
use wasm_master.Proposer.{Proposer}
use wasm_master.Proposer.Storage.{CurrentState}
use wasm_master.ProposerAgent.{
  ProposerAgent, set_phase, handle_promise, handle_accepted, check_prepare_timeout,
  process_executed,
}
use wasm_master.ProposerAgent.Broadcast.{prepare_phase, retry_learns, get_learner_adu}
use wasm_master.ProposerAgent.Broadcast

-- The slots at which this node is to crash: the rest of the first list that starts with its id.
-- `none` is the panic at an empty list.
unfoldable pub crash_slots : ℕ → List (List ℕ) → Option (List Slot)
crash_slots node_id [] = some []
crash_slots node_id ([] ∷ lists) = none
crash_slots node_id ((id ∷ slots) ∷ lists) =
    let rest = crash_slots node_id lists in if id == node_id then some slots else rest

-- `self_is_coordinator as u64` is added although the list holds the node itself, if it is there.
abbrev pub num_acceptors_of : Node → List Node → ℕ
num_acceptors_of node nodes =
    length (with_role may_accept nodes) + (if is_coordinator node.role then 1 else 0)

module _ {S N : Type 0} (ops : StorageOps S) (net : NetworkOps N) (codec : Codec CurrentState) where
  -- `store` and `network` are what the constructors of the resources make.
  unfoldable pub new :
      S → N → Node → List Node → Bool → RunConfig → Clock → Option (ProposerAgent S N)
  new store network node nodes is_leader config clock =
      let n = num_acceptors_of node nodes in
      let proposer = Proposer.new is_leader n node.node_id store config clock in
      elim (crash_slots node.node_id config.crashes) [
        | none ↦ none
        | some slots ↦ some (record {
          config = config;
          phase = start;
          node = node;
          proposer = (Proposer.load_state ops codec proposer).1;
          num_acceptors = as_usize n;
          acceptors = with_role may_accept nodes;
          learners = with_role may_learn nodes;
          all_nodes = nodes;
          network = network;
          promises = [];
          in_flight_accepted = [];
          client_responses = [];
          last_prepare_start = none;
          last_get_adu_start = clock.now;
          has_received_adu = false;
          slot_crash_list = slots;
        })
      ]

module _ {S N : Type 0} where
  abbrev pub is_leader : ProposerAgent S N → Bool
  is_leader a = Proposer.is_leader a.proposer

  abbrev pub submit_client_request : Value → ProposerAgent S N → Bool × ProposerAgent S N
  submit_client_request req a =
      let (r, p) = Proposer.enqueue_client_request req a.proposer in (r, record a { proposer = p })

  unfoldable pub resign_leader : ProposerAgent S N → Bool × ProposerAgent S N
  resign_leader a = let (r, p) = Proposer.resign_leader a.proposer in (r, record a { proposer = p })

  abbrev pub start_leader_loop : ProposerAgent S N → ProposerAgent S N
  start_leader_loop a = set_phase prepare_send a

module _ {S N : Type 0} (ops : StorageOps S) (net : NetworkOps N) (codec : Codec CurrentState)
    (clock : Clock) where
  -- The phase stays as it is.
  unfoldable pub become_leader : ProposerAgent S N → Option (Bool × ProposerAgent S N)
  become_leader a = elim (Proposer.become_leader ops codec clock a.proposer) [
    | none ↦ none
    | some (r, p) ↦ some (r, record a { proposer = p })
  ]

  abbrev pub with_proposer : Option (Proposer S) → ProposerAgent S N → Option (ProposerAgent S N)
  with_proposer none a = none
  with_proposer (some p) a = some (record a { proposer = p })

  abbrev pub received_adu : Option (ProposerAgent S N) → Option (ProposerAgent S N)
  received_adu none = none
  received_adu (some a) = some (record a { has_received_adu = true })

  -- Every message is answered with the ignore message; `none` is a panic.
  unfoldable pub handle_payload :
      MessagePayload → Node → ProposerAgent S N → Option (ProposerAgent S N)
  handle_payload (MessagePayload.promise p) sender a = some (handle_promise p sender a)
  handle_payload (MessagePayload.accepted acc) sender a = some (handle_accepted acc sender a)
  handle_payload (MessagePayload.retry_learns request) sender a =
      some (if not (is_leader a) then a else retry_learns net request a)
  handle_payload (MessagePayload.executed ex) sender a = process_executed ops codec clock ex a
  handle_payload (MessagePayload.adu adu) sender a =
      received_adu (with_proposer (Proposer.set_adu ops codec clock adu a.proposer) a)
  handle_payload _ sender a = some a

  unfoldable pub handle_message :
      NetworkMessage → ProposerAgent S N → Option (NetworkMessage × ProposerAgent S N)
  handle_message message a = elim (handle_payload message.payload message.sender a) [
    | none ↦ none
    | some a' ↦ some (message_from a.node MessagePayload.ignore, a')
  ]

  abbrev pub Ticked : Type 0
  Ticked = Option (Option (List ClientResponse) × ProposerAgent S N)

  abbrev pub tick_start : ProposerAgent S N → ProposerAgent S N
  tick_start a =
      if is_leader a
      then if not a.has_received_adu then get_learner_adu net clock a else start_leader_loop a
      else a

  -- `none` is the panic at a prepare that is not event-driven.
  abbrev pub sent_prepare : PrepareResult × ProposerAgent S N → Ticked
  sent_prepare (PrepareResult.is_event_driven, a) = some (none, a)
  sent_prepare (_, a) = none

  abbrev pub tick_prepare : Option (ProposerAgent S N) → Ticked
  tick_prepare none = none
  tick_prepare (some a) =
      let p = a.proposer in
      sent_prepare (prepare_phase net clock (add_u64 p.adu 1) p.current_ballot [] a)

  abbrev pub tick_in : PaxosPhase → ProposerAgent S N → Ticked
  tick_in start a = some (none, tick_start a)
  tick_in prepare_send a =
      tick_prepare (with_proposer (Proposer.increase_ballot ops codec clock a.proposer) a)
  tick_in prepare_pending a = some (none, (check_prepare_timeout clock a).1)
  tick_in accept_commit a = Broadcast.accept_commit net a
  tick_in stop a = some (none, a)
  tick_in crash a = some (none, a)

  unfoldable pub handle_tick : ProposerAgent S N → Ticked
  handle_tick a = tick_in a.phase a

  -- An error is logged only.
  unfoldable pub maybe_flush_state : ProposerAgent S N → ProposerAgent S N
  maybe_flush_state a = record a { proposer = (Proposer.maybe_flush ops codec clock a.proposer).1 }
