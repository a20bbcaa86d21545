-- ===== src/ProposerAgent/Broadcast.antt =====
-- The messages that `MyProposerAgentResource` of
-- paxos-wasm/agents/proposer-agent/src/proposer-agent.rs sends, and what it does with the responses
-- that come back at once where it is not event-driven.
use wasm_master.Common.{◌-◌, not, Option, none, some, List, [], ◌∷◌, ◌++◌, ltb, if◌then◌else◌}
use wasm_master.Types.{
  Slot, Ballot, Value, Node, Promise, Proposal, Accepted, Learn, PrepareResult, AcceptResult,
  ClientResponse,
}
use wasm_master.Types.ProposalStatus.{in_flight, commit_pending}
use wasm_master.Types.Messages.{RetryLearns, MessagePayload, NetworkMessage}
use wasm_master.Persistence.{Clock}
use wasm_master.Network.{NetworkOps, message_from}
use wasm_master.Proposer.{process_accept, get_proposal_by_status}
use wasm_master.ProposerAgent.{
  ProposerAgent, start_prepare_round, insert_and_check_promises, insert_and_check_accepted,
  handle_prepare_result, handle_accept_result, process_promises, proposals_to_accept,
  learns_to_commit, collect_client_responses,
}

pub data CollectedResponses (T R : Type 0) : Type 0 where
  synchronous : List T → CollectedResponses T R
  event_driven : R → CollectedResponses T R

-- The payloads of the expected variant; the others are logged only.
unfoldable pub promises_in : List NetworkMessage → List Promise
promises_in [] = []
promises_in (m ∷ ms) = elim m.payload [
  | MessagePayload.promise p ↦ p ∷ promises_in ms
  | _ ↦ promises_in ms
]

unfoldable pub accepted_in : List NetworkMessage → List Accepted
accepted_in [] = []
accepted_in (m ∷ ms) = elim m.payload [
  | MessagePayload.accepted acc ↦ acc ∷ accepted_in ms
  | _ ↦ accepted_in ms
]

abbrev pub some_responses : List ClientResponse → Option (List ClientResponse)
some_responses [] = none
some_responses (r ∷ rs) = some (r ∷ rs)

module _ {S N : Type 0} where
  -- Each initial promise is inserted as the node's own; whether it makes a quorum is not looked at.
  unfoldable pub insert_promises : List Promise → ProposerAgent S N → ProposerAgent S N
  insert_promises [] a = a
  insert_promises (p ∷ ps) a = insert_promises ps (insert_and_check_promises p a.node a).1

  unfoldable pub insert_accepts : List Accepted → ProposerAgent S N → ProposerAgent S N
  insert_accepts [] a = a
  insert_accepts (acc ∷ accs) a = insert_accepts accs (insert_and_check_accepted acc a.node a).1

module _ {S N : Type 0} (net : NetworkOps N) where
  abbrev pub send_forget : List Node → MessagePayload → ProposerAgent S N → ProposerAgent S N
  send_forget nodes payload a = record a {
    network = net.send_message_forget nodes (message_from a.node payload) a.network;
  }

  abbrev pub send :
      List Node → MessagePayload → ProposerAgent S N → List NetworkMessage × ProposerAgent S N
  send nodes payload a =
      let (responses, network) = net.send_message nodes (message_from a.node payload) a.network in
      (responses, record a { network = network })

  unfoldable pub send_heartbeat : ProposerAgent S N → ProposerAgent S N
  send_heartbeat a = send_forget a.all_nodes MessagePayload.heartbeat a

  unfoldable pub broadcast_learn : Learn → ProposerAgent S N → ProposerAgent S N
  broadcast_learn learn a = send_forget a.learners (MessagePayload.learn learn) a

  unfoldable pub broadcast_learns : List Learn → ProposerAgent S N → ProposerAgent S N
  broadcast_learns [] a = a
  broadcast_learns (l ∷ ls) a = broadcast_learns ls (broadcast_learn l a)

  -- Not before the timeout has passed since it was asked for last.
  unfoldable pub get_learner_adu : Clock → ProposerAgent S N → ProposerAgent S N
  get_learner_adu clock a =
      if ltb (clock.now - a.last_get_adu_start) a.config.prepare_timeout
      then a
      else record (send_forget a.learners (MessagePayload.adu 0) a) {
        last_get_adu_start = clock.now;
      }

  unfoldable pub broadcast_prepare :
      Slot
      → Ballot
      → ProposerAgent S N
      → CollectedResponses Promise PrepareResult × ProposerAgent S N
  broadcast_prepare slot ballot a =
      let payload = MessagePayload.prepare (record { slot = slot; ballot = ballot }) in
      if not a.config.is_event_driven
      then (let (responses, a') = send a.acceptors payload a in
          (CollectedResponses.synchronous (promises_in responses), a'))
      else (
        CollectedResponses.event_driven PrepareResult.is_event_driven,
        send_forget a.acceptors payload a,
      )

  unfoldable pub broadcast_accept :
      Value
      → Slot
      → Ballot
      → ProposerAgent S N
      → CollectedResponses Accepted AcceptResult × ProposerAgent S N
  broadcast_accept value slot ballot a =
      let payload =
        MessagePayload.accept (record { slot = slot; ballot = ballot; value = value }) in
      if not a.config.is_event_driven
      then (let (responses, a') = send a.acceptors payload a in
          (CollectedResponses.synchronous (accepted_in responses), a'))
      else (
        CollectedResponses.event_driven AcceptResult.is_event_driven,
        send_forget a.acceptors payload a,
      )

  abbrev pub prepare_collected :
      Clock
      → Slot
      → List Promise
      → CollectedResponses Promise PrepareResult × ProposerAgent S N
      → PrepareResult × ProposerAgent S N
  prepare_collected clock slot initial (CollectedResponses.event_driven result, a) =
      (result, insert_promises initial (start_prepare_round clock a))
  prepare_collected clock slot initial (CollectedResponses.synchronous responses, a) =
      let (result, a') = process_promises slot (responses ++ initial) a in
      (result, handle_prepare_result result a')

  unfoldable pub prepare_phase :
      Clock → Slot → Ballot → List Promise → ProposerAgent S N → PrepareResult × ProposerAgent S N
  prepare_phase clock slot ballot initial a =
      prepare_collected clock slot initial (broadcast_prepare slot ballot a)

  abbrev pub accept_collected :
      Slot
      → List Accepted
      → CollectedResponses Accepted AcceptResult × ProposerAgent S N
      → AcceptResult × ProposerAgent S N
  accept_collected slot initial (CollectedResponses.event_driven result, a) =
      (result, insert_accepts initial a)
  accept_collected slot initial (CollectedResponses.synchronous responses, a) =
      let result = process_accept slot (responses ++ initial) a.proposer in
      (result, handle_accept_result slot result a)

  unfoldable pub accept_phase :
      Value → Slot → Ballot → List Accepted → ProposerAgent S N → AcceptResult × ProposerAgent S N
  accept_phase value slot ballot initial a =
      accept_collected slot initial (broadcast_accept value slot ballot a)

  -- A slot whose learn was sent gets the learn again, a slot in flight the accept, any other nothing.
  abbrev pub retry_accept : Option Proposal → ProposerAgent S N → ProposerAgent S N
  retry_accept none a = a
  retry_accept (some p) a = (accept_phase p.value p.slot p.ballot [] a).1

  abbrev pub retry_learn : Slot → Option Proposal → ProposerAgent S N → ProposerAgent S N
  retry_learn slot (some p) a = broadcast_learn (record { slot = slot; value = p.value }) a
  retry_learn slot none a = retry_accept (get_proposal_by_status slot in_flight a.proposer) a

  unfoldable pub retry_slots : List Slot → ProposerAgent S N → ProposerAgent S N
  retry_slots [] a = a
  retry_slots (slot ∷ slots) a =
      retry_slots slots (retry_learn slot (get_proposal_by_status slot commit_pending a.proposer) a)

  abbrev pub retry_learns : RetryLearns → ProposerAgent S N → ProposerAgent S N
  retry_learns request a = retry_slots request.slots a

  -- `none` is the panic at an accept that is not event-driven.
  abbrev pub go_on : AcceptResult × ProposerAgent S N → Option (ProposerAgent S N)
  go_on (AcceptResult.is_event_driven, a) = some a
  go_on (_, a) = none

  unfoldable pub accept_all : List Proposal → ProposerAgent S N → Option (ProposerAgent S N)
  accept_all [] a = some a
  accept_all (p ∷ ps) a =
      let rest = accept_all ps in
      elim (go_on (accept_phase p.value p.slot p.ballot [] a)) [ none ↦ none | some b ↦ rest b ]

  abbrev pub send_learns : ProposerAgent S N → ProposerAgent S N
  send_learns a =
      if not a.config.acceptors_send_learns
      then (let (learns, a') = learns_to_commit a in broadcast_learns learns a')
      else a

  abbrev pub answer_clients : ProposerAgent S N → Option (List ClientResponse) × ProposerAgent S N
  answer_clients a = let (out, a') = collect_client_responses a in (some_responses out, a')

  abbrev pub commit_accepted :
      Option (ProposerAgent S N) → Option (Option (List ClientResponse) × ProposerAgent S N)
  commit_accepted none = none
  commit_accepted (some a) = some (answer_clients (send_learns a))

  unfoldable pub accept_commit :
      ProposerAgent S N → Option (Option (List ClientResponse) × ProposerAgent S N)
  accept_commit a = elim (proposals_to_accept a) [
    | none ↦ none
    | some (ps, a') ↦ commit_accepted (accept_all ps a')
  ]
