-- ===== src/ProposerAgent.antt =====
-- `MyProposerAgentResource` of paxos-wasm/agents/proposer-agent/src/proposer-agent.rs: the phase of
-- the proposer, the responses of the acceptors that it collects, and the answers to the clients.
-- Broadcast and Handlers model its messages, its ticks and its start.
pub mod Broadcast
pub mod Handlers
pub mod Sends
pub mod Ticks
pub mod Phases
pub mod Collection
pub mod Answers
pub mod Batches
pub mod Learns
pub mod Examples
use wasm_master.Common.{
  ℕ, zero, suc, ◌+◌, ◌-◌, ◌/◌, Bool, true, false, not, Option, none, some, List, [], ◌∷◌, ltb, leb,
  if◌then◌else◌, length, has, is_some, last,
}
use wasm_master.Common.KeyMap
use wasm_master.Common.KeyMap.{KeyMap}
use wasm_master.Types.{
  Slot, Ballot, Value, Node, PaxosPhase, Promise, Proposal, Accepted, Learn, PrepareResult,
  AcceptResult, ClientResponse, CmdResult, ExecuteResult, Executed, RunConfig,
}
use wasm_master.Types.PaxosPhase.{start, prepare_send, prepare_pending, accept_commit, stop, crash}
use wasm_master.Persistence.{StorageOps, Codec, Clock}
use wasm_master.Proposer
use wasm_master.Proposer.{
  Proposer, create_proposal, reserve_next_chosen_proposal, mark_proposal_chosen,
  mark_proposal_finalized, enqueue_prioritized_request, process_prepare, process_accept,
}
use wasm_master.Proposer.Storage.{CurrentState}

pub record ProposerAgent (S N : Type 0) : Type 0 where
  pub config : RunConfig
  pub phase : PaxosPhase
  pub node : Node
  pub proposer : Proposer S
  pub num_acceptors : ℕ
  pub acceptors : List Node
  pub learners : List Node
  pub all_nodes : List Node
  pub network : N
  pub promises : KeyMap (KeyMap Promise)
  pub in_flight_accepted : KeyMap (KeyMap Accepted)
  pub client_responses : KeyMap ClientResponse
  pub last_prepare_start : Option ℕ
  pub last_get_adu_start : ℕ
  pub has_received_adu : Bool
  pub slot_crash_list : List Slot

abbrev pub or_empty : {V : Type 0} → Option (KeyMap V) → KeyMap V
or_empty none = []
or_empty (some m) = m

abbrev pub next_phase : Option Bool → PaxosPhase → PaxosPhase
next_phase prepare_success start = prepare_send
next_phase prepare_success prepare_send = prepare_pending
next_phase (some true) prepare_pending = accept_commit
next_phase (some false) prepare_pending = prepare_send
next_phase none prepare_pending = prepare_send
next_phase prepare_success accept_commit = accept_commit
next_phase prepare_success stop = stop
next_phase prepare_success crash = crash

-- The responses of one group, if there are enough of them.
abbrev pub if_quorum : {V : Type 0} → ℕ → Option (ℕ × KeyMap V) → Option (ℕ × List V)
if_quorum quorum none = none
if_quorum quorum (some (k, group)) =
    if leb quorum (length group) then some (k, KeyMap.values group) else none

-- `entry(k).or_insert_with(HashMap::new).insert(sender, response)`
abbrev pub insert_response : {V : Type 0} → ℕ → ℕ → V → KeyMap (KeyMap V) → KeyMap (KeyMap V)
insert_response k sender response m =
    KeyMap.insert k (KeyMap.insert sender response (or_empty (KeyMap.get k m))) m

abbrev pub with_key : {V : Type 0} → ℕ → Option V → Option (ℕ × V)
with_key k none = none
with_key k (some v) = some (k, v)

-- `pop_first`, at most `n` times
unfoldable pub pop_up_to : ℕ → KeyMap ClientResponse → List ClientResponse × KeyMap ClientResponse
pop_up_to zero queue = ([], queue)
pop_up_to (suc n) [] = ([], [])
pop_up_to (suc n) ((slot, resp) ∷ queue) = let (out, rest) = pop_up_to n queue in (resp ∷ out, rest)

-- A proposal in front of those of the rest of the batch.
abbrev pub prepend :
    {A : Type 0} → Proposal → Option (List Proposal × A) → Option (List Proposal × A)
prepend prop none = none
prepend prop (some (props, a)) = some (prop ∷ props, a)

-- A slot that was a no-op although a command was proposed for it is queued again.
abbrev pub requeue : {S : Type 0} → CmdResult → Value → Proposer S → Proposer S
requeue CmdResult.no_op value p =
    if is_some value.command then enqueue_prioritized_request value p else p
requeue (CmdResult.cmd_value r) value p = p

module _ {S N : Type 0} where
  abbrev pub get_quorum_acceptors : ProposerAgent S N → ℕ
  get_quorum_acceptors a = a.num_acceptors / 2 + 1

  -- The test whether the phase changes decides on a log line only.
  abbrev pub set_phase : PaxosPhase → ProposerAgent S N → ProposerAgent S N
  set_phase new_phase a = record a { phase = new_phase }

  unfoldable pub advance_phase : Option Bool → ProposerAgent S N → ProposerAgent S N
  advance_phase prepare_success a = set_phase (next_phase prepare_success a.phase) a

  unfoldable pub start_prepare_round : Clock → ProposerAgent S N → ProposerAgent S N
  start_prepare_round clock a =
      advance_phase none (record a { last_prepare_start = some clock.now })

  unfoldable pub insert_and_check_promises :
      Promise → Node → ProposerAgent S N → Option (Ballot × List Promise) × ProposerAgent S N
  insert_and_check_promises promise sender a =
      let m = insert_response promise.ballot sender.node_id promise a.promises in
      (if_quorum (get_quorum_acceptors a) (last m), record a { promises = m })

  unfoldable pub insert_and_check_accepted :
      Accepted → Node → ProposerAgent S N → Option (Slot × List Accepted) × ProposerAgent S N
  insert_and_check_accepted accepted sender a =
      let m = insert_response accepted.slot sender.node_id accepted a.in_flight_accepted in
      (
        if_quorum (get_quorum_acceptors a) (with_key accepted.slot (KeyMap.get accepted.slot m)),
        record a { in_flight_accepted = m },
      )

  -- A failure and the event-driven case are logged only.
  abbrev pub handle_prepare_result : PrepareResult → ProposerAgent S N → ProposerAgent S N
  handle_prepare_result PrepareResult.success a = advance_phase (some true) a
  handle_prepare_result PrepareResult.quorum_failure a = a
  handle_prepare_result PrepareResult.is_event_driven a = a

  abbrev pub handle_accept_result : Slot → AcceptResult → ProposerAgent S N → ProposerAgent S N
  handle_accept_result slot (AcceptResult.accepted n) a = record a {
    proposer = (mark_proposal_chosen slot a.proposer).1;
  }
  handle_accept_result slot AcceptResult.quorum_failure a = a
  handle_accept_result slot AcceptResult.missing_proposal a = a
  handle_accept_result slot AcceptResult.is_event_driven a = a

  abbrev pub process_promises :
      Slot → List Promise → ProposerAgent S N → PrepareResult × ProposerAgent S N
  process_promises slot promises a =
      let (r, p) = process_prepare slot promises a.proposer in (r, record a { proposer = p })

  abbrev pub promises_checked :
      Slot → Option (Ballot × List Promise) × ProposerAgent S N → ProposerAgent S N
  promises_checked slot (none, a) = a
  promises_checked slot (some (ballot, promises), a) =
      let (r, a') = process_promises slot promises a in handle_prepare_result r a'

  -- The branches of `handle_message` for a promise and for an accepted response.
  unfoldable pub handle_promise : Promise → Node → ProposerAgent S N → ProposerAgent S N
  handle_promise promise sender a =
      promises_checked promise.slot (insert_and_check_promises promise sender a)

  abbrev pub accepted_checked :
      Option (Slot × List Accepted) × ProposerAgent S N → ProposerAgent S N
  accepted_checked (none, a) = a
  accepted_checked (some (slot, accepts), a) =
      handle_accept_result slot (process_accept slot accepts a.proposer) a

  unfoldable pub handle_accepted : Accepted → Node → ProposerAgent S N → ProposerAgent S N
  handle_accepted accepted sender a = accepted_checked (insert_and_check_accepted accepted sender a)

  -- The timeout of a prepare that is pending.
  abbrev pub timeout_from :
      PaxosPhase → Option ℕ → Clock → ProposerAgent S N → Bool × ProposerAgent S N
  timeout_from prepare_pending (some started) clock a =
      if leb a.config.prepare_timeout (clock.now - started)
      then (true, record (advance_phase (some false) a) { last_prepare_start = none })
      else (false, a)
  timeout_from _ _ clock a = (false, a)

  unfoldable pub check_prepare_timeout : Clock → ProposerAgent S N → Bool × ProposerAgent S N
  check_prepare_timeout clock a = timeout_from a.phase a.last_prepare_start clock a

  -- The loop of `proposals_to_accept`; `none` is the panic at a slot of the crash list.
  unfoldable pub proposals_up_to :
      ℕ → ProposerAgent S N → Option (List Proposal × ProposerAgent S N)
  proposals_up_to zero a = some ([], a)
  proposals_up_to (suc n) a =
      let (r, p) = create_proposal a.proposer in
      let a' : ProposerAgent S N = record a { proposer = p } in
      let rest = proposals_up_to n a' in
      elim r [
        | none ↦ some ([], a')
        | some prop ↦ if has prop.slot a.slot_crash_list then none else prepend prop rest
      ]

  abbrev pub proposals_to_accept : ProposerAgent S N → Option (List Proposal × ProposerAgent S N)
  proposals_to_accept a = proposals_up_to a.config.batch_size a

  unfoldable pub learns_up_to : ℕ → ProposerAgent S N → List Learn × ProposerAgent S N
  learns_up_to zero a = ([], a)
  learns_up_to (suc n) a =
      let (r, p) = reserve_next_chosen_proposal a.proposer in
      let a' : ProposerAgent S N = record a { proposer = p } in
      let (learns, a'') = learns_up_to n a' in
      elim r [
        | none ↦ ([], a')
        | some prop ↦ (record { slot = prop.slot; value = prop.value } ∷ learns, a'')
      ]

  abbrev pub learns_to_commit : ProposerAgent S N → List Learn × ProposerAgent S N
  learns_to_commit a = learns_up_to a.config.batch_size a

  unfoldable pub collect_client_responses :
      ProposerAgent S N → List ClientResponse × ProposerAgent S N
  collect_client_responses a =
      let (out, rest) = pop_up_to a.config.batch_size a.client_responses in
      (out, record a { client_responses = rest })

  abbrev pub answer :
      ExecuteResult → Option Value × Proposer S → ProposerAgent S N → ProposerAgent S N
  answer result (none, p) a = record a { proposer = p }
  answer result (some value, p) a = record a {
    client_responses =
        KeyMap.insert result.slot
          (record {
            client_id = value.client_id;
            client_seq = value.client_seq;
            success = result.success;
            command_result = result.cmd_result;
          })
          a.client_responses;
    proposer = requeue result.cmd_result value p;
  }

  unfoldable pub process_results : List ExecuteResult → ProposerAgent S N → ProposerAgent S N
  process_results [] a = a
  process_results (result ∷ results) a =
      process_results results (answer result (mark_proposal_finalized result.slot a.proposer) a)

module _ {S : Type 0} (ops : StorageOps S) (codec : Codec CurrentState) (clock : Clock) where
  abbrev pub raise_adu : Slot → Proposer S → Option (Proposer S)
  raise_adu adu p = if ltb p.adu adu then Proposer.set_adu ops codec clock adu p else some p

module _ {S N : Type 0} (ops : StorageOps S) (codec : Codec CurrentState) (clock : Clock) where
  unfoldable pub process_executed : Executed → ProposerAgent S N → Option (ProposerAgent S N)
  process_executed executed a = elim (raise_adu ops codec clock executed.adu a.proposer) [
    | none ↦ none
    | some p ↦
        let a' : ProposerAgent S N = record a { proposer = p } in
        if not p.is_leader then some a' else some (process_results executed.results a')
  ]
