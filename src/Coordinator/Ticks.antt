-- ===== src/Coordinator/Ticks.antt =====
-- The ticks of a node with all three agents in
-- paxos-wasm/runners/paxos-coordinator/src/coordinator.rs: the two phases with the local acceptor and
-- learner, and what comes before them. Agents of other roles tick on their own.
use wasm_master.Common.{Bool, false, not, Option, none, some, List, [], ◌∷◌, ◌&&◌, if◌then◌else◌}
use mathlib.Core.Option
use wasm_master.Types.{Slot, Node, RunConfig}
use wasm_master.Persistence.{StorageOps, Clock}
use wasm_master.Network.{NetworkOps}
use wasm_master.ProposerAgent.{ProposerAgent}
use wasm_master.ProposerAgent.Broadcast
use wasm_master.ProposerAgent.Handlers
use wasm_master.AcceptorAgent
use wasm_master.AcceptorAgent.{AcceptorAgent}
use wasm_master.LearnerAgent
use wasm_master.LearnerAgent.{LearnerAgent}
use wasm_master.Types.{
  Proposal, Learn, PrepareResult, AcceptResult, PromiseResult, AcceptedResult, ClientResponse,
  Ballot, PaxosPhase, Executed,
}
use wasm_master.Types.PaxosPhase.{start, prepare_send, prepare_pending, accept_commit, stop, crash}
use wasm_master.Types.Messages.{RetryLearnResult}
use wasm_master.Common.{add_u64}
use wasm_master.ProposerAgent
use wasm_master.Coordinator.{Combined, Agents, Coordinator, Encodings}

module _ {S N : Type 0} (ops : StorageOps S) (net : NetworkOps N) (enc : Encodings)
    (clock : Clock) where
  abbrev pub retried : Bool → Node → RetryLearnResult → Combined S N → Combined S N
  retried send_learns node RetryLearnResult.no_gap c = c
  retried send_learns node (RetryLearnResult.skip slot) c = c
  retried send_learns node (RetryLearnResult.retry slots) c =
      if send_learns
      then record c {
        acceptor =
            AcceptorAgent.retry_learns ops net enc.acceptor_codecs (record { slots = slots }) node
              c.acceptor;
      }
      else record c { proposer = Broadcast.retry_learns net (record { slots = slots }) c.proposer }

  -- The proposer is not asked whether it leads.
  unfoldable pub maybe_retry_learn : Bool → Node → Combined S N → Combined S N
  maybe_retry_learn send_learns node c =
      let (r, l) = LearnerAgent.evaluate_retry clock c.learner in
      retried send_learns node r (record c { learner = l })

  -- The results are taken out of the buffer also where the node does not lead.
  abbrev pub report_to : Executed × LearnerAgent S N → Combined S N → Option (Combined S N)
  report_to (exec, l) c =
      let reported =
        Option.map (λ p. record c { learner = l; proposer = p })
          (ProposerAgent.process_executed ops enc.proposer_codec clock exec c.proposer) in
      if Handlers.is_leader c.proposer && not (LearnerAgent.is_empty exec.results)
      then reported
      else some (record c { learner = l })

  -- `none` is a panic.
  unfoldable pub drive_learner : Combined S N → Option (Combined S N)
  drive_learner c =
      elim (LearnerAgent.execute_chosen_learns ops net enc.learner_codecs clock c.learner) [
        | none ↦ none
        | some l ↦ report_to (LearnerAgent.collect_executed none false l) c
      ]

  unfoldable pub maybe_flush_states : Bool → Combined S N → Combined S N
  maybe_flush_states persistent c =
      if persistent
      then record {
        proposer = Handlers.maybe_flush_state ops net enc.proposer_codec clock c.proposer;
        acceptor = AcceptorAgent.maybe_flush_state ops net enc.acceptor_codecs clock c.acceptor;
        learner = LearnerAgent.maybe_flush_state ops net enc.learner_codecs clock c.learner;
      }
      else c

  -- A rejection by the local acceptor is a panic.
  abbrev pub prepare_with :
      Slot
      → Ballot
      → PromiseResult × AcceptorAgent S N
      → Combined S N
      → Option (PrepareResult × Combined S N)
  prepare_with slot ballot (PromiseResult.promised promise, a) c =
      let (r, p) = Broadcast.prepare_phase net clock slot ballot (promise ∷ []) c.proposer in
      some (r, record c { proposer = p; acceptor = a })
  prepare_with slot ballot (PromiseResult.rejected current, a) c = none

  unfoldable pub prepare_phase : Combined S N → Option (PrepareResult × Combined S N)
  prepare_phase c =
      let slot = add_u64 (LearnerAgent.get_adu c.learner) 1 in
      let ballot = c.proposer.proposer.current_ballot in
      prepare_with slot ballot
        (AcceptorAgent.process_prepare ops net enc.acceptor_codecs clock slot ballot c.acceptor) c

  abbrev pub record_own : Node → Learn → Combined S N → Combined S N
  record_own node learn c = record c {
    learner =
        (LearnerAgent.record_learn ops net enc.learner_codecs clock learn.slot learn.value node
          c.learner).1;
  }

  -- `commit_phase` of the acceptor agent, and the learn it answers; `none` is a panic.
  abbrev pub committed :
      Node → Option (Option Learn × AcceptorAgent S N) → Combined S N → Option (Combined S N)
  committed node none c = none
  committed node (some (none, a)) c = some (record c { acceptor = a })
  committed node (some (some learn, a)) c = some (record_own node learn (record c { acceptor = a }))

  abbrev pub commit_own : Bool → Node → Proposal → Combined S N → Option (Combined S N)
  commit_own send_learns node p c =
      if send_learns
      then committed node
          (AcceptorAgent.commit_phase ops net enc.acceptor_codecs p.slot p.value c.acceptor) c
      else some c

  abbrev pub event_driven_only : AcceptResult → Option (Combined S N) → Option (Combined S N)
  event_driven_only AcceptResult.is_event_driven o = o
  event_driven_only _ o = none

  -- A rejection by the local acceptor is a panic.
  abbrev pub accept_with :
      Bool
      → Node
      → Proposal
      → AcceptedResult × AcceptorAgent S N
      → Combined S N
      → Option (Combined S N)
  accept_with send_learns node p (AcceptedResult.accepted acc, a) c =
      let (r, q) = Broadcast.accept_phase net p.value p.slot p.ballot (acc ∷ []) c.proposer in
      event_driven_only r (commit_own send_learns node p (record c { proposer = q; acceptor = a }))
  accept_with send_learns node p (AcceptedResult.rejected current, a) c = none

  unfoldable pub accept_one : Bool → Node → Proposal → Combined S N → Option (Combined S N)
  accept_one send_learns node p c =
      accept_with send_learns node p
        (AcceptorAgent.process_accept ops net enc.acceptor_codecs clock p.slot p.ballot p.value
          c.acceptor)
        c

  unfoldable pub accept_loop : Bool → Node → List Proposal → Combined S N → Option (Combined S N)
  accept_loop send_learns node [] c = some c
  accept_loop send_learns node (p ∷ ps) c =
      let rest = accept_loop send_learns node ps in
      elim (accept_one send_learns node p c) [ none ↦ none | some d ↦ rest d ]

  abbrev pub accept_batch :
      Bool → Node → List Proposal → Combined S N → Option (AcceptResult × Combined S N)
  accept_batch send_learns node [] c = some (AcceptResult.missing_proposal, c)
  accept_batch send_learns node (p ∷ ps) c =
      Option.map (λ d. (AcceptResult.is_event_driven, d)) (accept_loop send_learns node (p ∷ ps) c)

  unfoldable pub accept_phase : Bool → Node → Combined S N → Option (AcceptResult × Combined S N)
  accept_phase send_learns node c = elim (ProposerAgent.proposals_to_accept c.proposer) [
    | none ↦ none
    | some (ps, p) ↦ accept_batch send_learns node ps (record c { proposer = p })
  ]

  unfoldable pub commit_loop : Node → List Learn → Combined S N → Combined S N
  commit_loop node [] c = c
  commit_loop node (l ∷ ls) c =
      commit_loop node ls
        (record_own node l (record c { proposer = Broadcast.broadcast_learn net l c.proposer }))

  abbrev pub commit_learns : Node → Combined S N → Combined S N
  commit_learns node c =
      let (learns, p) = ProposerAgent.learns_to_commit c.proposer in
      commit_loop node learns (record c { proposer = p })

  abbrev pub answer_clients : Combined S N → Option (List ClientResponse) × Combined S N
  answer_clients c =
      let (out, p) = ProposerAgent.collect_client_responses c.proposer in
      (Broadcast.some_responses out, record c { proposer = p })

  unfoldable pub commit_phase :
      Bool → Node → Combined S N → Option (List ClientResponse) × Combined S N
  commit_phase send_learns node c =
      answer_clients (if not send_learns then commit_learns node c else c)

  abbrev pub Ticked : Type 0
  Ticked = Option (Option (List ClientResponse) × Combined S N)

  abbrev pub tick_in : Bool → Node → PaxosPhase → Combined S N → Ticked
  tick_in send_learns node start c =
      some (none, record c { proposer = Handlers.start_leader_loop c.proposer })
  tick_in send_learns node prepare_send c = Option.map (λ r. (none, r.1)) (prepare_phase c)
  tick_in send_learns node prepare_pending c =
      some (none, record c { proposer = (ProposerAgent.check_prepare_timeout clock c.proposer).1 })
  tick_in send_learns node accept_commit c =
      Option.map (λ r. commit_phase send_learns node r.1) (accept_phase send_learns node c)
  tick_in send_learns node stop c = some (none, c)
  tick_in send_learns node crash c = some (none, c)

  abbrev pub tick_leader : RunConfig → Node → Combined S N → Ticked
  tick_leader config node c =
      if not (Handlers.is_leader c.proposer)
      then some (none, c)
      else tick_in config.acceptors_send_learns node c.proposer.phase c

  unfoldable pub tick_combined : RunConfig → Node → Combined S N → Ticked
  tick_combined config node c =
      elim (drive_learner (maybe_retry_learn config.acceptors_send_learns node c)) [
        | none ↦ none
        | some d ↦ tick_leader config node (maybe_flush_states config.persistent_storage d)
      ]

  abbrev pub tick_agents :
      RunConfig → Node → Agents S N → Option (Option (List ClientResponse) × Agents S N)
  tick_agents config node (Agents.only_proposer p) =
      Option.map (λ r. (r.0, Agents.only_proposer r.1))
        (Handlers.handle_tick ops net enc.proposer_codec clock p)
  tick_agents config node (Agents.only_acceptor a) =
      some
        (none, Agents.only_acceptor (AcceptorAgent.handle_tick ops net enc.acceptor_codecs clock a))
  tick_agents config node (Agents.only_learner l) =
      Option.map (λ l'. (none, Agents.only_learner l'))
        (LearnerAgent.handle_tick ops net enc.learner_codecs clock l)
  tick_agents config node (Agents.combined c) =
      Option.map (λ r. (r.0, Agents.combined r.1)) (tick_combined config node c)

  unfoldable pub handle_tick :
      Coordinator S N → Option (Option (List ClientResponse) × Coordinator S N)
  handle_tick c =
      Option.map (λ r. (r.0, record c { agents = r.1 })) (tick_agents c.config c.node c.agents)
