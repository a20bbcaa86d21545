-- ===== src/ProposerAgent/Phases.antt =====
-- The phases of paxos-wasm/agents/proposer-agent/src/proposer-agent.rs.
use wasm_master.Common.{
  ◌≤◌, true, false, Option, none, some, List, ◌≡◌, refl, ap, ◌∙◌, ◌⊎◌, inl, inr, arith,
}
use wasm_master.Types.{Slot, Ballot, Node, PaxosPhase, Promise, PrepareResult}
use wasm_master.Types.PaxosPhase.{start, prepare_send, prepare_pending, accept_commit, stop, crash}
use wasm_master.Persistence.{Clock}
use wasm_master.Proposer.{Proposer, quorum, process_prepare}
use wasm_master.Proposer.Phases.{valid_promises}
use wasm_master.ProposerAgent.{
  ProposerAgent, next_phase, advance_phase, insert_and_check_promises, promises_checked,
  handle_promise, timeout_from, check_prepare_timeout,
}

next_accept :
    (ph : PaxosPhase)
    → next_phase (some true) ph ≡ accept_commit
    → (ph ≡ accept_commit) ⊎ (ph ≡ prepare_pending)
next_accept start e = ground arith
next_accept prepare_send e = ground arith
next_accept prepare_pending e = inr refl
next_accept accept_commit e = inl refl
next_accept stop e = ground arith
next_accept crash e = ground arith

module _ {S : Type 0} where
  prepare_result :
      (slot : Slot) (ps : List Promise) (p : Proposer S)
      → (((process_prepare slot ps p).0 ≡ PrepareResult.success) × (quorum p ≤ valid_promises ps p))
        ⊎ ((process_prepare slot ps p).0 ≡ PrepareResult.quorum_failure)
  unfolding process_prepare
  prepare_result slot ps p = ground arith

module _ {S N : Type 0} where
  checked_accept :
      (slot : Slot) (r : Option (Ballot × List Promise)) (a : ProposerAgent S N)
      → (promises_checked slot (r, a)).phase ≡ accept_commit
      → (a.phase ≡ accept_commit)
        ⊎ ((a.phase ≡ prepare_pending)
            × ((ballot : Ballot) × (ps : List Promise) × (r ≡ some (ballot, ps))
                × (quorum a.proposer ≤ valid_promises ps a.proposer)))
  unfolding advance_phase
  checked_accept slot none a e = inl e
  checked_accept slot (some (ballot, ps)) a e = elim (prepare_result slot ps a.proposer) [
    | inl (won, enough) ↦ elim (next_accept a.phase (rw won at e)) [
      | inl same ↦ inl same
      | inr pending ↦ inr (pending, (ballot, ps, refl, enough))
    ]
    | inr lost ↦ inl (rw lost at e)
  ]

  -- A promise takes the agent to the accept phase only from a pending prepare, and only with a
  -- quorum of promises for the proposer's current ballot among those that the agent has collected.
  pub handle_promise_accepts :
      (promise : Promise) (sender : Node) (a : ProposerAgent S N)
      → (handle_promise promise sender a).phase ≡ accept_commit
      → (a.phase ≡ accept_commit)
        ⊎ ((a.phase ≡ prepare_pending)
            × ((ballot : Ballot) × (ps : List Promise) × ((insert_and_check_promises promise sender
                    a).0
                  ≡ some (ballot, ps))
                × (quorum a.proposer ≤ valid_promises ps a.proposer)))
  unfolding handle_promise insert_and_check_promises
  handle_promise_accepts promise sender a e =
      checked_accept promise.slot (insert_and_check_promises promise sender a).0
        (insert_and_check_promises promise sender a).1 e

module _ {S : Type 0} where
  enough_success :
      (slot : Slot) (ps : List Promise) (p : Proposer S)
      → quorum p ≤ valid_promises ps p
      → (process_prepare slot ps p).0 ≡ PrepareResult.success
  unfolding process_prepare
  enough_success slot ps p enough = ground arith

module _ {S N : Type 0} where
  late_of :
      (slot : Slot) (ballot : Ballot) (ps : List Promise) (a : ProposerAgent S N)
      → a.phase ≡ prepare_send
      → quorum a.proposer ≤ valid_promises ps a.proposer
      → let a' = promises_checked slot (some (ballot, ps), a) in
        (a'.phase ≡ prepare_pending) × (a'.last_prepare_start ≡ a.last_prepare_start)
  unfolding advance_phase
  late_of slot ballot ps a sending enough =
      rw (enough_success slot ps a.proposer enough) (rw sending refl, refl)

  timeout_unset :
      (ph : PaxosPhase) (clock : Clock) (a : ProposerAgent S N)
      → timeout_from ph none clock a ≡ (false, a)
  timeout_unset start clock a = refl
  timeout_unset prepare_send clock a = refl
  timeout_unset prepare_pending clock a = refl
  timeout_unset accept_commit clock a = refl
  timeout_unset stop clock a = refl
  timeout_unset crash clock a = refl

  never_times_out :
      (clock : Clock) (a : ProposerAgent S N)
      → a.last_prepare_start ≡ none
      → check_prepare_timeout clock a ≡ (false, a)
  unfolding check_prepare_timeout
  never_times_out clock a e =
      ap (λ o. timeout_from a.phase o clock a) e ∙ timeout_unset a.phase clock a

  -- A quorum of promises that arrives after the prepare has timed out leaves the agent waiting for
  -- a prepare that was not sent: the prepare is pending without a start, so that no check of the
  -- timeout, at whatever time, changes anything.
  pub late_quorum_stalls :
      (promise : Promise) (sender : Node) (a : ProposerAgent S N) (ballot : Ballot)
      (ps : List Promise)
      → a.phase ≡ prepare_send
      → a.last_prepare_start ≡ none
      → (insert_and_check_promises promise sender a).0 ≡ some (ballot, ps)
      → quorum a.proposer ≤ valid_promises ps a.proposer
      → let a' = handle_promise promise sender a in
        (a'.phase ≡ prepare_pending)
        × ((clock : Clock) → check_prepare_timeout clock a' ≡ (false, a'))
  unfolding handle_promise insert_and_check_promises
  late_quorum_stalls promise sender a ballot ps sending unset reached enough =
      let a' = (insert_and_check_promises promise sender a).1 in
      let (pending, kept) = late_of promise.slot ballot ps a' sending enough in
      rw reached (pending, λ clock. never_times_out clock _ (kept ∙ unset))
