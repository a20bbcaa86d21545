-- ===== src/Coordinator/Progress.antt =====
-- That `accept_phase` of paxos-wasm/runners/paxos-coordinator/src/coordinator.rs ends, where the node's
-- own acceptor is up to date.
use wasm_master.Common.{
  ◌+◌, ◌<◌, ◌≤◌, u64_size, Bool, true, false, Option, none, some, List, [], ◌∷◌, ◌≡◌, refl, sym,
  ◌∙◌, ap, subst, arith, All, if_no, if_yes, ltb,
}
use mathlib.Core.Option
use wasm_master.Common.KeyMap
use wasm_master.Common.KeyMap.{KeyMap, get-insert}
use wasm_master.Types.{Slot, Ballot, Node, Proposal, Accepted, AcceptResult}
use wasm_master.Persistence.{StorageOps, Clock}
use wasm_master.Network.{NetworkOps}
use wasm_master.Acceptor
use wasm_master.Acceptor.{Acceptor, accepted_reply, highest_promised_ballot, record_accepted}
use wasm_master.Acceptor.Agreement.{IsVolatile}
use wasm_master.Acceptor.Writes.{record_accepted_disabled}
use wasm_master.AcceptorAgent
use wasm_master.AcceptorAgent.{AcceptorAgent}
use wasm_master.ProposerAgent.{ProposerAgent, proposals_to_accept, insert_and_check_accepted}
use wasm_master.ProposerAgent.Broadcast.{insert_accepts, send_forget}
use wasm_master.ProposerAgent.Batches.{SlotsFrom, proposals_to_accept-IsBatch}
use wasm_master.ProposerAgent.Sends.{accept_event, accept_payload, up_to-IsUnder}
use wasm_master.Coordinator.{Combined, Encodings}
use wasm_master.Coordinator.Single.{accept_of}
use wasm_master.Coordinator.Ticks.{
  accept_one, accept_with, accept_loop, accept_batch, accept_phase, commit_own, committed,
  event_driven_only,
}

-- The acceptor holds nothing for the slots from `s` on.
abbrev pub IsFreeFrom : {S : Type 0} → Slot → Acceptor S → Type 0
IsFreeFrom s a = (k : Slot) → s ≤ k → KeyMap.get k a.accepted ≡ none

abbrev with_accepted : {S : Type 0} → Proposal → Acceptor S → Acceptor S
with_accepted p a = record a {
  accepted =
      KeyMap.insert p.slot (record { slot = p.slot; ballot = p.ballot; value = some p.value })
        a.accepted;
}

with_accepted-IsFreeFrom :
    {S : Type 0} (p : Proposal) (a : Acceptor S)
    → IsFreeFrom p.slot a
    → IsFreeFrom (p.slot + 1) (with_accepted p a)
with_accepted-IsFreeFrom p a free k above =
    let kept = free k (omega arith) in
    let put =
      get-insert p.slot k (record { slot = p.slot; ballot = p.ballot; value = some p.value })
        a.accepted in
    ground arith

module _ {S N : Type 0} (ops : StorageOps S) (net : NetworkOps N) (enc : Encodings)
    (clock : Clock) where
  fresh_accept :
      (p : Proposal) (a : Acceptor S)
      → IsVolatile a
      → highest_promised_ballot a ≤ p.ballot
      → KeyMap.get p.slot a.accepted ≡ none
      → accept_of ops net enc clock p a ≡ (accepted_reply p.slot p.ballot, with_accepted p a)
  unfolding Acceptor.accept
  fresh_accept p a off high free =
      if_no (ltb p.ballot (highest_promised_ballot a)) _ _ (ground arith)
      ∙ rw free (
          ap (λ x. (accepted_reply p.slot p.ballot, x))
            (record_accepted_disabled ops enc.acceptor_codecs clock _ a off))

  -- A step that ends, and what it leaves of the node.
  record Goes (step : Option (Combined S N)) (a : Acceptor S) (c : Combined S N) : Type 0 where
    next : Combined S N
    ends : step ≡ some next
    acceptor : next.acceptor.acceptor ≡ a
    config : next.acceptor.config ≡ c.acceptor.config
    event : next.proposer.config ≡ c.proposer.config

  commit_own-Goes :
      (send_learns : Bool) (node : Node) (p : Proposal) (c : Combined S N)
      → c.acceptor.config.acceptors_send_learns ≡ send_learns
      → Goes (commit_own ops net enc clock send_learns node p c) c.acceptor.acceptor c
  unfolding AcceptorAgent.commit_phase
  commit_own-Goes true node p c same = record {
    next = _;
    ends =
        ap (λ o. committed ops net enc clock node o c)
          (if_yes c.acceptor.config.acceptors_send_learns _ _ same);
    acceptor = refl;
    config = refl;
    event = refl;
  }
  commit_own-Goes false node p c same = record {
    next = c;
    ends = refl;
    acceptor = refl;
    config = refl;
    event = refl;
  }

  accept_one-Goes :
      (send_learns : Bool) (node : Node) (p : Proposal) (c : Combined S N)
      → c.proposer.config.is_event_driven ≡ true
      → c.acceptor.config.acceptors_send_learns ≡ send_learns
      → IsVolatile c.acceptor.acceptor
      → highest_promised_ballot c.acceptor.acceptor ≤ p.ballot
      → KeyMap.get p.slot c.acceptor.acceptor.accepted ≡ none
      → Goes
          (accept_one ops net enc clock send_learns node p c)
          (with_accepted p c.acceptor.acceptor)
          c
  unfolding accept_one insert_accepts insert_and_check_accepted
  accept_one-Goes send_learns node p c event same off high free =
      let a : AcceptorAgent S N = record c.acceptor {
        acceptor = with_accepted p c.acceptor.acceptor;
      } in
      let acc : Accepted = record { slot = p.slot; ballot = p.ballot; success = true } in
      let q =
        insert_accepts (acc ∷ [])
          (send_forget net c.proposer.acceptors (accept_payload p) c.proposer) in
      let own = commit_own-Goes send_learns node p (record c { proposer = q; acceptor = a }) same in
      record {
        next = own.next;
        ends =
            ap
              (λ r.
                accept_with ops net enc clock send_learns node p
                  (r.0, record c.acceptor { acceptor = r.1 }) c)
              (fresh_accept p c.acceptor.acceptor off high free)
            ∙ ap
                (λ r. event_driven_only ops net enc clock r.0 (
                  commit_own ops net enc clock send_learns node p
                    (record c { proposer = r.1; acceptor = a })))
                (accept_event net p.value p.slot p.ballot (acc ∷ []) c.proposer event)
            ∙ own.ends;
        acceptor = own.acceptor;
        config = own.config;
        event = own.event;
      }

  accept_loop_ends :
      (send_learns : Bool) (node : Node) (ps : List Proposal) (s : Slot) (ballot : Ballot)
      (c : Combined S N)
      → c.proposer.config.is_event_driven ≡ true
      → c.acceptor.config.acceptors_send_learns ≡ send_learns
      → IsVolatile c.acceptor.acceptor
      → highest_promised_ballot c.acceptor.acceptor ≤ ballot
      → IsFreeFrom s c.acceptor.acceptor
      → SlotsFrom s ps
      → All (λ (p : Proposal). p.ballot ≡ ballot) ps
      → (d : Combined S N) × (accept_loop ops net enc clock send_learns node ps c ≡ some d)
  unfolding accept_loop
  accept_loop_ends send_learns node [] s ballot c event same off high free slots ballots = (c, refl)
  accept_loop_ends send_learns node (p ∷ ps) s ballot c event same off high free slots ballots =
      let (slot, more) = slots in
      let (under, others) = ballots in
      let free' = subst (λ k. IsFreeFrom k c.acceptor.acceptor) (sym slot) free in
      let one =
        accept_one-Goes send_learns node p c event same off
          (subst (λ b. highest_promised_ballot c.acceptor.acceptor ≤ b) (sym under) high)
          (free' p.slot (omega arith)) in
      let (d, rest) =
        accept_loop_ends send_learns node ps (s + 1) ballot one.next
          (ap (λ x. x.is_event_driven) one.event ∙ event)
          (ap (λ x. x.acceptors_send_learns) one.config ∙ same)
          (subst (IsVolatile {S = S}) (sym one.acceptor) off)
          (subst (λ (x : Acceptor S). highest_promised_ballot x ≤ ballot) (sym one.acceptor) high)
          (subst (IsFreeFrom (s + 1)) (sym one.acceptor) (
            subst (λ k. IsFreeFrom (k + 1) (with_accepted p c.acceptor.acceptor)) slot
              (with_accepted-IsFreeFrom p c.acceptor.acceptor free')))
          more others in
      (
        d,
        ap
              (λ o. elim o [
                | none ↦ none
                | some b ↦ accept_loop ops net enc clock send_learns node ps b
              ])
              one.ends
            ∙ rest,
      )

  batch_ends :
      (send_learns : Bool) (node : Node) (ps : List Proposal) (c : Combined S N)
      → (d : Combined S N) × (accept_loop ops net enc clock send_learns node ps c ≡ some d)
      → (r : AcceptResult) × (d : Combined S N) × (accept_batch ops net enc clock send_learns node
            ps c
          ≡ some (r, d))
  batch_ends send_learns node [] c h = (_, _, refl)
  batch_ends send_learns node (p ∷ ps) c (d, e) =
      (AcceptResult.is_event_driven, d, ap (Option.map (λ d. (AcceptResult.is_event_driven, d))) e)

  -- The accept phase of an event-driven node ends without a panic, if the node's own acceptor has
  -- promised no ballot above that of its proposer and holds nothing for the slots after the last
  -- proposed one, and the acceptor agent has the node's setting of who sends the learns. (Persistence
  -- is off, no slot of the batch is on the crash list, and the slots do not wrap.)
  pub accept_phase_ends :
      (node : Node) (c : Combined S N) (ps : List Proposal) (q : ProposerAgent S N)
      → c.proposer.config.is_event_driven ≡ true
      → IsVolatile c.acceptor.acceptor
      → highest_promised_ballot c.acceptor.acceptor ≤ c.proposer.proposer.current_ballot
      → IsFreeFrom (c.proposer.proposer.current_slot + 1) c.acceptor.acceptor
      → c.proposer.proposer.current_slot + c.proposer.config.batch_size + 1 < u64_size
      → proposals_to_accept c.proposer ≡ some (ps, q)
      → (r : AcceptResult) × (d : Combined S N) × (accept_phase ops net enc clock
            c.acceptor.config.acceptors_send_learns node c
          ≡ some (r, d))
  unfolding accept_phase
  accept_phase_ends node c ps q event off high free small batch =
      let send_learns = c.acceptor.config.acceptors_send_learns in
      let under = up_to-IsUnder c.proposer.config.batch_size c.proposer ps q batch in
      let made = proposals_to_accept-IsBatch c.proposer ps q small batch in
      let event' = ap (λ (x : ProposerAgent S N). x.config.is_event_driven) under.rest ∙ event in
      let (r, d, e) =
        batch_ends send_learns node ps (record c { proposer = q })
          (accept_loop_ends send_learns node ps (c.proposer.proposer.current_slot + 1)
            c.proposer.proposer.current_ballot (record c { proposer = q }) event' refl off high free
            made.slots under.ballots) in
      (
        r,
        d,
        ap
              (λ o. elim o [
                | none ↦ none
                | some (l, x) ↦
                    accept_batch ops net enc clock send_learns node l (record c { proposer = x })
              ])
              batch
            ∙ e,
      )
