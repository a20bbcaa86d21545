-- ===== src/Proposer/Proposals.antt =====
-- The proposals of paxos-wasm/core/proposer/src/proposer.rs: their creation, the quorum of accepts,
-- and the order of their statuses.
use wasm_master.Common.{
  ℕ, ◌+◌, ◌-◌, ◌≤◌, ◌<◌, u64_size, add_u64, true, false, Option, none, some, List, [], ◌∷◌, ◌++◌,
  ◌≡◌, refl, ap, subst, sym, not, ◌↔◌, ◌⊎◌, inl, inr, arith, ltb, ◌==◌, if◌then◌else◌, Bool-cases,
  count_if, is_some,
}
use wasm_master.Common.KeyMap
use wasm_master.Common.KeyMap.{KeyMap, get-insert}
use wasm_master.Types.{
  Slot, Value, Promise, Proposal, Accepted, AcceptResult, ProposalEntry, ProposalStatus,
}
use wasm_master.Types.ProposalStatus.{in_flight, chosen, commit_pending, finalized}
use wasm_master.Types.Equality.{status_eq}
use wasm_master.Proposer.{
  Proposer, quorum, filter_status, collect_accepted_values, next_value, propose, create_proposal,
  process_prepare, matches, process_accept,
}
use wasm_master.Proposer.Phases.{valid_promises, enqueue_all_frame}

-- The verdict of `process_accept` on a slot with the entry `o`.
abbrev verdict : ℕ → List Accepted → Option ProposalEntry → AcceptResult
verdict q accepts o = elim (filter_status (λ s. status_eq s in_flight) o) [
  | none ↦ AcceptResult.missing_proposal
  | some prop ↦
      if ltb (count_if (matches prop) accepts) q
      then AcceptResult.quorum_failure
      else if not (is_some (filter_status (λ s. status_eq s in_flight) o))
      then AcceptResult.missing_proposal
      else AcceptResult.accepted (count_if (matches prop) accepts)
]

verdict_of :
    (q : ℕ) (accepts : List Accepted) (n : ℕ) (prop : Proposal) (s : ProposalStatus)
    → (verdict q accepts (some (record { proposal = prop; status = s })) ≡ AcceptResult.accepted n)
      ↔ ((s ≡ in_flight) × (n ≡ count_if (matches prop) accepts) × (q ≤ n))
verdict_of q accepts n prop in_flight = ground arith
verdict_of q accepts n prop chosen = ground arith
verdict_of q accepts n prop commit_pending = ground arith
verdict_of q accepts n prop finalized = ground arith

verdict_iff :
    (q : ℕ) (accepts : List Accepted) (n : ℕ) (o : Option ProposalEntry)
    → (verdict q accepts o ≡ AcceptResult.accepted n) ↔ (
        (prop : Proposal) × (o ≡ some (record { proposal = prop; status = in_flight }))
        × (n ≡ count_if (matches prop) accepts)
        × (q ≤ n))
verdict_iff q accepts n none = ground arith
verdict_iff q accepts n (some e) =
    let (f, g) = verdict_of q accepts n e.proposal e.status in
    (
      λ h.
          let (st, c, le) = f h in
          (e.proposal, ap (λ s. some (record { proposal = e.proposal; status = s })) st, c, le),
      λ (prop, eq, c, le).
          subst (λ o. verdict q accepts o ≡ AcceptResult.accepted n) (sym eq)
            ((verdict_of q accepts n prop in_flight).1 (refl, c, le)),
    )

-- The entry of a slot when `prop` has just been proposed.
abbrev pub proposed : Proposal → Slot → Option ProposalEntry → Option ProposalEntry
proposed prop k before =
    if prop.slot == k then some (record { proposal = prop; status = in_flight }) else before

module _ {S : Type 0} where
  propose_next :
      (p : Proposer S) (vs ws : List Value)
      → p.current_slot + 1 < u64_size
      → let (r, p') = propose (next_value vs ws) p in
        ((vs ≡ []) × (ws ≡ []) × (r ≡ none) × (p' ≡ p))
        ⊎ ((prop : Proposal) × (r ≡ some prop)
            × (vs ++ ws ≡ prop.value ∷ (p'.prioritized_values ++ p'.pending_client_requests))
            × (prop.ballot ≡ p.current_ballot)
            × (prop.slot ≡ p.current_slot + 1)
            × (p'.current_slot ≡ prop.slot)
            × ((k : Slot) → KeyMap.get k p'.proposals ≡ proposed prop k (KeyMap.get k p.proposals)))
  propose_next p [] [] small = inl (refl, refl, refl, refl)
  propose_next p [] (v ∷ ws) small = inr (
    _,
    refl,
    refl,
    refl,
    ground arith,
    refl,
    λ k. get-insert (add_u64 p.current_slot 1) k _ p.proposals,
  )
  propose_next p (v ∷ vs) ws small = inr (
    _,
    refl,
    refl,
    refl,
    ground arith,
    refl,
    λ k. get-insert (add_u64 p.current_slot 1) k _ p.proposals,
  )

module _ {S : Type 0} where
  -- Only a leader with a queued value proposes: the first prioritised value or else the first
  -- request of a client, in the next slot and with the current ballot. The proposal is then in
  -- flight and the other slots keep their proposals; in every other case nothing changes.
  pub create_proposal_lem :
      (p : Proposer S)
      → p.current_slot + 1 < u64_size
      → let (r, p') = create_proposal p in
        (((p.is_leader ≡ false) ⊎ ((p.prioritized_values ≡ []) × (p.pending_client_requests ≡ [])))
          × (r ≡ none)
          × (p' ≡ p))
        ⊎ ((prop : Proposal) × (p.is_leader ≡ true)
            × (r ≡ some prop)
            × (p.prioritized_values ++ p.pending_client_requests
                ≡ prop.value ∷ (p'.prioritized_values ++ p'.pending_client_requests))
            × (prop.ballot ≡ p.current_ballot)
            × (prop.slot ≡ p.current_slot + 1)
            × (p'.current_slot ≡ prop.slot)
            × ((k : Slot) → KeyMap.get k p'.proposals ≡ proposed prop k (KeyMap.get k p.proposals)))
  unfolding create_proposal
  create_proposal_lem p small = elim (Bool-cases p.is_leader) [
    | inl lead ↦
        simp lead (elim (propose_next p p.prioritized_values p.pending_client_requests small) [
          | inl (a, b, c, d) ↦ inl (inr (a, b), c, d)
          | inr (prop, a, b, c, d, e, k) ↦ inr (prop, refl, a, b, c, d, e, k)
        ])
    | inr follow ↦ rw follow (inl (inl refl, refl, refl))
  ]

  -- A quorum is reported exactly for a proposal in flight, with the number of accepts that name its
  -- slot and ballot and signal success, when these reach the quorum.
  pub process_accept_iff :
      (slot : Slot) (accepts : List Accepted) (p : Proposer S) (n : ℕ)
      → (process_accept slot accepts p ≡ AcceptResult.accepted n) ↔ (
          (prop : Proposal) × (KeyMap.get slot p.proposals
            ≡ some (record { proposal = prop; status = in_flight }))
          × (n ≡ count_if (matches prop) accepts)
          × (quorum p ≤ n))
  unfolding process_accept
  process_accept_iff slot accepts p n =
      verdict_iff (quorum p) accepts n (KeyMap.get slot p.proposals)

  propose_slot :
      (o : Option (Value × List Value × List Value)) (p : Proposer S) (prop : Proposal)
      → (propose o p).0 ≡ some prop
      → prop.slot ≡ add_u64 p.current_slot 1
  propose_slot none p prop e = ground arith
  propose_slot (some (v, vs, ws)) p prop e = ground arith

  create_proposal_slot :
      (p : Proposer S) (prop : Proposal)
      → (create_proposal p).0 ≡ some prop
      → prop.slot ≡ add_u64 p.current_slot 1
  unfolding create_proposal
  create_proposal_slot p prop e = elim (Bool-cases p.is_leader) [
    | inl lead ↦ propose_slot (next_value p.prioritized_values p.pending_client_requests) p prop (
        subst
          (λ b.
            (if not b
              then (none, p)
              else propose (next_value p.prioritized_values p.pending_client_requests) p).0
            ≡ some prop)
          lead e)
    | inr follow ↦ ground arith
  ]

  late_current_slot :
      (promises : List Promise) (p : Proposer S)
      → quorum p ≤ valid_promises promises p
      → (process_prepare p.current_slot promises p).1.current_slot ≡ p.current_slot - 1
  unfolding process_prepare collect_accepted_values
  late_current_slot promises p enough =
      let test : ltb (valid_promises promises p) (quorum p) ≡ false = ground arith in
      let same : ltb p.current_slot p.current_slot ≡ false = ground arith in
      rw (test, same) (ap (λ (q : Proposer S). q.current_slot) (enqueue_all_frame _ _))

  -- A late quorum of promises, which arrives when exactly one slot has been used since the prepare,
  -- moves the slot counter back: the next proposal is made for that same slot again.
  pub late_prepare_reuses_slot :
      (promises : List Promise) (p : Proposer S) (prop : Proposal)
      → 0 < p.current_slot
      → p.current_slot < u64_size
      → quorum p ≤ valid_promises promises p
      → let p' = (process_prepare p.current_slot promises p).1 in
        (create_proposal p').0 ≡ some prop → prop.slot ≡ p.current_slot
  late_prepare_reuses_slot promises p prop pos small enough e =
      let slot = create_proposal_slot (process_prepare p.current_slot promises p).1 prop e in
      let back = late_current_slot promises p enough in ground arith
