-- ===== src/Proposer/Statuses.antt =====
-- The statuses of the proposals of paxos-wasm/core/proposer/src/proposer.rs: in flight, chosen,
-- awaiting its commit, finalized.
use wasm_master.Common.{
  Option, none, some, List, [], ◌∷◌, ◌++◌, ◌≡◌, refl, ◌≢◌, ◌⊎◌, inl, inr, arith, ◌==◌,
  if◌then◌else◌, Option-cases,
}
use wasm_master.Common.KeyMap
use wasm_master.Common.KeyMap.{KeyMap, get-insert}
use wasm_master.Types.{Slot, Value, Proposal, ProposalEntry, ProposalStatus}
use wasm_master.Types.ProposalStatus.{in_flight, chosen, commit_pending, finalized}
use wasm_master.Proposer.{
  Proposer, update_proposal_status, mark_proposal_chosen, mark_proposal_finalized,
  reserve_next_chosen_proposal,
}

-- The entry of slot `k` after `entry` was stored for `slot`.
abbrev pub stored : Slot → ProposalEntry → Slot → Option ProposalEntry → Option ProposalEntry
stored slot entry k before = if slot == k then some entry else before

module _ {S : Type 0} where
  -- What the proposals become when the status of one slot is set.
  abbrev pub HasStatus : Slot → Proposal → ProposalStatus → Proposer S → Proposer S → Type 0
  HasStatus slot prop status p p' =
      (k : Slot)
      → KeyMap.get k p'.proposals
        ≡ stored slot (record { proposal = prop; status = status }) k (KeyMap.get k p.proposals)

  update_lem :
      (slot : Slot) (new_status : ProposalStatus) (p : Proposer S) (prop : Proposal)
      (s : ProposalStatus)
      → KeyMap.get slot p.proposals ≡ some (record { proposal = prop; status = s })
      → update_proposal_status slot new_status p ≡ (
        some prop.value,
        record p {
          proposals =
              KeyMap.insert slot (record { proposal = prop; status = new_status }) p.proposals;
        },
      )
  unfolding update_proposal_status
  update_lem slot new_status p prop s e = rw (update_proposal_status, e) refl

  -- The two outcomes of `mark_proposal_chosen`.
  abbrev IsChosenFrom : Slot → Proposer S → Option Value → Proposer S → Type 0
  IsChosenFrom slot p r p' =
      ((prop : Proposal) × (KeyMap.get slot p.proposals
          ≡ some (record { proposal = prop; status = in_flight }))
        × (r ≡ some prop.value)
        × (p'.chosen_slots ≡ p.chosen_slots ++ slot ∷ [])
        × HasStatus slot prop chosen p p')
      ⊎ (((prop : Proposal)
            → KeyMap.get slot p.proposals ≢ some (record { proposal = prop; status = in_flight }))
          × (r ≡ none)
          × (p' ≡ p))

  mark_chosen_of :
      (slot : Slot) (p : Proposer S) (prop : Proposal) (s : ProposalStatus)
      → KeyMap.get slot p.proposals ≡ some (record { proposal = prop; status = s })
      → let (r, p') = mark_proposal_chosen slot p in IsChosenFrom slot p r p'
  unfolding mark_proposal_chosen
  mark_chosen_of slot p prop in_flight e =
      rw (e, update_lem slot chosen p prop in_flight e)
        (inl (prop, refl, refl, refl, λ k. get-insert slot k _ p.proposals))
  mark_chosen_of slot p prop chosen e = rw e (inr (λ prop h. ground arith, refl, refl))
  mark_chosen_of slot p prop commit_pending e = rw e (inr (λ prop h. ground arith, refl, refl))
  mark_chosen_of slot p prop finalized e = rw e (inr (λ prop h. ground arith, refl, refl))

  -- `mark_proposal_chosen` answers the value of a proposal in flight, makes its status `chosen` and
  -- puts its slot at the end of the queue of chosen slots; for any other slot it answers nothing
  -- and changes nothing.
  pub mark_proposal_chosen_lem :
      (slot : Slot) (p : Proposer S)
      → let (r, p') = mark_proposal_chosen slot p in
        ((prop : Proposal) × (KeyMap.get slot p.proposals
            ≡ some (record { proposal = prop; status = in_flight }))
          × (r ≡ some prop.value)
          × (p'.chosen_slots ≡ p.chosen_slots ++ slot ∷ [])
          × HasStatus slot prop chosen p p')
        ⊎ (((prop : Proposal)
              → KeyMap.get slot p.proposals ≢ some (record { proposal = prop; status = in_flight }))
            × (r ≡ none)
            × (p' ≡ p))
  unfolding mark_proposal_chosen
  mark_proposal_chosen_lem slot p = elim (Option-cases (KeyMap.get slot p.proposals)) [
    | inl e ↦ rw e (inr (λ prop h. ground arith, refl, refl))
    | inr (entry, e) ↦ mark_chosen_of slot p entry.proposal entry.status e
  ]

  finalize_of :
      (slot : Slot) (p : Proposer S) (prop : Proposal) (s : ProposalStatus)
      → KeyMap.get slot p.proposals ≡ some (record { proposal = prop; status = s })
      → let (r, p') = mark_proposal_finalized slot p in
        ((s ≢ finalized) × (r ≡ some prop.value) × HasStatus slot prop finalized p p')
        ⊎ ((s ≡ finalized) × (r ≡ none) × (p' ≡ p))
  unfolding mark_proposal_finalized
  finalize_of slot p prop in_flight e =
      rw (e, update_lem slot finalized p prop in_flight e)
        (inl (λ h. ground arith, refl, λ k. get-insert slot k _ p.proposals))
  finalize_of slot p prop chosen e =
      rw (e, update_lem slot finalized p prop chosen e)
        (inl (λ h. ground arith, refl, λ k. get-insert slot k _ p.proposals))
  finalize_of slot p prop commit_pending e =
      rw (e, update_lem slot finalized p prop commit_pending e)
        (inl (λ h. ground arith, refl, λ k. get-insert slot k _ p.proposals))
  finalize_of slot p prop finalized e = rw e (inr (refl, refl, refl))

  -- `mark_proposal_finalized` answers the value of a proposal that is not finalized, whether it
  -- has been chosen or not, and makes its status `finalized`; for a slot that is finalized, or
  -- without a proposal, it answers nothing and changes nothing.
  pub mark_proposal_finalized_lem :
      (slot : Slot) (p : Proposer S)
      → let (r, p') = mark_proposal_finalized slot p in
        ((entry : ProposalEntry) × (KeyMap.get slot p.proposals ≡ some entry)
          × (entry.status ≢ finalized)
          × (r ≡ some entry.proposal.value)
          × HasStatus slot entry.proposal finalized p p')
        ⊎ (((entry : ProposalEntry)
              → KeyMap.get slot p.proposals ≡ some entry
              → entry.status ≡ finalized)
            × (r ≡ none)
            × (p' ≡ p))
  unfolding mark_proposal_finalized
  mark_proposal_finalized_lem slot p = elim (Option-cases (KeyMap.get slot p.proposals)) [
    | inl e ↦ rw e (inr (λ entry h. ground arith, refl, refl))
    | inr (entry, e) ↦ elim (finalize_of slot p entry.proposal entry.status e) [
      | inl (open_status, r, set) ↦ inl (entry, e, open_status, r, set)
      | inr (done, r, same) ↦ inr (λ other h. ground arith, r, same)
    ]
  ]

  -- The chosen slots come out in the order in which they were chosen: the call answers the proposal
  -- of the first, takes its slot off the queue and leaves its status at `commit_pending`, whatever
  -- it was, a finalized one included.
  pub reserve_next_chosen_proposal_lem :
      (slot : Slot) (rest : List Slot) (entry : ProposalEntry) (p : Proposer S)
      → p.chosen_slots ≡ slot ∷ rest
      → KeyMap.get slot p.proposals ≡ some entry
      → let (r, p') = reserve_next_chosen_proposal p in
        (r ≡ some entry.proposal)
        × (p'.chosen_slots ≡ rest)
        × HasStatus slot entry.proposal commit_pending p p'
  unfolding reserve_next_chosen_proposal
  reserve_next_chosen_proposal_lem slot rest entry p queue e =
      rw queue (rw e (refl, refl, λ k. get-insert slot k _ p.proposals))
