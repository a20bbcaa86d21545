-- ===== src/ProposerAgent/Learns.antt =====
-- `learns_to_commit` of paxos-wasm/agents/proposer-agent/src/proposer-agent.rs: the chosen slots that
-- are sent to the learners.
use wasm_master.Common.{
  ℕ, zero, suc, ◌≤◌, none, some, List, [], ◌∷◌, ◌++◌, map, ◌≡◌, refl, ap, ◌∙◌, ◌⊎◌, inl, inr, arith,
  ◌==◌, ==_iff, if◌then◌else◌, Bool-cases, All, All-imp, length,
}
use wasm_master.Common.KeyMap
use wasm_master.Types.{Slot, Learn, ProposalEntry}
use wasm_master.Types.ProposalStatus.{commit_pending}
use wasm_master.Proposer.{Proposer, reserve_first, reserve_next_chosen_proposal}
use wasm_master.Proposer.Statuses.{HasStatus, reserve_next_chosen_proposal_lem}
use wasm_master.ProposerAgent.{ProposerAgent, learns_up_to, learns_to_commit}

-- The slot holds a proposal for itself.
abbrev pub HoldsOwn : {S : Type 0} → Proposer S → Slot → Type 0
HoldsOwn p s = (e : ProposalEntry) × (KeyMap.get s p.proposals ≡ some e) × (e.proposal.slot ≡ s)

abbrev pub slot_of : Learn → Slot
slot_of l = l.slot

module _ {S N : Type 0} where
  -- What a batch of learns does to the queue `q` of chosen slots.
  abbrev pub IsTaken : ℕ → List Slot → List Learn × ProposerAgent S N → Type 0
  IsTaken n q (learns, a') =
      (map slot_of learns ++ a'.proposer.chosen_slots ≡ q)
      × (length learns ≤ n)
      × ((length learns ≡ n) ⊎ (a'.proposer.chosen_slots ≡ []))

module _ {S : Type 0} where
  reserve_empty :
      (p : Proposer S) → p.chosen_slots ≡ [] → reserve_next_chosen_proposal p ≡ (none, p)
  unfolding reserve_next_chosen_proposal
  reserve_empty p e = ap (λ q. reserve_first q p) e

  reserve-HoldsOwn :
      (s k : Slot) (e : ProposalEntry) (p p' : Proposer S)
      → e.proposal.slot ≡ s
      → HasStatus s e.proposal commit_pending p p'
      → HoldsOwn p k
      → HoldsOwn p' k
  reserve-HoldsOwn s k e p p' own set (f, held, f_own) = elim (Bool-cases (s == k)) [
    | inl same ↦ (
      record { proposal = e.proposal; status = commit_pending },
      set k
          ∙ ap
              (λ b.
                if b
                then some (record { proposal = e.proposal; status = commit_pending })
                else KeyMap.get k p.proposals)
              same,
      own ∙ (==_iff s k).0 same,
    )
    | inr other ↦ (
      f,
      set k
          ∙ ap
              (λ b.
                if b
                then some (record { proposal = e.proposal; status = commit_pending })
                else KeyMap.get k p.proposals)
              other
          ∙ held,
      f_own,
    )
  ]

module _ {S N : Type 0} where
  learns_of :
      (n : ℕ) (q : List Slot) (a : ProposerAgent S N)
      → a.proposer.chosen_slots ≡ q
      → All (HoldsOwn a.proposer) q
      → IsTaken n q (learns_up_to n a)
  unfolding learns_up_to
  learns_of zero q a e h = (e, omega arith, inl refl)
  learns_of (suc n) [] a e h =
      let none_left = reserve_empty a.proposer e in
      let queue = ap (λ m. m.1.chosen_slots) none_left ∙ e in
      rw (learns_up_to, ap (λ m. m.0) none_left) (queue, omega arith, inr queue)
  learns_of (suc n) (s ∷ q) a e h =
      let (entry, held, own) = h.0 in
      let (r, rest, set) = reserve_next_chosen_proposal_lem s q entry a.proposer e held in
      let p' = (reserve_next_chosen_proposal a.proposer).1 in
      let mid : ProposerAgent S N = record a { proposer = p' } in
      let (split, bound, full) =
        learns_of n q mid rest
          (All-imp (λ k. reserve-HoldsOwn s k entry a.proposer p' own set) q h.1) in
      rw (learns_up_to, r) ((λ i. own i ∷ split i), omega arith, ground arith)

  -- If each chosen slot holds a proposal for itself, the learns of a batch are for the slots at the
  -- front of the queue, in their order; there are at most `batch_size`, and fewer only if the queue
  -- is empty afterwards.
  pub learns_to_commit_lem :
      (a : ProposerAgent S N)
      → All (HoldsOwn a.proposer) a.proposer.chosen_slots
      → let (learns, a') = learns_to_commit a in
        (map slot_of learns ++ a'.proposer.chosen_slots ≡ a.proposer.chosen_slots)
        × (length learns ≤ a.config.batch_size)
        × ((length learns ≡ a.config.batch_size) ⊎ (a'.proposer.chosen_slots ≡ []))
  learns_to_commit_lem a h = learns_of a.config.batch_size a.proposer.chosen_slots a refl h
