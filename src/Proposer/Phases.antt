-- ===== src/Proposer/Phases.antt =====
-- The two phases of paxos-wasm/core/proposer/src/proposer.rs: what `process_prepare` queues, what
-- `create_proposal` proposes, and when `process_accept` reports a quorum.
use wasm_master.Common.{
  ℕ, ◌+◌, ◌≤◌, ◌<◌, u64_size, true, false, List, [], ◌∷◌, ◌++◌, ◌≡◌, refl, ap, ◌⊎◌, inl, inr, arith,
  ltb, ◌==◌, All, All-imp, All-split, Bool-cases, length, select, has,
}
use wasm_master.Types.{Slot, Value, PValue, Promise, PrepareResult}
use wasm_master.Types.Equality.{value_eq_iff}
use wasm_master.Proposer.{
  Proposer, quorum, all_accepted, collect_accepted_values, dedup, with_command, commands, contains,
  enqueue_prioritized_request, enqueue_all, process_prepare,
}
use wasm_master.Proposer.Collect.{UpFrom, collect_accepted_values_lem}

contains-append :
    (v w : Value) (vs : List Value) → contains v vs ≡ true → contains v (vs ++ w ∷ []) ≡ true
contains-append v w [] h = cc
contains-append v w (x ∷ vs) h = ground (arith, contains-append v w vs)

contains-snoc : (v : Value) (vs : List Value) → contains v (vs ++ v ∷ []) ≡ true
contains-snoc v [] = ground (arith, value_eq_iff v v)
contains-snoc v (x ∷ vs) = ground (arith, contains-snoc v vs)

module _ {S : Type 0} where
  -- Queueing changes the prioritised values alone.
  pub enqueue_all_frame :
      (vs : List Value) (p : Proposer S)
      → enqueue_all vs p ≡ record p { prioritized_values = (enqueue_all vs p).prioritized_values }
  unfolding enqueue_all enqueue_prioritized_request
  enqueue_all_frame [] p = refl
  enqueue_all_frame (v ∷ vs) p =
      ground (arith, enqueue_all_frame vs (enqueue_prioritized_request v p))

  enqueue-keeps :
      (v w : Value) (p : Proposer S)
      → contains v p.prioritized_values ≡ true
      → contains v (enqueue_prioritized_request w p).prioritized_values ≡ true
  unfolding enqueue_prioritized_request
  enqueue-keeps v w p h = ground (arith, contains-append v w p.prioritized_values)

  enqueue-contains :
      (v : Value) (p : Proposer S)
      → contains v (enqueue_prioritized_request v p).prioritized_values ≡ true
  unfolding enqueue_prioritized_request
  enqueue-contains v p = ground (arith, contains-snoc v p.prioritized_values)

  enqueue_all-keeps :
      (v : Value) (vs : List Value) (p : Proposer S)
      → contains v p.prioritized_values ≡ true
      → contains v (enqueue_all vs p).prioritized_values ≡ true
  unfolding enqueue_all
  enqueue_all-keeps v [] p h = h
  enqueue_all-keeps v (w ∷ vs) p h = enqueue_all-keeps v vs _ (enqueue-keeps v w p h)

  enqueue_all-contains :
      (vs : List Value) (p : Proposer S)
      → All (λ v. contains v (enqueue_all vs p).prioritized_values ≡ true) vs
  unfolding enqueue_all
  enqueue_all-contains [] p = tt
  enqueue_all-contains (v ∷ vs) p = (
    enqueue_all-keeps v vs (enqueue_prioritized_request v p) (enqueue-contains v p),
    enqueue_all-contains vs (enqueue_prioritized_request v p),
  )

-- Every slot of the list is below `bound`.
abbrev AllBelow : ℕ → List ℕ → Type 0
AllBelow bound l = All (λ s. s < bound) l

has-AllBelow : (s : ℕ) (seen : List ℕ) → AllBelow s seen → has s seen ≡ false
has-AllBelow s [] h = refl
has-AllBelow s (x ∷ seen) h = ground (arith, has-AllBelow s seen h.1)

dedup-UpFrom :
    (expected : Slot) (seen : List Slot) (r : List PValue)
    → AllBelow expected seen
    → UpFrom expected r
    → dedup seen r ≡ r
unfolding dedup
dedup-UpFrom expected seen [] h u = refl
dedup-UpFrom expected seen (p ∷ r) h u =
    let fresh : has p.slot seen ≡ false = has-AllBelow p.slot seen (rw u.0 h) in
    rw fresh (
      ap (λ (l : List PValue). p ∷ l)
        (dedup-UpFrom (expected + 1) (p.slot ∷ seen) r
          (omega arith, All-imp (λ s lt. omega arith) seen h) u.1))

-- Whatever command the proposal carries is in the queue.
abbrev pub IsQueued : List Value → PValue → Type 0
IsQueued queue e = All (λ v. contains v queue ≡ true) (with_command e.value)

commands-IsQueued :
    (queue : List Value) (r : List PValue)
    → All (λ v. contains v queue ≡ true) (commands r)
    → All (IsQueued queue) r
unfolding commands
commands-IsQueued queue [] h = tt
commands-IsQueued queue (e ∷ r) h =
    let (first, rest) = All-split _ (with_command e.value) (commands r) h in
    (first, commands-IsQueued queue r rest)

module _ {S : Type 0} where
  -- The promises for the current ballot.
  abbrev pub valid_promises : List Promise → Proposer S → ℕ
  valid_promises promises p =
      length (select (λ (q : Promise). q.ballot == p.current_ballot) promises)

  collected-UpFrom :
      (min_slot : Slot) (promises : List Promise) (p : Proposer S)
      → All (λ (a : PValue). a.slot + 1 < u64_size) (all_accepted promises)
      → UpFrom min_slot (collect_accepted_values min_slot promises p).0
  collected-UpFrom min_slot promises p small =
      elim (collect_accepted_values_lem min_slot promises p small) [
        | inl late ↦ rw late.1 tt
        | inr early ↦ early.2
      ]

  queue-collected :
      (min_slot : Slot) (promises : List Promise) (p : Proposer S)
      → (collect_accepted_values min_slot promises p).1.prioritized_values ≡ p.prioritized_values
  unfolding collect_accepted_values
  queue-collected min_slot promises p = ground arith

  -- Without a quorum of promises for the current ballot nothing changes. With one, `process_prepare`
  -- succeeds, every command that `collect_accepted_values` has found is in the prioritised queue,
  -- with those that were there, and apart from the slot counter nothing else changes.
  pub process_prepare_lem :
      (min_slot : Slot) (promises : List Promise) (p : Proposer S)
      → All (λ (a : PValue). a.slot + 1 < u64_size) (all_accepted promises)
      → let (result, p') = process_prepare min_slot promises p in
        let (values, collected) = collect_accepted_values min_slot promises p in
        ((valid_promises promises p < quorum p)
          × (result ≡ PrepareResult.quorum_failure)
          × (p' ≡ p))
        ⊎ ((quorum p ≤ valid_promises promises p)
            × (result ≡ PrepareResult.success)
            × All (IsQueued p'.prioritized_values) values
            × ((v : Value)
                → contains v p.prioritized_values ≡ true
                → contains v p'.prioritized_values ≡ true)
            × (p' ≡ record collected { prioritized_values = p'.prioritized_values }))
  unfolding process_prepare
  process_prepare_lem min_slot promises p small =
      elim (Bool-cases (ltb (valid_promises promises p) (quorum p))) [
        | inl few ↦ rw few (inl (ground arith, refl, refl))
        | inr enough ↦
            let values = (collect_accepted_values min_slot promises p).0 in
            let collected = (collect_accepted_values min_slot promises p).1 in
            let distinct : dedup [] values ≡ values =
              dedup-UpFrom min_slot [] values tt (collected-UpFrom min_slot promises p small) in
            rw enough (
              inr (
                ground arith,
                refl,
                rw distinct
                    (commands-IsQueued _ values (enqueue_all-contains (commands values) collected)),
                λ v h. enqueue_all-keeps v _ collected (rw (queue-collected min_slot promises p) h),
                enqueue_all_frame _ collected,
              ))
      ]
