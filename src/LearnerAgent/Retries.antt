-- ===== src/LearnerAgent/Retries.antt =====
-- The requests for missing learns, `evaluate_retry` of
-- paxos-wasm/agents/learner-agent/src/learner-agent.rs.
use wasm_master.Common.{
  ℕ, zero, suc, ◌+◌, ◌-◌, ◌≤◌, ◌<◌, Bool, true, false, some, List, [], ◌∷◌, ◌≡◌, refl, sym, ◌∙◌,
  ◌⊎◌, inl, inr, arith, ◌==◌, if◌then◌else◌, length, has, All, All-imp, All-has, All-of_has,
  All-of_has, as_usize, Bool-cases, u64_size, add_u64, ap, subst,
}
use wasm_master.Common.KeyMap
use wasm_master.Common.KeyMap.{KeyMap, get-insert}
use wasm_master.Types.{Slot}
use wasm_master.Types.Messages.{RetryLearnResult}
use wasm_master.Persistence.{Clock}
use wasm_master.Learner.{get_highest_learned}
use wasm_master.LearnerAgent.{
  LearnerAgent, get_adu, scan, is_cooled_down, scan_missing, retry_scanned, evaluate_retry,
}

-- The slots rise, from `low` on.
abbrev pub Ascends : Slot → List Slot → Type 0
Ascends low [] = Unit
Ascends low (k ∷ ks) = (low ≤ k) × Ascends (k + 1) ks

Ascends-low : (low high : Slot) (ks : List Slot) → low ≤ high → Ascends high ks → Ascends low ks
Ascends-low low high [] h a = tt
Ascends-low low high (k ∷ ks) h a = (omega arith, a.1)

has-Ascends : (k low : Slot) (ks : List Slot) → k < low → Ascends low ks → has k ks ≡ false
has-Ascends k low [] h a = refl
has-Ascends k low (j ∷ ks) h a = ground (arith, has-Ascends k (j + 1) ks)

-- What the batch is that was picked at time `now` out of the slots from `low` to below `high`:
-- slots in rising order, at most `room` of them, none of which was asked for during the timeout; if
-- there is room left, all such slots. The times `after` are those of `before`, with `now` for the
-- slots of the batch.
pub record IsBatch (low high room now timeout : ℕ) (before : KeyMap ℕ) (batch : List Slot)
    (after : KeyMap ℕ) : Type 0 where
  pub bound : length batch ≤ room
  pub order : Ascends low batch
  pub below : All (λ k. k < high) batch
  pub due : All (λ k. is_cooled_down (KeyMap.get k before) now timeout ≡ true) batch
  pub full :
      (k : Slot)
      → low ≤ k
      → k < high
      → is_cooled_down (KeyMap.get k before) now timeout ≡ true
      → (has k batch ≡ true) ⊎ (length batch ≡ room)
  pub times :
      (k : Slot) → KeyMap.get k after ≡ (if has k batch then some now else KeyMap.get k before)

nothing-IsBatch :
    (low high room now timeout : ℕ) (before : KeyMap ℕ)
    → (room ≡ 0) ⊎ (high ≤ low)
    → IsBatch low high room now timeout before [] before
nothing-IsBatch low high room now timeout before h = record {
  bound = omega arith;
  order = tt;
  below = tt;
  due = tt;
  full = λ k a b c. ground arith;
  times = λ k. refl;
}

-- A retry of `slot` does not bear on higher slots.
after_insert :
    (slot low now timeout : ℕ) (before : KeyMap ℕ) (ks : List Slot)
    → slot < low
    → Ascends low ks
    → All (λ k. is_cooled_down (KeyMap.get k (KeyMap.insert slot now before)) now timeout ≡ true) ks
    → All (λ k. is_cooled_down (KeyMap.get k before) now timeout ≡ true) ks
after_insert slot low now timeout before [] h up_to due = tt
after_insert slot low now timeout before (k ∷ ks) h up_to due = (
  ground (arith, get-insert slot k now before),
  after_insert slot (k + 1) now timeout before ks (omega arith) up_to.1 due.1,
)

taken-IsBatch :
    (slot high room now timeout : ℕ) (before : KeyMap ℕ) (batch : List Slot) (after : KeyMap ℕ)
    → slot < high
    → is_cooled_down (KeyMap.get slot before) now timeout ≡ true
    → IsBatch (slot + 1) high room now timeout (KeyMap.insert slot now before) batch after
    → IsBatch slot high (suc room) now timeout before (slot ∷ batch) after
taken-IsBatch slot high room now timeout before batch after h due ih = record {
  bound = let b = ih.bound in omega arith;
  order = (omega arith, ih.order);
  below = (h, ih.below);
  due = (due, after_insert slot (slot + 1) now timeout before batch (omega arith) ih.order ih.due);
  full = λ k a b c. ground (arith, get-insert slot k now before, ih.full k);
  times = λ k.
      ground
        (arith, ih.times k, get-insert slot k now before, has-Ascends k (slot + 1) batch, ih.order);
}

skipped-IsBatch :
    (slot high room now timeout : ℕ) (before : KeyMap ℕ) (batch : List Slot) (after : KeyMap ℕ)
    → is_cooled_down (KeyMap.get slot before) now timeout ≡ false
    → IsBatch (slot + 1) high room now timeout before batch after
    → IsBatch slot high room now timeout before batch after
skipped-IsBatch slot high room now timeout before batch after early ih = record {
  bound = ih.bound;
  order = Ascends-low slot (slot + 1) batch (omega arith) ih.order;
  below = ih.below;
  due = ih.due;
  full = λ k a b c. elim (Bool-cases (k == slot)) [
    | inl e ↦ let same : k ≡ slot = ground arith in absurd (let d = rw same at c in cc)
    | inr e ↦ ih.full k (ground arith) b c
  ];
  times = ih.times;
}

scan-IsBatch :
    (count room slot high now timeout : ℕ) (before : KeyMap ℕ)
    → high - slot ≡ count
    → let (batch, after) = scan count room slot now timeout before in
      IsBatch slot high room now timeout before batch after
unfolding scan
scan-IsBatch zero room slot high now timeout before h =
    nothing-IsBatch slot high room now timeout before (inr (omega arith))
scan-IsBatch (suc count) zero slot high now timeout before h =
    nothing-IsBatch slot high 0 now timeout before (inl refl)
scan-IsBatch (suc count) (suc room) slot high now timeout before h =
    elim (Bool-cases (is_cooled_down (KeyMap.get slot before) now timeout)) [
      | inl e ↦ rw e (
          taken-IsBatch slot high room now timeout before _ _ (omega arith) e (
            scan-IsBatch count room (slot + 1) high now timeout (KeyMap.insert slot now before)
              (omega arith)))
      | inr e ↦ rw e (
          skipped-IsBatch slot high (suc room) now timeout before _ _ e
            (scan-IsBatch count (suc room) (slot + 1) high now timeout before (omega arith)))
    ]

-- A slot is not in both of two batches whose times are closer than the timeout, where the second
-- one starts from the times that the first one has left.
batches_disjoint :
    {low high room now timeout low' high' room' now' timeout' : ℕ} {before after after' : KeyMap ℕ}
    (batch batch' : List Slot)
    → IsBatch low high room now timeout before batch after
    → IsBatch low' high' room' now' timeout' after batch' after'
    → now' - now < timeout'
    → All (λ k. has k batch' ≡ false) batch
batches_disjoint {now} {now'} {timeout'} {after} batch batch' p q h =
    All-imp
      (λ k listed. elim (Bool-cases (has k batch')) [
        | inl e ↦ absurd (
            let due =
              All-of_has k (λ k. is_cooled_down (KeyMap.get k after) now' timeout' ≡ true) batch'
                q.due e in
            ground (arith, p.times k))
        | inr e ↦ e
      ])
      batch (All-has batch)

module _ {S N : Type 0} where
  retry_scanned-slots :
      (clock : Clock) (r : List Slot × KeyMap ℕ) (a : LearnerAgent S N) (slots : List Slot)
      → (retry_scanned clock r a).0 ≡ RetryLearnResult.retry slots
      → (r.0 ≡ slots) × (0 < length slots) × ((retry_scanned clock r a).1.retries ≡ r.1)
  retry_scanned-slots clock ([], retries) a slots e = cc
  retry_scanned-slots clock (slot ∷ rest, retries) a slots e = ground arith

  retry_guarded :
      (b : Bool) (a : LearnerAgent S N) (r : RetryLearnResult × LearnerAgent S N)
      (slots : List Slot)
      → (if b then (RetryLearnResult.no_gap, a) else r).0 ≡ RetryLearnResult.retry slots
      → (if b then (RetryLearnResult.no_gap, a) else r) ≡ r
  retry_guarded true a r slots e = cc
  retry_guarded false a r slots e = refl

  evaluated :
      (clock : Clock) (a : LearnerAgent S N) (slots : List Slot)
      → (evaluate_retry clock a).0 ≡ RetryLearnResult.retry slots
      → ((scan_missing clock a).0 ≡ slots)
        × (0 < length slots)
        × ((evaluate_retry clock a).1.retries ≡ (scan_missing clock a).1)
  unfolding evaluate_retry
  evaluated clock a slots e =
      let same : evaluate_retry clock a ≡ retry_scanned clock (scan_missing clock a) a =
        retry_guarded _ a _ slots e in
      let (picked, some_picked, kept) =
        retry_scanned-slots clock (scan_missing clock a) a slots (ap (λ r. r.0) (sym same) ∙ e) in
      (picked, some_picked, ap (λ r. r.1.retries) same ∙ kept)

  -- The slots that a retry asks for are at least one and at most as many as a message may carry (as
  -- a 32-bit usize), in rising order above the last executed slot and up to the highest learned one,
  -- and for none of them a retry was made during the timeout; if the message has room left, they are
  -- all such slots. Their time is noted, and that of no other slot. (Whether a slot is missing plays
  -- no part.)
  pub evaluate_retry-IsBatch :
      (clock : Clock) (a : LearnerAgent S N) (slots : List Slot)
      → get_adu a + 1 < u64_size
      → (evaluate_retry clock a).0 ≡ RetryLearnResult.retry slots
      → (0 < length slots)
        × IsBatch
            (get_adu a + 1)
            (get_highest_learned a.learner + 1)
            (as_usize a.config.message_batch_size)
            clock.now
            a.config.retry_interval_ms
            a.retries
            slots
            (evaluate_retry clock a).1.retries
  evaluate_retry-IsBatch clock a slots small e =
      let (picked, some_picked, kept) = evaluated clock a slots e in
      let room = as_usize a.config.message_batch_size in
      let high = get_highest_learned a.learner + 1 in
      let first : add_u64 (get_adu a) 1 ≡ get_adu a + 1 = omega arith in
      (
        some_picked,
        rw kept (
            subst
              (λ l.
                IsBatch (get_adu a + 1) high room clock.now a.config.retry_interval_ms a.retries l
                  (scan_missing clock a).1)
              picked
              (subst
                (λ low.
                  IsBatch low high room clock.now a.config.retry_interval_ms a.retries
                    (scan_missing clock a).0 (scan_missing clock a).1)
                first
                (scan-IsBatch (high - add_u64 (get_adu a) 1) room (add_u64 (get_adu a) 1) high
                  clock.now a.config.retry_interval_ms a.retries refl))),
      )

  -- A slot is not asked for twice within the timeout of the second retry, unless something else
  -- than a retry has changed the times in between.
  pub retries_cool_down :
      (clock later : Clock) (a b : LearnerAgent S N) (slots slots' : List Slot)
      → get_adu a + 1 < u64_size
      → get_adu b + 1 < u64_size
      → (evaluate_retry clock a).0 ≡ RetryLearnResult.retry slots
      → b.retries ≡ (evaluate_retry clock a).1.retries
      → later.now - clock.now < b.config.retry_interval_ms
      → (evaluate_retry later b).0 ≡ RetryLearnResult.retry slots'
      → All (λ k. has k slots' ≡ false) slots
  retries_cool_down clock later a b slots slots' small small' e kept early e' =
      let (_, p) = evaluate_retry-IsBatch clock a slots small e in
      let (_, q) = evaluate_retry-IsBatch later b slots' small' e' in
      batches_disjoint slots slots' p (rw kept at q) early
