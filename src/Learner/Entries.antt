-- ===== src/Learner/Entries.antt =====
-- What holds of every learned slot of paxos-wasm/core/learner/src/learner.rs, through each of the
-- operations that change the map.
use wasm_master.Common.{
  ℕ, zero, suc, ◌+◌, ◌-◌, ◌<◌, Option, none, some, List, [], ◌∷◌, ◌≡◌, refl, subst, ◌⊎◌, inl, inr,
  arith, ltb, leb, ◌&&◌, All, Bool-cases, Option-cases, u64_size, add_u64, if_both,
}
use wasm_master.Common.Fallible.{Result, ok, err}
use wasm_master.Common.KeyMap
use wasm_master.Common.KeyMap.{KeyMap, All-insert, All-retain, All-get}
use wasm_master.Types.{Slot, Value, LearnedEntry, Learn, RunConfig}
use wasm_master.Types.Equality.{value_eq}
use wasm_master.Persistence.{StorageOps, Clock}
use wasm_master.Learner.Storage.{
  Codecs, StorageHelper, prune, prune_below, checkpoint_snapshot, flush_changes, maybe_snapshot,
}
use wasm_master.Learner.{
  Learner, collect, learn, learn_quorum, check_votes, find_quorum, tally_from, bump,
  execute_entries, after_snapshot,
}
use wasm_master.Learner.Execution.{IsRun, ahead, ahead_falls}
use wasm_master.Learner.Recovery.{IsSmall}

-- With more fuel than learned slots ahead, and none of them the last u64, the loop ends at the
-- first gap.
pub collect_small :
    (fuel : ℕ) (next : Slot) (m : KeyMap Value)
    → next < u64_size
    → IsSmall m
    → ahead next m < fuel
    → (out : List LearnedEntry) × (end : Slot) × (collect fuel next m ≡ some (out, end))
      × IsRun next out end m
unfolding collect
collect_small zero next m small keys enough = absurd (omega arith)
collect_small (suc fuel) next m small keys enough = elim (Option-cases (KeyMap.get next m)) [
  | inl e ↦ ([], next, rw (e, collect), (refl, e))
  | inr (v, e) ↦
      let fits : next + 1 < u64_size =
        All-get (λ (e : ℕ × Value). e.0 + 1 < u64_size) next m keys e in
      let (out, end, run, spec) =
        collect_small fuel (next + 1) m fits keys (omega (arith, ahead_falls next m v e)) in
      let no_wrap : add_u64 next 1 ≡ next + 1 = omega arith in
      (
        record { slot = next; value = v } ∷ out,
        end,
        rw (e, collect) (rw no_wrap (rw run)),
        (refl, e, spec),
      )
]

module _ {S : Type 0} (ops : StorageOps S) (codecs : Codecs) (clock : Clock) where
  learned-learn :
      (slot : Slot) (v : Value) (l : Learner S)
      → ((learn ops codecs clock slot v l).1.learned ≡ l.learned)
        ⊎ ((learn ops codecs clock slot v l).1.learned ≡ KeyMap.insert slot v l.learned)
  unfolding learn
  learned-learn slot v l = ground arith

  pub slot_learns-learn_quorum :
      (slot : Slot) (o : Option Value) (l : Learner S)
      → (learn_quorum ops codecs clock slot o l).1.slot_learns ≡ l.slot_learns
  unfolding learn
  slot_learns-learn_quorum slot o l = ground arith

module _ (P : ℕ × Value → Type 0) where
  prune_below-All :
      (c : RunConfig) (o : Option Slot) (m : KeyMap Value) → All P m → All P (prune_below c o m)
  prune_below-All c none m h = h
  prune_below-All c (some n) m h = All-retain P _ m h

  prune-All : (c : RunConfig) (m : KeyMap Value) → All P m → All P (prune c m)
  unfolding prune
  prune-All c m h =
      if_both (All P) (ltb 0 c.storage_max_snapshots && ltb 0 c.storage_snapshot_slot_interval)
        (prune_below-All c (KeyMap.last_key m) m h) h

  module _ {S : Type 0} (ops : StorageOps S) (codecs : Codecs) (clock : Clock) where
    checkpoint_snapshot-All :
        (adu : Slot) (m kept : KeyMap Value) (h : StorageHelper S)
        → (checkpoint_snapshot ops codecs clock adu m h).0 ≡ ok kept
        → All P m
        → All P kept
    unfolding checkpoint_snapshot
    checkpoint_snapshot-All adu m kept h e a = ground (arith, prune-All h.run_config m)

    maybe_snapshot-All :
        (adu : Slot) (m kept : KeyMap Value) (h : StorageHelper S)
        → (maybe_snapshot ops codecs clock adu m h).0 ≡ ok kept
        → All P m
        → All P kept
    unfolding maybe_snapshot
    maybe_snapshot-All adu m kept h e a =
        ground (arith, checkpoint_snapshot-All adu m kept (flush_changes ops codecs clock h).1)

    after_snapshot-All :
        (m : KeyMap Value) (l : Learner S) (r : Result (KeyMap Value) × StorageHelper S)
        → ((kept : KeyMap Value) → r.0 ≡ ok kept → All P kept)
        → All P m
        → All P (after_snapshot ops codecs clock m r l).learned
    after_snapshot-All m l (ok kept, h) f a = f kept refl
    after_snapshot-All m l (err e, h) f a = a

    pub execute_entries-All :
        (out : List LearnedEntry) (next : Slot) (l : Learner S)
        → All P l.learned
        → All P (execute_entries ops codecs clock out next l).1.learned
    execute_entries-All [] next l a = a
    execute_entries-All (e ∷ out) next l a =
        after_snapshot-All l.learned _
          (maybe_snapshot ops codecs clock (next - 1) l.learned l.storage)
          (λ kept e'. maybe_snapshot-All (next - 1) l.learned kept l.storage e' a) a

    pub learn-All :
        (slot : Slot) (v : Value) (l : Learner S)
        → P (slot, v)
        → All P l.learned
        → All P (learn ops codecs clock slot v l).1.learned
    learn-All slot v l p a = elim (learned-learn ops codecs clock slot v l) [
      | inl e ↦ rw e a
      | inr e ↦ rw e (All-insert P slot v l.learned p a)
    ]

    pub learn_quorum-All :
        (slot : Slot) (o : Option Value) (l : Learner S)
        → ((v : Value) → o ≡ some v → P (slot, v))
        → All P l.learned
        → All P (learn_quorum ops codecs clock slot o l).1.learned
    learn_quorum-All slot none l p a = a
    learn_quorum-All slot (some v) l p a = learn-All slot v l (p v refl) a

-- A quorum is found only for a value that was voted for.
module _ (Q : Value → Type 0) where
  abbrev pub AllVotes : List Learn → Type 0
  AllVotes = All λ l. Q l.value

  bump-All :
      (v : Value) (t : List (Value × ℕ))
      → Q v
      → All (λ (e : Value × ℕ). Q e.0) t
      → All (λ (e : Value × ℕ). Q e.0) (bump v t)
  unfolding bump
  bump-All v [] q a = (q, tt)
  bump-All v ((w, n) ∷ t) q a =
      if_both (All λ (e : Value × ℕ). Q e.0) (value_eq w v) a (a.0, bump-All v t q a.1)

  tally_from-All :
      (t : List (Value × ℕ)) (ls : List Learn)
      → All (λ (e : Value × ℕ). Q e.0) t
      → AllVotes ls
      → All (λ (e : Value × ℕ). Q e.0) (tally_from t ls)
  unfolding tally_from
  tally_from-All t [] a b = a
  tally_from-All t (l ∷ ls) a b = tally_from-All (bump l.value t) ls (bump-All l.value t b.0 a) b.1

  find_quorum-All :
      (q : ℕ) (t : List (Value × ℕ)) (v : Value)
      → All (λ (e : Value × ℕ). Q e.0) t
      → find_quorum q t ≡ some v
      → Q v
  unfolding find_quorum
  find_quorum-All q [] v a e = cc
  find_quorum-All q ((w, n) ∷ t) v a e = elim (Bool-cases (leb q n)) [
    | inl h ↦ subst Q (ground arith) a.0
    | inr h ↦ find_quorum-All q t v a.1 (ground arith)
  ]

  pub check_votes-All :
      (q : ℕ) (o : Option (KeyMap Learn)) (v : Value)
      → ((m : KeyMap Learn) → o ≡ some m → AllVotes (KeyMap.values m))
      → check_votes q o ≡ some v
      → Q v
  check_votes-All q none v a e = cc
  check_votes-All q (some m) v a e =
      find_quorum-All q (tally_from [] (KeyMap.values m)) v
        (tally_from-All [] (KeyMap.values m) tt (a m refl)) (ground arith)
