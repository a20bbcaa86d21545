-- ===== src/Learner/Execution.antt =====
-- `to_be_executed` of paxos-wasm/core/learner/src/learner.rs: the loop ends, and hands out the
-- learned values in the order of the slots.
use wasm_master.Common.{
  ℕ, zero, suc, ◌+◌, ◌-◌, ◌≤◌, ◌<◌, none, some, List, [], ◌∷◌, ◌≡◌, refl, ap, subst, inl, inr,
  arith, leb, length, count_if, count_if-le-length, Option-cases, u64_size, add_u64,
}
use wasm_master.Common.Fallible.{Result, ok, err}
use wasm_master.Common.KeyMap
use wasm_master.Common.KeyMap.{KeyMap}
use wasm_master.Types.{Slot, Value, LearnedEntry, LearnResult}
use wasm_master.Persistence.{StorageOps, Clock}
use wasm_master.Learner.Storage.{Codecs, StorageHelper, maybe_snapshot}
use wasm_master.Learner.{Learner, collect, execute_entries, to_be_executed, after_snapshot}

-- The entries of the slots from `next` on, one for each slot with the value learned for it, up to
-- the first slot `end` that is not learned.
abbrev pub IsRun : Slot → List LearnedEntry → Slot → KeyMap Value → Type 0
IsRun next [] end m = (end ≡ next) × (KeyMap.get next m ≡ none)
IsRun next (e ∷ out) end m =
    (e.slot ≡ next) × (KeyMap.get next m ≡ some e.value) × IsRun (next + 1) out end m

pub IsRun-end :
    (next end : Slot) (out : List LearnedEntry) (m : KeyMap Value)
    → IsRun next out end m
    → end ≡ next + length out
IsRun-end next end [] m r = omega arith
IsRun-end next end (e ∷ out) m r = omega (arith, IsRun-end (next + 1) end out m r.2)

-- How many learned slots are not below `next`.
abbrev pub ahead : Slot → KeyMap Value → ℕ
ahead next m = count_if (λ (e : ℕ × Value). leb next e.0) m

ahead_mono : (next : Slot) (m : KeyMap Value) → ahead (next + 1) m ≤ ahead next m
ahead_mono next [] = omega arith
ahead_mono next ((s, w) ∷ m) = ground (arith, ahead_mono next m)

pub ahead_falls :
    (next : Slot) (m : KeyMap Value) (v : Value)
    → KeyMap.get next m ≡ some v
    → ahead (next + 1) m < ahead next m
unfolding KeyMap.get
ahead_falls next [] v e = cc
ahead_falls next ((s, w) ∷ m) v e = ground (arith, ahead_falls next m v, ahead_mono next m)

-- With more fuel than learned slots ahead, the loop ends at the first gap.
collect_total :
    (fuel : ℕ) (next : Slot) (m : KeyMap Value)
    → next + fuel < u64_size
    → ahead next m < fuel
    → (out : List LearnedEntry) × (end : Slot) × (collect fuel next m ≡ some (out, end))
      × IsRun next out end m
unfolding collect
collect_total zero next m small enough = absurd (omega arith)
collect_total (suc fuel) next m small enough = elim (Option-cases (KeyMap.get next m)) [
  | inl e ↦ ([], next, rw (e, collect), (refl, e))
  | inr (v, e) ↦
      let (out, end, run, spec) =
        collect_total fuel (next + 1) m (omega arith) (omega (arith, ahead_falls next m v e)) in
      let no_wrap : add_u64 next 1 ≡ next + 1 = omega arith in
      (
        record { slot = next; value = v } ∷ out,
        end,
        rw (e, collect) (rw no_wrap (rw run)),
        (refl, e, spec),
      )
]

abbrev pub result_of : List LearnedEntry → LearnResult
result_of [] = LearnResult.ignore
result_of (e ∷ out) = LearnResult.execute (e ∷ out)

module _ {S : Type 0} (ops : StorageOps S) (codecs : Codecs) (clock : Clock) where
  adu-after_snapshot :
      (m : KeyMap Value) (r : Result (KeyMap Value) × StorageHelper S) (l : Learner S)
      → (after_snapshot ops codecs clock m r l).adu ≡ l.adu
  adu-after_snapshot m (ok kept, h) l = refl
  adu-after_snapshot m (err e, h) l = refl

  execute_entries_lem :
      (out : List LearnedEntry) (next : Slot) (l : Learner S)
      → next ≡ l.adu + length out + 1
      → ((execute_entries ops codecs clock out next l).0 ≡ result_of out)
        × ((execute_entries ops codecs clock out next l).1.adu ≡ l.adu + length out)
  execute_entries_lem [] next l h = (refl, omega arith)
  execute_entries_lem (e ∷ out) next l h = (
    refl,
    omega (
      arith,
      adu-after_snapshot l.learned (maybe_snapshot ops codecs clock (next - 1) l.learned l.storage)
          (record l { adu = next - 1 }),
    ),
  )

  pub execute_collected_lem :
      (l : Learner S) (out : List LearnedEntry) (end : Slot)
      → collect (suc (length l.learned)) (l.adu + 1) l.learned ≡ some (out, end)
      → IsRun (l.adu + 1) out end l.learned
      → add_u64 l.adu 1 ≡ l.adu + 1
      → (l' : Learner S) × (to_be_executed ops codecs clock l ≡ some (result_of out, l'))
        × IsRun (l.adu + 1) out (l.adu + length out + 1) l.learned
        × (l'.adu ≡ l.adu + length out)
  unfolding to_be_executed
  execute_collected_lem l out end found spec no_wrap =
      let stop : end ≡ l.adu + length out + 1 =
        omega (arith, IsRun-end (l.adu + 1) end out l.learned spec) in
      let (reply, moved) = execute_entries_lem out end l stop in
      let l' : Learner S = (execute_entries ops codecs clock out end l).1 in
      (
        l',
        rw no_wrap (rw found (ap (λ (r : LearnResult). some (r, l')) reply)),
        subst (λ k. IsRun (l.adu + 1) out k l.learned) stop spec,
        moved,
      )

  -- While the slots stay below 2^64, the loop ends within its fuel. Its entries are those of the
  -- slots from `adu + 1` on without a gap, up to the first slot that is not learned; they are
  -- handed out (nothing is, if there are none), and `adu` moves to the last of them.
  pub to_be_executed_lem :
      (l : Learner S)
      → l.adu + length l.learned + 2 < u64_size
      → (out : List LearnedEntry) × (l' : Learner S) × (to_be_executed ops codecs clock l
          ≡ some (result_of out, l'))
        × IsRun (l.adu + 1) out (l.adu + length out + 1) l.learned
        × (l'.adu ≡ l.adu + length out)
  to_be_executed_lem l small =
      let (out, end, found, spec) =
        collect_total (suc (length l.learned)) (l.adu + 1) l.learned (omega arith)
          (omega (arith, count_if-le-length (λ (e : ℕ × Value). leb (l.adu + 1) e.0) l.learned)) in
      let (l', run, slots, moved) = execute_collected_lem l out end found spec (omega arith) in
      (out, l', run, slots, moved)
