-- ===== src/Learner/Recovery.antt =====
-- `load_and_replay_state` of paxos-wasm/core/learner/src/learner.rs: where `adu` stands after it.
use wasm_master.Common.{
  ℕ, ◌+◌, ◌≤◌, ◌<◌, true, none, [], ◌∷◌, ◌≡◌, refl, subst, inl, inr, arith, leb, ◌==◌, All, All-imp,
  Bool-cases, is_some, u64_size, add_u64,
}
use wasm_master.Common.KeyMap
use wasm_master.Common.KeyMap.{KeyMap, IsSorted, Above, get-Above, Above-trans, keys}
use wasm_master.Types.{Slot, Value}
use wasm_master.Learner.Storage.{advance, skip_to, contiguous_end}

-- Every key leaves room for its successor in a u64.
abbrev pub IsSmall : KeyMap Value → Type 0
IsSmall m = All (λ (e : ℕ × Value). e.0 + 1 < u64_size) m

-- From `next` up to `end` every slot is there, and `end` is not.
pub record IsContiguous (next end : Slot) (m : KeyMap Value) : Type 0 where
  pub grows : next ≤ end
  pub full : (k : Slot) → next ≤ k → k < end → is_some (KeyMap.get k m) ≡ true
  pub gap : KeyMap.get end m ≡ none

IsContiguous-cons :
    (next j : Slot) (w : Value) (m : KeyMap Value) {end : Slot}
    → j ≡ next
    → IsContiguous (next + 1) end m
    → IsContiguous next end ((j, w) ∷ m)
unfolding KeyMap.get
IsContiguous-cons next j w m e c = record {
  grows = omega (arith, c.grows);
  full = λ k h h'. ground (arith, c.full k);
  gap = ground (arith, c.gap, c.grows);
}

-- A lower key in front changes nothing.
IsContiguous-low :
    (next j : Slot) (w : Value) (m : KeyMap Value) {end : Slot}
    → j < next
    → IsContiguous next end m
    → IsContiguous next end ((j, w) ∷ m)
unfolding KeyMap.get
IsContiguous-low next j w m e c = record {
  grows = c.grows;
  full = λ k h h'. ground (arith, c.full k);
  gap = ground (arith, c.gap, c.grows);
}

advance-IsContiguous :
    (next : Slot) (m : KeyMap Value)
    → IsSorted m
    → IsSmall m
    → All (λ (e : ℕ × Value). next ≤ e.0) m
    → IsContiguous next (advance next (keys m)) m
unfolding advance KeyMap.get
advance-IsContiguous next [] s small low = record {
  grows = omega arith;
  full = λ k h h'. absurd (omega arith);
  gap = refl;
}
advance-IsContiguous next ((j, w) ∷ m) s small low = elim (Bool-cases (j == next)) [
  | inl e ↦
      let same : j ≡ next = ground arith in
      let no_wrap : add_u64 next 1 ≡ next + 1 = omega arith in
      let higher : All (λ (x : ℕ × Value). next + 1 ≤ x.0) m = All-imp (λ x h. omega arith) m s.0 in
      let rest = advance-IsContiguous (next + 1) m s.1 small.1 higher in
      rw e (rw no_wrap (IsContiguous-cons next j w m same rest))
  | inr e ↦
      let apart : next < j = ground (arith, low.0) in
      rw e (record {
        grows = omega arith;
        full = λ k h h'. absurd (omega arith);
        gap = ground (arith, get-Above next m (Above-trans next j m apart s.0));
      })
]

skip_to-IsContiguous :
    (adu : Slot) (m : KeyMap Value)
    → IsSorted m
    → IsSmall m
    → adu + 1 < u64_size
    → IsContiguous (adu + 1) (advance (add_u64 adu 1) (skip_to adu (keys m))) m
unfolding skip_to KeyMap.get
skip_to-IsContiguous adu [] s small h =
    let no_wrap : add_u64 adu 1 ≡ adu + 1 = omega arith in
    rw no_wrap (advance-IsContiguous (adu + 1) [] tt tt tt)
skip_to-IsContiguous adu ((j, w) ∷ m) s small h =
    let no_wrap : add_u64 adu 1 ≡ adu + 1 = omega arith in
    elim (Bool-cases (leb j adu)) [
      | inl e ↦ rw e (
          IsContiguous-low (adu + 1) j w m (ground arith)
            (skip_to-IsContiguous adu m s.1 small.1 h))
      | inr e ↦
          let above : adu < j = ground arith in
          rw e (
            rw no_wrap (
              advance-IsContiguous (adu + 1) ((j, w) ∷ m) s small
                (omega arith, All-imp (λ x k. omega arith) m s.0)))
    ]

-- Loading ends with `adu` at the last slot of the run that starts after the loaded `adu`: it does
-- not fall, every slot up to it is learned, and the next one is not.
pub contiguous_end_lem :
    (adu : Slot) (m : KeyMap Value)
    → IsSorted m
    → IsSmall m
    → adu + 1 < u64_size
    → IsContiguous (adu + 1) (contiguous_end adu m + 1) m
unfolding contiguous_end
contiguous_end_lem adu m s small h =
    let c = skip_to-IsContiguous adu m s small h in
    subst (λ end. IsContiguous (adu + 1) end m) (omega (arith, c.grows)) c
