-- ===== src/Proposer/Collect.antt =====
-- What `collect_accepted_values` of paxos-wasm/core/proposer/src/proposer.rs returns.
use wasm_master.Common.{
  ℕ, zero, suc, ◌+◌, ◌-◌, ◌≤◌, ◌<◌, u64_size, add_u64, true, false, none, some, List, [], ◌∷◌, ◌++◌,
  ◌≡◌, refl, ap, ◌≢◌, subst, ◌⊎◌, inl, inr, arith, ltb, ◌==◌, All, All-imp, All-append, All-both,
  Bool-cases, Option-cases, length, length-append,
}
use wasm_master.Common.KeyMap
use wasm_master.Common.KeyMap.{KeyMap, IsSorted, Above, get-Above, Above-trans}
use wasm_master.Types.{Slot, Ballot, PValue, Promise}
use wasm_master.Proposer.{Proposer, gather, no_ops, fill, all_accepted, collect_accepted_values}
use wasm_master.Proposer.Gather.{IsPlaced, IsHighest, Occurs, gather-IsPlaced, gather-IsHighest}

-- The entries stand in the slots from `expected` on, without a gap.
abbrev pub UpFrom : Slot → List PValue → Type 0
UpFrom expected [] = Unit
UpFrom expected (p ∷ ps) = (p.slot ≡ expected) × UpFrom (expected + 1) ps

UpFrom-append :
    (expected : Slot) (xs ys : List PValue)
    → UpFrom expected xs
    → UpFrom (expected + length xs) ys
    → UpFrom expected (xs ++ ys)
UpFrom-append expected [] ys h k = subst (λ e. UpFrom e ys) (omega arith) k
UpFrom-append expected (x ∷ xs) ys h k =
    (h.0, UpFrom-append (expected + 1) xs ys h.1 (subst (λ e. UpFrom e ys) (omega arith) k))

length-no_ops : (ballot : Ballot) (n : ℕ) (expected : Slot) → length (no_ops ballot n expected) ≡ n
unfolding no_ops
length-no_ops ballot zero expected = refl
length-no_ops ballot (suc n) expected = ap suc (length-no_ops ballot n (expected + 1))

no_ops-UpFrom :
    (ballot : Ballot) (n : ℕ) (expected : Slot) → UpFrom expected (no_ops ballot n expected)
unfolding no_ops
no_ops-UpFrom ballot zero expected = tt
no_ops-UpFrom ballot (suc n) expected = (refl, no_ops-UpFrom ballot n (expected + 1))

-- The filler of a gap.
abbrev pub no_op : Ballot → Slot → PValue
no_op ballot slot = record { slot = slot; ballot = ballot; value = none }

-- An entry from `expected` on is that of the map, or a no-op where the map has none.
abbrev IsCarried : Ballot → Slot → KeyMap PValue → PValue → Type 0
IsCarried ballot expected m p =
    (expected ≤ p.slot)
    × ((KeyMap.get p.slot m ≡ some p) ⊎ ((KeyMap.get p.slot m ≡ none) × (p ≡ no_op ballot p.slot)))

no_ops-IsCarried :
    (ballot : Ballot) (n : ℕ) (expected low bound : Slot) (m : KeyMap PValue)
    → low ≤ expected
    → expected + n ≤ bound
    → ((k : Slot) → k < bound → KeyMap.get k m ≡ none)
    → All (IsCarried ballot low m) (no_ops ballot n expected)
unfolding no_ops
no_ops-IsCarried ballot zero expected low bound m h h' f = tt
no_ops-IsCarried ballot (suc n) expected low bound m h h' f = (
  (h, inr (f expected (omega arith), refl)),
  no_ops-IsCarried ballot n (expected + 1) low bound m (omega arith) (omega arith) f,
)

-- The map has an entry in the slot of this one or in a later one.
abbrev IsBelow : KeyMap PValue → PValue → Type 0
IsBelow m p = (k : Slot) × (v : PValue) × (KeyMap.get k m ≡ some v) × (p.slot ≤ k)

IsBelow-cons :
    (slot : Slot) (pv : PValue) (m : KeyMap PValue) (p : PValue)
    → IsBelow m p
    → IsBelow ((slot, pv) ∷ m) p
unfolding KeyMap.get
IsBelow-cons slot pv m p (k, v, e, h) = elim (Bool-cases (slot == k)) [
  | inl same ↦ (k, pv, rw same refl, h)
  | inr other ↦ (k, v, rw other e, h)
]

no_ops-IsBelow :
    (ballot : Ballot) (n : ℕ) (expected k : Slot) (m : KeyMap PValue) (v : PValue)
    → KeyMap.get k m ≡ some v
    → expected + n ≤ k
    → All (IsBelow m) (no_ops ballot n expected)
unfolding no_ops
no_ops-IsBelow ballot zero expected k m v e h = tt
no_ops-IsBelow ballot (suc n) expected k m v e h =
    ((k, v, e, omega arith), no_ops-IsBelow ballot n (expected + 1) k m v e (omega arith))

-- What `fill` makes of an ordered map.
record IsFilled (ballot : Ballot) (expected : Slot) (m : KeyMap PValue) (r : List PValue)
    : Type 0 where
  slots : UpFrom expected r
  carried : All (IsCarried ballot expected m) r
  covers : (k : Slot) (v : PValue) → KeyMap.get k m ≡ some v → k < expected + length r
  bounded : All (IsBelow m) r

IsCarried-cons :
    (ballot : Ballot) (expected slot : Slot) (pv : PValue) (m : KeyMap PValue) (p : PValue)
    → expected ≤ slot
    → IsCarried ballot (slot + 1) m p
    → IsCarried ballot expected ((slot, pv) ∷ m) p
unfolding KeyMap.get
IsCarried-cons ballot expected slot pv m p h c =
    let miss : (slot == p.slot) ≡ false = ground arith in (omega arith, rw miss c.1)

IsFilled-cons :
    (ballot : Ballot) (expected slot : Slot) (pv : PValue) (m : KeyMap PValue) (r : List PValue)
    → IsPlaced expected (slot, pv)
    → Above slot m
    → IsFilled ballot (slot + 1) m r
    → IsFilled ballot expected
        ((slot, pv) ∷ m)
        (no_ops ballot (slot - expected) expected ++ (pv ∷ r))
unfolding KeyMap.get
IsFilled-cons ballot expected slot pv m r h above f =
    let gap = slot - expected in
    let start : expected + length (no_ops ballot gap expected) ≡ slot =
      omega (arith, length-no_ops ballot gap expected) in
    let hit : (slot == pv.slot) ≡ true = ground arith in
    let first : KeyMap.get slot ((slot, pv) ∷ m) ≡ some pv = ground arith in
    let size = length-append (no_ops ballot gap expected) (pv ∷ r) in
    record {
      slots =
          UpFrom-append expected (no_ops ballot gap expected) (pv ∷ r)
            (no_ops-UpFrom ballot gap expected) (rw start (h.0, f.slots));
      carried =
          All-append _ (no_ops ballot gap expected) (pv ∷ r)
            (no_ops-IsCarried ballot gap expected expected slot ((slot, pv) ∷ m) (omega arith)
              (omega arith) (λ k lt. ground (arith, get-Above k m (Above-trans k slot m lt above))))
            (
              (omega arith, inl (rw hit)),
              All-imp (λ p c. IsCarried-cons ballot expected slot pv m p h.1 c) r f.carried,
            );
      covers = λ k v e. ground (arith, f.covers k v, size);
      bounded =
          All-append _ (no_ops ballot gap expected) (pv ∷ r)
            (no_ops-IsBelow ballot gap expected slot ((slot, pv) ∷ m) pv first (omega arith))
            (
              (slot, pv, first, omega (arith, h.0)),
              All-imp (λ p b. IsBelow-cons slot pv m p b) r f.bounded,
            );
    }

fill-IsFilled :
    (ballot : Ballot) (expected : Slot) (m : KeyMap PValue)
    → IsSorted m
    → All (IsPlaced expected) m
    → IsFilled ballot expected m (fill ballot expected m)
unfolding fill KeyMap.get
fill-IsFilled ballot expected [] s h = record {
  slots = tt;
  carried = tt;
  covers = λ k v e. absurd (cc);
  bounded = tt;
}
fill-IsFilled ballot expected ((slot, pv) ∷ m) s h =
    let no_wrap : add_u64 slot 1 ≡ slot + 1 = ground (arith, h.0) in
    let placed : All (IsPlaced (slot + 1)) m =
      All-both (λ e above k. (k.0, omega arith, k.2)) m s.0 h.1 in
    rw no_wrap (
      IsFilled-cons ballot expected slot pv m _ h.0 s.0
        (fill-IsFilled ballot (slot + 1) m s.1 placed))

carried-IsHighest :
    (ballot : Ballot) (min_slot : Slot) (l : List PValue) (e : PValue)
    → IsCarried ballot min_slot (gather min_slot [] l) e
    → IsHighest e.slot (some e) l ⊎ (IsHighest e.slot none l × (e ≡ no_op ballot e.slot))
carried-IsHighest ballot min_slot l e c =
    let best = gather-IsHighest min_slot e.slot l c.0 in
    elim c.1 [
      | inl found ↦ inl (rw found at best)
      | inr (missing, filler) ↦ inr (rw missing at best, filler)
    ]

All-Occurs {κ} :
    {P : PValue → Type κ} (l : List PValue) → ((a : PValue) → Occurs a l → P a) → All P l
All-Occurs [] f = tt
All-Occurs (a ∷ rest) f = (f a (inl refl), All-Occurs rest (λ b h. f b (inr h)))

none_listed :
    (a : PValue) (l : List PValue) (s : Slot)
    → All (λ (b : PValue). b.slot ≢ s) l
    → Occurs a l
    → a.slot ≢ s
none_listed a [] s h o = absurd o
none_listed a (b ∷ rest) s h (inl e) = rw (← e) h.0
none_listed a (b ∷ rest) s h (inr o) = none_listed a rest s h.1 o

listed_covered :
    (min_slot : Slot) (a : PValue) (l : List PValue) {bound : Slot}
    → min_slot ≤ a.slot
    → Occurs a l
    → ((k : Slot) (v : PValue) → KeyMap.get k (gather min_slot [] l) ≡ some v → k < bound)
    → a.slot < bound
listed_covered min_slot a l h o f = elim (Option-cases (KeyMap.get a.slot (gather min_slot [] l))) [
  | inl e ↦
      let best : IsHighest a.slot none l = rw e at (gather-IsHighest min_slot a.slot l h) in
      absurd (none_listed a l a.slot best o refl)
  | inr (v, e) ↦ f a.slot v e
]

-- An entry of the map, at or after `min_slot`, is one of the listed proposals.
below_listed :
    (min_slot : Slot) (l : List PValue) (e : PValue)
    → min_slot ≤ e.slot
    → IsBelow (gather min_slot [] l) e
    → (a : PValue) × Occurs a l × (e.slot ≤ a.slot)
below_listed min_slot l e h (k, v, found, below) =
    let best : IsHighest k (some v) l = rw found at (gather-IsHighest min_slot k l (omega arith)) in
    (v, best.1, omega (arith, best.0))

-- A late or repeated call, for a slot that proposals have passed, collects nothing and changes
-- nothing. Any other moves the slot counter to just before `min_slot` and returns one entry for
-- each slot from `min_slot` on, without a gap, up to the highest slot that the promises list as
-- accepted and not beyond it: the entry is the listed one with the highest ballot, or a no-op of the current ballot
-- if none is listed for the slot.
pub collect_accepted_values_lem :
    {S : Type 0} (min_slot : Slot) (promises : List Promise) (p : Proposer S)
    → All (λ (a : PValue). a.slot + 1 < u64_size) (all_accepted promises)
    → let (r, p') = collect_accepted_values min_slot promises p in
      let l = all_accepted promises in
      ((min_slot < p.current_slot) × (r ≡ []) × (p' ≡ p))
      ⊎ ((p.current_slot ≤ min_slot)
          × (p' ≡ record p { current_slot = min_slot - 1 })
          × UpFrom min_slot r
          × All
              (λ (e : PValue).
                IsHighest e.slot (some e) l
                ⊎ (IsHighest e.slot none l × (e ≡ no_op p.current_ballot e.slot)))
              r
          × All (λ (a : PValue). min_slot ≤ a.slot → a.slot < min_slot + length r) l
          × All (λ (e : PValue). (a : PValue) × Occurs a l × (e.slot ≤ a.slot)) r)
unfolding collect_accepted_values
collect_accepted_values_lem min_slot promises p small =
    elim (Bool-cases (ltb min_slot p.current_slot)) [
      | inl late ↦ rw late (inl (ground arith, refl, refl))
      | inr early ↦
          let l = all_accepted promises in
          let m = gather min_slot [] l in
          let (sorted, placed) = gather-IsPlaced min_slot [] l small tt tt in
          let f = fill-IsFilled p.current_ballot min_slot m sorted placed in
          rw early (
            inr (
              ground arith,
              refl,
              f.slots,
              All-imp (carried-IsHighest p.current_ballot min_slot l) _ f.carried,
              All-Occurs l (λ a found h. listed_covered min_slot a l h found f.covers),
              All-both (λ e c b. below_listed min_slot l e c.0 b) _ f.carried f.bounded,
            ))
    ]
