-- ===== src/Proposer/Gather.antt =====
-- `slot_map` of `collect_accepted_values` in paxos-wasm/core/proposer/src/proposer.rs: for each
-- slot, the proposal with the highest ballot.
use wasm_master.Common.{
  ℕ, ◌+◌, ◌≤◌, ◌<◌, u64_size, true, Option, none, some, List, [], ◌∷◌, ◌≡◌, refl, ◌∙◌, ap, ◌≢◌, ◌⊎◌,
  inl, inr, arith, ltb, leb, ◌==◌, if◌then◌else◌, All, Bool-cases,
}
use wasm_master.Common.KeyMap
use wasm_master.Common.KeyMap.{
  KeyMap, get-nil, All-insert, All-get, get-insert, IsSorted, insert-IsSorted, Above,
}
use wasm_master.Types.{Slot, PValue}
use wasm_master.Proposer.{better, note, gather}

-- The best of `o` and of the proposals for the slot in a list.
abbrev best : Slot → Option PValue → List PValue → Option PValue
best s o [] = o
best s o (a ∷ rest) = best s (if a.slot == s then some (better o a) else o) rest

get-note :
    (min_slot s : Slot) (a : PValue) (m : KeyMap PValue)
    → min_slot ≤ s
    → KeyMap.get s (note min_slot a m)
      ≡ (if a.slot == s then some (better (KeyMap.get s m) a) else KeyMap.get s m)
unfolding note
get-note min_slot s a m h = elim (Bool-cases (a.slot == s)) [
  | inl e ↦
      let same : a.slot ≡ s = ground arith in
      let kept : leb min_slot a.slot ≡ true = ground arith in
      rw kept (
        get-insert a.slot s (better (KeyMap.get a.slot m) a) m
        ∙ rw e (ap (λ (k : Slot). some (better (KeyMap.get k m) a)) same))
  | inr e ↦ ground (arith, get-insert a.slot s (better (KeyMap.get a.slot m) a) m)
]

pub get-gather :
    (min_slot s : Slot) (m : KeyMap PValue) (l : List PValue)
    → min_slot ≤ s
    → KeyMap.get s (gather min_slot m l) ≡ best s (KeyMap.get s m) l
unfolding gather
get-gather min_slot s m [] h = refl
get-gather min_slot s m (a ∷ rest) h =
    get-gather min_slot s (note min_slot a m) rest h
    ∙ ap (λ (o : Option PValue). best s o rest) (get-note min_slot s a m h)

better-ge : (o : Option PValue) (a : PValue) → a.ballot ≤ (better o a).ballot
better-ge none a = omega arith
better-ge (some old) a = ground arith

better-ge_old : (old a : PValue) → old.ballot ≤ (better (some old) a).ballot
better-ge_old old a = ground arith

best-ge :
    (s : Slot) (c : PValue) (l : List PValue)
    → (b : PValue) × (best s (some c) l ≡ some b) × (c.ballot ≤ b.ballot)
best-ge s c [] = (c, refl, omega arith)
best-ge s c (a ∷ rest) = elim (Bool-cases (a.slot == s)) [
  | inl e ↦
      let (b, found, h) = best-ge s (better (some c) a) rest in
      (b, rw (e, best) found, omega (arith, better-ge_old c a))
  | inr e ↦ let (b, found, h) = best-ge s c rest in (b, rw (e, best) found, h)
]

abbrev pub Occurs : PValue → List PValue → Type 0
Occurs b [] = ⊥
Occurs b (a ∷ rest) = (a ≡ b) ⊎ Occurs b rest

-- Among the proposals of the list for the slot, `b` has the highest ballot; with `none` there are
-- no proposals for the slot.
abbrev pub IsHighest : Slot → Option PValue → List PValue → Type 0
IsHighest s none l = All (λ (a : PValue). a.slot ≢ s) l
IsHighest s (some b) l =
    (b.slot ≡ s) × Occurs b l × All (λ (a : PValue). a.slot ≡ s → a.ballot ≤ b.ballot) l

best-bounds :
    (s : Slot) (o : Option PValue) (l : List PValue) (b : PValue)
    → best s o l ≡ some b
    → All (λ (a : PValue). a.slot ≡ s → a.ballot ≤ b.ballot) l
best-bounds s o [] b e = tt
best-bounds s o (a ∷ rest) b e = elim (Bool-cases (a.slot == s)) [
  | inl hit ↦
      let e' : best s (some (better o a)) rest ≡ some b = rw (hit, best) at e in
      let (c, found, h) = best-ge s (better o a) rest in
      (λ _. ground (arith, better-ge o a), best-bounds s (some (better o a)) rest b e')
  | inr miss ↦
      let e' : best s o rest ≡ some b = rw (miss, best) at e in
      (λ same. absurd (ground arith), best-bounds s o rest b e')
]

from_better :
    (s : Slot) (o : Option PValue) (a : PValue) (rest : List PValue) (b : PValue)
    → a.slot ≡ s
    → some (better o a) ≡ some b
    → (o ≡ some b) ⊎ ((b.slot ≡ s) × Occurs b (a ∷ rest))
from_better s none a rest b hit e =
    let same : a ≡ b = ground arith in inr (rw (← same) hit, inl same)
from_better s (some old) a rest b hit e = elim (Bool-cases (ltb old.ballot a.ballot)) [
  | inl h ↦ let same : a ≡ b = cc (rw (h, better) at e) in inr (rw (← same) hit, inl same)
  | inr h ↦ inl (rw (h, better) at e)
]

best-from :
    (s : Slot) (o : Option PValue) (l : List PValue) (b : PValue)
    → best s o l ≡ some b
    → (o ≡ some b) ⊎ ((b.slot ≡ s) × Occurs b l)
best-from s o [] b e = inl e
best-from s o (a ∷ rest) b e = elim (Bool-cases (a.slot == s)) [
  | inl hit ↦
      let e' : best s (some (better o a)) rest ≡ some b = rw (hit, best) at e in
      elim (best-from s (some (better o a)) rest b e') [
        | inl now ↦ from_better s o a rest b (ground arith) now
        | inr later ↦ inr (later.0, inr later.1)
      ]
  | inr miss ↦
      let e' : best s o rest ≡ some b = rw (miss, best) at e in
      elim (best-from s o rest b e') [ inl now ↦ inl now | inr later ↦ inr (later.0, inr later.1) ]
]

best-none :
    (s : Slot) (o : Option PValue) (l : List PValue)
    → best s o l ≡ none
    → All (λ (a : PValue). a.slot ≢ s) l
best-none s o [] e = tt
best-none s o (a ∷ rest) e = elim (Bool-cases (a.slot == s)) [
  | inl hit ↦
      let e' : best s (some (better o a)) rest ≡ none = rw (hit, best) at e in
      let (c, found, h) = best-ge s (better o a) rest in absurd (cc)
  | inr miss ↦
      let e' : best s o rest ≡ none = rw (miss, best) at e in
      (λ same. ground arith, best-none s o rest e')
]

best-IsHighest :
    (s : Slot) (l : List PValue) (r : Option PValue) → best s none l ≡ r → IsHighest s r l
best-IsHighest s l none e = best-none s none l e
best-IsHighest s l (some b) e =
    let (slot, occurs) : (b.slot ≡ s) × Occurs b l = elim (best-from s none l b e) [
      | inl h ↦ absurd (cc)
      | inr h ↦ h
    ] in
    (slot, occurs, best-bounds s none l b e)

-- From an empty map, the entry of each slot from `min_slot` on is the highest one listed.
pub gather-IsHighest :
    (min_slot s : Slot) (l : List PValue)
    → min_slot ≤ s
    → IsHighest s (KeyMap.get s (gather min_slot [] l)) l
gather-IsHighest min_slot s l h =
    rw (get-gather min_slot s [] l h) (rw get-nil (best-IsHighest s l (best s none l) refl))

-- An entry of `slot_map`: under its own slot, not below `min_slot`, with room for a successor.
abbrev pub IsPlaced : Slot → ℕ × PValue → Type 0
IsPlaced min_slot e = (e.1.slot ≡ e.0) × (min_slot ≤ e.0) × (e.0 + 1 < u64_size)

slot-better :
    (o : Option PValue) (a : PValue)
    → ((old : PValue) → o ≡ some old → old.slot ≡ a.slot)
    → (better o a).slot ≡ a.slot
slot-better none a h = refl
slot-better (some old) a h = ground (arith, h old)

note-IsPlaced :
    (min_slot : Slot) (a : PValue) (m : KeyMap PValue)
    → a.slot + 1 < u64_size
    → All (IsPlaced min_slot) m
    → All (IsPlaced min_slot) (note min_slot a m)
unfolding note
note-IsPlaced min_slot a m small h = elim (Bool-cases (leb min_slot a.slot)) [
  | inl e ↦ rw e (
      All-insert (IsPlaced min_slot) a.slot (better (KeyMap.get a.slot m) a) m
        (
          slot-better (KeyMap.get a.slot m) a
              (λ old found. (All-get (IsPlaced min_slot) a.slot m h found).0),
          ground arith,
          small,
        )
        h)
  | inr e ↦ rw e h
]

note-IsSorted :
    (min_slot : Slot) (a : PValue) (m : KeyMap PValue) → IsSorted m → IsSorted (note min_slot a m)
unfolding note
note-IsSorted min_slot a m s =
    ground (arith, insert-IsSorted a.slot (better (KeyMap.get a.slot m) a) m)

pub gather-IsPlaced :
    (min_slot : Slot) (m : KeyMap PValue) (l : List PValue)
    → All (λ (a : PValue). a.slot + 1 < u64_size) l
    → IsSorted m
    → All (IsPlaced min_slot) m
    → IsSorted (gather min_slot m l) × All (IsPlaced min_slot) (gather min_slot m l)
unfolding gather
gather-IsPlaced min_slot m [] small s h = (s, h)
gather-IsPlaced min_slot m (a ∷ rest) small s h =
    gather-IsPlaced min_slot (note min_slot a m) rest small.1 (note-IsSorted min_slot a m s)
      (note-IsPlaced min_slot a m small.0 h)
