-- ===== src/LeaderDetector/Election.antt =====
-- Who leads by paxos-wasm/core/leader-detector/src/leader-detector.rs: the highest id of a proposer
-- that is not suspected.
use wasm_master.Common.{
  ℕ, ◌≤◌, Bool, true, false, not, Option, none, some, List, [], ◌∷◌, ◌≡◌, refl, ◌⊎◌, inl, inr,
  arith, leb, select, has, All, Bool-cases,
}
use wasm_master.LeaderDetector.{max_of}

max_of-some :
    (seen : ℕ) (l : List ℕ)
    → (m : ℕ) × (max_of (some seen) l ≡ some m)
      × (seen ≤ m)
      × All (λ x. x ≤ m) l
      × ((m ≡ seen) ⊎ (has m l ≡ true))
max_of-some seen [] = (seen, refl, omega arith, tt, inl refl)
max_of-some seen (x ∷ l) = elim (Bool-cases (leb seen x)) [
  | inl le ↦
      let (m, e, b, a, o) = max_of-some x l in (m, rw le e, ground arith, (b, a), ground arith)
  | inr gt ↦
      let (m, e, b, a, o) = max_of-some seen l in (m, rw gt e, b, (ground arith, a), ground arith)
]

-- With `down` for the suspected ids: the highest id of the list that is not down, or none if all are.
abbrev pub IsLeader : (ℕ → Bool) → List ℕ → Option ℕ → Type 0
IsLeader down ids none = All (λ id. down id ≡ true) ids
IsLeader down ids (some m) =
    (has m ids ≡ true) × (down m ≡ false) × All (λ id. down id ≡ false → id ≤ m) ids

select_none :
    (down : ℕ → Bool) (ids : List ℕ)
    → select (λ id. not (down id)) ids ≡ []
    → All (λ id. down id ≡ true) ids
select_none down [] e = tt
select_none down (x ∷ ids) e = ground (arith, select_none down ids)

select_bounded :
    (down : ℕ → Bool) (m : ℕ) (ids : List ℕ)
    → All (λ id. id ≤ m) (select (λ id. not (down id)) ids)
    → All (λ id. down id ≡ false → id ≤ m) ids
select_bounded down m [] a = tt
select_bounded down m (x ∷ ids) a = elim (Bool-cases (down x)) [
  | inl d ↦ (λ u. ground arith, select_bounded down m ids (rw d at a))
  | inr u ↦ let (h, t) = rw u at a in (λ _. h, select_bounded down m ids t)
]

has_selected :
    (down : ℕ → Bool) (m : ℕ) (ids : List ℕ)
    → has m (select (λ id. not (down id)) ids) ≡ true
    → (has m ids ≡ true) × (down m ≡ false)
has_selected down m [] h = ground arith
has_selected down m (x ∷ ids) h = ground (arith, has_selected down m ids)

pub IsLeader-max :
    (down : ℕ → Bool) (l ids : List ℕ)
    → select (λ id. not (down id)) ids ≡ l
    → IsLeader down ids (max_of none l)
IsLeader-max down [] ids e = select_none down ids e
IsLeader-max down (x ∷ l) ids e =
    let (m, best, le, a, o) = max_of-some x l in
    let found : has m (x ∷ l) ≡ true = ground arith in
    let (listed, up) = has_selected down m ids (rw e found) in
    rw best (listed, up, select_bounded down m ids (rw e (le, a)))
