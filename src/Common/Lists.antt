-- ===== src/Common/Lists.antt =====
-- Lists measured by native numbers, with Boolean filters and counts.
use Prim.Native.Nat.{ℕ, zero, suc, ◌+◌, ◌≤◌}
use mathlib.Core.Path.{◌≡◌, refl, ap, subst}
use mathlib.Core.Logic.{inl, inr}
use mathlib.Core.Bool.{Bool, true, false}
use mathlib.Core.List.{List, [], ◌∷◌, ◌++◌}
use mathlib.Core.Option.{Option, none, some}
use native.Mathlib.Omega.{arith}
use wasm_master.Common.Tests.{if◌then◌else◌, ◌==◌, Bool-cases}

module _ {ℓ} {A : Type ℓ} where
  abbrev pub length : List A → ℕ
  length [] = 0
  length (x ∷ xs) = suc (length xs)

  pub length-append : (xs ys : List A) → length (xs ++ ys) ≡ length xs + length ys
  length-append [] ys = omega arith
  length-append (x ∷ xs) ys = omega (arith, length-append xs ys)

  -- `iter().filter(p)`, with a Boolean test.
  abbrev pub select : (A → Bool) → List A → List A
  select p [] = []
  select p (x ∷ xs) = let rest = select p xs in if p x then x ∷ rest else rest

  -- `iter().filter(p).count()`
  abbrev pub count_if : (A → Bool) → List A → ℕ
  count_if p [] = 0
  count_if p (x ∷ xs) = let rest = count_if p xs in if p x then suc rest else rest

  pub count_if-le-length : (p : A → Bool) (xs : List A) → count_if p xs ≤ length xs
  count_if-le-length p [] = omega arith
  count_if-le-length p (x ∷ xs) = ground (arith, count_if-le-length p xs)

  abbrev pub All {κ} : (A → Type κ) → List A → Type κ
  All P [] = Unit
  All P (x ∷ xs) = P x × All P xs

  pub All-append {κ} : (P : A → Type κ) (xs ys : List A) → All P xs → All P ys → All P (xs ++ ys)
  All-append P [] ys h k = k
  All-append P (x ∷ xs) ys h k = (h.0, All-append P xs ys h.1 k)

  pub All-split {κ} : (P : A → Type κ) (xs ys : List A) → All P (xs ++ ys) → All P xs × All P ys
  All-split P [] ys h = (tt, h)
  All-split P (x ∷ xs) ys h = let (left, right) = All-split P xs ys h.1 in ((h.0, left), right)

  abbrev pub take : ℕ → List A → List A
  take zero xs = []
  take (suc n) [] = []
  take (suc n) (x ∷ xs) = x ∷ take n xs

  abbrev pub drop : ℕ → List A → List A
  drop zero xs = xs
  drop (suc n) [] = []
  drop (suc n) (x ∷ xs) = drop n xs

  pub take-drop : (n : ℕ) (xs : List A) → take n xs ++ drop n xs ≡ xs
  take-drop zero xs = refl
  take-drop (suc n) [] = refl
  take-drop (suc n) (x ∷ xs) = ap (λ l. x ∷ l) (take-drop n xs)

  pub length-take : (n : ℕ) (xs : List A) → n ≤ length xs → length (take n xs) ≡ n
  length-take zero xs h = omega arith
  length-take (suc n) [] h = absurd (omega arith)
  length-take (suc n) (x ∷ xs) h = omega (arith, length-take n xs (omega arith))

  -- `last()`
  abbrev pub last : List A → Option A
  last [] = none
  last (x ∷ []) = some x
  last (x ∷ y ∷ ys) = last (y ∷ ys)

  pub last-snoc : (xs : List A) (x : A) → last (xs ++ (x ∷ [])) ≡ some x
  last-snoc [] x = refl
  last-snoc (y ∷ []) x = refl
  last-snoc (y ∷ z ∷ zs) x = last-snoc (z ∷ zs) x

module _ {ℓ} {A : Type ℓ} where
  -- The list with `f` applied to the element at an index, if there is one.
  abbrev pub update_at : ℕ → (A → A) → List A → List A
  update_at i f [] = []
  update_at zero f (x ∷ xs) = f x ∷ xs
  update_at (suc i) f (x ∷ xs) = x ∷ update_at i f xs

  pub length-update_at : (i : ℕ) (f : A → A) (xs : List A) → length (update_at i f xs) ≡ length xs
  length-update_at i f [] = refl
  length-update_at zero f (x ∷ xs) = refl
  length-update_at (suc i) f (x ∷ xs) = ap suc (length-update_at i f xs)

  -- Counting with a test that survives `f` gives no less after the update.
  pub count_if-update_at :
      (p : A → Bool) (i : ℕ) (f : A → A) (xs : List A)
      → All (λ x. p x ≡ true → p (f x) ≡ true) xs
      → count_if p xs ≤ count_if p (update_at i f xs)
  count_if-update_at p i f [] k = omega arith
  count_if-update_at p zero f (x ∷ xs) k = ground arith
  count_if-update_at p (suc i) f (x ∷ xs) k = ground (arith, count_if-update_at p i f xs k.1)

  -- Two tests that no element passes both of count disjoint elements.
  pub count_if_disjoint :
      (p q : A → Bool)
      → ((x : A) → p x ≡ true → q x ≡ false)
      → (xs : List A) → count_if p xs + count_if q xs ≤ length xs
  count_if_disjoint p q d [] = omega arith
  count_if_disjoint p q d (x ∷ xs) = ground (arith, d x, count_if_disjoint p q d xs)

  pub All-update_at {κ} :
      (P : A → Type κ) (i : ℕ) (f : A → A) (xs : List A)
      → ((x : A) → P x → P (f x))
      → All P xs
      → All P (update_at i f xs)
  All-update_at P i f [] k h = tt
  All-update_at P zero f (x ∷ xs) k h = (k x h.0, h.1)
  All-update_at P (suc i) f (x ∷ xs) k h = (h.0, All-update_at P i f xs k h.1)

  pub All-imp {κ μ} :
      {P : A → Type κ} {Q : A → Type μ}
      → ((x : A) → P x → Q x)
      → (xs : List A) → All P xs
      → All Q xs
  All-imp f [] h = tt
  All-imp f (x ∷ xs) h = (f x h.0, All-imp f xs h.1)

module _ {ℓ} {A : Type ℓ} where
  pub All-both {κ μ ν} :
      {P : A → Type κ} {Q : A → Type μ} {R : A → Type ν}
      → ((x : A) → P x → Q x → R x)
      → (xs : List A) → All P xs
      → All Q xs
      → All R xs
  All-both f [] h k = tt
  All-both f (x ∷ xs) h k = (f x h.0 k.0, All-both f xs h.1 k.1)

-- `contains`, on numbers
abbrev pub has : ℕ → List ℕ → Bool
has k [] = false
has k (x ∷ xs) = let rest = has k xs in if x == k then true else rest

pub All-has : (xs : List ℕ) → All (λ k. has k xs ≡ true) xs
All-has [] = tt
All-has (x ∷ xs) = (ground arith, All-imp (λ k h. ground arith) xs (All-has xs))

pub All-of_has {κ} : (k : ℕ) (P : ℕ → Type κ) (xs : List ℕ) → All P xs → has k xs ≡ true → P k
All-of_has k P [] h e = cc
All-of_has k P (x ∷ xs) h e = elim (Bool-cases (x == k)) [
  | inl same ↦ subst P (ground arith) h.0
  | inr other ↦ All-of_has k P xs h.1 (ground arith)
]
