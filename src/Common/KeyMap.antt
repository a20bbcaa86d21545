-- ===== src/Common/KeyMap.antt =====
-- Maps with u64 keys: `BTreeMap<u64, V>` as the list of its entries in the order of the keys, with
-- the operations of it that the program uses. A `HashMap<u64, V>` is the same list; its iteration
-- order is unspecified, and no theorem about a hash map depends on the order of this list.
use Prim.Native.Nat.{ℕ, ◌<◌, ◌≤◌, suc}
use mathlib.Core.Path.{◌≡◌, refl, subst}
use mathlib.Core.Logic.{inl, inr}
use mathlib.Core.Bool.{Bool}
use mathlib.Core.List.{List, [], ◌∷◌, map, reverse}
use mathlib.Core.Option.{Option, none, some}
use native.Mathlib.Omega.{arith}
use wasm_master.Common.Tests.{ltb, leb, ◌==◌, if◌then◌else◌, Bool-cases}
use wasm_master.Common.Lists.{All, last, length, take}

abbrev pub KeyMap {ℓ} : Type ℓ → Type ℓ
KeyMap V = List (ℕ × V)

module _ {ℓ} {V : Type ℓ} where
  unfoldable pub get : ℕ → KeyMap V → Option V
  get k [] = none
  get k ((j, v) ∷ m) = let rest = get k m in if j == k then some v else rest

  unfoldable pub insert : ℕ → V → KeyMap V → KeyMap V
  insert k v [] = (k, v) ∷ []
  insert k v ((j, w) ∷ m) =
      let rest = insert k v m in
      if ltb k j then (k, v) ∷ (j, w) ∷ m else if j == k then (k, v) ∷ m else (j, w) ∷ rest

  unfoldable pub remove : ℕ → KeyMap V → KeyMap V
  remove k [] = []
  remove k ((j, w) ∷ m) = let rest = remove k m in if j == k then rest else (j, w) ∷ rest

  -- `retain(|&k, _| p(k))`; `range(a..)` keeps the keys from `a` on
  unfoldable pub retain : (ℕ → Bool) → KeyMap V → KeyMap V
  retain p [] = []
  retain p ((j, w) ∷ m) = let rest = retain p m in if p j then (j, w) ∷ rest else rest

  abbrev pub range_from : ℕ → KeyMap V → KeyMap V
  range_from a = retain (leb a)

  abbrev pub keys : KeyMap V → List ℕ
  keys = map λ e. e.0

  abbrev pub values : KeyMap V → List V
  values = map λ e. e.1

  -- `keys().next_back()`
  abbrev pub last_key : KeyMap V → Option ℕ
  last_key m = last (keys m)

  -- `iter().rev().take(n)`, collected into an ordered map: the entries of the last `n` keys
  abbrev pub last_entries : ℕ → KeyMap V → KeyMap V
  last_entries n m = reverse (take n (reverse m))

  pub get-insert :
      (k j : ℕ) (v : V) (m : KeyMap V) → get j (insert k v m) ≡ (if k == j then some v else get j m)
  unfolding get insert
  get-insert k j v [] = refl
  get-insert k j v ((i, w) ∷ m) = ground (arith, get-insert k j v m)

  pub get-remove :
      (k j : ℕ) (m : KeyMap V) → get j (remove k m) ≡ (if k == j then none else get j m)
  unfolding get remove
  get-remove k j [] = ground arith
  get-remove k j ((i, w) ∷ m) = ground (arith, get-remove k j m)

  pub get-retain :
      (p : ℕ → Bool) (j : ℕ) (m : KeyMap V) → get j (retain p m) ≡ (if p j then get j m else none)
  unfolding get retain
  get-retain p j [] = ground arith
  get-retain p j ((i, w) ∷ m) = ground (arith, get-retain p j m)

  pub get-nil : (j : ℕ) → get j [] ≡ none
  unfolding get
  get-nil j = refl

  -- Every key is above `k`.
  abbrev pub Above : ℕ → KeyMap V → Type 0
  Above k m = All (λ (e : ℕ × V). k < e.0) m

  -- The order of a `BTreeMap`.
  abbrev pub IsSorted : KeyMap V → Type 0
  IsSorted [] = Unit
  IsSorted ((j, w) ∷ m) = Above j m × IsSorted m

  pub Above-trans : (k j : ℕ) (m : KeyMap V) → k < j → Above j m → Above k m
  Above-trans k j [] h a = tt
  Above-trans k j ((i, w) ∷ m) h a = (omega arith, Above-trans k j m h a.1)

  pub Above-insert : (i k : ℕ) (v : V) (m : KeyMap V) → i < k → Above i m → Above i (insert k v m)
  unfolding insert
  Above-insert i k v [] h a = (h, tt)
  Above-insert i k v ((j, w) ∷ m) h a = ground (arith, Above-insert i k v m h a.1)

  pub insert-IsSorted : (k : ℕ) (v : V) (m : KeyMap V) → IsSorted m → IsSorted (insert k v m)
  unfolding insert
  insert-IsSorted k v [] s = (tt, tt)
  insert-IsSorted k v ((j, w) ∷ m) s =
      ground (arith, insert-IsSorted k v m s.1, Above-insert j k v m, Above-trans k j m)

  pub Above-retain : (p : ℕ → Bool) (i : ℕ) (m : KeyMap V) → Above i m → Above i (retain p m)
  unfolding retain
  Above-retain p i [] a = tt
  Above-retain p i ((j, w) ∷ m) a = ground (arith, Above-retain p i m a.1)

  pub retain-IsSorted : (p : ℕ → Bool) (m : KeyMap V) → IsSorted m → IsSorted (retain p m)
  unfolding retain
  retain-IsSorted p [] s = tt
  retain-IsSorted p ((j, w) ∷ m) s = ground (arith, retain-IsSorted p m s.1, Above-retain p j m s.0)

  pub get-Above : (k : ℕ) (m : KeyMap V) → Above k m → get k m ≡ none
  unfolding get
  get-Above k [] a = refl
  get-Above k ((j, w) ∷ m) a = ground (arith, get-Above k m a.1)

  pub length-insert-le : (k : ℕ) (v : V) (m : KeyMap V) → length (insert k v m) ≤ suc (length m)
  unfolding insert
  length-insert-le k v [] = omega arith
  length-insert-le k v ((j, w) ∷ m) = ground (arith, length-insert-le k v m)

module _ {ℓ κ} {V : Type ℓ} (P : ℕ × V → Type κ) where
  pub All-insert : (k : ℕ) (v : V) (m : KeyMap V) → P (k, v) → All P m → All P (insert k v m)
  unfolding insert
  All-insert k v [] p a = (p, tt)
  All-insert k v ((j, w) ∷ m) p a = ground (arith, All-insert k v m p a.1)

  pub All-retain : (p : ℕ → Bool) (m : KeyMap V) → All P m → All P (retain p m)
  unfolding retain
  All-retain p [] a = tt
  All-retain p ((j, w) ∷ m) a = ground (arith, All-retain p m a.1)

  pub All-get : (k : ℕ) (m : KeyMap V) {v : V} → All P m → get k m ≡ some v → P (k, v)
  unfolding get
  All-get k [] a e = cc
  All-get k ((j, w) ∷ m) {v} a e = elim (Bool-cases (j == k)) [
    | inl h ↦ subst P (let q : (j, w) ≡ (k, v) = ground arith in q) a.0
    | inr h ↦ All-get k m a.1 (ground arith)
  ]

pub ruleset map_laws = (get-nil, get-insert, get-remove, get-retain)
