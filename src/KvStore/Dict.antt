-- ===== src/KvStore/Dict.antt =====
-- `HashMap<String, String>` as paxos-wasm/core/kv-store/src/kv-store.rs uses it: the list of its
-- entries, one for each key. The order of a hash map is unspecified, and no theorem depends on
-- the order of this list.
use text.Mathlib.Text.{◌==◌ as str_eq}
use text.Mathlib.TextEquality.{eq_iff}
use wasm_master.Common.{
  String, Option, none, some, List, [], ◌∷◌, ◌≡◌, refl, arith, ◌≢◌, if◌then◌else◌, All,
}

abbrev pub Pairs : Type 0
Pairs = List (String × String)

unfoldable pub get : String → Pairs → Option String
get k [] = none
get k ((j, v) ∷ m) = let rest = get k m in if str_eq j k then some v else rest

unfoldable pub insert : String → String → Pairs → Pairs
insert k v [] = (k, v) ∷ []
insert k v ((j, w) ∷ m) =
    let rest = insert k v m in if str_eq j k then (k, v) ∷ m else (j, w) ∷ rest

unfoldable pub remove : String → Pairs → Pairs
remove k [] = []
remove k ((j, w) ∷ m) = let rest = remove k m in if str_eq j k then rest else (j, w) ∷ rest

pub get-insert :
    (k j v : String) (m : Pairs) → get j (insert k v m) ≡ (if str_eq k j then some v else get j m)
unfolding get insert
get-insert k j v [] = refl
get-insert k j v ((i, w) ∷ m) =
    ground (arith, get-insert k j v m, eq_iff i k, eq_iff i j, eq_iff k j)

pub get-remove :
    (k j : String) (m : Pairs) → get j (remove k m) ≡ (if str_eq k j then none else get j m)
unfolding get remove
get-remove k j [] = ground arith
get-remove k j ((i, w) ∷ m) = ground (arith, get-remove k j m, eq_iff i k, eq_iff i j, eq_iff k j)

pub get-nil : (j : String) → get j [] ≡ none
unfolding get
get-nil j = refl

-- No key stands twice.
abbrev pub IsAbsent : String → Pairs → Type 0
IsAbsent k m = All (λ (e : String × String). e.0 ≢ k) m

abbrev pub HasKeysOnce : Pairs → Type 0
HasKeysOnce [] = Unit
HasKeysOnce ((j, w) ∷ m) = IsAbsent j m × HasKeysOnce m

IsAbsent-insert : (i k v : String) (m : Pairs) → k ≢ i → IsAbsent i m → IsAbsent i (insert k v m)
unfolding insert
IsAbsent-insert i k v [] h a = (h, tt)
IsAbsent-insert i k v ((j, w) ∷ m) h a = ground (arith, IsAbsent-insert i k v m h a.1)

pub insert-HasKeysOnce : (k v : String) (m : Pairs) → HasKeysOnce m → HasKeysOnce (insert k v m)
unfolding insert
insert-HasKeysOnce k v [] h = (tt, tt)
insert-HasKeysOnce k v ((j, w) ∷ m) h =
    ground (arith, insert-HasKeysOnce k v m h.1, IsAbsent-insert j k v m, eq_iff j k)

IsAbsent-remove : (i k : String) (m : Pairs) → IsAbsent i m → IsAbsent i (remove k m)
unfolding remove
IsAbsent-remove i k [] a = tt
IsAbsent-remove i k ((j, w) ∷ m) a = ground (arith, IsAbsent-remove i k m a.1)

pub remove-HasKeysOnce : (k : String) (m : Pairs) → HasKeysOnce m → HasKeysOnce (remove k m)
unfolding remove
remove-HasKeysOnce k [] h = tt
remove-HasKeysOnce k ((j, w) ∷ m) h =
    ground (arith, remove-HasKeysOnce k m h.1, IsAbsent-remove j k m h.0)

pub get-IsAbsent : (k : String) (m : Pairs) → IsAbsent k m → get k m ≡ none
unfolding get
get-IsAbsent k [] a = refl
get-IsAbsent k ((j, w) ∷ m) a = ground (arith, get-IsAbsent k m a.1, eq_iff j k)
