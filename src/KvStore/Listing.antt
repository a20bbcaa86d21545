-- ===== src/KvStore/Listing.antt =====
-- `get_state` of paxos-wasm/core/kv-store/src/kv-store.rs: the pairs of the store as a list.
use text.Mathlib.Text.{◌==◌ as str_eq}
use text.Mathlib.TextEquality.{eq_iff}
use wasm_master.Common.{
  String, Bool, false, Option, none, some, List, [], ◌∷◌, ◌≡◌, refl, arith, map, ◌&&◌,
  if◌then◌else◌, count_if,
}
use wasm_master.Types.{KvPair, Cmd}
use wasm_master.Types.Operation.{get, set, remove, clear, demo}
use wasm_master.KvStore.{KvStore, new, apply, get_state, pair}
use wasm_master.KvStore.Dict
use wasm_master.KvStore.Dict.{
  Pairs, HasKeysOnce, IsAbsent, insert-HasKeysOnce, remove-HasKeysOnce, get-IsAbsent,
}
use wasm_master.KvStore.Refinement.{apply_all}

apply-HasKeysOnce : (c : Cmd) (s : KvStore) → HasKeysOnce s.store → HasKeysOnce (apply c s).1.store
unfolding apply
apply-HasKeysOnce none s h = h
apply-HasKeysOnce (some (get key)) s h = h
apply-HasKeysOnce (some (set kv)) s h = insert-HasKeysOnce kv.key kv.value s.store h
apply-HasKeysOnce (some (remove key)) s h = remove-HasKeysOnce key s.store h
apply-HasKeysOnce (some clear) s h = tt
apply-HasKeysOnce (some demo) s h = h

apply_all-HasKeysOnce :
    (cs : List Cmd) (s : KvStore) → HasKeysOnce s.store → HasKeysOnce (apply_all cs s).1.store
unfolding apply_all
apply_all-HasKeysOnce [] s h = h
apply_all-HasKeysOnce (c ∷ cs) s h =
    apply_all-HasKeysOnce cs (apply c s).1 (apply-HasKeysOnce c s h)

-- The pairs of a list with the key `k`.
abbrev pub of_key : String → KvPair → Bool
of_key k kv = str_eq kv.key k

abbrev pub is_pair : String → String → KvPair → Bool
is_pair k v kv = str_eq kv.key k && str_eq kv.value v

abbrev pub holds : Option String → String → Bool
holds none v = false
holds (some w) v = str_eq w v

count_absent : (k v : String) (m : Pairs) → IsAbsent k m → count_if (is_pair k v) (map pair m) ≡ 0
count_absent k v [] a = refl
count_absent k v ((j, w) ∷ m) a = ground (arith, count_absent k v m a.1, eq_iff j k)

count_listed :
    (k v : String) (m : Pairs)
    → HasKeysOnce m
    → count_if (is_pair k v) (map pair m) ≡ (if holds (Dict.get k m) v then 1 else 0)
unfolding Dict.get
count_listed k v [] h = refl
count_listed k v ((j, w) ∷ m) h =
    ground (arith, count_listed k v m h.1, eq_iff j k, count_absent k v m)

-- After any commands, `get_state` of a new store lists a pair exactly once if the store holds that
-- value for the key, and not at all if it does not.
pub get_state_lem :
    (cs : List Cmd) (k v : String)
    → let s = (apply_all cs new).1 in
      count_if (is_pair k v) (get_state s) ≡ (if holds (Dict.get k s.store) v then 1 else 0)
get_state_lem cs k v = count_listed k v (apply_all cs new).1.store (apply_all-HasKeysOnce cs new tt)
