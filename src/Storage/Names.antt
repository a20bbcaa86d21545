-- ===== src/Storage/Names.antt =====
-- The file names of paxos-wasm/core/storage/src/storage.rs, as lists of code points: the tests of
-- `list_snapshots`, and its sort.
use Prim.Native.Char.{code}
use Prim.Native.String.{String}
use wasm_master.Common.{
  ℕ, Bool, true, false, List, [], ◌∷◌, ◌++◌, ◌&&◌, ◌||◌, ltb, leb, ◌==◌, if◌then◌else◌, length,
  drop, ◌-◌,
}

abbrev pub Name : Type 0
Name = List ℕ

abbrev pub codes : String → Name
codes String.[] = []
codes (String.◌∷◌ c s) = code c ∷ codes s

unfoldable pub name_eq : Name → Name → Bool
name_eq [] [] = true
name_eq (a ∷ xs) (b ∷ ys) = let rest = name_eq xs ys in a == b && rest
name_eq _ _ = false

-- The lexicographic order of `Ord for String`.
unfoldable pub name_le : Name → Name → Bool
name_le [] bs = true
name_le (a ∷ xs) [] = false
name_le (a ∷ xs) (b ∷ ys) = let rest = name_le xs ys in ltb a b || (a == b && rest)

unfoldable pub starts_with : Name → Name → Bool
starts_with [] name = true
starts_with (p ∷ ps) [] = false
starts_with (p ∷ ps) (c ∷ cs) = let rest = starts_with ps cs in p == c && rest

-- The end of a name that is as long as the suffix.
abbrev pub ends_with : Name → Name → Bool
ends_with suffix name =
    leb (length suffix) (length name) && name_eq (drop (length name - length suffix) name) suffix

abbrev pub snapshot_name : Name → Name
snapshot_name timestamp = codes "snapshot-" ++ timestamp ++ codes ".bin"

abbrev pub tmp_name : Name → Name
tmp_name name = name ++ codes ".tmp"

unfoldable pub is_snapshot : Name → Bool
is_snapshot name = starts_with (codes "snapshot-") name && ends_with (codes ".bin") name

-- `sort_unstable`, as an insertion sort; equal names are equal lists, so the order among them does
-- not show.
unfoldable pub insert_name : Name → List Name → List Name
insert_name n [] = n ∷ []
insert_name n (m ∷ ms) = let rest = insert_name n ms in if name_le n m then n ∷ m ∷ ms else m ∷ rest

unfoldable pub sort_names : List Name → List Name
sort_names [] = []
sort_names (n ∷ ns) = insert_name n (sort_names ns)
