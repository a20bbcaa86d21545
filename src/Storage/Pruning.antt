-- ===== src/Storage/Pruning.antt =====
-- `prune_snapshots` of paxos-wasm/core/storage/src/storage.rs leaves no more snapshots than asked.
use wasm_master.Common.{
  ℕ, suc, ◌≤◌, ◌<◌, Bool, true, false, List, [], ◌∷◌, map, ◌≡◌, refl, arith, ltb, if◌then◌else◌,
  if_cases, if_both, length, select, All, All-both,
}
use wasm_master.Common.Fallible.{Result, ok}
use wasm_master.Persistence.{Bytes}
use wasm_master.Storage.Names.{Name, name_eq, name_le, insert_name, sort_names, is_snapshot}
use wasm_master.Storage.{
  Storage, remove_file, read_file, list_snapshots, on_files, prune_loop, prune_snapshots,
}
use wasm_master.Storage.Durability.{io_then}
use wasm_master.Storage.Snapshots.{
  IsFile, name_eq_iff, names-IsFile, select-All, insert_name-All, sort_names-All,
}

-- None of the names is `n`.
abbrev pub IsNew : Name → List Name → Type 0
IsNew n ns = All (λ m. name_eq m n ≡ false) ns

abbrev pub AreDistinct : List Name → Type 0
AreDistinct [] = Unit
AreDistinct (n ∷ ns) = IsNew n ns × AreDistinct ns

name_neq_sym : (m n : Name) → name_eq m n ≡ false → name_eq n m ≡ false
name_neq_sym m n e = ground (arith, name_eq_iff m n, name_eq_iff n m)

select-AreDistinct : (p : Name → Bool) (ns : List Name) → AreDistinct ns → AreDistinct (select p ns)
select-AreDistinct p [] d = tt
select-AreDistinct p (n ∷ ns) d =
    if_both AreDistinct (p n)
      (select-All (λ m. name_eq m n ≡ false) p ns d.0, select-AreDistinct p ns d.1)
      (select-AreDistinct p ns d.1)

insert_name-AreDistinct :
    (n : Name) (ns : List Name) → IsNew n ns → AreDistinct ns → AreDistinct (insert_name n ns)
unfolding insert_name
insert_name-AreDistinct n [] fresh d = (tt, tt)
insert_name-AreDistinct n (m ∷ ms) fresh d =
    if_both AreDistinct (name_le n m) (fresh, d)
      (
        insert_name-All (λ k. name_eq k m ≡ false) n ms (name_neq_sym m n fresh.0) d.0,
        insert_name-AreDistinct n ms fresh.1 d.1,
      )

sort_names-AreDistinct : (ns : List Name) → AreDistinct ns → AreDistinct (sort_names ns)
unfolding sort_names
sort_names-AreDistinct [] d = tt
sort_names-AreDistinct (n ∷ ns) d =
    insert_name-AreDistinct n (sort_names ns) (sort_names-All (λ m. name_eq m n ≡ false) ns d.0)
      (sort_names-AreDistinct ns d.1)

length-insert_name : (n : Name) (ns : List Name) → length (insert_name n ns) ≡ suc (length ns)
unfolding insert_name
length-insert_name n [] = refl
length-insert_name n (m ∷ ms) = ground (arith, length-insert_name n ms)

length-sort_names : (ns : List Name) → length (sort_names ns) ≡ length ns
unfolding sort_names
length-sort_names [] = refl
length-sort_names (n ∷ ns) =
    omega (arith, length-insert_name n (sort_names ns), length-sort_names ns)

-- How many snapshots the directory holds.
abbrev count_snapshots : List (Name × Bytes) → ℕ
count_snapshots [] = 0
count_snapshots ((m, c) ∷ files) =
    let rest = count_snapshots files in if is_snapshot m then suc rest else rest

length-listed :
    (files : List (Name × Bytes))
    → length (select is_snapshot (map (λ f. f.0) files)) ≡ count_snapshots files
length-listed [] = refl
length-listed ((m, c) ∷ files) = ground (arith, length-listed files)

count-list_snapshots : (s : Storage) → length (list_snapshots s) ≡ count_snapshots s.disk.snapshots
unfolding list_snapshots
count-list_snapshots s = omega (
  arith,
  length-sort_names (select is_snapshot (map (λ (f : Name × Bytes). f.0) s.disk.snapshots)),
  length-listed s.disk.snapshots,
)

count_removed_le :
    (n : Name) (files : List (Name × Bytes))
    → count_snapshots (remove_file n files) ≤ count_snapshots files
unfolding remove_file
count_removed_le n [] = omega arith
count_removed_le n ((m, c) ∷ files) = ground (arith, count_removed_le n files)

-- A snapshot that is there and is removed is one less.
count_removed :
    (n : Name) (files : List (Name × Bytes))
    → IsFile files n
    → is_snapshot n ≡ true
    → count_snapshots (remove_file n files) < count_snapshots files
unfolding remove_file read_file
count_removed n [] h e = cc
count_removed n ((m, c) ∷ files) h e =
    ground (arith, count_removed n files, count_removed_le n files, name_eq_iff m n)

kept-IsFile :
    (n m : Name) (files : List (Name × Bytes))
    → IsFile files m
    → name_eq m n ≡ false
    → IsFile (remove_file n files) m
unfolding remove_file read_file
kept-IsFile n m [] h e = cc
kept-IsFile n m ((k, c) ∷ files) h e =
    ground (arith, kept-IsFile n m files, name_eq_iff k n, name_eq_iff k m, name_eq_iff m n)

-- The loop, where the names are distinct snapshots that are there, and all that are there.
prune_loop_bound :
    (retain : ℕ) (names : List Name) (s : Storage)
    → AreDistinct names
    → All (IsFile s.disk.snapshots) names
    → All (λ n. is_snapshot n ≡ true) names
    → count_snapshots s.disk.snapshots ≤ length names
    → (prune_loop retain names s).0 ≡ ok tt
    → count_snapshots (prune_loop retain names s).1.disk.snapshots ≤ retain
unfolding prune_loop
prune_loop_bound retain [] s d there snaps h = λ e. omega arith
prune_loop_bound retain (n ∷ ns) s d there snaps h =
    let P : Result (Unit {0}) × Storage → Type 0 =
      λ r. r.0 ≡ ok tt → count_snapshots r.1.disk.snapshots ≤ retain in
    if_cases P (ltb retain (suc (length ns)))
      (λ more.
        io_then P (on_files (remove_file n)) (prune_loop retain ns) s
          (λ fs.
            prune_loop_bound retain ns _ d.1
              (All-both (λ m. kept-IsFile n m s.disk.snapshots) ns there.1 d.0) snaps.1
              (omega (arith, count_removed n s.disk.snapshots there.0 snaps.0)))
          (λ f fs e. ground arith))
      (λ few e. ground arith)

selected_all : (ns : List Name) → All (λ n. is_snapshot n ≡ true) (select is_snapshot ns)
selected_all [] = tt
selected_all (n ∷ ns) =
    if_cases (All (λ m. is_snapshot m ≡ true)) (is_snapshot n) (λ e. (e, selected_all ns))
      (λ e. selected_all ns)

-- After a pruning that succeeds there are at most `retain` snapshots. (The names of the files of the
-- directory are distinct.)
pub prune_snapshots_bound :
    (retain : ℕ) (s : Storage)
    → AreDistinct (map (λ f. f.0) s.disk.snapshots)
    → (prune_snapshots retain s).0 ≡ ok tt
    → length (list_snapshots (prune_snapshots retain s).1) ≤ retain
unfolding prune_snapshots list_snapshots
prune_snapshots_bound retain s d e =
    let files = s.disk.snapshots in
    let names = map (λ (f : Name × Bytes). f.0) files in
    let picked = select is_snapshot names in
    let bound =
      prune_loop_bound retain (sort_names picked) s
        (sort_names-AreDistinct picked (select-AreDistinct is_snapshot names d))
        (sort_names-All (IsFile files) picked
          (select-All (IsFile files) is_snapshot names (names-IsFile files)))
        (sort_names-All (λ n. is_snapshot n ≡ true) picked (selected_all names))
        (omega (arith, count-list_snapshots s)) e in
    omega (arith, count-list_snapshots (prune_loop retain (sort_names picked) s).1)
