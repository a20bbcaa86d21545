-- ===== src/Storage/Snapshots.antt =====
-- The directory of snapshots of paxos-wasm/core/storage/src/storage.rs: its listing, and what a
-- checkpoint leaves of the state and of the changes, whichever call of the file system fails.
use wasm_master.Common.{
  ℕ, zero, suc, String, Bool, true, Option, none, some, List, [], ◌∷◌, map, ◌≡◌, refl, ◌∙◌, ap, ◌⊎◌,
  inl, inr, arith, if_both, take, drop, select, All, All-imp, is_some, ◌↔◌,
}
use wasm_master.Common.Fallible.{Result, ok, err, Act, resume, ◌>>◌}
use wasm_master.Persistence.{Bytes}
use wasm_master.Storage.Names.{
  Name, name_eq, name_le, insert_name, sort_names, is_snapshot, snapshot_name, tmp_name, codes,
}
use wasm_master.Storage.{
  Storage, io, no_effect, io_write, set_changelog, drain, drain_part, is_empty, flush_buf, put_file,
  read_file, read_files, list_snapshots, on_files, rename, write_snapshot, truncate_changelog,
  checkpoint, prune_snapshots,
}
use wasm_master.Storage.Durability.{io_cases, io_then, io_write_cases, io_write_then}
use wasm_master.Storage.Writes.{log, Flushed, flush_buf-Flushed}

pub name_eq_iff : (a b : Name) → (name_eq a b ≡ true) ↔ (a ≡ b)
unfolding name_eq
name_eq_iff [] [] = ground arith
name_eq_iff [] (y ∷ b) = ground arith
name_eq_iff (x ∷ a) [] = ground arith
name_eq_iff (x ∷ a) (y ∷ b) = ground (arith, name_eq_iff a b)

read_file-put_file :
    (n : Name) (b : Bytes) (files : List (Name × Bytes)) → read_file n (put_file n b files) ≡ some b
unfolding read_file put_file
read_file-put_file n b [] = ground (arith, name_eq_iff n n)
read_file-put_file n b ((m, c) ∷ files) =
    ground (arith, name_eq_iff n n, read_file-put_file n b files)

-- There is a file of the name.
abbrev pub IsFile : List (Name × Bytes) → Name → Type 0
IsFile files n = is_some (read_file n files) ≡ true

more-IsFile :
    (m : Name) (c : Bytes) (files : List (Name × Bytes)) (n : Name)
    → IsFile files n
    → IsFile ((m, c) ∷ files) n
unfolding read_file
more-IsFile m c files n h = ground arith

first-IsFile : (m : Name) (c : Bytes) (files : List (Name × Bytes)) → IsFile ((m, c) ∷ files) m
unfolding read_file
first-IsFile m c files = ground (arith, name_eq_iff m m)

pub names-IsFile : (files : List (Name × Bytes)) → All (IsFile files) (map (λ f. f.0) files)
names-IsFile [] = tt
names-IsFile ((m, c) ∷ files) = (
  first-IsFile m c files,
  All-imp (more-IsFile m c files) (map (λ f. f.0) files) (names-IsFile files),
)

module _ (P : Name → Type 0) where
  pub select-All : (p : Name → Bool) (ns : List Name) → All P ns → All P (select p ns)
  select-All p [] h = tt
  select-All p (n ∷ ns) h = if_both (All P) (p n) (h.0, select-All p ns h.1) (select-All p ns h.1)

  pub insert_name-All : (n : Name) (ns : List Name) → P n → All P ns → All P (insert_name n ns)
  unfolding insert_name
  insert_name-All n [] p h = (p, tt)
  insert_name-All n (m ∷ ms) p h =
      if_both (All P) (name_le n m) (p, h) (h.0, insert_name-All n ms p h.1)

  pub sort_names-All : (ns : List Name) → All P ns → All P (sort_names ns)
  unfolding sort_names
  sort_names-All [] h = tt
  sort_names-All (n ∷ ns) h = insert_name-All n (sort_names ns) h.0 (sort_names-All ns h.1)

  drop-All : (k : ℕ) (ns : List Name) → All P ns → All P (drop k ns)
  drop-All zero ns h = h
  drop-All (suc k) [] h = tt
  drop-All (suc k) (n ∷ ns) h = drop-All k ns h.1

some_of : (o : Option Bytes) → is_some o ≡ true → (b : Bytes) × (o ≡ some b)
some_of none h = cc
some_of (some b) h = (b, refl)

read_found :
    (n : Name) (ns : List Name) (files : List (Name × Bytes)) (b : Bytes) (bs : List Bytes)
    → read_file n files ≡ some b
    → read_files ns files ≡ ok bs
    → read_files (n ∷ ns) files ≡ ok (b ∷ bs)
unfolding read_files
read_found n ns files b bs found rest = rw (found, read_files) (rw (rest, read_files) refl)

read_files_ok :
    (ns : List Name) (files : List (Name × Bytes))
    → All (IsFile files) ns
    → (bs : List Bytes) × (read_files ns files ≡ ok bs)
unfolding read_files
read_files_ok [] files h = ([], refl)
read_files_ok (n ∷ ns) files h =
    let (b, found) = some_of (read_file n files) h.0 in
    let (bs, rest) = read_files_ok ns files h.1 in (b ∷ bs, read_found n ns files b bs found rest)

-- The snapshots that a load picks can all be read.
pub listed_ok :
    (k : ℕ) (s : Storage)
    → (bs : List Bytes) × (read_files (drop k (list_snapshots s)) s.disk.snapshots ≡ ok bs)
unfolding list_snapshots
listed_ok k s =
    let files = s.disk.snapshots in
    let names = map (λ (f : Name × Bytes). f.0) files in
    read_files_ok (drop k (sort_names (select is_snapshot names))) files (
      drop-All (IsFile files) k (sort_names (select is_snapshot names)) (
        sort_names-All (IsFile files) (select is_snapshot names)
          (select-All (IsFile files) is_snapshot names (names-IsFile files))))

snapshots-flush_buf : (s : Storage) → (flush_buf s).1.disk.snapshots ≡ s.disk.snapshots
unfolding flush_buf
snapshots-flush_buf s =
    let P : Result (Unit {0}) × Storage → Type 0 = λ r. r.1.disk.snapshots ≡ s.disk.snapshots in
    if_both P (is_empty s.writer) refl
      (io_write_cases P drain drain_part s (λ fs. refl) (λ e n fs. refl))

-- The new snapshot is in place, and nothing of the log is lost; or an error has left the log.
abbrev pub Written : Bytes → Name → Storage → Result (Unit {0}) × Storage → Type 0
Written state final s r =
    ((r.0 ≡ ok tt) × (read_file final r.1.disk.snapshots ≡ some state) × (log r.1 ≡ log s))
    ⊎ ((e : String) × (r.0 ≡ err e) × (log r.1 ≡ log s))

write_snapshot-Written :
    (state : Bytes) (final : Name) (s : Storage)
    → Written state final s (write_snapshot state final s)
unfolding write_snapshot
write_snapshot-Written state final s =
    let tmp = tmp_name final in
    let P = Written state final s in
    let rest : Act Storage (Unit {0}) = io no_effect >> io (rename tmp final state) in
    let part = λ (n : ℕ). on_files (put_file tmp (take n state)) in
    io_then P (on_files (put_file tmp [])) (io_write (on_files (put_file tmp state)) part >> rest) s
      (λ fs.
        io_write_then P (on_files (put_file tmp state)) part rest _
          (λ gs.
            io_then P no_effect (io (rename tmp final state)) _
              (λ hs.
                io_cases P (rename tmp final state) _
                  (λ ks. inl (refl, read_file-put_file final state _, refl))
                  (λ e ks. inr (e, refl, refl)))
              (λ e hs. inr (e, refl, refl)))
          (λ e n gs. inr (e, refl, refl)))
      (λ e fs. inr (e, refl, refl))

-- The changelog is empty, or an error has come; the snapshots stay.
abbrev Truncated : Storage → Result (Unit {0}) × Storage → Type 0
Truncated s r =
    ((r.0 ≡ ok tt) × (r.1.disk.snapshots ≡ s.disk.snapshots) × (log r.1 ≡ []))
    ⊎ ((e : String) × (r.0 ≡ err e) × (r.1.disk.snapshots ≡ s.disk.snapshots))

abbrev after_flush : Act Storage (Unit {0})
after_flush = do io (set_changelog []); io no_effect; io no_effect

after_flush-Truncated :
    (s : Storage) (r : Result (Unit {0}) × Storage)
    → Flushed s r
    → r.1.disk.snapshots ≡ s.disk.snapshots
    → Truncated s (resume r.0 (λ _. after_flush) r.1)
after_flush-Truncated s (ok _, t) (inl (_, _, empty)) same =
    let P = Truncated s in
    io_then P (set_changelog []) (io no_effect >> io no_effect) t
      (λ fs.
        io_then P no_effect (io no_effect) _
          (λ gs.
            io_cases P no_effect _ (λ hs. inl (refl, same, empty)) (λ e hs. inr (e, refl, same)))
          (λ e gs. inr (e, refl, same)))
      (λ e fs. inr (e, refl, same))
after_flush-Truncated s (ok _, t) (inr (f, failed, _)) same = cc
after_flush-Truncated s (err f, t) h same = inr (f, refl, same)

truncate_changelog-Truncated : (s : Storage) → Truncated s (truncate_changelog s)
unfolding truncate_changelog
truncate_changelog-Truncated s =
    after_flush-Truncated s (flush_buf s) (flush_buf-Flushed s) (snapshots-flush_buf s)

-- The outcome of a checkpoint; see `checkpoint_lem`.
abbrev pub Checkpointed : Bytes → Name → Storage → Result (Unit {0}) × Storage → Type 0
Checkpointed state final s r =
    ((e : String) × (r.0 ≡ err e) × (log r.1 ≡ log s))
    ⊎ ((e : String) × (r.0 ≡ err e) × (read_file final r.1.disk.snapshots ≡ some state))
    ⊎ ((t : Storage) × (r ≡ prune_snapshots t.max_snapshots t)
        × (read_file final t.disk.snapshots ≡ some state)
        × (log t ≡ []))

abbrev prune : Act Storage (Unit {0})
prune t = prune_snapshots t.max_snapshots t

after_truncate-Checkpointed :
    (state : Bytes) (final : Name) (s t : Storage) (r : Result (Unit {0}) × Storage)
    → read_file final t.disk.snapshots ≡ some state
    → Truncated t r
    → Checkpointed state final s (resume r.0 (λ _. prune) r.1)
after_truncate-Checkpointed state final s t (ok _, u) there (inl (_, same, empty)) =
    inr (inr (u, refl, ap (read_file final) same ∙ there, empty))
after_truncate-Checkpointed state final s t (ok _, u) there (inr (_, failed, _)) = cc
after_truncate-Checkpointed state final s t (err e, u) there (inl (done, _, _)) = cc
after_truncate-Checkpointed state final s t (err e, u) there (inr (_, _, same)) =
    inr (inl (e, refl, ap (read_file final) same ∙ there))

after_write-Checkpointed :
    (state : Bytes) (final : Name) (s : Storage) (r : Result (Unit {0}) × Storage)
    → Written state final s r
    → Checkpointed state final s (resume r.0 (λ _. truncate_changelog >> prune) r.1)
after_write-Checkpointed state final s (ok _, t) (inl (_, there, _)) =
    after_truncate-Checkpointed state final s t (truncate_changelog t) there
      (truncate_changelog-Truncated t)
after_write-Checkpointed state final s (ok _, t) (inr (_, failed, _)) = cc
after_write-Checkpointed state final s (err e, t) (inl (done, _, _)) = cc
after_write-Checkpointed state final s (err e, t) (inr (_, _, same)) = inl (e, refl, same)

-- A checkpoint, whichever of its calls of the file system fail: it fails with the log as it was; or
-- it fails with the new snapshot in its place; or it has put the snapshot in its place and emptied
-- the log, and it is left to prune the snapshots. So no change is given up before the snapshot is
-- there.
pub checkpoint_lem :
    (state : Bytes) (timestamp : String) (s : Storage)
    → Checkpointed state (snapshot_name (codes timestamp)) s (checkpoint state timestamp s)
unfolding checkpoint
checkpoint_lem state timestamp s =
    let final = snapshot_name (codes timestamp) in
    after_write-Checkpointed state final s (write_snapshot state final s)
      (write_snapshot-Written state final s)
