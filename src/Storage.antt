-- ===== src/Storage.antt =====
-- `MyStorageResource` of paxos-wasm/core/storage/src/storage.rs over the files of one key: the
-- current state behind its open handle, the changelog behind its buffered writer, and the directory
-- of snapshots. Each call of the file system that changes a file takes the next of the faults that
-- the disk is to make, and fails by it or succeeds. A write that fails may have written a first part
-- of its bytes, which the fault says; any other call that fails has no effect. Reading a file that is
-- there does not fail.
pub mod Names
pub mod Frames
pub mod Changelog
pub mod Durability
pub mod States
pub mod Writes
pub mod Reload
pub mod Pruning
pub mod Snapshots
pub mod Examples
use wasm_master.Common.{
  ℕ, zero, suc, ◌+◌, ◌-◌, ◌%◌, String, Bool, true, false, Option, none, some, List, [], ◌∷◌, ◌++◌,
  map, ltb, leb, if◌then◌else◌, length, take, drop, select, as_usize,
}
use wasm_master.Common.Fallible.{Result, ok, err, Act, ◌>>=◌, ◌>>◌}
use wasm_master.Persistence.{Bytes, StorageOps}
use Names.{Name, name_eq, codes, snapshot_name, tmp_name, is_snapshot, sort_names}
use Frames.{be_bytes, read_changes, u32_size}

-- An error of a call, and how many bytes it has written if it is a write.
pub record Fault : Type 0 where
  pub message : String
  pub written : ℕ

-- The files under `state/<key>/`, and what the next calls that change them will answer.
pub record Disk : Type 0 where
  pub current_state : Bytes
  pub changelog : Bytes
  pub snapshots : List (Name × Bytes)
  pub faults : List (Option Fault)

pub record Storage : Type 0 where
  pub max_snapshots : ℕ
  -- where the handle of the state file writes next
  pub state_position : ℕ
  pub writer : Bytes
  pub disk : Disk

-- The capacity of a `BufWriter`.
abbrev pub capacity : ℕ
capacity = 8192

abbrev pub after_fault : List (Option Fault) → Storage → Storage
after_fault faults s = record s { disk = record s.disk { faults = faults } }

abbrev pub no_effect : Storage → Storage
no_effect s = s

abbrev pub io_next :
    List (Option Fault) → (Storage → Storage) → (ℕ → Storage → Storage) → Act Storage (Unit {0})
io_next [] f part s = (ok tt, f (after_fault [] s))
io_next (none ∷ faults) f part s = (ok tt, f (after_fault faults s))
io_next (some x ∷ faults) f part s = (err x.message, part x.written (after_fault faults s))

-- One call of the file system, with its effect.
unfoldable pub io : (Storage → Storage) → Act Storage (Unit {0})
io f s = io_next s.disk.faults f (λ _. no_effect) s

-- One write, with its effect, and the effect of its first `n` bytes where it fails after them.
unfoldable pub io_write : (Storage → Storage) → (ℕ → Storage → Storage) → Act Storage (Unit {0})
io_write f part s = io_next s.disk.faults f part s

abbrev pub set_state : Bytes → Storage → Storage
set_state b s = record s { disk = record s.disk { current_state = b } }

-- Bytes that are written at a position stand in place of as many old ones; a gap before it is zeros.
abbrev pub write_at : ℕ → Bytes → Bytes → Bytes
write_at zero b old = b ++ drop (length b) old
write_at (suc n) b [] = 0 ∷ write_at n b []
write_at (suc n) b (x ∷ old) = x ∷ write_at n b old

-- `seek(SeekFrom::Start(0))` on the handle of the state file.
abbrev pub rewind : Storage → Storage
rewind s = record s { state_position = 0 }

-- A write through that handle.
abbrev pub write_state : Bytes → Storage → Storage
write_state b s = record s {
  state_position = s.state_position + length b;
  disk = record s.disk { current_state = write_at s.state_position b s.disk.current_state };
}

abbrev pub set_changelog : Bytes → Storage → Storage
set_changelog b s = record s { disk = record s.disk { changelog = b } }

abbrev pub set_snapshots : List (Name × Bytes) → Storage → Storage
set_snapshots files s = record s { disk = record s.disk { snapshots = files } }

abbrev pub append_changelog : Bytes → Storage → Storage
append_changelog b s = set_changelog (s.disk.changelog ++ b) s

-- The buffered bytes go to the end of the changelog.
abbrev pub drain : Storage → Storage
drain s = record s {
  writer = [];
  disk = record s.disk { changelog = s.disk.changelog ++ s.writer };
}

-- The first of them do, and the others stay.
abbrev pub drain_part : ℕ → Storage → Storage
drain_part n s = record s {
  writer = drop n s.writer;
  disk = record s.disk { changelog = s.disk.changelog ++ take n s.writer };
}

abbrev pub is_empty : Bytes → Bool
is_empty [] = true
is_empty (b ∷ bs) = false

-- `BufWriter::flush`
unfoldable pub flush_buf : Act Storage (Unit {0})
flush_buf s = if is_empty s.writer then (ok tt, s) else io_write drain drain_part s

abbrev pub buffer_or_write : Bytes → Act Storage (Unit {0})
buffer_or_write bytes s =
    if leb capacity (length bytes)
    then io_write (append_changelog bytes) (λ n. append_changelog (take n bytes)) s
    else (ok tt, record s { writer = s.writer ++ bytes })

-- `BufWriter::write_all`
unfoldable pub write_all : Bytes → Act Storage (Unit {0})
write_all bytes s =
    if ltb (capacity - length s.writer) (length bytes)
    then (flush_buf >> buffer_or_write bytes) s
    else buffer_or_write bytes s

-- The constructor opens what is on the disk; `none` is a panic.
abbrev pub or_panic : Result (Unit {0}) × Storage → Option Storage
or_panic (ok _, s) = some s
or_panic (err e, s) = none

unfoldable pub new : ℕ → Disk → Option Storage
new max_snapshots disk = or_panic (
    (do io no_effect; io no_effect; io no_effect)
      (record { max_snapshots = max_snapshots; state_position = 0; writer = []; disk = disk }))

-- `seek`, `set_len(0)` and `write_all` on the file.
unfoldable pub save_state : Bytes → Act Storage (Unit {0})
save_state state = do
  io rewind
  io (set_state [])
  io_write (write_state state) (λ n. write_state (take n state))

abbrev pub load_state : Storage → Result Bytes
load_state s = ok s.disk.current_state

unfoldable pub flush_state : Act Storage (Unit {0})
flush_state = io no_effect

unfoldable pub save_change : Bytes → Act Storage (Unit {0})
save_change change = do write_all (be_bytes (length change % u32_size)); write_all change

unfoldable pub flush_changes : Act Storage (Unit {0})
flush_changes = flush_buf

-- A file of the directory is created, or its content replaced.
unfoldable pub put_file : Name → Bytes → List (Name × Bytes) → List (Name × Bytes)
put_file n b [] = (n, b) ∷ []
put_file n b ((m, c) ∷ files) =
    let rest = put_file n b files in if name_eq m n then (n, b) ∷ files else (m, c) ∷ rest

unfoldable pub remove_file : Name → List (Name × Bytes) → List (Name × Bytes)
remove_file n [] = []
remove_file n ((m, c) ∷ files) =
    let rest = remove_file n files in if name_eq m n then rest else (m, c) ∷ rest

unfoldable pub read_file : Name → List (Name × Bytes) → Option Bytes
read_file n [] = none
read_file n ((m, c) ∷ files) = let rest = read_file n files in if name_eq m n then some c else rest

unfoldable pub list_snapshots : Storage → List Name
list_snapshots s = sort_names (select is_snapshot (map (λ f. f.0) s.disk.snapshots))

abbrev pub on_files : (List (Name × Bytes) → List (Name × Bytes)) → Storage → Storage
on_files f s = set_snapshots (f s.disk.snapshots) s

-- The loop over the listed names, the oldest first.
unfoldable pub prune_loop : ℕ → List Name → Act Storage (Unit {0})
prune_loop retain [] s = (ok tt, s)
prune_loop retain (oldest ∷ snaps) s =
    let removed = io (on_files (remove_file oldest)) >> prune_loop retain snaps in
    if ltb retain (suc (length snaps)) then removed s else (ok tt, s)

unfoldable pub prune_snapshots : ℕ → Act Storage (Unit {0})
prune_snapshots retain s = prune_loop retain (list_snapshots s) s

-- The file `tmp` gets the name `final`.
abbrev pub rename : Name → Name → Bytes → Storage → Storage
rename tmp final state = on_files (λ files. put_file final state (remove_file tmp files))

unfoldable pub write_snapshot : Bytes → Name → Act Storage (Unit {0})
write_snapshot state final =
    let tmp = tmp_name final in
    do
      io (on_files (put_file tmp []))
      io_write (on_files (put_file tmp state)) (λ n. on_files (put_file tmp (take n state)))
      io no_effect
      io (rename tmp final state)

unfoldable pub truncate_changelog : Act Storage (Unit {0})
truncate_changelog = do flush_buf; io (set_changelog []); io no_effect; io no_effect

unfoldable pub checkpoint : Bytes → String → Act Storage (Unit {0})
checkpoint state timestamp = do
  write_snapshot state (snapshot_name (codes timestamp))
  truncate_changelog
  λ s. prune_snapshots s.max_snapshots s

unfoldable pub read_files : List Name → List (Name × Bytes) → Result (List Bytes)
read_files [] files = ok []
read_files (n ∷ ns) files = elim (read_file n files) [
  | none ↦ err "No such file or directory"
  | some b ↦ elim (read_files ns files) [ err e ↦ err e | ok bs ↦ ok (b ∷ bs) ]
]

-- What the loop has read; the fuel never runs out.
abbrev pub loaded : List Bytes → Option (Result (List Bytes)) → Result (List Bytes × List Bytes)
loaded snaps none = err "out of fuel"
loaded snaps (some (err e)) = err e
loaded snaps (some (ok changes)) = ok (snaps, changes)

unfoldable pub load_state_and_changes : ℕ → Storage → Result (List Bytes × List Bytes)
load_state_and_changes num_snapshots s =
    let all = list_snapshots s in
    elim (read_files (drop (length all - as_usize num_snapshots) all) s.disk.snapshots) [
      | err e ↦ err e
      | ok snaps ↦ loaded snaps (read_changes s.disk.changelog)
    ]

abbrev pub deleted : Result (Unit {0}) × Storage → Bool × Disk
deleted (ok _, s) =
    (true, record { current_state = []; changelog = []; snapshots = []; faults = s.disk.faults })
deleted (err e, s) = (false, s.disk)

-- The resource is not used after it; what a failed call has removed is not modelled.
unfoldable pub delete : Storage → Bool × Disk
delete s = deleted (io no_effect s)

-- The interface that the components use.
abbrev pub storage_ops : StorageOps Storage
storage_ops = record {
  save_state = save_state;
  load_state = load_state;
  flush_state = flush_state;
  save_change = save_change;
  flush_changes = flush_changes;
  checkpoint = checkpoint;
  load_state_and_changes = load_state_and_changes;
}
