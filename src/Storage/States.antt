-- ===== src/Storage/States.antt =====
-- The state that paxos-wasm/core/storage/src/storage.rs keeps under its other calls.
use wasm_master.Common.{
  Bool, if◌then◌else◌, ◌++◌, ℕ, suc, String, List, [], ◌∷◌, ◌%◌, ◌≡◌, refl, ◌∙◌, ap, ltb, leb, ◌-◌,
  length, take, if_both,
}
use wasm_master.Common.Fallible.{Result, ok, err, Act, resume, ◌>>◌}
use wasm_master.Persistence.{Bytes}
use wasm_master.Storage.Names.{Name, snapshot_name, tmp_name, codes}
use wasm_master.Storage.Frames.{be_bytes, u32_size}
use wasm_master.Storage
use wasm_master.Storage.{
  Storage, capacity, io, io_write, no_effect, append_changelog, set_changelog, drain, drain_part,
  is_empty, flush_buf, buffer_or_write, write_all, save_state, load_state, on_files, put_file,
  remove_file, rename, list_snapshots, prune_loop, prune_snapshots, write_snapshot,
  truncate_changelog, storage_ops,
}
use wasm_master.Storage.Durability.{io_cases, io_write_cases, storage_ops-KeepsState}

-- The other calls that may change the files.
pub data Call : Type 0 where
  flush_state : Call
  save_change : Bytes → Call
  flush_changes : Call
  checkpoint : Bytes → String → Call

unfoldable pub call : Call → Act Storage (Unit {0})
call flush_state = Storage.flush_state
call (save_change change) = Storage.save_change change
call flush_changes = Storage.flush_changes
call (checkpoint state timestamp) = Storage.checkpoint state timestamp

-- The calls in their order, whatever each of them replies.
unfoldable pub call_all : List Call → Storage → Storage
call_all [] s = s
call_all (c ∷ cs) s = call_all cs (call c s).1

-- The action leaves the content of the state file.
record Keeps (m : Act Storage (Unit {0})) : Type 0 where
  stays : (s : Storage) → (m s).1.disk.current_state ≡ s.disk.current_state

Keeps-resume :
    (m : Act Storage (Unit {0})) (r : Result (Unit {0})) (s : Storage)
    → Keeps m
    → (resume r (λ _. m) s).1.disk.current_state ≡ s.disk.current_state
Keeps-resume m (ok _) s h = h.stays s
Keeps-resume m (err e) s h = refl

Keeps-then : {m n : Act Storage (Unit {0})} → Keeps m → Keeps n → Keeps (m >> n)
Keeps-then {m} {n} h k = record { stays = λ s. Keeps-resume n (m s).0 (m s).1 k ∙ h.stays s }

abbrev StaysIn : Storage → Result (Unit {0}) × Storage → Type 0
StaysIn s r = r.1.disk.current_state ≡ s.disk.current_state

io-Keeps :
    (f : Storage → Storage)
    → ((s : Storage) → (f s).disk.current_state ≡ s.disk.current_state)
    → Keeps (io f)
io-Keeps f h = record { stays = λ s. io_cases (StaysIn s) f s (λ fs. h _) (λ e fs. refl) }

io_write-Keeps :
    (f : Storage → Storage) (part : ℕ → Storage → Storage)
    → ((s : Storage) → (f s).disk.current_state ≡ s.disk.current_state)
    → ((n : ℕ) (s : Storage) → (part n s).disk.current_state ≡ s.disk.current_state)
    → Keeps (io_write f part)
io_write-Keeps f part h k = record {
  stays = λ s. io_write_cases (StaysIn s) f part s (λ fs. h _) (λ e n fs. k n _);
}

-- A test of the state between two actions that keep it.
choice-Keeps :
    {m n : Act Storage (Unit {0})} (p : Storage → Bool)
    → Keeps m
    → Keeps n
    → Keeps (λ s. if p s then m s else n s)
choice-Keeps p h k = record { stays = λ s. if_both (StaysIn s) (p s) (h.stays s) (k.stays s) }

-- What changes the buffer alone.
in_memory-Keeps :
    (f : Storage → Storage)
    → ((s : Storage) → (f s).disk.current_state ≡ s.disk.current_state)
    → Keeps (λ s. (ok tt, f s))
in_memory-Keeps f h = record { stays = h }

flush_buf-Keeps : Keeps flush_buf
unfolding flush_buf
flush_buf-Keeps =
    choice-Keeps (λ s. is_empty s.writer) (in_memory-Keeps no_effect (λ s. refl))
      (io_write-Keeps drain drain_part (λ s. refl) (λ n s. refl))

buffer_or_write-Keeps : (b : Bytes) → Keeps (buffer_or_write b)
buffer_or_write-Keeps b =
    choice-Keeps (λ s. leb capacity (length b))
      (io_write-Keeps (append_changelog b) (λ n. append_changelog (take n b)) (λ s. refl)
        (λ n s. refl))
      (in_memory-Keeps (λ s. record s { writer = s.writer ++ b }) (λ s. refl))

write_all-Keeps : (b : Bytes) → Keeps (write_all b)
unfolding write_all
write_all-Keeps b =
    choice-Keeps (λ s. ltb (capacity - length s.writer) (length b))
      (Keeps-then flush_buf-Keeps (buffer_or_write-Keeps b)) (buffer_or_write-Keeps b)

prune_loop-Keeps : (retain : ℕ) (names : List Name) → Keeps (prune_loop retain names)
unfolding prune_loop
prune_loop-Keeps retain [] = in_memory-Keeps no_effect (λ s. refl)
prune_loop-Keeps retain (n ∷ ns) =
    choice-Keeps (λ s. ltb retain (suc (length ns)))
      (Keeps-then (io-Keeps (on_files (remove_file n)) (λ s. refl)) (prune_loop-Keeps retain ns))
      (in_memory-Keeps no_effect (λ s. refl))

write_snapshot-Keeps : (state : Bytes) (final : Name) → Keeps (write_snapshot state final)
unfolding write_snapshot
write_snapshot-Keeps state final =
    let tmp = tmp_name final in
    let part = λ (n : ℕ). on_files (put_file tmp (take n state)) in
    Keeps-then (io-Keeps (on_files (put_file tmp [])) (λ s. refl)) (
      Keeps-then (io_write-Keeps (on_files (put_file tmp state)) part (λ s. refl) (λ n s. refl)) (
        Keeps-then (io-Keeps no_effect (λ s. refl))
          (io-Keeps (rename tmp final state) (λ s. refl))))

truncate_changelog-Keeps : Keeps truncate_changelog
unfolding truncate_changelog
truncate_changelog-Keeps = Keeps-then flush_buf-Keeps (
    Keeps-then (io-Keeps (set_changelog []) (λ s. refl))
      (Keeps-then (io-Keeps no_effect (λ s. refl)) (io-Keeps no_effect (λ s. refl))))

prune_snapshots-Keeps : Keeps (λ s. prune_snapshots s.max_snapshots s)
unfolding prune_snapshots
prune_snapshots-Keeps = record {
  stays = λ s. (prune_loop-Keeps s.max_snapshots (list_snapshots s)).stays s;
}

call-Keeps : (c : Call) → Keeps (call c)
unfolding call Storage.flush_state Storage.save_change Storage.flush_changes Storage.checkpoint
call-Keeps flush_state = io-Keeps no_effect (λ s. refl)
call-Keeps (save_change change) =
    Keeps-then (write_all-Keeps (be_bytes (length change % u32_size))) (write_all-Keeps change)
call-Keeps flush_changes = flush_buf-Keeps
call-Keeps (checkpoint state timestamp) =
    Keeps-then (write_snapshot-Keeps state (snapshot_name (codes timestamp)))
      (Keeps-then truncate_changelog-Keeps prune_snapshots-Keeps)

call_all-Keeps :
    (cs : List Call) (s : Storage) → (call_all cs s).disk.current_state ≡ s.disk.current_state
unfolding call_all
call_all-Keeps [] s = refl
call_all-Keeps (c ∷ cs) s = call_all-Keeps cs (call c s).1 ∙ (call-Keeps c).stays s

-- A state that is saved with success, over whatever the file held and wherever its handle stood, is
-- what is loaded after any other calls, the changes saved, flushes and checkpoints, successful or
-- not; up to the next save of a state, which is not among these calls.
pub saved_state_kept :
    (state : Bytes) (cs : List Call) (s : Storage)
    → (save_state state s).0 ≡ ok tt
    → load_state (call_all cs (save_state state s).1) ≡ ok state
saved_state_kept state cs s done =
    ap ok (call_all-Keeps cs (save_state state s).1) ∙ storage_ops-KeepsState.saved state s done
