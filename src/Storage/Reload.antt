-- ===== src/Storage/Reload.antt =====
-- What is loaded again by `load_state_and_changes` of paxos-wasm/core/storage/src/storage.rs.
use mathlib.Core.List.{append-nil}
use wasm_master.Common.{
  ℕ, ◌-◌, ◌<◌, String, some, List, [], ◌++◌, ◌≡◌, sym, ◌∙◌, ap, arith, length, as_usize, All-append,
}
use wasm_master.Common.Fallible.{ok, err, Act, ◌>>◌}
use wasm_master.Persistence.{Bytes}
use wasm_master.Storage.Frames.{u32_size, be_bytes, frames, read_changes}
use wasm_master.Storage.Changelog.{AreSmall, read_changes-torn_length, read_changes-torn_record}
use wasm_master.Storage.{Storage, flush_changes}
use wasm_master.Storage.{load_state_and_changes, list_snapshots, loaded}
use wasm_master.Storage.Snapshots.{listed_ok}
use wasm_master.Storage.Writes.{log, IsLog, save_all, save_all-IsLog, changelog-flush}

-- What a load reads of the log.
changes_loaded :
    (n : ℕ) (s : Storage) (cs : List Bytes)
    → read_changes s.disk.changelog ≡ some (ok cs)
    → (snaps : List Bytes) × (load_state_and_changes n s ≡ ok (snaps, cs))
unfolding load_state_and_changes
changes_loaded n s cs e =
    let all = list_snapshots s in
    let (snaps, found) = listed_ok (length all - as_usize n) s in
    (snaps, rw (found, load_state_and_changes) (ap (loaded snaps) e))

load_fails :
    (n : ℕ) (s : Storage) (e : String)
    → read_changes s.disk.changelog ≡ some (err e)
    → (load_state_and_changes n s ≡ err e)
unfolding load_state_and_changes
load_fails n s e h =
    let all = list_snapshots s in
    let (snaps, found) = listed_ok (length all - as_usize n) s in
    rw (found, load_state_and_changes) (ap (loaded snaps) h)

flushed_after :
    (m : Act Storage (Unit {0})) (s : Storage) (b : Bytes)
    → ((m s).0 ≡ ok tt → log (m s).1 ≡ b)
    → ((m >> flush_changes) s).0 ≡ ok tt
    → ((m >> flush_changes) s).1.disk.changelog ≡ b
flushed_after m s b h e = ground (arith, changelog-flush (m s).1)

-- What is saved and then flushed, all with success, is loaded again in its order, after what was in
-- the changelog before. (The changes are shorter than 2^32 bytes.)
pub saved_then_loaded :
    (n : ℕ) (cs ds : List Bytes) (s : Storage)
    → AreSmall cs
    → AreSmall ds
    → IsLog cs s
    → ((save_all ds >> flush_changes) s).0 ≡ ok tt
    → (snaps : List Bytes) × (load_state_and_changes n ((save_all ds >> flush_changes) s).1
        ≡ ok (snaps, cs ++ ds))
saved_then_loaded n cs ds s small small' h e =
    let s' = ((save_all ds >> flush_changes) s).1 in
    let whole : s'.disk.changelog ≡ frames (cs ++ ds) ++ [] =
      flushed_after (save_all ds) s (frames (cs ++ ds)) (save_all-IsLog cs ds s small' h) e
      ∙ sym (append-nil (frames (cs ++ ds))) in
    changes_loaded n s' (cs ++ ds) (
      ap read_changes whole
      ∙ read_changes-torn_length (cs ++ ds) []
          (All-append (λ c. length c < u32_size) cs ds small small') (omega arith))

-- A save that fails may leave the length of a change without the change at the end of the log (see
-- `Saved`). If it does, and the change is not empty, then after a flush that succeeds no load
-- succeeds: not even the changes saved before are loaded. (The changes are shorter than 2^32 bytes.)
pub orphan_length_unreadable :
    (n k : ℕ) (cs : List Bytes) (s : Storage)
    → AreSmall cs
    → 0 < k
    → k < u32_size
    → log s ≡ frames cs ++ be_bytes k
    → (flush_changes s).0 ≡ ok tt
    → load_state_and_changes n (flush_changes s).1 ≡ err "failed to fill whole buffer"
orphan_length_unreadable n k cs s small some_bytes fits h e =
    load_fails n (flush_changes s).1 "failed to fill whole buffer" (
      ap read_changes (changelog-flush s e ∙ h)
      ∙ read_changes-torn_record cs k [] small fits (omega arith))
