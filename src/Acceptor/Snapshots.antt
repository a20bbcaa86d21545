-- ===== src/Acceptor/Snapshots.antt =====
-- Snapshots and loading of `StorageHelper` in paxos-wasm/core/acceptor/src/acceptor.rs. A method
-- that changes the shared map of accepted proposals takes it, and gives back the changed one.
use wasm_master.Common.{
  ℕ, ◌-◌, ◌%◌, Option, none, some, List, [], ◌∷◌, ◌&&◌, ◌||◌, not, ltb, ◌==◌, if◌then◌else◌,
  saturating_mul, as_usize,
}
use wasm_master.Common.Fallible.{ok, err, in_context, Act, lift, ◌>>=◌, ◌>>◌}
use wasm_master.Common.KeyMap.{KeyMap, insert, retain, last_key, last_entries}
use wasm_master.Types.{Slot, Ballot, PValue, RunConfig}
use wasm_master.Persistence.{Bytes, StorageOps, Clock, is_missing_file}
use wasm_master.Acceptor.Storage.{Codecs, StorageHelper, on_store, flush_changes}

abbrev pub prune_below : RunConfig → Option Slot → KeyMap PValue → KeyMap PValue
prune_below config none accepted = accepted
prune_below config (some max_slot) accepted =
    let keep_span =
      saturating_mul config.storage_snapshot_slot_interval config.storage_max_snapshots in
    retain (ltb (max_slot - keep_span)) accepted

-- The in-memory map without the slots that are `keep_span` or more below the highest one.
unfoldable pub prune : RunConfig → KeyMap PValue → KeyMap PValue
prune config accepted =
    if ltb 0 config.storage_max_snapshots && ltb 0 config.storage_snapshot_slot_interval
    then prune_below config (last_key accepted) accepted
    else accepted

-- `a.insert(slot, pv)` for each entry, in order
unfoldable pub insert_all : List (ℕ × PValue) → KeyMap PValue → KeyMap PValue
insert_all [] m = m
insert_all ((slot, pv) ∷ rest) m = insert_all rest (insert slot pv m)

module _ {S : Type 0} (ops : StorageOps S) (codecs : Codecs) (clock : Clock) where
  unfoldable pub checkpoint_snapshot : KeyMap PValue → Act (StorageHelper S) (KeyMap PValue)
  checkpoint_snapshot accepted h =
      if not h.enabled
      then (ok accepted, h)
      else (do
        blob ← lift (
            in_context "bincode encode snapshot: " (
              codecs.snapshot.encode
                (last_entries (as_usize h.run_config.storage_snapshot_slot_interval) accepted)))
        on_store "" (ops.checkpoint blob clock.timestamp)
        λ h'. (ok (prune h'.run_config accepted), h'))
          h

  -- A snapshot is taken at the slots that are `offset` modulo the interval, and above the last.
  unfoldable pub maybe_snapshot : Slot → KeyMap PValue → Act (StorageHelper S) (KeyMap PValue)
  maybe_snapshot slot accepted h =
      if not h.enabled || h.run_config.storage_snapshot_slot_interval == 0
      then (ok accepted, h)
      else if slot % h.run_config.storage_snapshot_slot_interval == h.snapshot_slot_offset
          && ltb h.last_snapshot_slot slot
      then (do
        flush_changes ops codecs clock
        kept ← checkpoint_snapshot accepted
        λ h'. (ok kept, record h' { last_snapshot_slot = slot }))
          h
      else (ok accepted, h)

module _ {S : Type 0} (ops : StorageOps S) (codecs : Codecs) where
  -- The promises that are stored replace those in memory; a missing file is no error.
  unfoldable pub load_current_state : StorageHelper S → Act (List Ballot) (Unit {0})
  load_current_state h promises =
      if not h.enabled then (ok tt, promises) else elim (ops.load_state h.store) [
        | ok blob ↦ elim (codecs.promises.decode blob) [
          | ok loaded ↦ (ok tt, loaded)
          | err e ↦ (in_context "bincode decode promises: " (err e), promises)
        ]
        | err e ↦
            if is_missing_file e
            then (ok tt, promises)
            else (in_context "storage.load_state promises: " (err e), promises)
      ]

  unfoldable pub apply_snapshots : List Bytes → Act (KeyMap PValue) (Unit {0})
  apply_snapshots [] a = (ok tt, a)
  apply_snapshots (blob ∷ blobs) a = elim (codecs.snapshot.decode blob) [
    | ok snapshot ↦ apply_snapshots blobs (insert_all snapshot a)
    | err e ↦ (in_context "bincode decode snapshot: " (err e), a)
  ]

  unfoldable pub replay_changes : List Bytes → Act (KeyMap PValue) (Unit {0})
  replay_changes [] a = (ok tt, a)
  replay_changes (blob ∷ blobs) a = elim (codecs.change.decode blob) [
    | ok pv ↦ replay_changes blobs (insert pv.slot pv a)
    | err e ↦ (in_context "bincode decode change: " (err e), a)
  ]

  unfoldable pub load_accepted : StorageHelper S → Act (KeyMap PValue) (Unit {0})
  load_accepted h accepted =
      elim (in_context "storage.load_state_and_changes: "
        (ops.load_state_and_changes h.run_config.storage_load_snapshots h.store)) [
          | ok (snapshots, changes) ↦ (apply_snapshots snapshots >> replay_changes changes) []
          | err e ↦ (err e, accepted)
        ]

  unfoldable pub load_and_combine_state :
      StorageHelper S → Act (List Ballot × KeyMap PValue) (Unit {0})
  load_and_combine_state h (promises, accepted) =
      if not h.enabled
      then (ok tt, (promises, accepted))
      else let (r, promises') = load_current_state h promises in
        elim r [
          | ok _ ↦ let (r', accepted') = load_accepted h accepted in (r', (promises', accepted'))
          | err e ↦ (err e, (promises', accepted))
        ]
