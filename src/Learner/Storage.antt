-- ===== src/Learner/Storage.antt =====
-- `StorageHelper` of paxos-wasm/core/learner/src/learner.rs: the changelog of learned entries, the
-- snapshots with pruning, and the loading at startup. One call reads the clock once.
use wasm_master.Common.{
  ℕ, ◌-◌, ◌%◌, Bool, Option, none, some, List, [], ◌∷◌, ◌&&◌, ◌||◌, not, ltb, leb, ◌==◌,
  if◌then◌else◌, add_u64, saturating_mul, as_usize,
}
use wasm_master.Common.Fallible.{ok, err, in_context, Act, lift, ◌>>=◌, ◌>>◌}
use wasm_master.Common.KeyMap.{KeyMap, insert, retain, keys, last_key, last_entries}
use wasm_master.Types.{Slot, Value, LearnedEntry, RunConfig}
use wasm_master.Persistence.{Bytes, StorageOps, Codec, Clock}

pub record SnapshotState : Type 0 where
  pub adu : Slot
  pub learned : KeyMap Value

-- `bincode` at `LearnedEntry` and at `PersistentSnapshotState`.
pub record Codecs : Type 0 where
  pub change : Codec LearnedEntry
  pub snapshot : Codec SnapshotState

pub record StorageHelper (S : Type 0) : Type 0 where
  pub store : S
  pub enabled : Bool
  pub run_config : RunConfig
  pub change_flush_interval : ℕ
  pub change_pending : ℕ
  pub change_last_flush : ℕ
  pub snapshot_slot_offset : ℕ
  pub last_snapshot_slot : Slot

-- `hash` is what the hasher returns for the key; `none` is the panic of `%` at a zero interval.
unfoldable pub new : {S : Type 0} → ℕ → S → RunConfig → Bool → Clock → Option (StorageHelper S)
new hash store run_config enabled clock =
    if run_config.storage_snapshot_slot_interval == 0
    then none
    else some (record {
      store = store;
      enabled = enabled;
      run_config = run_config;
      change_flush_interval = run_config.storage_flush_change_interval_ms;
      change_pending = 0;
      change_last_flush = clock.now;
      snapshot_slot_offset = hash % run_config.storage_snapshot_slot_interval;
      last_snapshot_slot = 0;
    })

-- A method of the storage resource, with its error as it is.
abbrev pub on_store : {S A : Type 0} → Act S A → Act (StorageHelper S) A
on_store m h = let (r, s) = m h.store in (r, record h { store = s })

abbrev pub prune_below : RunConfig → Option Slot → KeyMap Value → KeyMap Value
prune_below config none learned = learned
prune_below config (some max_slot) learned =
    let keep_span =
      saturating_mul config.storage_snapshot_slot_interval config.storage_max_snapshots in
    retain (ltb (max_slot - keep_span)) learned

-- The in-memory map without the slots that are `keep_span` or more below the highest one.
unfoldable pub prune : RunConfig → KeyMap Value → KeyMap Value
prune config learned =
    if ltb 0 config.storage_max_snapshots && ltb 0 config.storage_snapshot_slot_interval
    then prune_below config (last_key learned) learned
    else learned

module _ {S : Type 0} (ops : StorageOps S) (codecs : Codecs) (clock : Clock) where
  unfoldable pub flush_changes : Act (StorageHelper S) (Unit {0})
  flush_changes h =
      if not h.enabled
      then (ok tt, h)
      else (do
        on_store ops.flush_changes
        λ h'. (ok tt, record h' { change_last_flush = clock.now }))
          h

  unfoldable pub maybe_flush_changes : Act (StorageHelper S) (Unit {0})
  maybe_flush_changes h =
      if not h.enabled || h.change_pending == 0
      then (ok tt, h)
      else if leb h.run_config.storage_flush_change_count h.change_pending
          || leb h.change_flush_interval (clock.now - h.change_last_flush)
      then (do flush_changes; λ h'. (ok tt, record h' { change_pending = 0 })) h
      else (ok tt, h)

  unfoldable pub save_change : LearnedEntry → Act (StorageHelper S) (Unit {0})
  save_change entry h =
      if not h.enabled
      then (ok tt, h)
      else (do
        blob ← lift (in_context "bincode encode changes: " (codecs.change.encode entry))
        on_store (ops.save_change blob)
        λ h'. maybe_flush_changes (record h' { change_pending = add_u64 h'.change_pending 1 }))
          h

  -- A method that changes the shared map of learned values takes it, and gives back the changed one.
  unfoldable pub checkpoint_snapshot : Slot → KeyMap Value → Act (StorageHelper S) (KeyMap Value)
  checkpoint_snapshot adu learned h =
      (do
        blob ← lift (
            in_context "bincode encode snapshot: " (
              codecs.snapshot.encode (record {
                adu = adu;
                learned =
                    last_entries (as_usize h.run_config.storage_snapshot_slot_interval) learned;
              })))
        on_store (ops.checkpoint blob clock.timestamp)
        λ h'. (ok (prune h'.run_config learned), h'))
        h

  unfoldable pub maybe_snapshot : Slot → KeyMap Value → Act (StorageHelper S) (KeyMap Value)
  maybe_snapshot new_adu learned h =
      if not h.enabled || h.run_config.storage_snapshot_slot_interval == 0
      then (ok learned, h)
      else if new_adu % h.run_config.storage_snapshot_slot_interval == h.snapshot_slot_offset
          && ltb h.last_snapshot_slot new_adu
      then (do
        flush_changes
        kept ← checkpoint_snapshot new_adu learned
        λ h'. (ok kept, record h' { last_snapshot_slot = new_adu }))
          h
      else (ok learned, h)

-- `m.insert(slot, val)` for each entry, in order
unfoldable pub insert_all : List (ℕ × Value) → KeyMap Value → KeyMap Value
insert_all [] m = m
insert_all ((slot, v) ∷ rest) m = insert_all rest (insert slot v m)

-- The loop that moves `next` over the keys that follow one another.
unfoldable pub advance : Slot → List Slot → Slot
advance next [] = next
advance next (s ∷ ss) = let rest = advance (add_u64 next 1) ss in if s == next then rest else next

-- `skip_while(|s| s <= adu)`
unfoldable pub skip_to : Slot → List Slot → List Slot
skip_to adu [] = []
skip_to adu (s ∷ ss) = let rest = skip_to adu ss in if leb s adu then rest else s ∷ ss

-- The last slot of the run without a gap that starts after `adu`.
unfoldable pub contiguous_end : Slot → KeyMap Value → Slot
contiguous_end adu learned = advance (add_u64 adu 1) (skip_to adu (keys learned)) - 1

module _ {S : Type 0} (ops : StorageOps S) (codecs : Codecs) where
  unfoldable pub apply_snapshots : List Bytes → Act (KeyMap Value × Slot) (Unit {0})
  apply_snapshots [] m = (ok tt, m)
  apply_snapshots (blob ∷ blobs) (learned, adu) = elim (codecs.snapshot.decode blob) [
    | ok ps ↦ apply_snapshots blobs (insert_all ps.learned learned, ps.adu)
    | err e ↦ (err e, (learned, adu))
  ]

  unfoldable pub replay_changes : List Bytes → Act (KeyMap Value × Slot) (Unit {0})
  replay_changes [] m = (ok tt, m)
  replay_changes (blob ∷ blobs) (learned, adu) = elim (codecs.change.decode blob) [
    | ok entry ↦ replay_changes blobs (insert entry.slot entry.value learned, adu)
    | err e ↦ (err e, (learned, adu))
  ]

  unfoldable pub load_and_replay_state : StorageHelper S → Act (KeyMap Value × Slot) (Unit {0})
  load_and_replay_state h (learned, adu) =
      if not h.enabled
      then (ok tt, (learned, adu))
      else elim (in_context "storage.load_state_and_changes: "
          (ops.load_state_and_changes h.run_config.storage_load_snapshots h.store)) [
            | ok (snapshots, changes) ↦
                (do
                  apply_snapshots snapshots
                  replay_changes changes
                  λ m. (ok tt, (m.0, contiguous_end m.1 m.0)))
                  ([], adu)
            | err e ↦ (err e, (learned, adu))
          ]
