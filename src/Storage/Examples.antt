-- ===== src/Storage/Examples.antt =====
-- Runs of paxos-wasm/core/storage/src/storage.rs, and the theorems at them.
use wasm_master.Common.{◌≤◌, none, some, List, [], ◌∷◌, ◌≡◌, refl, arith, length, false}
use wasm_master.Common.Fallible.{ok, err, ◌>>◌}
use wasm_master.Persistence.{Bytes}
use wasm_master.Storage.Names.{
  codes, snapshot_name, is_snapshot, starts_with, name_eq, sort_names, insert_name, name_le,
}
use wasm_master.Storage.Frames.{be_bytes}
use wasm_master.Storage
use wasm_master.Storage.{
  Storage, Disk, io, io_write, flush_buf, write_all, save_state, load_state, save_change,
  flush_changes, checkpoint, remove_file, list_snapshots, prune_loop, prune_snapshots,
  load_state_and_changes,
}
use wasm_master.Storage.States.{Call, call_all, saved_state_kept}
use wasm_master.Storage.Writes.{Saved, save_all, save_change-Saved}
use wasm_master.Storage.Reload.{saved_then_loaded, orphan_length_unreadable}
use wasm_master.Storage.Snapshots.{Checkpointed, checkpoint_lem}
use wasm_master.Storage.Pruning.{prune_snapshots_bound}

abbrev healthy : Disk
healthy = record { current_state = 7 ∷ []; changelog = []; snapshots = []; faults = [] }

abbrev opened : Storage
opened = record { max_snapshots = 1; state_position = 0; writer = []; disk = healthy }

opens : Storage.new 1 healthy ≡ some opened
unfolding Storage.new io
opens = refl

saves : ((save_all ((1 ∷ 2 ∷ []) ∷ (3 ∷ []) ∷ []) >> flush_changes) opened).0 ≡ ok tt
unfolding save_all save_change write_all flush_changes flush_buf io io_write
saves = refl

saved_then_loaded_example :
    (snaps : List Bytes) × (load_state_and_changes 2
        ((save_all ((1 ∷ 2 ∷ []) ∷ (3 ∷ []) ∷ []) >> flush_changes) opened).1
      ≡ ok (snaps, (1 ∷ 2 ∷ []) ∷ (3 ∷ []) ∷ []))
saved_then_loaded_example =
    saved_then_loaded 2 [] ((1 ∷ 2 ∷ []) ∷ (3 ∷ []) ∷ []) opened tt (omega arith, (omega arith, tt))
      refl saves

save_change-Saved_example : Saved [] (5 ∷ []) (save_change (5 ∷ []) opened)
save_change-Saved_example = save_change-Saved [] (5 ∷ []) opened (omega arith) refl

-- The length of a change is in the buffer, and the change is not.
abbrev orphaned : Storage
orphaned = record opened { writer = be_bytes 3 }

orphaned_flushes : (flush_changes orphaned).0 ≡ ok tt
unfolding flush_changes flush_buf io io_write
orphaned_flushes = refl

orphan_length_unreadable_example :
    load_state_and_changes 1 (flush_changes orphaned).1 ≡ err "failed to fill whole buffer"
orphan_length_unreadable_example =
    orphan_length_unreadable 1 3 [] orphaned tt (omega arith) (omega arith) refl orphaned_flushes

abbrev failing : Storage
failing = record opened {
  disk = record healthy {
    faults = none ∷ some (record { message = "disk full"; written = 1 }) ∷ [];
  };
}

checkpoint_lem_example :
    Checkpointed (6 ∷ []) (snapshot_name (codes "t1")) failing (checkpoint (6 ∷ []) "t1" failing)
checkpoint_lem_example = checkpoint_lem (6 ∷ []) "t1" failing

-- Two snapshots, of which one may stay.
abbrev full : Storage
full = record opened {
  disk = record healthy {
    snapshots = (snapshot_name (codes "2"), 2 ∷ []) ∷ (snapshot_name (codes "1"), 1 ∷ []) ∷ [];
  };
}

full_prunes : (prune_snapshots 1 full).0 ≡ ok tt
unfolding prune_snapshots prune_loop list_snapshots sort_names insert_name name_le is_snapshot
    starts_with name_eq remove_file io
full_prunes = refl

full_differ : name_eq (snapshot_name (codes "1")) (snapshot_name (codes "2")) ≡ false
unfolding name_eq
full_differ = refl

prune_snapshots_bound_example : length (list_snapshots (prune_snapshots 1 full).1) ≤ 1
prune_snapshots_bound_example =
    prune_snapshots_bound 1 full ((full_differ, tt), (tt, tt)) full_prunes

-- The handle stands at the end of a state that is longer than the new one.
abbrev used : Storage
used = record opened {
  state_position = 2;
  disk = record healthy { current_state = 7 ∷ 8 ∷ []; changelog = [] };
}

used_saves : (save_state (9 ∷ []) used).0 ≡ ok tt
unfolding save_state io io_write
used_saves = refl

saved_state_kept_example :
    load_state (
      call_all
        (Call.save_change (5 ∷ []) ∷ Call.checkpoint (6 ∷ []) "t1" ∷ [])
        (save_state (9 ∷ []) used).1)
    ≡ ok (9 ∷ [])
saved_state_kept_example =
    saved_state_kept (9 ∷ []) (Call.save_change (5 ∷ []) ∷ Call.checkpoint (6 ∷ []) "t1" ∷ []) used
      used_saves
