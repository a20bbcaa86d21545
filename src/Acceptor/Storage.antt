-- ===== src/Acceptor/Storage.antt =====
-- `StorageHelper` of paxos-wasm/core/acceptor/src/acceptor.rs: buffered writes of the promises and
-- of the changelog, snapshots of the accepted proposals, and the loading of both at startup. The
-- storage resource and `bincode` are parameters. One call reads the clock once.
use wasm_master.Common.{
  ℕ, ◌-◌, ◌%◌, String, Bool, Option, none, some, List, ◌||◌, not, leb, ◌==◌, if◌then◌else◌, add_u64,
}
use wasm_master.Common.Fallible.{ok, in_context, Act, lift, ◌>>=◌, ◌>>◌}
use wasm_master.Common.KeyMap.{KeyMap}
use wasm_master.Types.{Slot, Ballot, PValue, RunConfig}
use wasm_master.Persistence.{StorageOps, Codec, Clock}

-- `bincode` at the three types that the acceptor stores: `PersistentCurrentState`, `PValue` and
-- `PersistentSnapshotState`.
pub record Codecs : Type 0 where
  pub promises : Codec (List Ballot)
  pub change : Codec PValue
  pub snapshot : Codec (KeyMap PValue)

pub record StorageHelper (S : Type 0) : Type 0 where
  pub store : S
  pub enabled : Bool
  pub run_config : RunConfig
  pub state_flush_interval : ℕ
  pub state_pending : ℕ
  pub state_last_flush : ℕ
  pub change_flush_interval : ℕ
  pub change_pending : ℕ
  pub change_last_flush : ℕ
  pub snapshot_slot_offset : ℕ
  pub last_snapshot_slot : Slot

-- `hash` is what the hasher returns for the key, and `store` what the resource's constructor does.
-- `none` is the panic of `%` at a zero interval.
unfoldable pub new : {S : Type 0} → ℕ → S → RunConfig → Bool → Clock → Option (StorageHelper S)
new hash store run_config enabled clock =
    if run_config.storage_snapshot_slot_interval == 0
    then none
    else some (record {
      store = store;
      enabled = enabled;
      run_config = run_config;
      state_flush_interval = run_config.storage_flush_state_interval_ms;
      state_pending = 0;
      state_last_flush = clock.now;
      change_flush_interval = run_config.storage_flush_change_interval_ms;
      change_pending = 0;
      change_last_flush = clock.now;
      snapshot_slot_offset = hash % run_config.storage_snapshot_slot_interval;
      last_snapshot_slot = 0;
    })

-- A method of the storage resource, with its error in context.
abbrev pub on_store : {S A : Type 0} → String → Act S A → Act (StorageHelper S) A
on_store label m h = let (r, s) = m h.store in (in_context label r, record h { store = s })

-- The test of `maybe_flush_*`: enough writes are pending, or enough time has passed.
abbrev pub is_due : ℕ → ℕ → ℕ → ℕ → ℕ → Bool
is_due pending limit now last_flush interval = leb limit pending || leb interval (now - last_flush)

module _ {S : Type 0} (ops : StorageOps S) (codecs : Codecs) (clock : Clock) where
  unfoldable pub flush_current_state : Act (StorageHelper S) (Unit {0})
  flush_current_state h =
      if not h.enabled
      then (ok tt, h)
      else on_store "storage.flush_state promises: " ops.flush_state
          (record h { state_last_flush = clock.now })

  unfoldable pub maybe_flush_current_state : Act (StorageHelper S) (Unit {0})
  maybe_flush_current_state h =
      if not h.enabled || h.state_pending == 0
      then (ok tt, h)
      else if is_due h.state_pending h.run_config.storage_flush_state_count clock.now
          h.state_last_flush h.state_flush_interval
      then (do flush_current_state; λ h'. (ok tt, record h' { state_pending = 0 })) h
      else (ok tt, h)

  unfoldable pub save_current_state : List Ballot → Act (StorageHelper S) (Unit {0})
  save_current_state promises h =
      if not h.enabled
      then (ok tt, h)
      else (do
        blob ← lift (in_context "bincode encode promises: " (codecs.promises.encode promises))
        on_store "storage.save_state promises: " (ops.save_state blob)
        λ h'. maybe_flush_current_state (record h' { state_pending = add_u64 h'.state_pending 1 }))
          h

  -- The errors of these two store calls have no context.
  unfoldable pub flush_changes : Act (StorageHelper S) (Unit {0})
  flush_changes h =
      if not h.enabled
      then (ok tt, h)
      else (do
        on_store "" ops.flush_changes
        λ h'. (ok tt, record h' { change_last_flush = clock.now }))
          h

  unfoldable pub maybe_flush_changes : Act (StorageHelper S) (Unit {0})
  maybe_flush_changes h =
      if not h.enabled || h.change_pending == 0
      then (ok tt, h)
      else if is_due h.change_pending h.run_config.storage_flush_change_count clock.now
          h.change_last_flush h.change_flush_interval
      then (do flush_changes; λ h'. (ok tt, record h' { change_pending = 0 })) h
      else (ok tt, h)

  unfoldable pub save_change : PValue → Act (StorageHelper S) (Unit {0})
  save_change pv h =
      if not h.enabled
      then (ok tt, h)
      else (do
        blob ← lift (in_context "bincode encode changes: " (codecs.change.encode pv))
        on_store "" (ops.save_change blob)
        λ h'. maybe_flush_changes (record h' { change_pending = add_u64 h'.change_pending 1 }))
          h
