-- ===== src/Proposer/Storage.antt =====
-- `StorageHelper` of paxos-wasm/core/proposer/src/proposer.rs: the current ballot and `adu`,
-- overwritten at each change and flushed in batches. One call reads the clock once.
use wasm_master.Common.{ℕ, ◌-◌, String, Bool, ◌||◌, not, leb, ◌==◌, if◌then◌else◌, add_u64}
use wasm_master.Common.Fallible.{ok, err, in_context, Act, lift, ◌>>=◌, ◌>>◌}
use wasm_master.Types.{Slot, Ballot, RunConfig}
use wasm_master.Persistence.{StorageOps, Codec, Clock, is_missing_file}

pub record CurrentState : Type 0 where
  pub current_ballot : Ballot
  pub adu : Slot

pub record StorageHelper (S : Type 0) : Type 0 where
  pub store : S
  pub enabled : Bool
  pub run_config : RunConfig
  pub flush_interval : ℕ
  pub pending : ℕ
  pub last_flush : ℕ

unfoldable pub new : {S : Type 0} → S → RunConfig → Bool → Clock → StorageHelper S
new store run_config enabled clock = record {
  store = store;
  enabled = enabled;
  run_config = run_config;
  flush_interval = run_config.storage_flush_state_interval_ms;
  pending = 0;
  last_flush = clock.now;
}

abbrev pub on_store : {S A : Type 0} → String → Act S A → Act (StorageHelper S) A
on_store label m h = let (r, s) = m h.store in (in_context label r, record h { store = s })

module _ {S : Type 0} (ops : StorageOps S) (codec : Codec CurrentState) (clock : Clock) where
  unfoldable pub flush_state : Act (StorageHelper S) (Unit {0})
  flush_state h =
      if not h.enabled
      then (ok tt, h)
      else on_store "storage.flush_state: " ops.flush_state (record h { last_flush = clock.now })

  unfoldable pub maybe_flush_state : Act (StorageHelper S) (Unit {0})
  maybe_flush_state h =
      if not h.enabled || h.pending == 0
      then (ok tt, h)
      else if leb h.run_config.storage_flush_state_count h.pending
          || leb h.flush_interval (clock.now - h.last_flush)
      then (do flush_state; λ h'. (ok tt, record h' { pending = 0 })) h
      else (ok tt, h)

  unfoldable pub save_state : Ballot → Slot → Act (StorageHelper S) (Unit {0})
  save_state current_ballot adu h =
      if not h.enabled
      then (ok tt, h)
      else (do
        blob ← lift (
            in_context "bincode encode: "
              (codec.encode (record { current_ballot = current_ballot; adu = adu })))
        on_store "storage.save_state: " (ops.save_state blob)
        λ h'. maybe_flush_state (record h' { pending = add_u64 h'.pending 1 }))
          h

module _ {S : Type 0} (ops : StorageOps S) (codec : Codec CurrentState) where
  -- The stored ballot and `adu` replace those in memory; a missing file is no error.
  unfoldable pub load_state : StorageHelper S → Act CurrentState (Unit {0})
  load_state h current = if not h.enabled then (ok tt, current) else elim (ops.load_state h.store) [
    | ok blob ↦ elim (codec.decode blob) [
      | ok ps ↦ (ok tt, ps)
      | err e ↦ (in_context "bincode decode: " (err e), current)
    ]
    | err e ↦
        if is_missing_file e
        then (ok tt, current)
        else (in_context "storage.load_state: " (err e), current)
  ]
