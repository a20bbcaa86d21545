-- ===== src/Acceptor/Pruning.antt =====
-- What a snapshot of paxos-wasm/core/acceptor/src/acceptor.rs prunes from the accepted proposals.
use wasm_master.Common.{
  ◌%◌, ◌<◌, ap, ℕ, Bool, false, Option, none, some, ◌≡◌, refl, ◌⊎◌, inl, inr, arith, ltb, ◌&&◌,
  Bool-cases, if_both, not, add_u64,
}
use wasm_master.Common.Fallible.{Result, ok, err, resume, in_context, ◌>>◌}
use wasm_master.Common.KeyMap
use wasm_master.Common.KeyMap.{KeyMap, get-insert, get-retain}
use wasm_master.Types.{Slot, PValue, RunConfig}
use wasm_master.Persistence.{Bytes, StorageOps, Clock}
use wasm_master.Acceptor.Storage.{
  Codecs, StorageHelper, flush_changes, maybe_flush_changes, save_change, on_store,
}
use wasm_master.Acceptor.Snapshots.{prune_below, prune, checkpoint_snapshot, maybe_snapshot}

-- `m'` is `m`, or `m` without the slots that a snapshot has pruned.
abbrev pub IsPruned : KeyMap PValue → KeyMap PValue → Type 0
IsPruned m m' = (m' ≡ m) ⊎ ((p : ℕ → Bool) × (m' ≡ KeyMap.retain p m))

prune_below-IsPruned :
    (c : RunConfig) (o : Option Slot) (m : KeyMap PValue) → IsPruned m (prune_below c o m)
prune_below-IsPruned c none m = inl refl
prune_below-IsPruned c (some n) m = inr (_, refl)

pub prune-IsPruned : (c : RunConfig) (m : KeyMap PValue) → IsPruned m (prune c m)
unfolding prune
prune-IsPruned c m =
    elim (Bool-cases (ltb 0 c.storage_max_snapshots && ltb 0 c.storage_snapshot_slot_interval)) [
      | inl e ↦ rw e (prune_below-IsPruned c (KeyMap.last_key m) m)
      | inr e ↦ rw e (inl refl)
    ]

pub IsPruned-get :
    (k : ℕ) {m m' : KeyMap PValue}
    → IsPruned m m'
    → (KeyMap.get k m' ≡ KeyMap.get k m) ⊎ (KeyMap.get k m' ≡ none)
IsPruned-get k (inl e) = inl (rw e)
IsPruned-get k {m} (inr (p, e)) = ground (arith, get-retain p k m)

-- What decides on a snapshot: the configuration, the offset, and the slot of the last snapshot.
abbrev pub settings : {S : Type 0} → StorageHelper S → RunConfig × Slot × Slot
settings h = (h.run_config, h.snapshot_slot_offset, h.last_snapshot_slot)

-- A snapshot is due at the slot.
abbrev pub IsDue : Slot → RunConfig × Slot × Slot → Type 0
IsDue slot (c, offset, last) = (slot % c.storage_snapshot_slot_interval ≡ offset) × (last < slot)

-- What is kept of the map: all of it, or what the pruning leaves where a snapshot is due.
abbrev pub Taken : Slot → KeyMap PValue → RunConfig × Slot × Slot → KeyMap PValue → Type 0
Taken slot m x kept = (kept ≡ m) ⊎ ((kept ≡ prune x.0 m) × IsDue slot x)

pub Taken-IsPruned :
    (slot : Slot) (x : RunConfig × Slot × Slot) {m kept : KeyMap PValue}
    → Taken slot m x kept
    → IsPruned m kept
Taken-IsPruned slot x (inl e) = inl e
Taken-IsPruned slot x {m} (inr (e, due)) = rw e (prune-IsPruned x.0 m)

module _ {S : Type 0} (ops : StorageOps S) (codecs : Codecs) (clock : Clock) where
  settings-flush_changes :
      (h : StorageHelper S) → settings (flush_changes ops codecs clock h).1 ≡ settings h
  unfolding flush_changes
  settings-flush_changes h = ground arith

  checkpoint_snapshot_kept :
      (m kept : KeyMap PValue) (h : StorageHelper S)
      → (checkpoint_snapshot ops codecs clock m h).0 ≡ ok kept
      → (kept ≡ m) ⊎ (kept ≡ prune h.run_config m)
  unfolding checkpoint_snapshot
  checkpoint_snapshot_kept m kept h e = ground arith

  pub maybe_snapshot_kept :
      (slot : Slot) (m kept : KeyMap PValue) (h : StorageHelper S)
      → (maybe_snapshot ops codecs clock slot m h).0 ≡ ok kept
      → Taken slot m (settings h) kept
  unfolding maybe_snapshot
  maybe_snapshot_kept slot m kept h e = ground (
    arith,
    ap (λ x. x.0) (settings-flush_changes h),
    checkpoint_snapshot_kept m kept (flush_changes ops codecs clock h).1,
  )

  -- Without persistence no snapshot is taken.
  pub maybe_snapshot_disabled :
      (slot : Slot) (m : KeyMap PValue) (h : StorageHelper S)
      → h.enabled ≡ false
      → maybe_snapshot ops codecs clock slot m h ≡ (ok m, h)
  unfolding maybe_snapshot
  maybe_snapshot_disabled slot m h e = ground arith

  settings-maybe_flush_changes :
      (h : StorageHelper S) → settings (maybe_flush_changes ops codecs clock h).1 ≡ settings h
  unfolding maybe_flush_changes
  settings-maybe_flush_changes h = ground (arith, settings-flush_changes h)

  settings-after_store :
      (r : Result (Unit {0})) (h : StorageHelper S)
      → settings
          (resume
            (in_context "" r)
            (λ _ h'.
              maybe_flush_changes ops codecs clock
                (record h' { change_pending = add_u64 h'.change_pending 1 }))
            h).1
        ≡ settings h
  settings-after_store (ok u) h = settings-maybe_flush_changes _
  settings-after_store (err e) h = refl

  settings-after_encode :
      (r : Result Bytes) (h : StorageHelper S)
      → settings
          (resume
            (in_context "bincode encode changes: " r)
            (λ blob. on_store "" (ops.save_change blob) >> λ h'.
              maybe_flush_changes ops codecs clock
                (record h' { change_pending = add_u64 h'.change_pending 1 }))
            h).1
        ≡ settings h
  settings-after_encode (ok blob) h = settings-after_store (ops.save_change blob h.store).0 _
  settings-after_encode (err e) h = refl

  pub settings-save_change :
      (pv : PValue) (h : StorageHelper S)
      → settings (save_change ops codecs clock pv h).1 ≡ settings h
  unfolding save_change
  settings-save_change pv h =
      if_both (λ (r : Result (Unit {0}) × StorageHelper S). settings r.1 ≡ settings h)
        (not h.enabled) refl (settings-after_encode (codecs.change.encode pv) h)

  pub save_change_disabled :
      (pv : PValue) (h : StorageHelper S)
      → h.enabled ≡ false
      → save_change ops codecs clock pv h ≡ (ok tt, h)
  unfolding save_change
  save_change_disabled pv h e = ground arith
