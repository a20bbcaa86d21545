-- ===== src/Acceptor/Loading.antt =====
-- What `load_state` of paxos-wasm/core/acceptor/src/acceptor.rs makes of what is stored.
use wasm_master.Common.{
  ℕ, Bool, String, true, false, List, [], ◌∷◌, ◌≡◌, refl, All, is_some, if_cases, if_both, not,
}
use wasm_master.Common.Fallible.{Result, ok, err, ◌>>◌, resume, in_context}
use wasm_master.Common.KeyMap
use wasm_master.Common.KeyMap.{KeyMap, IsSorted, insert-IsSorted, All-insert}
use wasm_master.Types.{Slot, Ballot, PValue}
use wasm_master.Persistence.{Bytes, StorageOps, is_missing_file}
use wasm_master.Acceptor.Storage.{Codecs, StorageHelper}
use wasm_master.Acceptor.Snapshots.{
  insert_all, load_current_state, apply_snapshots, replay_changes, load_accepted,
  load_and_combine_state,
}
use wasm_master.Acceptor
use wasm_master.Acceptor.{Acceptor}
use wasm_master.Acceptor.Invariant.{IsValid, IsFiled, Climbs}

-- What is read from the storage decodes to ever higher promises, and to proposals with a value, those
-- of a snapshot each under its own slot.
pub record IsSound {S : Type 0} (ops : StorageOps S) (codecs : Codecs) (store : S) : Type 0 where
  pub promises :
      (blob : Bytes) (bs : List Ballot)
      → ops.load_state store ≡ ok blob
      → codecs.promises.decode blob ≡ ok bs
      → Climbs 0 bs
  pub snapshots :
      (n : ℕ) (snaps changes : List Bytes)
      → ops.load_state_and_changes n store ≡ ok (snaps, changes)
      → All (λ b. (m : KeyMap PValue) → codecs.snapshot.decode b ≡ ok m → All IsFiled m) snaps
  pub changes :
      (n : ℕ) (snaps changes : List Bytes)
      → ops.load_state_and_changes n store ≡ ok (snaps, changes)
      → All (λ b. (pv : PValue) → codecs.change.decode b ≡ ok pv → is_some pv.value ≡ true) changes

-- A map of proposals in order, each under its own slot and with a value.
pub record IsTable (m : KeyMap PValue) : Type 0 where
  pub sorted : IsSorted m
  pub filed : All IsFiled m

insert-IsTable :
    (slot : Slot) (pv : PValue) (m : KeyMap PValue)
    → IsFiled (slot, pv)
    → IsTable m
    → IsTable (KeyMap.insert slot pv m)
insert-IsTable slot pv m f t = record {
  sorted = insert-IsSorted slot pv m t.sorted;
  filed = All-insert IsFiled slot pv m f t.filed;
}

insert_all-IsTable :
    (snap m : KeyMap PValue) → All IsFiled snap → IsTable m → IsTable (insert_all snap m)
unfolding insert_all
insert_all-IsTable [] m f t = t
insert_all-IsTable ((slot, pv) ∷ rest) m f t =
    insert_all-IsTable rest (KeyMap.insert slot pv m) f.1 (insert-IsTable slot pv m f.0 t)

-- A property of both outcomes of a decoding.
on_result :
    {A B : Type 0} (P : B → Type 0) (r : Result A) (x : A → B) (y : String → B)
    → ((a : A) → r ≡ ok a → P (x a))
    → ((e : String) → P (y e))
    → P (elim r [ ok a ↦ x a | err e ↦ y e ])
on_result P (ok a) x y f g = f a refl
on_result P (err e) x y f g = g e

enabled_of : (b : Bool) → not b ≡ false → b ≡ true
enabled_of true e = refl
enabled_of false e = cc

module _ {S : Type 0} (ops : StorageOps S) (codecs : Codecs) where
  apply_snapshots-IsTable :
      (blobs : List Bytes) (m : KeyMap PValue)
      → All
          (λ b. (snap : KeyMap PValue) → codecs.snapshot.decode b ≡ ok snap → All IsFiled snap)
          blobs
      → IsTable m
      → IsTable (apply_snapshots ops codecs blobs m).1
  unfolding apply_snapshots
  apply_snapshots-IsTable [] m h t = t
  apply_snapshots-IsTable (b ∷ bs) m h t =
      on_result (λ (r : Result (Unit {0}) × KeyMap PValue). IsTable r.1) (codecs.snapshot.decode b)
        _ _
        (λ snap e.
          apply_snapshots-IsTable bs (insert_all snap m) h.1
            (insert_all-IsTable snap m (h.0 snap e) t))
        (λ e. t)

  replay_changes-IsTable :
      (blobs : List Bytes) (m : KeyMap PValue)
      → All (λ b. (pv : PValue) → codecs.change.decode b ≡ ok pv → is_some pv.value ≡ true) blobs
      → IsTable m
      → IsTable (replay_changes ops codecs blobs m).1
  unfolding replay_changes
  replay_changes-IsTable [] m h t = t
  replay_changes-IsTable (b ∷ bs) m h t =
      on_result (λ (r : Result (Unit {0}) × KeyMap PValue). IsTable r.1) (codecs.change.decode b) _
        _
        (λ pv e.
          replay_changes-IsTable bs (KeyMap.insert pv.slot pv m) h.1
            (insert-IsTable pv.slot pv m (refl, h.0 pv e) t))
        (λ e. t)

  after_snapshots-IsTable :
      (changes : List Bytes) (r : Result (Unit {0}) × KeyMap PValue)
      → All (λ b. (pv : PValue) → codecs.change.decode b ≡ ok pv → is_some pv.value ≡ true) changes
      → IsTable r.1
      → IsTable (resume r.0 (λ _. replay_changes ops codecs changes) r.1).1
  after_snapshots-IsTable changes (ok _, m) h t = replay_changes-IsTable changes m h t
  after_snapshots-IsTable changes (err e, m) h t = t

  load_result-IsTable :
      (m : KeyMap PValue) (r : Result (List Bytes × List Bytes))
      → ((snaps changes : List Bytes)
          → r ≡ ok (snaps, changes)
          → All
              (λ b. (snap : KeyMap PValue) → codecs.snapshot.decode b ≡ ok snap → All IsFiled snap)
              snaps
            × All
                (λ b. (pv : PValue) → codecs.change.decode b ≡ ok pv → is_some pv.value ≡ true)
                changes)
      → IsTable m
      → let read : Result (Unit {0}) × KeyMap PValue =
          elim (in_context "storage.load_state_and_changes: " r) [
            | ok (snaps, changes) ↦
                (apply_snapshots ops codecs snaps >> replay_changes ops codecs changes) []
            | err e ↦ (err e, m)
          ] in
        IsTable read.1
  load_result-IsTable m (ok (snaps, changes)) h t =
      let (s, c) = h snaps changes refl in
      after_snapshots-IsTable changes (apply_snapshots ops codecs snaps []) c
        (apply_snapshots-IsTable snaps [] s (record { sorted = tt; filed = tt }))
  load_result-IsTable m (err e) h t = t

  load_accepted-IsTable :
      (h : StorageHelper S) (m : KeyMap PValue)
      → IsSound ops codecs h.store
      → IsTable m
      → IsTable (load_accepted ops codecs h m).1
  unfolding load_accepted
  load_accepted-IsTable h m sound t =
      let n = h.run_config.storage_load_snapshots in
      load_result-IsTable m (ops.load_state_and_changes n h.store)
        (λ snaps changes e. (sound.snapshots n snaps changes e, sound.changes n snaps changes e)) t

  load_current_state-Climbs :
      (h : StorageHelper S) (bs : List Ballot)
      → IsSound ops codecs h.store
      → Climbs 0 bs
      → Climbs 0 (load_current_state ops codecs h bs).1
  unfolding load_current_state
  load_current_state-Climbs h bs sound c =
      let P : Result (Unit {0}) × List Ballot → Type 0 = λ r. Climbs 0 r.1 in
      if_both P (not h.enabled) c (
        on_result P (ops.load_state h.store) _ _
          (λ blob e.
            on_result P (codecs.promises.decode blob) _ _
              (λ loaded d. sound.promises blob loaded e d) (λ _. c))
          (λ e. if_both P (is_missing_file e) c c))

  after_current :
      (h : StorageHelper S) (m : KeyMap PValue) (r : Result (Unit {0}) × List Ballot)
      → Climbs 0 r.1
      → IsTable m
      → IsTable (load_accepted ops codecs h m).1
      → let (_, (ps, kept)) : Result (Unit {0}) × (List Ballot × KeyMap PValue) = elim r.0 [
        | ok _ ↦ let (r', m') = load_accepted ops codecs h m in (r', (r.1, m'))
        | err e ↦ (err e, (r.1, m))
      ] in
        Climbs 0 ps × IsTable kept
  after_current h m (ok _, ps) c t t' = (c, t')
  after_current h m (err e, ps) c t t' = (c, t)

  combined :
      (h : StorageHelper S) (ps : List Ballot) (m : KeyMap PValue)
      → (h.enabled ≡ true → IsSound ops codecs h.store)
      → Climbs 0 ps
      → IsTable m
      → let r = load_and_combine_state ops codecs h (ps, m) in Climbs 0 r.1.0 × IsTable r.1.1
  unfolding load_and_combine_state
  combined h ps m sound c t =
      let P : Result (Unit {0}) × (List Ballot × KeyMap PValue) → Type 0 =
        λ r. Climbs 0 r.1.0 × IsTable r.1.1 in
      if_cases P (not h.enabled) (λ off. (c, t))
        (λ on.
          let s = sound (enabled_of h.enabled on) in
          after_current h m (load_current_state ops codecs h ps)
            (load_current_state-Climbs h ps s c) t (load_accepted-IsTable h m s t))

  -- What is loaded is valid where the storage is sound.
  pub load_state-IsValid :
      (a : Acceptor S)
      → (a.storage.enabled ≡ true → IsSound ops codecs a.storage.store)
      → IsValid a
      → IsValid (Acceptor.load_state ops codecs a).1
  unfolding Acceptor.load_state
  load_state-IsValid a sound v =
      let both =
        combined a.storage a.promises a.accepted sound v.climbs
          (record { sorted = v.sorted; filed = v.filed }) in
      record { climbs = both.0; sorted = both.1.sorted; filed = both.1.filed }
