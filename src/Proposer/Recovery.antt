-- ===== src/Proposer/Recovery.antt =====
-- What of the state of paxos-wasm/core/proposer/src/proposer.rs survives a crash.
use wasm_master.Common.{
  ◌-◌, Bool, true, false, not, ◌||◌, some, ◌≡◌, refl, sym, ap, ◌∙◌, arith, ◌==◌, leb, if◌then◌else◌,
  add_u64,
}
use wasm_master.Common.Fallible.{Result, ok, err, resume, in_context}
use wasm_master.Types.{Slot, Ballot}
use wasm_master.Persistence.{Bytes, StorageOps, Codec, Clock, IsRoundTrip, KeepsState}
use wasm_master.Proposer.{Proposer, expect_saved, raised, increase_ballot, load_state}
use wasm_master.Proposer.Storage
use wasm_master.Proposer.Storage.{
  CurrentState, StorageHelper, flush_state, maybe_flush_state, save_state,
}

module _ {S : Type 0} (ops : StorageOps S) (codec : Codec CurrentState) (clock : Clock)
    (keeps : KeepsState ops) where
  -- What is read from the storage of a helper.
  abbrev loaded : Result (Unit {0}) × StorageHelper S → Result Bytes
  loaded m = ops.load_state m.1.store

  loaded_if :
      (b : Bool) (x y : Result (Unit {0}) × StorageHelper S) (l : Result Bytes)
      → loaded x ≡ l
      → loaded y ≡ l
      → loaded (if b then x else y) ≡ l
  loaded_if true x y l h k = h
  loaded_if false x y l h k = k

  flush_loaded :
      (h : StorageHelper S) → loaded (flush_state ops codec clock h) ≡ ops.load_state h.store
  unfolding flush_state
  flush_loaded h = loaded_if (not h.enabled) _ _ _ refl (keeps.flushed h.store)

  reset_loaded :
      (r : Result (Unit {0})) (h : StorageHelper S)
      → loaded (resume r (λ u h'. (ok tt, record h' { pending = 0 })) h) ≡ ops.load_state h.store
  reset_loaded (ok u) h = refl
  reset_loaded (err e) h = refl

  maybe_flush_loaded :
      (h : StorageHelper S) → loaded (maybe_flush_state ops codec clock h) ≡ ops.load_state h.store
  unfolding maybe_flush_state
  maybe_flush_loaded h = loaded_if (not h.enabled || h.pending == 0) _ _ _ refl (
      loaded_if
        (leb h.run_config.storage_flush_state_count h.pending
          || leb h.flush_interval (clock.now - h.last_flush))
        _ _ _
        (reset_loaded (flush_state ops codec clock h).0 (flush_state ops codec clock h).1
          ∙ flush_loaded h)
        refl)

  -- The end of `save_state`, after the storage has answered `r`.
  abbrev after_save : Result (Unit {0}) → StorageHelper S → Result (Unit {0}) × StorageHelper S
  after_save r h =
      resume (in_context "storage.save_state: " r)
        (λ u h'. maybe_flush_state ops codec clock (record h' { pending = add_u64 h'.pending 1 })) h

  after_save-loaded :
      (r : Result (Unit {0})) (h : StorageHelper S)
      → (after_save r h).0 ≡ ok tt
      → (r ≡ ok tt) × (loaded (after_save r h) ≡ ops.load_state h.store)
  after_save-loaded (ok u) h e = (refl, maybe_flush_loaded _)
  after_save-loaded (err x) h e = ground arith

  -- `save_state` with persistence, after the encoding has answered `enc`.
  abbrev after_encode : Result Bytes → StorageHelper S → Result (Unit {0}) × StorageHelper S
  after_encode enc h =
      resume (in_context "bincode encode: " enc)
        (λ blob s.
          after_save (ops.save_state blob s.store).0
            (record s { store = (ops.save_state blob s.store).1 }))
        h

  after_encode-loaded :
      (enc : Result Bytes) (h : StorageHelper S)
      → (after_encode enc h).0 ≡ ok tt
      → (blob : Bytes) × (enc ≡ ok blob) × (loaded (after_encode enc h) ≡ ok blob)
  after_encode-loaded (err x) h e = ground arith
  after_encode-loaded (ok blob) h e =
      let (saved, same) = after_save-loaded (ops.save_state blob h.store).0 _ e in
      (blob, refl, same ∙ keeps.saved blob h.store saved)

  save_state_loaded :
      (ballot : Ballot) (adu : Slot) (h : StorageHelper S)
      → h.enabled ≡ true
      → (save_state ops codec clock ballot adu h).0 ≡ ok tt
      → (blob : Bytes) × (codec.encode (record { current_ballot = ballot; adu = adu }) ≡ ok blob)
        × (loaded (save_state ops codec clock ballot adu h) ≡ ok blob)
  unfolding save_state
  save_state_loaded ballot adu h on saved =
      let same : save_state ops codec clock ballot adu h
          ≡ after_encode (codec.encode (record { current_ballot = ballot; adu = adu })) h =
        ap
          (λ b.
            if not b
            then (ok tt, h)
            else after_encode (codec.encode (record { current_ballot = ballot; adu = adu })) h)
          on in
      let (blob, enc, l) = after_encode-loaded _ h (sym (ap (λ m. m.0) same) ∙ saved) in
      (blob, enc, ap loaded same ∙ l)

  saved_of :
      (m : Result (Unit {0}) × StorageHelper S) (p p' : Proposer S)
      → expect_saved ops codec clock m p ≡ some p'
      → (m.0 ≡ ok tt) × (p' ≡ record p { storage = m.1 })
  saved_of (ok u, h) p p' e = (refl, ground arith)
  saved_of (err x, h) p p' e = ground arith

  read_back :
      (h : StorageHelper S) (current ps : CurrentState) (b : Bytes)
      → h.enabled ≡ true
      → ops.load_state h.store ≡ ok b
      → codec.decode b ≡ ok ps
      → Storage.load_state ops codec h current ≡ (ok tt, ps)
  unfolding Storage.load_state
  read_back h current ps b on l d = rw (on, l, d) refl

  -- A ballot that `increase_ballot` has returned is on the storage: another proposer that starts
  -- with this storage, with persistence on, loads the same ballot and executed slot. (The encoding
  -- can be undone, and the storage reads the last state whose save succeeded.)
  pub increase_ballot-loaded :
      (p p' q : Proposer S)
      → IsRoundTrip codec
      → p.storage.enabled ≡ true
      → increase_ballot ops codec clock p ≡ some p'
      → q.storage.enabled ≡ true
      → q.storage.store ≡ p'.storage.store
      → let (r, q') = load_state ops codec q in
        (r ≡ ok tt) × (q'.current_ballot ≡ p'.current_ballot) × (q'.adu ≡ p'.adu)
  unfolding increase_ballot load_state
  increase_ballot-loaded p p' q round on raised_to q_on same =
      let (saved, end) = saved_of _ _ p' raised_to in
      let (blob, enc, l) = save_state_loaded (raised ops codec clock p) p.adu p.storage on saved in
      let held : ops.load_state q.storage.store ≡ ok blob =
        ap ops.load_state same ∙ ap (λ (x : Proposer S). ops.load_state x.storage.store) end ∙ l in
      let current : CurrentState = record { current_ballot = q.current_ballot; adu = q.adu } in
      let eq = read_back q.storage current _ blob q_on held (round _ blob enc) in
      (
        ap (λ m. m.0) eq,
        ap (λ m. m.1.current_ballot) eq ∙ sym (ap (λ (x : Proposer S). x.current_ballot) end),
        ap (λ m. m.1.adu) eq ∙ sym (ap (λ (x : Proposer S). x.adu) end),
      )
