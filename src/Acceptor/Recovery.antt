-- ===== src/Acceptor/Recovery.antt =====
-- What of the promises of paxos-wasm/core/acceptor/src/acceptor.rs survives a crash.
use wasm_master.Common.{
  ◌<◌, Bool, true, false, not, ◌||◌, List, [], ◌∷◌, ◌++◌, ◌≡◌, refl, sym, ap, ◌∙◌, arith, ◌==◌, ltb,
  if◌then◌else◌, add_u64, last, last-snoc,
}
use wasm_master.Common.Fallible.{Result, ok, err, resume, in_context}
use wasm_master.Types.{Slot, Ballot, PValue}
use wasm_master.Common.KeyMap.{KeyMap}
use wasm_master.Persistence.{Bytes, StorageOps, Clock, IsRoundTrip, KeepsState}
use wasm_master.Acceptor.{
  Acceptor, highest_promised_ballot, slot_or_zero, record_promise, prepare, load_state,
}
use wasm_master.Acceptor.Storage.{
  Codecs, StorageHelper, is_due, flush_current_state, maybe_flush_current_state, save_current_state,
}
use wasm_master.Acceptor.Snapshots.{load_current_state, load_and_combine_state}

module _ {S : Type 0} (ops : StorageOps S) (codecs : Codecs) (clock : Clock)
    (keeps : KeepsState ops) where
  -- What is read from the storage of a helper.
  abbrev loaded : Result (Unit {0}) × StorageHelper S → Result Bytes
  loaded m = ops.load_state m.1.store

  loaded_if :
      (b : Bool) (x y : Result (Unit {0}) × StorageHelper S) (l : Result Bytes)
      → loaded x ≡ l
      → loaded y ≡ l
      → loaded (if b then x else y) ≡ l
  loaded_if true x y l h k = h
  loaded_if false x y l h k = k

  flush_loaded :
      (h : StorageHelper S)
      → loaded (flush_current_state ops codecs clock h) ≡ ops.load_state h.store
  unfolding flush_current_state
  flush_loaded h = loaded_if (not h.enabled) _ _ _ refl (keeps.flushed h.store)

  reset_loaded :
      (r : Result (Unit {0})) (h : StorageHelper S)
      → loaded (resume r (λ u h'. (ok tt, record h' { state_pending = 0 })) h)
        ≡ ops.load_state h.store
  reset_loaded (ok u) h = refl
  reset_loaded (err e) h = refl

  maybe_flush_loaded :
      (h : StorageHelper S)
      → loaded (maybe_flush_current_state ops codecs clock h) ≡ ops.load_state h.store
  unfolding maybe_flush_current_state
  maybe_flush_loaded h = loaded_if (not h.enabled || h.state_pending == 0) _ _ _ refl (
      loaded_if
        (is_due h.state_pending h.run_config.storage_flush_state_count clock.now h.state_last_flush
          h.state_flush_interval)
        _ _ _
        (reset_loaded (flush_current_state ops codecs clock h).0
            (flush_current_state ops codecs clock h).1
          ∙ flush_loaded h)
        refl)

  -- The end of `save_current_state`, after the storage has answered `r`.
  abbrev after_save : Result (Unit {0}) → StorageHelper S → Result (Unit {0}) × StorageHelper S
  after_save r h =
      resume (in_context "storage.save_state promises: " r)
        (λ u h'.
          maybe_flush_current_state ops codecs clock
            (record h' { state_pending = add_u64 h'.state_pending 1 }))
        h

  after_save-loaded :
      (r : Result (Unit {0})) (h : StorageHelper S)
      → (after_save r h).0 ≡ ok tt
      → (r ≡ ok tt) × (loaded (after_save r h) ≡ ops.load_state h.store)
  after_save-loaded (ok u) h e = (refl, maybe_flush_loaded _)
  after_save-loaded (err x) h e = ground arith

  -- `save_current_state` with persistence, after the encoding has answered `enc`.
  abbrev after_encode : Result Bytes → StorageHelper S → Result (Unit {0}) × StorageHelper S
  after_encode enc h =
      resume (in_context "bincode encode promises: " enc)
        (λ blob s.
          after_save (ops.save_state blob s.store).0
            (record s { store = (ops.save_state blob s.store).1 }))
        h

  after_encode-loaded :
      (enc : Result Bytes) (h : StorageHelper S)
      → (after_encode enc h).0 ≡ ok tt
      → (blob : Bytes) × (enc ≡ ok blob) × (loaded (after_encode enc h) ≡ ok blob)
  after_encode-loaded (err x) h e = ground arith
  after_encode-loaded (ok blob) h e =
      let (saved, same) = after_save-loaded (ops.save_state blob h.store).0 _ e in
      (blob, refl, same ∙ keeps.saved blob h.store saved)

  save_loaded :
      (promises : List Ballot) (h : StorageHelper S)
      → h.enabled ≡ true
      → (save_current_state ops codecs clock promises h).0 ≡ ok tt
      → (blob : Bytes) × (codecs.promises.encode promises ≡ ok blob)
        × (loaded (save_current_state ops codecs clock promises h) ≡ ok blob)
  unfolding save_current_state
  save_loaded promises h on saved =
      let same : save_current_state ops codecs clock promises h
          ≡ after_encode (codecs.promises.encode promises) h =
        ap (λ b. if not b then (ok tt, h) else after_encode (codecs.promises.encode promises) h)
          on in
      let (blob, enc, l) = after_encode-loaded _ h (sym (ap (λ m. m.0) same) ∙ saved) in
      (blob, enc, ap loaded same ∙ l)

  read_back :
      (h : StorageHelper S) (promises ps : List Ballot) (b : Bytes)
      → h.enabled ≡ true
      → ops.load_state h.store ≡ ok b
      → codecs.promises.decode b ≡ ok ps
      → load_current_state ops codecs h promises ≡ (ok tt, ps)
  unfolding load_current_state
  read_back h promises ps b on l d = rw (on, l, d) refl

  -- The promises are loaded before the accepted proposals, whatever becomes of these.
  combine_promises :
      (h : StorageHelper S) (promises ps : List Ballot) (accepted : KeyMap PValue)
      → h.enabled ≡ true
      → load_current_state ops codecs h promises ≡ (ok tt, ps)
      → (load_and_combine_state ops codecs h (promises, accepted)).1.0 ≡ ps
  unfolding load_and_combine_state
  combine_promises h promises ps accepted on e = simp (on, e) refl

  prepared_store :
      (slot : Slot) (ballot : Ballot) (a : Acceptor S)
      → highest_promised_ballot a < ballot
      → (prepare ops codecs clock slot ballot a).1.storage.store
        ≡ (save_current_state ops codecs clock (a.promises ++ ballot ∷ []) a.storage).1.store
  unfolding prepare record_promise
  prepared_store slot ballot a higher =
      let low : ltb ballot (highest_promised_ballot a) ≡ false = ground arith in
      let high : ltb (highest_promised_ballot a) ballot ≡ true = ground arith in rw (low, high) refl

  -- A promise that was answered, and saved without an error, survives a crash: another acceptor that
  -- starts with the storage, with persistence on, comes to the same highest promise when it loads
  -- its state. (The encoding can be undone, and the storage reads the last state whose save
  -- succeeded; whether the accepted proposals can be loaded makes no difference.)
  pub promise_survives :
      (slot : Slot) (ballot : Ballot) (a b : Acceptor S)
      → IsRoundTrip codecs.promises
      → a.storage.enabled ≡ true
      → highest_promised_ballot a < ballot
      → (save_current_state ops codecs clock (a.promises ++ ballot ∷ []) a.storage).0 ≡ ok tt
      → b.storage.enabled ≡ true
      → b.storage.store ≡ (prepare ops codecs clock slot ballot a).1.storage.store
      → highest_promised_ballot (load_state ops codecs b).1 ≡ ballot
  unfolding load_state
  promise_survives slot ballot a b round on higher saved b_on same =
      let promises = a.promises ++ ballot ∷ [] in
      let (blob, enc, l) = save_loaded promises a.storage on saved in
      let held : ops.load_state b.storage.store ≡ ok blob =
        ap ops.load_state (same ∙ prepared_store slot ballot a higher) ∙ l in
      let read = read_back b.storage b.promises promises blob b_on held (round _ blob enc) in
      ap (λ ps. slot_or_zero (last ps))
        (combine_promises b.storage b.promises promises b.accepted b_on read)
      ∙ ap slot_or_zero (last-snoc a.promises ballot)
