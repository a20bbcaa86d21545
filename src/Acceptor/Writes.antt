-- ===== src/Acceptor/Writes.antt =====
-- What `record_accepted` leaves in the map, and the write-once rule of `accept`.
use wasm_master.Common.{
  ◌≤◌, true, false, Option, none, some, ◌≡◌, refl, ◌∙◌, ap, subst, ◌⊎◌, inl, inr, ◌↔◌, arith,
  Option-cases, Bool-cases,
}
use wasm_master.Common.Fallible.{Result, ok, err}
use wasm_master.Common.KeyMap
use wasm_master.Common.KeyMap.{KeyMap, get-insert, get-retain}
use wasm_master.Types.{Slot, Ballot, Value, PValue, RunConfig}
use wasm_master.Types.Equality.{holds_value, value_eq_iff}
use wasm_master.Persistence.{StorageOps, Clock}
use wasm_master.Acceptor.Storage.{Codecs, StorageHelper, save_change}
use wasm_master.Acceptor.Snapshots.{prune, maybe_snapshot}
use wasm_master.Acceptor.{
  Acceptor, after_snapshot, highest_promised_ballot, accepted_reply, record_accepted, accept,
}
use wasm_master.Acceptor.Pruning.{
  IsPruned, IsPruned-get, Taken-IsPruned, settings, Taken, IsDue, prune-IsPruned,
  maybe_snapshot_kept, maybe_snapshot_disabled, settings-save_change, save_change_disabled,
}

pub holds_value_iff : (o : Option Value) (v : Value) → (holds_value o v ≡ true) ↔ (o ≡ some v)
holds_value_iff none v = ground arith
holds_value_iff (some w) v = ground (arith, value_eq_iff w v)

module _ {S : Type 0} (ops : StorageOps S) (codecs : Codecs) (clock : Clock) where
  after_snapshot-Taken :
      (slot : Slot) (x : RunConfig × Slot × Slot) (m : KeyMap PValue) (a : Acceptor S)
      (r : Result (KeyMap PValue) × StorageHelper S)
      → ((kept : KeyMap PValue) → r.0 ≡ ok kept → Taken slot m x kept)
      → Taken slot m x (after_snapshot ops codecs clock m r a).accepted
  after_snapshot-Taken slot x m a (ok kept, h) f = f kept refl
  after_snapshot-Taken slot x m a (err e, h) f = inl refl

  -- The map with the new proposal, or what a snapshot leaves of it.
  record_accepted-Taken :
      (pv : PValue) (a : Acceptor S)
      → Taken pv.slot
          (KeyMap.insert pv.slot pv a.accepted)
          (settings a.storage)
          (record_accepted ops codecs clock pv a).accepted
  unfolding record_accepted
  record_accepted-Taken pv a =
      let m = KeyMap.insert pv.slot pv a.accepted in
      let h = (save_change ops codecs clock pv a.storage).1 in
      after_snapshot-Taken pv.slot (settings a.storage) m a
        (maybe_snapshot ops codecs clock pv.slot m h)
        (λ kept e.
          subst (λ x. Taken pv.slot m x kept) (settings-save_change ops codecs clock pv a.storage)
            (maybe_snapshot_kept ops codecs clock pv.slot m kept h e))

  pub record_accepted_cases :
      (pv : PValue) (a : Acceptor S)
      → IsPruned
          (KeyMap.insert pv.slot pv a.accepted)
          (record_accepted ops codecs clock pv a).accepted
  record_accepted_cases pv a =
      Taken-IsPruned pv.slot (settings a.storage) (record_accepted-Taken pv a)

  promises-after_snapshot :
      (m : KeyMap PValue) (a : Acceptor S) (r : Result (KeyMap PValue) × StorageHelper S)
      → (after_snapshot ops codecs clock m r a).promises ≡ a.promises
  promises-after_snapshot m a (ok kept, h) = refl
  promises-after_snapshot m a (err e, h) = refl

  pub promises-record_accepted :
      (pv : PValue) (a : Acceptor S) → (record_accepted ops codecs clock pv a).promises ≡ a.promises
  unfolding record_accepted
  promises-record_accepted pv a = promises-after_snapshot _ a _

  -- An accept request succeeds exactly if its ballot is no lower than the highest promise, and the
  -- slot is free or already holds the same value.
  pub accept_reply_iff :
      (slot : Slot) (ballot : Ballot) (v : Value) (a : Acceptor S)
      → ((accept ops codecs clock slot ballot v a).0 ≡ accepted_reply slot ballot) ↔ (
          (highest_promised_ballot a ≤ ballot)
          × ((KeyMap.get slot a.accepted ≡ none)
              ⊎ ((pv : PValue) × (KeyMap.get slot a.accepted ≡ some pv) × (pv.value ≡ some v))))
  unfolding accept
  accept_reply_iff slot ballot v a = elim (Option-cases (KeyMap.get slot a.accepted)) [
    | inl e ↦ rw e (ground arith)
    | inr (pv, e) ↦ rw e (ground (arith, holds_value_iff pv.value v))
  ]

  pub record_accepted_disabled :
      (pv : PValue) (a : Acceptor S)
      → a.storage.enabled ≡ false
      → record_accepted ops codecs clock pv a
        ≡ record a { accepted = KeyMap.insert pv.slot pv a.accepted }
  unfolding record_accepted
  record_accepted_disabled pv a e = rw (save_change_disabled ops codecs clock pv a.storage e) (
      rw (
        maybe_snapshot_disabled ops codecs clock pv.slot (KeyMap.insert pv.slot pv a.accepted)
          a.storage e))

  -- The map after `accept`: the old one, or the old one with a new slot, perhaps pruned.
  pub accept_map :
      (slot : Slot) (ballot : Ballot) (v : Value) (a : Acceptor S)
      → let pv : PValue = record { slot = slot; ballot = ballot; value = some v } in
        ((accept ops codecs clock slot ballot v a).1 ≡ a)
        ⊎ ((KeyMap.get slot a.accepted ≡ none)
            × ((accept ops codecs clock slot ballot v a).1 ≡ record_accepted ops codecs clock pv a))
  unfolding accept
  accept_map slot ballot v a = ground arith

  fresh_keeps :
      (k : Slot) (pv old : PValue) (a : Acceptor S)
      → KeyMap.get pv.slot a.accepted ≡ none
      → KeyMap.get k a.accepted ≡ some old
      → KeyMap.get k (KeyMap.insert pv.slot pv a.accepted) ≡ some old
  fresh_keeps k pv old a f e = ground (arith, get-insert pv.slot k pv a.accepted)

  -- With persistence switched off nothing is pruned.
  pub accept_keeps_disabled :
      (slot k : Slot) (ballot : Ballot) (v : Value) (a : Acceptor S) (old : PValue)
      → a.storage.enabled ≡ false
      → KeyMap.get k a.accepted ≡ some old
      → KeyMap.get k (accept ops codecs clock slot ballot v a).1.accepted ≡ some old
  accept_keeps_disabled slot k ballot v a old off e =
      let pv : PValue = record { slot = slot; ballot = ballot; value = some v } in
      elim (accept_map slot ballot v a) [
        | inl same ↦ rw same e
        | inr (fresh, changed) ↦
            rw changed (rw (record_accepted_disabled pv a off) (fresh_keeps k pv old a fresh e))
      ]

  -- What a pruning by a snapshot is: persistence is on, a snapshot is due at the slot of the request,
  -- the request has put its own proposal in this slot, which was free, and the map is what `prune`
  -- leaves of the old one with this proposal.
  pub record IsSnapshot (slot : Slot) (ballot : Ballot) (v : Value) (a : Acceptor S) : Type 0 where
    pub persistent : a.storage.enabled ≡ true
    pub due : IsDue slot (settings a.storage)
    pub fresh : KeyMap.get slot a.accepted ≡ none
    pub pruned :
        (accept ops codecs clock slot ballot v a).1.accepted
        ≡ prune a.storage.run_config (
            KeyMap.insert slot (record { slot = slot; ballot = ballot; value = some v }) a.accepted)

  -- A slot that holds a proposal holds the same proposal after an `accept`; or it holds none, and the
  -- pruning of a snapshot has removed it: persistence is on, the request has put its own proposal in a
  -- free slot at which a snapshot is due, and the map is what this pruning leaves.
  pub accept_keeps :
      (slot k : Slot) (ballot : Ballot) (v : Value) (a : Acceptor S) (old : PValue)
      → KeyMap.get k a.accepted ≡ some old
      → (KeyMap.get k (accept ops codecs clock slot ballot v a).1.accepted ≡ some old)
        ⊎ ((KeyMap.get k (accept ops codecs clock slot ballot v a).1.accepted ≡ none)
            × IsSnapshot slot ballot v a)
  accept_keeps slot k ballot v a old e =
      let pv : PValue = record { slot = slot; ballot = ballot; value = some v } in
      elim (Bool-cases a.storage.enabled) [
        | inr off ↦ inl (accept_keeps_disabled slot k ballot v a old off e)
        | inl on ↦ elim (accept_map slot ballot v a) [
          | inl same ↦ inl (rw same e)
          | inr (fresh, changed) ↦
              let map_of = ap (λ (b : Acceptor S). b.accepted) changed in
              let put = fresh_keeps k pv old a fresh e in
              elim (record_accepted-Taken pv a) [
                | inl whole ↦ inl (ap (KeyMap.get k) (map_of ∙ whole) ∙ put)
                | inr (pruned, due) ↦
                    let left = ap (KeyMap.get k) (map_of ∙ pruned) in
                    elim (IsPruned-get k
                      (prune-IsPruned a.storage.run_config (KeyMap.insert slot pv a.accepted))) [
                        | inl kept ↦ inl (left ∙ kept ∙ put)
                        | inr gone ↦ inr (
                          left ∙ gone,
                          record {
                            persistent = on;
                            fresh = fresh;
                            due = due;
                            pruned = map_of ∙ pruned;
                          },
                        )
                      ]
              ]
        ]
      ]
