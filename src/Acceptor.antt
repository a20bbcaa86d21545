-- ===== src/Acceptor.antt =====
-- `MyAcceptorResource` of paxos-wasm/core/acceptor/src/acceptor.rs: the acceptor of the replicated
-- log. Every method is a function on the record of its state; an error of the storage is logged by
-- the source and otherwise ignored, as here.
pub mod Storage
pub mod Snapshots
pub mod Pruning
pub mod Writes
pub mod Invariant
pub mod Loading
pub mod Calls
pub mod Recovery
pub mod Agreement
pub mod Examples
use wasm_master.Common.{
  ℕ, String, Bool, true, false, Option, none, some, List, [], ◌∷◌, ◌++◌, ◌&&◌, ltb, ◌==◌,
  if◌then◌else◌, last,
}
use wasm_master.Common.Fallible.{Result, ok, err, Act, ◌>>=◌, ◌>>◌}
use wasm_master.Common.KeyMap
use wasm_master.Common.KeyMap.{KeyMap}
use wasm_master.Types.{
  Slot, Ballot, Value, PValue, Promise, Accepted, PromiseResult, AcceptedResult, RunConfig,
}
use wasm_master.Types.Equality.{value_eq, holds_value}
use wasm_master.Persistence.{StorageOps, Clock}
use Storage.{
  Codecs, StorageHelper, save_current_state, save_change, maybe_flush_current_state,
  maybe_flush_changes,
}
use Snapshots.{maybe_snapshot, load_and_combine_state}

pub record Acceptor (S : Type 0) : Type 0 where
  pub promises : List Ballot
  pub accepted : KeyMap PValue
  pub storage : StorageHelper S

-- `MyAcceptorResource::new`; `none` is a panic.
unfoldable pub new : {S : Type 0} → ℕ → S → RunConfig → Clock → Option (Acceptor S)
new hash store config clock = elim (Storage.new hash store config config.persistent_storage clock) [
  | none ↦ none
  | some storage ↦ some (record { promises = []; accepted = []; storage = storage })
]

abbrev pub slot_or_zero : Option ℕ → ℕ
slot_or_zero none = 0
slot_or_zero (some n) = n

module _ {S : Type 0} where
  abbrev pub highest_promised_ballot : Acceptor S → Ballot
  highest_promised_ballot a = slot_or_zero (last a.promises)

  abbrev pub collect_accepted_from : Acceptor S → Slot → List PValue
  collect_accepted_from a slot = KeyMap.values (KeyMap.range_from slot a.accepted)

  abbrev pub highest_accepted_slot : Acceptor S → Slot
  highest_accepted_slot a = slot_or_zero (KeyMap.last_key a.accepted)

  abbrev pub get_accepted : Acceptor S → Slot → Option PValue
  get_accepted a slot = KeyMap.get slot a.accepted

  abbrev pub get_state : Acceptor S → List Ballot × List PValue
  get_state a = (a.promises, KeyMap.values a.accepted)

abbrev pub accepted_reply : Slot → Ballot → AcceptedResult
accepted_reply slot ballot =
    AcceptedResult.accepted (record { slot = slot; ballot = ballot; success = true })

module _ {S : Type 0} (ops : StorageOps S) (codecs : Codecs) (clock : Clock) where
  unfoldable pub record_promise : Ballot → Acceptor S → Acceptor S
  record_promise ballot a =
      let promises' = a.promises ++ ballot ∷ [] in
      record a {
        promises = promises';
        storage = (save_current_state ops codecs clock promises' a.storage).1;
      }

  unfoldable pub prepare : Slot → Ballot → Acceptor S → PromiseResult × Acceptor S
  prepare slot ballot a =
      let highest = highest_promised_ballot a in
      if ltb ballot highest
      then (PromiseResult.rejected highest, a)
      else let a' = (if ltb highest ballot then record_promise ballot a else a) in
        (
          PromiseResult.promised
              (record { slot = slot; ballot = ballot; accepted = collect_accepted_from a' slot }),
          a',
        )

  -- `maybe_snapshot`, where an error leaves the map as it was
  abbrev pub after_snapshot :
      KeyMap PValue → Result (KeyMap PValue) × StorageHelper S → Acceptor S → Acceptor S
  after_snapshot m (ok kept, h) a = record a { accepted = kept; storage = h }
  after_snapshot m (err _, h) a = record a { accepted = m; storage = h }

  -- The new proposal goes into the map, then to the changelog, then perhaps into a snapshot.
  unfoldable pub record_accepted : PValue → Acceptor S → Acceptor S
  record_accepted pv a =
      let m = KeyMap.insert pv.slot pv a.accepted in
      let h = (save_change ops codecs clock pv a.storage).1 in
      after_snapshot m (maybe_snapshot ops codecs clock pv.slot m h) a

  unfoldable pub accept : Slot → Ballot → Value → Acceptor S → AcceptedResult × Acceptor S
  accept slot ballot value a =
      let promised = highest_promised_ballot a in
      if ltb ballot promised
      then (AcceptedResult.rejected promised, a)
      else elim (KeyMap.get slot a.accepted) [
        | some existing ↦
            if existing.ballot == ballot && holds_value existing.value value
            then (accepted_reply slot ballot, a)
            else if holds_value existing.value value
            then (accepted_reply slot ballot, a)
            else (AcceptedResult.rejected existing.ballot, a)
        | none ↦ (
          accepted_reply slot ballot,
          record_accepted (record { slot = slot; ballot = ballot; value = some value }) a,
        )
      ]

  unfoldable pub maybe_flush : Act (Acceptor S) (Unit {0})
  maybe_flush a =
      let (r, h) =
        (maybe_flush_current_state ops codecs clock >> maybe_flush_changes ops codecs clock)
          a.storage in
      (r, record a { storage = h })

module _ {S : Type 0} (ops : StorageOps S) (codecs : Codecs) where
  unfoldable pub load_state : Act (Acceptor S) (Unit {0})
  load_state a =
      let (r, (promises', accepted')) =
        load_and_combine_state ops codecs a.storage (a.promises, a.accepted) in
      (r, record a { promises = promises'; accepted = accepted' })
