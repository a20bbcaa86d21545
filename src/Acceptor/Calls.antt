-- ===== src/Acceptor/Calls.antt =====
-- Sequences of calls to one acceptor: paxos-wasm/core/acceptor/src/acceptor.rs under an agent that
-- forwards the requests of its network in any order.
use wasm_master.Common.{
  ℕ, ◌≤◌, ◌<◌, some, List, [], ◌∷◌, ◌≡◌, refl, ◌⊎◌, inl, inr, arith, last, last-snoc, ap, lt→ltb,
  sym, subst, true,
}
use wasm_master.Types.{Slot, Ballot, Value, Promise, PromiseResult, AcceptedResult, RunConfig}
use wasm_master.Persistence.{StorageOps, Clock}
use wasm_master.Acceptor.Storage.{Codecs}
use wasm_master.Acceptor
use wasm_master.Acceptor.{
  Acceptor, highest_promised_ballot, slot_or_zero, collect_accepted_from, record_accepted,
  record_promise, new,
}
use wasm_master.Acceptor.Writes.{accept_map, promises-record_accepted}
use wasm_master.Acceptor.Invariant.{IsValid, prepare-IsValid, accept-IsValid}
use wasm_master.Acceptor.Loading.{IsSound, load_state-IsValid}
use wasm_master.Acceptor.Storage

pub data Request : Type 0 where
  prepare : Slot → Ballot → Request
  accept : Slot → Ballot → Value → Request
  maybe_flush : Request

module _ {S : Type 0} (ops : StorageOps S) (codecs : Codecs) where
  unfoldable pub step : Clock × Request → Acceptor S → Acceptor S
  step (clock, prepare slot ballot) a = (Acceptor.prepare ops codecs clock slot ballot a).1
  step (clock, accept slot ballot value) a =
      (Acceptor.accept ops codecs clock slot ballot value a).1
  step (clock, maybe_flush) a = (Acceptor.maybe_flush ops codecs clock a).1

  unfoldable pub run : List (Clock × Request) → Acceptor S → Acceptor S
  run [] a = a
  run (r ∷ rs) a = run rs (step r a)

  step-IsValid : (r : Clock × Request) (a : Acceptor S) → IsValid a → IsValid (step r a)
  unfolding step
  step-IsValid (clock, prepare slot ballot) a v = prepare-IsValid ops codecs clock slot ballot a v
  step-IsValid (clock, accept slot ballot w) a v = accept-IsValid ops codecs clock slot ballot w a v
  step-IsValid (clock, maybe_flush) a v =
      unfold Acceptor.maybe_flush in
      record { climbs = v.climbs; sorted = v.sorted; filed = v.filed }

  pub run-IsValid : (rs : List (Clock × Request)) (a : Acceptor S) → IsValid a → IsValid (run rs a)
  unfolding run
  run-IsValid [] a v = v
  run-IsValid (r ∷ rs) a v = run-IsValid rs (step r a) (step-IsValid r a v)

  new-IsValid :
      (hash : ℕ) (store : S) (config : RunConfig) (clock : Clock) (a : Acceptor S)
      → new hash store config clock ≡ some a
      → IsValid a
  unfolding new
  new-IsValid hash store config clock a e = ground arith

  new-store :
      (hash : ℕ) (store : S) (config : RunConfig) (clock : Clock) (a : Acceptor S)
      → new hash store config clock ≡ some a
      → a.storage.store ≡ store
  unfolding new Storage.new
  new-store hash store config clock a e = ground arith

  -- A new acceptor that has then loaded its state, whether this succeeds or not, has after any calls
  -- promised ever higher ballots, and keeps its proposals in the order of the slots, each under its own
  -- slot and with a value. (If persistence is on, what the storage holds decodes to such data.)
  pub run-load_state-IsValid :
      (hash : ℕ) (store : S) (config : RunConfig) (clock : Clock) (a : Acceptor S)
      (rs : List (Clock × Request))
      → new hash store config clock ≡ some a
      → (a.storage.enabled ≡ true → IsSound ops codecs store)
      → IsValid (run rs (Acceptor.load_state ops codecs a).1)
  run-load_state-IsValid hash store config clock a rs e sound =
      run-IsValid rs (Acceptor.load_state ops codecs a).1 (
        load_state-IsValid ops codecs a
          (λ on.
            subst (IsSound ops codecs) (sym (new-store hash store config clock a e)) (sound on))
          (new-IsValid hash store config clock a e))

  -- A prepare request with a ballot under the highest promise is rejected with that promise and
  -- changes nothing. Any other is promised: the reply lists what the acceptor has accepted from the
  -- slot on, the accepted proposals stay, and the highest promise is the request's ballot.
  pub prepare_lem :
      (clock : Clock) (slot : Slot) (ballot : Ballot) (a : Acceptor S)
      → let (reply, a') = Acceptor.prepare ops codecs clock slot ballot a in
        let highest = highest_promised_ballot a in
        ((ballot < highest) × (reply ≡ PromiseResult.rejected highest) × (a' ≡ a))
        ⊎ ((highest ≤ ballot)
            × (reply
                ≡ PromiseResult.promised (record {
                  slot = slot;
                  ballot = ballot;
                  accepted = collect_accepted_from a slot;
                }))
            × (a'.accepted ≡ a.accepted)
            × (highest_promised_ballot a' ≡ ballot))
  unfolding Acceptor.prepare record_promise
  prepare_lem clock slot ballot a = ground (arith, last-snoc a.promises ballot)

  promises-accept :
      (clock : Clock) (slot : Slot) (ballot : Ballot) (value : Value) (a : Acceptor S)
      → (Acceptor.accept ops codecs clock slot ballot value a).1.promises ≡ a.promises
  promises-accept clock slot ballot value a =
      elim (accept_map ops codecs clock slot ballot value a) [
        | inl same ↦ rw same
        | inr (_, changed) ↦ rw changed (promises-record_accepted ops codecs clock _ a)
      ]

  highest-step :
      (r : Clock × Request) (a : Acceptor S)
      → highest_promised_ballot a ≤ highest_promised_ballot (step r a)
  unfolding step
  highest-step (clock, prepare slot ballot) a = ground (arith, prepare_lem clock slot ballot a)
  highest-step (clock, accept slot ballot w) a = omega (
    arith,
    ap (λ (bs : List Ballot). slot_or_zero (last bs)) (promises-accept clock slot ballot w a),
  )
  highest-step (clock, maybe_flush) a = unfold Acceptor.maybe_flush in omega arith

  highest-run :
      (rs : List (Clock × Request)) (a : Acceptor S)
      → highest_promised_ballot a ≤ highest_promised_ballot (run rs a)
  unfolding run
  highest-run [] a = omega arith
  highest-run (r ∷ rs) a = omega (arith, highest-run rs (step r a), highest-step r a)

  low_rejected :
      (later : Clock) (k : Slot) (low : Ballot) (value : Value) (a : Acceptor S)
      → low < highest_promised_ballot a
      → (Acceptor.prepare ops codecs later k low a
          ≡ (PromiseResult.rejected (highest_promised_ballot a), a))
        × (Acceptor.accept ops codecs later k low value a
            ≡ (AcceptedResult.rejected (highest_promised_ballot a), a))
  unfolding Acceptor.prepare Acceptor.accept
  low_rejected later k low value a h = rw (lt→ltb _ _ h) (refl, refl)

  highest-prepare :
      (clock : Clock) (slot : Slot) (ballot : Ballot) (a : Acceptor S) (p : Promise)
      → (Acceptor.prepare ops codecs clock slot ballot a).0 ≡ PromiseResult.promised p
      → highest_promised_ballot (Acceptor.prepare ops codecs clock slot ballot a).1 ≡ ballot
  highest-prepare clock slot ballot a p e = ground (arith, prepare_lem clock slot ballot a)

  -- Once a ballot is promised, then after any further calls every prepare and every accept with a
  -- lower ballot is rejected and changes nothing.
  pub promise_kept :
      (clock later : Clock) (slot k : Slot) (ballot low : Ballot) (value : Value) (a : Acceptor S)
      (p : Promise) (rs : List (Clock × Request))
      → (Acceptor.prepare ops codecs clock slot ballot a).0 ≡ PromiseResult.promised p
      → low < ballot
      → let a' = run rs (Acceptor.prepare ops codecs clock slot ballot a).1 in
        let highest = highest_promised_ballot a' in
        (Acceptor.prepare ops codecs later k low a' ≡ (PromiseResult.rejected highest, a'))
        × (Acceptor.accept ops codecs later k low value a' ≡ (AcceptedResult.rejected highest, a'))
  promise_kept clock later slot k ballot low value a p rs e h =
      let a' = (Acceptor.prepare ops codecs clock slot ballot a).1 in
      low_rejected later k low value (run rs a')
        (omega (arith, highest-run rs a', highest-prepare clock slot ballot a p e))
