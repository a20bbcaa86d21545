-- ===== src/Acceptor/Agreement.antt =====
-- A cluster of acceptors (paxos-wasm/core/acceptor/src/acceptor.rs), each of which serves requests
-- in any order and interleaving. Messages that are lost, repeated or reordered are sequences of
-- calls too, so nothing is assumed of the network or of the proposers.
use wasm_master.Common.{
  ℕ, ◌+◌, ◌/◌, ◌≤◌, Bool, true, false, Option, none, some, List, [], ◌∷◌, ◌++◌, ap, ◌≡◌, refl, inl,
  inr, arith, Option-cases, Bool-cases, length, count_if, All, update_at, length-update_at,
  count_if-update_at, All-update_at, count_if_disjoint, All-imp,
}
use wasm_master.Common.Fallible.{ok}
use wasm_master.Common.KeyMap
use wasm_master.Common.KeyMap.{KeyMap, get-insert}
use wasm_master.Types.{Slot, Ballot, Value, PValue}
use wasm_master.Types.Equality.{holds_value, value_eq, value_eq_iff}
use wasm_master.Persistence.{StorageOps, Clock}
use wasm_master.Acceptor.Storage.{
  Codecs, StorageHelper, save_current_state, maybe_flush_current_state, maybe_flush_changes,
}
use wasm_master.Acceptor
use wasm_master.Acceptor.{Acceptor, accepted_reply, get_accepted, record_promise}
use wasm_master.Acceptor.Writes.{accept_map, accept_keeps_disabled, record_accepted_disabled}
use wasm_master.Acceptor.Calls.{Request, step, prepare_lem}
use wasm_master.Acceptor.Calls.Request.{prepare, accept, maybe_flush}

abbrev pub holds_option : Option PValue → Value → Bool
holds_option none v = false
holds_option (some pv) v = holds_value pv.value v

holds_value_one :
    (v w : Value) (o : Option Value)
    → value_eq v w ≡ false
    → holds_value o v ≡ true
    → holds_value o w ≡ false
holds_value_one v w none e h = refl
holds_value_one v w (some u) e h =
    ground (arith, value_eq_iff u v, value_eq_iff u w, value_eq_iff v w)

holds_option_one :
    (v w : Value) (o : Option PValue)
    → value_eq v w ≡ false
    → holds_option o v ≡ true
    → holds_option o w ≡ false
holds_option_one v w none e h = refl
holds_option_one v w (some pv) e h = holds_value_one v w pv.value e h

module _ {S : Type 0} where
  -- The acceptor has accepted `v` for the slot.
  abbrev pub holds : Slot → Value → Acceptor S → Bool
  holds slot v a = holds_option (get_accepted a slot) v

  -- A majority of the acceptors have accepted `v` for the slot.
  abbrev pub IsChosen : Slot → Value → List (Acceptor S) → Type 0
  IsChosen slot v c = length c / 2 + 1 ≤ count_if (holds slot v) c

  -- Persistence, and so pruning, is switched off.
  abbrev pub IsVolatile : Acceptor S → Type 0
  IsVolatile a = a.storage.enabled ≡ false

module _ {S : Type 0} (ops : StorageOps S) (codecs : Codecs) where
  -- One acceptor serves one request.
  pub data Step (c : List (Acceptor S)) : List (Acceptor S) → Type 0 where
    serve : (i : ℕ) (r : Clock × Request) → Step c (update_at i (step ops codecs r) c)

  pub data Reach (c : List (Acceptor S)) : List (Acceptor S) → Type 0 where
    here : Reach c c
    next : {d e : List (Acceptor S)} → Reach c d → Step d e → Reach c e

  save_current_state_disabled :
      (clock : Clock) (bs : List Ballot) (h : StorageHelper S)
      → h.enabled ≡ false
      → save_current_state ops codecs clock bs h ≡ (ok tt, h)
  unfolding save_current_state
  save_current_state_disabled clock bs h e = ground arith

  maybe_flush_disabled :
      (clock : Clock) (a : Acceptor S)
      → a.storage.enabled ≡ false
      → (Acceptor.maybe_flush ops codecs clock a).1.storage.enabled ≡ false
  unfolding Acceptor.maybe_flush maybe_flush_current_state maybe_flush_changes
  maybe_flush_disabled clock a e = ground arith

  prepare_disabled :
      (clock : Clock) (slot : Slot) (ballot : Ballot) (a : Acceptor S)
      → a.storage.enabled ≡ false
      → (Acceptor.prepare ops codecs clock slot ballot a).1.storage.enabled ≡ false
  unfolding Acceptor.prepare record_promise
  prepare_disabled clock slot ballot a e =
      ground (arith, save_current_state_disabled clock (a.promises ++ ballot ∷ []) a.storage)

  pub step-IsVolatile :
      (r : Clock × Request) (a : Acceptor S) → IsVolatile a → IsVolatile (step ops codecs r a)
  unfolding step
  step-IsVolatile (clock, prepare slot ballot) a off = prepare_disabled clock slot ballot a off
  step-IsVolatile (clock, accept slot ballot w) a off =
      elim (accept_map ops codecs clock slot ballot w a) [
        | inl same ↦ rw same off
        | inr (_, changed) ↦ rw changed (rw (record_accepted_disabled ops codecs clock _ a off) off)
      ]
  step-IsVolatile (clock, maybe_flush) a off = maybe_flush_disabled clock a off

  pub step-holds :
      (r : Clock × Request) (slot : Slot) (v : Value) (a : Acceptor S)
      → IsVolatile a
      → holds slot v a ≡ true
      → holds slot v (step ops codecs r a) ≡ true
  unfolding step
  step-holds (clock, prepare s b) slot v a off h =
      ground (arith, prepare_lem ops codecs clock s b a)
  step-holds (clock, accept s b w) slot v a off h =
      elim (Option-cases (KeyMap.get slot a.accepted)) [
        | inl e ↦ cc (ap (λ (o : Option PValue). holds_option o v) e)
        | inr (old, e) ↦
            rw (accept_keeps_disabled ops codecs clock s slot b w a old off e) (rw e at h)
      ]
  step-holds (clock, maybe_flush) slot v a off h = unfold Acceptor.maybe_flush in h

  -- What a step or a run leaves: nobody prunes, nobody is added, and no vote is lost.
  record Keeps (slot : Slot) (v : Value) (c d : List (Acceptor S)) : Type 0 where
    volatile : All (IsVolatile {S = S}) d
    size : length d ≡ length c
    votes : count_if (holds slot v) c ≤ count_if (holds slot v) d

  Step-Keeps :
      (slot : Slot) (v : Value) {c d : List (Acceptor S)}
      → Step c d
      → All (IsVolatile {S = S}) c
      → Keeps slot v c d
  Step-Keeps slot v {c} (serve i r) off = record {
    volatile = All-update_at (IsVolatile {S = S}) i (step ops codecs r) c (step-IsVolatile r) off;
    size = length-update_at i (step ops codecs r) c;
    votes =
        count_if-update_at (holds slot v) i (step ops codecs r) c
          (All-imp (step-holds r slot v) c off);
  }

  Reach-Keeps :
      (slot : Slot) (v : Value) {c d : List (Acceptor S)}
      → Reach c d
      → All (IsVolatile {S = S}) c
      → Keeps slot v c d
  Reach-Keeps slot v here off = record { volatile = off; size = refl; votes = omega arith }
  Reach-Keeps slot v (next r s) off =
      let k = Reach-Keeps slot v r off in
      let l = Step-Keeps slot v s k.volatile in
      record { volatile = l.volatile; size = omega arith; votes = omega arith }

  one_value :
      (slot : Slot) (v w : Value) (a : Acceptor S)
      → value_eq v w ≡ false
      → holds slot v a ≡ true
      → holds slot w a ≡ false
  one_value slot v w a e h = holds_option_one v w (get_accepted a slot) e h

  -- Once a majority of the acceptors, none of which prunes, has accepted a value for a slot, then
  -- whatever requests they serve later, no majority accepts another value for that slot.
  pub agreement :
      (slot : Slot) (v w : Value) {c d : List (Acceptor S)}
      → All IsVolatile c
      → Reach c d
      → IsChosen slot v c
      → IsChosen slot w d
      → v ≡ w
  agreement slot v w {c} {d} off r hv hw = elim (Bool-cases (value_eq v w)) [
    | inl e ↦ (value_eq_iff v w).0 e
    | inr e ↦
        let k = Reach-Keeps slot v r off in
        absurd (
          omega (
            arith,
            count_if_disjoint (holds slot v) (holds slot w) (λ a. one_value slot v w a e) d,
          ))
  ]
