-- ===== src/Acceptor/Invariant.antt =====
-- The invariant of the acceptor, over any sequence of its calls.
use wasm_master.Common.{
  ℕ, ◌<◌, true, List, [], ◌∷◌, ◌++◌, ◌≡◌, refl, inl, inr, arith, All, last, is_some,
}
use wasm_master.Common.KeyMap.{
  KeyMap, IsSorted, insert-IsSorted, retain-IsSorted, All-insert, All-retain,
}
use wasm_master.Types.{Slot, Ballot, Value, PValue}
use wasm_master.Persistence.{StorageOps, Clock}
use wasm_master.Acceptor.Storage.{Codecs}
use wasm_master.Acceptor.{
  Acceptor, highest_promised_ballot, slot_or_zero, record_accepted, record_promise, prepare, accept,
}
use wasm_master.Acceptor.Pruning.{IsPruned}
use wasm_master.Acceptor.Writes.{record_accepted_cases, accept_map, promises-record_accepted}

-- Each ballot is above the one before it, and the first above `low`.
abbrev pub Climbs : Ballot → List Ballot → Type 0
Climbs low [] = Unit
Climbs low (b ∷ bs) = (low < b) × Climbs b bs

abbrev last_above : Ballot → List Ballot → Ballot
last_above low [] = low
last_above low (b ∷ bs) = last_above b bs

last_above-eq-last :
    (low b : Ballot) (bs : List Ballot) → last_above low (b ∷ bs) ≡ slot_or_zero (last (b ∷ bs))
last_above-eq-last low b [] = refl
last_above-eq-last low b (c ∷ cs) = last_above-eq-last b c cs

last_above-zero : (bs : List Ballot) → last_above 0 bs ≡ slot_or_zero (last bs)
last_above-zero [] = refl
last_above-zero (b ∷ bs) = last_above-eq-last 0 b bs

Climbs-append :
    (low b : Ballot) (bs : List Ballot)
    → Climbs low bs
    → last_above low bs < b
    → Climbs low (bs ++ b ∷ [])
Climbs-append low b [] c h = (h, tt)
Climbs-append low b (x ∷ xs) c h = (c.0, Climbs-append x b xs c.1 h)

-- An entry stands under its own slot, and holds a value.
abbrev pub IsFiled : ℕ × PValue → Type 0
IsFiled e = (e.1.slot ≡ e.0) × (is_some e.1.value ≡ true)

pub record IsValid {S : Type 0} (a : Acceptor S) : Type 0 where
  pub climbs : Climbs 0 a.promises
  pub sorted : IsSorted a.accepted
  pub filed : All IsFiled a.accepted

IsPruned-IsSorted : {m m' : KeyMap PValue} → IsPruned m m' → IsSorted m → IsSorted m'
IsPruned-IsSorted (inl e) s = rw e s
IsPruned-IsSorted {m} (inr (p, e)) s = rw e (retain-IsSorted p m s)

IsPruned-IsFiled : {m m' : KeyMap PValue} → IsPruned m m' → All IsFiled m → All IsFiled m'
IsPruned-IsFiled (inl e) s = rw e s
IsPruned-IsFiled {m} (inr (p, e)) s = rw e (All-retain IsFiled p m s)

module _ {S : Type 0} (ops : StorageOps S) (codecs : Codecs) (clock : Clock) where
  record_promise-IsValid :
      (ballot : Ballot) (a : Acceptor S)
      → highest_promised_ballot a < ballot
      → IsValid a
      → IsValid (record_promise ops codecs clock ballot a)
  unfolding record_promise
  record_promise-IsValid ballot a h v = record {
    climbs = Climbs-append 0 ballot a.promises v.climbs (omega (arith, last_above-zero a.promises));
    sorted = v.sorted;
    filed = v.filed;
  }

  pub prepare-IsValid :
      (slot : Slot) (ballot : Ballot) (a : Acceptor S)
      → IsValid a
      → IsValid (prepare ops codecs clock slot ballot a).1
  unfolding prepare
  prepare-IsValid slot ballot a v = ground (arith, record_promise-IsValid ballot a)

  record_accepted-IsValid :
      (pv : PValue) (a : Acceptor S)
      → is_some pv.value ≡ true
      → IsValid a
      → IsValid (record_accepted ops codecs clock pv a)
  record_accepted-IsValid pv a h v = record {
    climbs = rw (promises-record_accepted ops codecs clock pv a) v.climbs;
    sorted =
        IsPruned-IsSorted (record_accepted_cases ops codecs clock pv a)
          (insert-IsSorted pv.slot pv a.accepted v.sorted);
    filed =
        IsPruned-IsFiled (record_accepted_cases ops codecs clock pv a)
          (All-insert IsFiled pv.slot pv a.accepted (refl, h) v.filed);
  }

  pub accept-IsValid :
      (slot : Slot) (ballot : Ballot) (value : Value) (a : Acceptor S)
      → IsValid a
      → IsValid (accept ops codecs clock slot ballot value a).1
  accept-IsValid slot ballot value a v = elim (accept_map ops codecs clock slot ballot value a) [
    | inl same ↦ rw same v
    | inr (_, changed) ↦ rw changed (record_accepted-IsValid _ a refl v)
  ]
