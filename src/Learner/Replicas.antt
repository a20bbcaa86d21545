-- ===== src/Learner/Replicas.antt =====
-- Two learners (paxos-wasm/core/learner/src/learner.rs) of the same log hand out the same entries.
use wasm_master.Common.{
  ◌+◌, ◌<◌, some, List, [], ◌∷◌, ◌++◌, ◌≡◌, refl, sym, ◌∙◌, subst, ◌⊎◌, inl, inr, length, u64_size,
}
use wasm_master.Common.KeyMap
use wasm_master.Common.KeyMap.{KeyMap}
use wasm_master.Types.{Slot, Value, LearnedEntry}
use wasm_master.Persistence.{StorageOps, Clock}
use wasm_master.Learner.{Learner, to_be_executed}
use wasm_master.Learner.Storage.{Codecs}
use wasm_master.Learner.Execution.{IsRun, result_of, to_be_executed_lem}

-- Where both have learned a slot, they have learned the same value.
abbrev pub AgreeOn : KeyMap Value → KeyMap Value → Type 0
AgreeOn m m' =
    (k : Slot) (v v' : Value) → KeyMap.get k m ≡ some v → KeyMap.get k m' ≡ some v' → v ≡ v'

-- The second list goes on from the first.
abbrev pub Continues : List LearnedEntry → List LearnedEntry → Type 0
Continues out out' = (rest : List LearnedEntry) × (out' ≡ out ++ rest)

same_entry : (e e' : LearnedEntry) → e.slot ≡ e'.slot → e.value ≡ e'.value → e ≡ e'
same_entry e e' p q = λ i. record { slot = p i; value = q i }

cons-Continues :
    (e e' : LearnedEntry) (out out' : List LearnedEntry)
    → e ≡ e'
    → Continues out out' ⊎ Continues out' out
    → Continues (e ∷ out) (e' ∷ out') ⊎ Continues (e' ∷ out') (e ∷ out)
cons-Continues e e' out out' same (inl (rest, eq)) = inl (rest, λ i. sym same i ∷ eq i)
cons-Continues e e' out out' same (inr (rest, eq)) = inr (rest, λ i. same i ∷ eq i)

runs_agree :
    (next : Slot) (out out' : List LearnedEntry) (end end' : Slot) (m m' : KeyMap Value)
    → AgreeOn m m'
    → IsRun next out end m
    → IsRun next out' end' m'
    → Continues out out' ⊎ Continues out' out
runs_agree next [] out' end end' m m' agree r r' = inl (out', refl)
runs_agree next (e ∷ out) [] end end' m m' agree r r' = inr (e ∷ out, refl)
runs_agree next (e ∷ out) (e' ∷ out') end end' m m' agree (s, v, r) (s', v', r') =
    cons-Continues e e' out out' (same_entry e e' (s ∙ sym s') (agree next e.value e'.value v v'))
      (runs_agree (next + 1) out out' end end' m m' agree r r')

module _ {S : Type 0} (ops : StorageOps S) (codecs : Codecs) (clock : Clock) where
  -- Two learners that have executed the same slots, and have learned the same value wherever both
  -- have learned one, hand out entries of which one list is the beginning of the other: neither
  -- executes another command in a slot, or another order, than the other. (Slots stay below 2^64.)
  pub replicas_agree :
      (l l' : Learner S)
      → l.adu + length l.learned + 2 < u64_size
      → l'.adu + length l'.learned + 2 < u64_size
      → l.adu ≡ l'.adu
      → AgreeOn l.learned l'.learned
      → (out : List LearnedEntry) × (out' : List LearnedEntry) × (k : Learner S) × (k' : Learner S)
        × (to_be_executed ops codecs clock l ≡ some (result_of out, k))
        × (to_be_executed ops codecs clock l' ≡ some (result_of out', k'))
        × (Continues out out' ⊎ Continues out' out)
  replicas_agree l l' small small' same agree =
      let (out, k, run, slots, moved) = to_be_executed_lem ops codecs clock l small in
      let (out', k', run', slots', moved') = to_be_executed_lem ops codecs clock l' small' in
      (
        out,
        out',
        k,
        k',
        run,
        run',
        runs_agree (l.adu + 1) out out' _ _ l.learned l'.learned agree slots (
            subst (λ a. IsRun (a + 1) out' (l'.adu + length out' + 1) l'.learned) (sym same)
              slots'),
      )
