-- ===== src/Proposer/Ballots.antt =====
-- The ballots of paxos-wasm/core/proposer/src/proposer.rs: how becoming leader raises them.
use native.Mathlib.Nat.{add-mul-mod_self_right}
use wasm_master.Common.{
  ℕ, suc, ◌+◌, ◌*◌, ◌%◌, ◌<◌, u64_size, Bool, true, false, Option, none, some, List, [], ◌∷◌, ◌≡◌,
  refl, ◌∙◌, ap, ◌≢◌, subst, sym, ◌⊎◌, inl, inr, arith, Bool-cases, Option-cases, length,
}
use wasm_master.Common.Fallible.{Result, ok, err}
use wasm_master.Persistence.{StorageOps, Codec, Clock}
use wasm_master.Proposer.{
  Proposer, expect_saved, raised, increase_ballot, as_leader, become_leader, resign_leader,
}
use wasm_master.Proposer.Storage.{CurrentState, StorageHelper}

-- The calls that decide who leads, in any order.
pub data Election : Type 0 where
  become : Election
  resign : Election
  raise : Election

one_step : (d n b : ℕ) → b + suc n * d < u64_size → b + d < u64_size
one_step d n b h = omega arith

still_small :
    (n b c d : ℕ) → (c ≡ b) ⊎ (c ≡ b + d) → b + suc n * d < u64_size → c + n * d < u64_size
still_small n b c d (inl same) h = omega arith
still_small n b c d (inr raised) h = omega arith

next_step : (k b c d a : ℕ) → (c ≡ b) ⊎ (c ≡ b + d) → a ≡ c + k * d → (j : ℕ) × (a ≡ b + j * d)
next_step k b c d a (inl same) e = (k, omega arith)
next_step k b c d a (inr raised) e = (suc k, omega arith)

module _ {S : Type 0} (ops : StorageOps S) (codec : Codec CurrentState) (clock : Clock) where
  abbrev after : Option (Bool × Proposer S) → Option (Proposer S)
  after none = none
  after (some (b, p)) = some p

  abbrev pub elect : Election → Proposer S → Option (Proposer S)
  elect become p = after (become_leader ops codec clock p)
  elect resign p = some (resign_leader p).1
  elect raise p = increase_ballot ops codec clock p

  -- `none` when one of the calls panics.
  unfoldable pub elect_all : List Election → Proposer S → Option (Proposer S)
  elect_all [] p = some p
  elect_all (e ∷ es) p = elim (elect e p) [ none ↦ none | some q ↦ elect_all es q ]

  expect_saved_ballot :
      (r : Result (Unit {0}) × StorageHelper S) (p p' : Proposer S)
      → expect_saved ops codec clock r p ≡ some p'
      → (p'.current_ballot ≡ p.current_ballot) × (p'.ballot_delta ≡ p.ballot_delta)
  expect_saved_ballot (ok u, h) p p' e = ground arith
  expect_saved_ballot (err u, h) p p' e = ground arith

  pub increase_ballot_lem :
      (p p' : Proposer S)
      → p.current_ballot + p.ballot_delta < u64_size
      → increase_ballot ops codec clock p ≡ some p'
      → (p'.current_ballot ≡ p.current_ballot + p.ballot_delta) × (p'.ballot_delta ≡ p.ballot_delta)
  unfolding increase_ballot
  increase_ballot_lem p p' small e = let h = expect_saved_ballot _ _ p' e in ground arith

  as_leader_lem :
      (o : Option (Proposer S)) (changed : Bool) (p' : Proposer S)
      → as_leader ops codec clock o ≡ some (changed, p')
      → (q : Proposer S) × (o ≡ some q) × (changed ≡ true) × (p' ≡ record q { is_leader = true })
  as_leader_lem none changed p' e = ground arith
  as_leader_lem (some q) changed p' e = (q, refl, ground arith, ground arith)

  -- A proposer that leads is left as it is; any other leads afterwards, with its ballot raised by
  -- the number of acceptors. (The save of the state did not panic, and the ballot did not wrap.)
  pub become_leader_lem :
      (p p' : Proposer S) (changed : Bool)
      → p.current_ballot + p.ballot_delta < u64_size
      → become_leader ops codec clock p ≡ some (changed, p')
      → ((changed ≡ false) × (p.is_leader ≡ true) × (p' ≡ p))
        ⊎ ((changed ≡ true)
            × (p.is_leader ≡ false)
            × (p'.is_leader ≡ true)
            × (p'.current_ballot ≡ p.current_ballot + p.ballot_delta)
            × (p'.ballot_delta ≡ p.ballot_delta))
  unfolding become_leader
  become_leader_lem p p' changed small e = elim (Bool-cases p.is_leader) [
    | inl lead ↦ inl (ground arith, lead, ground arith)
    | inr follow ↦
        let e' : as_leader ops codec clock (increase_ballot ops codec clock p)
            ≡ some (changed, p') =
          ground arith in
        let (q, o, c, r) = as_leader_lem (increase_ballot ops codec clock p) changed p' e' in
        let (b, d) = increase_ballot_lem p q small o in
        inr (c, follow, ground arith, ground arith, ground arith)
  ]

  after-some :
      (o : Option (Bool × Proposer S)) (p' : Proposer S)
      → after o ≡ some p'
      → (b : Bool) × (o ≡ some (b, p'))
  after-some none p' e = ground arith
  after-some (some (b, p)) p' e = (b, ground arith)

  elect_lem :
      (s : Election) (p p' : Proposer S)
      → p.current_ballot + p.ballot_delta < u64_size
      → elect s p ≡ some p'
      → ((p'.current_ballot ≡ p.current_ballot)
          ⊎ (p'.current_ballot ≡ p.current_ballot + p.ballot_delta))
        × (p'.ballot_delta ≡ p.ballot_delta)
  unfolding resign_leader
  elect_lem become p p' small e =
      let (b, o) = after-some (become_leader ops codec clock p) p' e in
      elim (become_leader_lem p p' b small o) [
        | inl (x, y, same) ↦ rw same (inl refl, refl)
        | inr (x, y, z, raised, delta) ↦ (inr raised, delta)
      ]
  elect_lem resign p p' small e = elim (Bool-cases p.is_leader) [
    | inl lead ↦ ground arith
    | inr follow ↦ ground arith
  ]
  elect_lem raise p p' small e = let (b, d) = increase_ballot_lem p p' small e in (inr b, d)

  elect_all_lem :
      (es : List Election) (p p' : Proposer S)
      → p.current_ballot + length es * p.ballot_delta < u64_size
      → elect_all es p ≡ some p'
      → (k : ℕ) × (p'.current_ballot ≡ p.current_ballot + k * p.ballot_delta)
  unfolding elect_all
  elect_all_lem [] p p' small e = (0, ground arith)
  elect_all_lem (s ∷ es) p p' small e = elim (Option-cases (elect s p)) [
    | inl stop ↦ absurd ground arith
    | inr (q, go) ↦
        let rest : elect_all es q ≡ some p' = ground arith in
        let (b, d) =
          elect_lem s p q (one_step p.ballot_delta (length es) p.current_ballot small) go in
        let (k, eq) =
          elect_all_lem es q p'
            (subst (λ x. q.current_ballot + length es * x < u64_size) (sym d)
              (still_small (length es) p.current_ballot q.current_ballot p.ballot_delta b small))
            rest in
        next_step k p.current_ballot q.current_ballot p.ballot_delta p'.current_ballot b
          (eq ∙ ap (λ x. q.current_ballot + k * x) d)
  ]

  -- Two proposers whose ballots differ modulo the number of acceptors, as their node ids do, never
  -- come to the same ballot, whatever elections each goes through, as long as no ballot wraps.
  pub ballots_distinct :
      (es fs : List Election) (p q p' q' : Proposer S) (n : ℕ)
      → p.ballot_delta ≡ n
      → q.ballot_delta ≡ n
      → p.current_ballot + length es * n < u64_size
      → q.current_ballot + length fs * n < u64_size
      → p.current_ballot % n ≢ q.current_ballot % n
      → elect_all es p ≡ some p'
      → elect_all fs q ≡ some q'
      → p'.current_ballot ≢ q'.current_ballot
  ballots_distinct es fs p q p' q' n dp dq sp sq differ ep eq same =
      let (k, kp) = elect_all_lem es p p' (rw dp sp) ep in
      let (j, jq) = elect_all_lem fs q q' (rw dq sq) eq in
      differ (
        sym (add-mul-mod_self_right p.current_ballot k n)
        ∙ ap (λ b. b % n)
            (ap (λ d. p.current_ballot + k * d) (sym dp)
              ∙ sym kp
              ∙ same
              ∙ jq
              ∙ ap (λ d. q.current_ballot + j * d) dq)
        ∙ add-mul-mod_self_right q.current_ballot j n)
