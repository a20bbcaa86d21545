-- ===== src/Learner/Quorum.antt =====
-- The count of votes in `check_quorum` of paxos-wasm/core/learner/src/learner.rs, and what
-- `handle_learn` may change.
use wasm_master.Common.{
  ℕ, ◌+◌, ◌/◌, ◌≤◌, ◌<◌, true, Option, none, some, List, [], ◌∷◌, ◌≡◌, refl, ◌↔◌, inl, inr, arith,
  leb, if◌then◌else◌, length, count_if, count_if_disjoint, count_if-le-length, Bool-cases,
  Option-cases, le→leb, usize_size,
}
use wasm_master.Common.KeyMap
use wasm_master.Common.KeyMap.{KeyMap, get-insert}
use wasm_master.Types.{Slot, Value, Learn, Node}
use wasm_master.Types.Equality.{value_eq, value_eq_iff}
use wasm_master.Persistence.{StorageOps, Clock}
use wasm_master.Learner.Storage.{Codecs}
use wasm_master.Learner.{
  Learner, quorum_of, bump, tally_from, find_quorum, check_votes, check_quorum, record_vote, learn,
  learn_quorum, handle_learn, quorum, or_empty,
}

-- The votes for `v`.
abbrev pub votes_for : Value → List Learn → ℕ
votes_for v ls = count_if (λ l. value_eq l.value v) ls

-- The counts of the entries for `v`, added up, and the count of the first one.
abbrev total : Value → List (Value × ℕ) → ℕ
total v [] = 0
total v ((w, n) ∷ t) = let rest = total v t in if value_eq w v then n + rest else rest

abbrev first : Value → List (Value × ℕ) → ℕ
first v [] = 0
first v ((w, n) ∷ t) = let rest = first v t in if value_eq w v then n else rest

total-bump :
    (v w : Value) (t : List (Value × ℕ))
    → total v (bump w t) ≡ total v t + (if value_eq w v then 1 else 0)
unfolding bump
total-bump v w [] = ground arith
total-bump v w ((u, n) ∷ t) =
    ground (arith, total-bump v w t, value_eq_iff u w, value_eq_iff u v, value_eq_iff w v)

first-bump :
    (v w : Value) (t : List (Value × ℕ))
    → first v (bump w t) ≡ first v t + (if value_eq w v then 1 else 0)
unfolding bump
first-bump v w [] = ground arith
first-bump v w ((u, n) ∷ t) =
    ground (arith, first-bump v w t, value_eq_iff u w, value_eq_iff u v, value_eq_iff w v)

total-tally_from :
    (v : Value) (t : List (Value × ℕ)) (ls : List Learn)
    → total v (tally_from t ls) ≡ total v t + votes_for v ls
unfolding tally_from
total-tally_from v t [] = omega arith
total-tally_from v t (l ∷ ls) =
    ground (arith, total-tally_from v (bump l.value t) ls, total-bump v l.value t)

first-tally_from :
    (v : Value) (t : List (Value × ℕ)) (ls : List Learn)
    → first v (tally_from t ls) ≡ first v t + votes_for v ls
unfolding tally_from
first-tally_from v t [] = omega arith
first-tally_from v t (l ∷ ls) =
    ground (arith, first-tally_from v (bump l.value t) ls, first-bump v l.value t)

find_quorum_sound :
    (q : ℕ) (t : List (Value × ℕ)) (v : Value) → find_quorum q t ≡ some v → q ≤ total v t
unfolding find_quorum
find_quorum_sound q [] v e = cc
find_quorum_sound q ((w, n) ∷ t) v e = ground (arith, find_quorum_sound q t v, value_eq_iff w v)

find_quorum_complete :
    (q : ℕ) (t : List (Value × ℕ)) (v : Value)
    → 0 < q
    → q ≤ first v t
    → (w : Value) × (find_quorum q t ≡ some w)
unfolding find_quorum
find_quorum_complete q [] v p h = absurd (omega arith)
find_quorum_complete q ((w, n) ∷ t) v p h = elim (Bool-cases (leb q n)) [
  | inl e ↦ (w, rw e)
  | inr e ↦ rw e (find_quorum_complete q t v p (ground arith))
]

-- Two values cannot both have a majority.
majority_unique :
    (n q : ℕ) (ls : List Learn) (v w : Value)
    → n < q + q
    → length ls ≤ n
    → q ≤ votes_for v ls
    → q ≤ votes_for w ls
    → v ≡ w
majority_unique n q ls v w h len hv hw = elim (Bool-cases (value_eq v w)) [
  | inl e ↦ (value_eq_iff v w).0 e
  | inr e ↦ absurd (
      omega (
        arith,
        count_if_disjoint (λ (l : Learn). value_eq l.value v) (λ l. value_eq l.value w)
            (λ l h'.
              ground (arith, value_eq_iff l.value v, value_eq_iff l.value w, value_eq_iff v w))
            ls,
      ))
]

length-values : (m : KeyMap Learn) → length (KeyMap.values m) ≡ length m
length-values [] = refl
length-values (e ∷ m) = omega (arith, length-values m)

check_votes_sound :
    (q : ℕ) (m : KeyMap Learn) (v : Value)
    → check_votes q (some m) ≡ some v
    → q ≤ votes_for v (KeyMap.values m)
check_votes_sound q m v e =
    let t = tally_from [] (KeyMap.values m) in
    ground (arith, find_quorum_sound q t v, total-tally_from v [] (KeyMap.values m))

check_votes_complete :
    (n q : ℕ) (m : KeyMap Learn) (v : Value)
    → n < q + q
    → length m ≤ n
    → q ≤ votes_for v (KeyMap.values m)
    → check_votes q (some m) ≡ some v
check_votes_complete n q m v h len hv =
    let ls = KeyMap.values m in
    let (w, found) =
      find_quorum_complete q (tally_from [] ls) v (omega arith)
        (omega (arith, first-tally_from v [] ls)) in
    let enough : leb q (length m) ≡ true =
      le→leb q (length m) (
        omega
          (arith, count_if-le-length (λ (l : Learn). value_eq l.value v) ls, length-values m)) in
    let sound : check_votes q (some m) ≡ some w = rw enough found in
    rw
      (majority_unique n q ls v w h (omega (arith, length-values m)) hv
        (check_votes_sound q m w sound))
      sound

check_votes_votes :
    (q : ℕ) (o : Option (KeyMap Learn)) (v : Value)
    → check_votes q o ≡ some v
    → q ≤ votes_for v (KeyMap.values (or_empty o))
check_votes_votes q none v e = cc
check_votes_votes q (some m) v e = check_votes_sound q m v e

-- The votes that are recorded for the slot.
abbrev pub votes_at : {S : Type 0} → Learner S → Slot → KeyMap Learn
votes_at l slot = or_empty (KeyMap.get slot l.slot_learns)

module _ {S : Type 0} where
  -- With at most as many voters as acceptors, `check_quorum` finds a value exactly if a majority of
  -- the acceptors has voted for it; so the order in which the hash map is searched is irrelevant.
  pub check_quorum_iff :
      (l : Learner S) (slot : Slot) (v : Value)
      → l.num_acceptors < usize_size
      → length (votes_at l slot) ≤ l.num_acceptors
      → (check_quorum l slot ≡ some v)
        ↔ (l.num_acceptors / 2 + 1 ≤ votes_for v (KeyMap.values (votes_at l slot)))
  unfolding check_quorum
  check_quorum_iff l slot v small len = elim (Option-cases (KeyMap.get slot l.slot_learns)) [
    | inl e ↦ rw (e, check_quorum) (ground arith)
    | inr (m, e) ↦
        let n = l.num_acceptors in
        let q = quorum_of n in
        let exact : q ≡ n / 2 + 1 = omega arith in
        let len' : length m ≤ n = rw e at len in
        rw (e, check_quorum)
          (
            λ found. omega (arith, check_votes_sound q m v found),
            λ h. check_votes_complete n q m v (omega arith) len' (omega arith),
          )
  ]

module _ {S : Type 0} (ops : StorageOps S) (codecs : Codecs) (clock : Clock) where
  learn_keeps :
      (slot k : Slot) (v w : Value) (l : Learner S)
      → KeyMap.get k l.learned ≡ some w
      → KeyMap.get k (learn ops codecs clock slot v l).1.learned ≡ some w
  unfolding learn
  learn_keeps slot k v w l e = ground (arith, get-insert slot k v l.learned)

  learn_quorum_keeps :
      (slot k : Slot) (o : Option Value) (w : Value) (l : Learner S)
      → KeyMap.get k l.learned ≡ some w
      → KeyMap.get k (learn_quorum ops codecs clock slot o l).1.learned ≡ some w
  learn_quorum_keeps slot k none w l e = e
  learn_quorum_keeps slot k (some v) w l e = learn_keeps slot k v w l e

  -- A value that is learned for a slot stays, whatever votes arrive later.
  pub handle_learn_keeps :
      (vote : Learn) (sender : Node) (l : Learner S) (k : Slot) (v : Value)
      → KeyMap.get k l.learned ≡ some v
      → KeyMap.get k (handle_learn ops codecs clock vote sender l).1.learned ≡ some v
  unfolding handle_learn record_vote
  handle_learn_keeps vote sender l k v e =
      learn_quorum_keeps vote.slot k _ v (record_vote vote sender.node_id l) e

  learn_quorum_sound :
      (slot : Slot) (o : Option Value) (l : Learner S)
      → (learn_quorum ops codecs clock slot o l).0 ≡ true
      → (v : Value) × (o ≡ some v)
        × (KeyMap.get slot l.learned ≡ none)
        × (KeyMap.get slot (learn_quorum ops codecs clock slot o l).1.learned ≡ some v)
  unfolding learn
  learn_quorum_sound slot none l e = cc
  learn_quorum_sound slot (some v) l e =
      (v, refl, ground arith, ground (arith, get-insert slot slot v l.learned))

  -- When `handle_learn` answers true, the slot had no value before, and has now one for which
  -- a quorum of votes is recorded.
  pub handle_learn_sound :
      (vote : Learn) (sender : Node) (l : Learner S)
      → (handle_learn ops codecs clock vote sender l).0 ≡ true
      → let l' = record_vote vote sender.node_id l in
        (v : Value) × (KeyMap.get vote.slot l.learned ≡ none)
        × (KeyMap.get vote.slot (handle_learn ops codecs clock vote sender l).1.learned ≡ some v)
        × (quorum l ≤ votes_for v (KeyMap.values (votes_at l' vote.slot)))
  unfolding handle_learn check_quorum record_vote
  handle_learn_sound vote sender l e =
      let l' = record_vote vote sender.node_id l in
      let (v, found, free, now) = learn_quorum_sound vote.slot (check_quorum l' vote.slot) l' e in
      (v, unfold record_vote in free, now, check_votes_votes (quorum l) _ v found)
