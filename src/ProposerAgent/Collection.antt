-- ===== src/ProposerAgent/Collection.antt =====
-- The responses of the acceptors that paxos-wasm/agents/proposer-agent/src/proposer-agent.rs collects.
use wasm_master.Common.{
  ℕ, ◌≤◌, false, ◌&&◌, Option, none, some, List, [], ◌∷◌, ◌≡◌, refl, sym, subst, ap, ◌∙◌, ◌↔◌, inl,
  inr, arith, ◌==◌, ==_iff, if◌then◌else◌, Bool-cases, All, length, last,
}
use wasm_master.Common.KeyMap
use wasm_master.Common.KeyMap.{KeyMap, get-insert, get-nil, IsSorted, insert-IsSorted}
use wasm_master.Types.{Slot, Ballot, Node, Promise, Accepted}
use wasm_master.ProposerAgent.{
  ProposerAgent, or_empty, if_quorum, insert_response, get_quorum_acceptors,
  insert_and_check_promises, insert_and_check_accepted,
}

-- The response of a sender in a group.
abbrev pub response : {V : Type 0} → ℕ → ℕ → KeyMap (KeyMap V) → Option V
response k sender m = KeyMap.get sender (or_empty (KeyMap.get k m))

abbrev pub group_at : {V : Type 0} → ℕ → KeyMap (KeyMap V) → KeyMap V
group_at k m = or_empty (KeyMap.get k m)

get-inserted :
    {W : Type 0} (k : ℕ) (w : W) (m : KeyMap W) → KeyMap.get k (KeyMap.insert k w m) ≡ some w
get-inserted k w m = ground (arith, get-insert k k w m)

module _ {V : Type 0} where
  response_inserted :
      (k sender i j : ℕ) (v : V) (m : KeyMap (KeyMap V))
      → response i j (insert_response k sender v m)
        ≡ (if k == i && sender == j then some v else response i j m)
  response_inserted k sender i j v m =
      let outer = get-insert k i (KeyMap.insert sender v (or_empty (KeyMap.get k m))) m in
      let inner = get-insert sender j v (or_empty (KeyMap.get k m)) in
      elim (Bool-cases (k == i)) [
        | inl same ↦
            rw (outer, same)
              (inner
                ∙ ap (λ x. if sender == j then some v else response x j m) ((==_iff k i).0 same))
        | inr other ↦ rw (outer, other) refl
      ]

  some_entry :
      (i k : ℕ) (g g' : KeyMap V)
      → ◌≡◌ {A = Option (ℕ × KeyMap V)} (some (i, g)) (some (k, g'))
      → (i ≡ k) × (g ≡ g')
  some_entry i k g g' e = ground arith

  if_quorum_of :
      (q i : ℕ) (g : KeyMap V) (k : ℕ) (vs : List V)
      → (if_quorum q (some (i, g)) ≡ some (k, vs))
        ↔ ((i ≡ k) × (vs ≡ KeyMap.values g) × (q ≤ length g))
  if_quorum_of q i g k vs = ground arith

  if_quorum_iff :
      (q : ℕ) (o : Option (ℕ × KeyMap V)) (k : ℕ) (vs : List V)
      → (if_quorum q o ≡ some (k, vs))
        ↔ ((g : KeyMap V) × (o ≡ some (k, g)) × (vs ≡ KeyMap.values g) × (q ≤ length g))
  if_quorum_iff q none k vs = ground arith
  if_quorum_iff q (some (i, g)) k vs =
      let (f, back) = if_quorum_of q i g k vs in
      (
        λ h. let (same, values, enough) = f h in (g, ap (λ n. some (n, g)) same, values, enough),
        λ (g', eq, values, enough).
            let (same, group) = some_entry i k g g' eq in
            back (
              same,
              values ∙ ap KeyMap.values (sym group),
              subst (λ x. q ≤ length x) (sym group) enough,
            ),
      )

  -- The last entry of an ordered map has the highest key.
  last-highest :
      (m : KeyMap V) (k : ℕ) (v : V)
      → IsSorted m
      → last m ≡ some (k, v)
      → (KeyMap.get k m ≡ some v) × All (λ (e : ℕ × V). e.0 ≤ k) m
  unfolding KeyMap.get
  last-highest [] k v s e = ground arith
  last-highest ((j, w) ∷ []) k v s e = ground arith
  last-highest ((j, w) ∷ (i, x) ∷ m) k v s e =
      let ih = last-highest ((i, x) ∷ m) k v s.1 e in
      let first : (j == k) ≡ false = (let le = ih.1.0 in let lt = s.0.0 in ground arith) in
      (rw first ih.0, ((let le = ih.1.0 in let lt = s.0.0 in omega arith), ih.1))

module _ {S N : Type 0} where
  -- An accepted response is kept under its slot and sender, beside those of the other senders, of
  -- which it replaces the sender's last one; the responses of the slot are handed out, all of them,
  -- exactly if senders enough for a quorum have answered.
  pub insert_and_check_accepted_lem :
      (accepted : Accepted) (sender : Node) (a : ProposerAgent S N)
      → let (r, a') = insert_and_check_accepted accepted sender a in
        ((i j : ℕ)
          → response i j a'.in_flight_accepted ≡ (
              if accepted.slot == i && sender.node_id == j
              then some accepted
              else response i j a.in_flight_accepted))
        × ((slot : Slot) (l : List Accepted)
            → (r ≡ some (slot, l)) ↔ (
                (slot ≡ accepted.slot)
                × (l ≡ KeyMap.values (group_at accepted.slot a'.in_flight_accepted))
                × (get_quorum_acceptors a ≤ length (group_at accepted.slot a'.in_flight_accepted))))
  unfolding insert_and_check_accepted
  insert_and_check_accepted_lem accepted sender a = (
    λ i j. response_inserted accepted.slot sender.node_id i j accepted a.in_flight_accepted,
    λ slot l.
        let g =
          KeyMap.insert sender.node_id accepted
            (or_empty (KeyMap.get accepted.slot a.in_flight_accepted)) in
        let (f, back) = if_quorum_of (get_quorum_acceptors a) accepted.slot g slot l in
        rw (get-inserted accepted.slot g a.in_flight_accepted) (
          λ h. let (same, values, enough) = f h in (sym same, values, enough),
          λ (same, values, enough). back (sym same, values, enough),
        ),
  )

  -- A promise is kept under its ballot and sender in the same way. If promises are handed out, they
  -- are all those of one ballot, no promise that the agent has kept is for a higher one, and senders
  -- enough for a quorum have sent them. (The agent's promises are in the order of their ballots.)
  pub insert_and_check_promises_lem :
      (promise : Promise) (sender : Node) (a : ProposerAgent S N)
      → IsSorted a.promises
      → let (r, a') = insert_and_check_promises promise sender a in
        IsSorted a'.promises
        × ((i j : ℕ)
            → response i j a'.promises ≡ (
                if promise.ballot == i && sender.node_id == j
                then some promise
                else response i j a.promises))
        × ((ballot : Ballot) (l : List Promise)
            → r ≡ some (ballot, l)
            → (l ≡ KeyMap.values (group_at ballot a'.promises))
              × (get_quorum_acceptors a ≤ length (group_at ballot a'.promises))
              × All (λ (e : ℕ × KeyMap Promise). e.0 ≤ ballot) a'.promises)
  unfolding insert_and_check_promises
  insert_and_check_promises_lem promise sender a sorted =
      let m = insert_response promise.ballot sender.node_id promise a.promises in
      let sorted' = insert-IsSorted promise.ballot _ a.promises sorted in
      (
        sorted',
        λ i j. response_inserted promise.ballot sender.node_id i j promise a.promises,
        λ ballot l e.
            let (g, found, values, enough) =
              (if_quorum_iff (get_quorum_acceptors a) (last m) ballot l).0 e in
            let (held, highest) = last-highest m ballot g sorted' found in
            rw held (values, enough, highest),
      )
