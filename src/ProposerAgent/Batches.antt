-- ===== src/ProposerAgent/Batches.antt =====
-- The batches of paxos-wasm/agents/proposer-agent/src/proposer-agent.rs: proposals, and answers to
-- the clients.
use wasm_master.Common.{
  ℕ, zero, suc, ◌+◌, ◌≤◌, ◌<◌, u64_size, false, Option, none, some, List, [], ◌∷◌, ◌++◌, map, ◌≡◌,
  refl, sym, ap, ◌∙◌, subst, ◌⊎◌, inl, inr, arith, Bool-cases, All, length, has,
}
use wasm_master.Common.KeyMap
use wasm_master.Common.KeyMap.{KeyMap}
use wasm_master.Types.{Slot, Value, Proposal, ClientResponse}
use wasm_master.Proposer.{Proposer, create_proposal}
use wasm_master.Proposer.Proposals.{create_proposal_lem}
use wasm_master.ProposerAgent.{
  ProposerAgent, prepend, proposals_up_to, proposals_to_accept, pop_up_to, collect_client_responses,
}

-- The proposals are for the slots from `s` on.
abbrev pub SlotsFrom : Slot → List Proposal → Type 0
SlotsFrom s [] = Unit
SlotsFrom s (p ∷ ps) = (p.slot ≡ s) × SlotsFrom (s + 1) ps

abbrev pub value_of : Proposal → Value
value_of p = p.value

abbrev pub queued : {S : Type 0} → Proposer S → List Value
queued p = p.prioritized_values ++ p.pending_client_requests

pub prepend-some :
    {A : Type 0} (prop : Proposal) (o : Option (List Proposal × A)) (ps : List Proposal) (a : A)
    → prepend prop o ≡ some (ps, a)
    → (rest : List Proposal) × (o ≡ some (rest, a)) × (ps ≡ prop ∷ rest)
prepend-some prop none ps a e = ground arith
prepend-some prop (some (rest, b)) ps a e = (rest, ground arith, ground arith)

-- What a batch of at most `n` proposals is, from `a` to `a'`.
pub record IsBatch {S N : Type 0} (n : ℕ) (a : ProposerAgent S N) (ps : List Proposal)
    (a' : ProposerAgent S N) : Type 0 where
  pub bound : length ps ≤ n
  pub slots : SlotsFrom (a.proposer.current_slot + 1) ps
  pub next : a'.proposer.current_slot ≡ a.proposer.current_slot + length ps
  pub values : queued a.proposer ≡ map value_of ps ++ queued a'.proposer
  pub allowed : All (λ (p : Proposal). has p.slot a.slot_crash_list ≡ false) ps

pop_lem :
    (n : ℕ) (queue : KeyMap ClientResponse)
    → let (out, rest) = pop_up_to n queue in
      (KeyMap.values queue ≡ out ++ KeyMap.values rest)
      × (length out ≤ n)
      × ((length out ≡ n) ⊎ (rest ≡ []))
unfolding pop_up_to
pop_lem zero queue = (refl, omega arith, inl refl)
pop_lem (suc n) [] = (refl, omega arith, inr refl)
pop_lem (suc n) ((slot, resp) ∷ queue) =
    let (v, b, f) = pop_lem n queue in (ap (λ l. resp ∷ l) v, omega arith, ground arith)

pub some_pair :
    {A B : Type 0} (x x' : A) (y y' : B)
    → ◌≡◌ {A = Option (A × B)} (some (x, y)) (some (x', y'))
    → (x ≡ x') × (y ≡ y')
some_pair x x' y y' e = ground arith

module _ {S N : Type 0} where
  empty-IsBatch :
      (n : ℕ) (a b : ProposerAgent S N) (ps : List Proposal) (a' : ProposerAgent S N)
      → b ≡ a
      → ◌≡◌ {A = Option (List Proposal × ProposerAgent S N)} (some ([], b)) (some (ps, a'))
      → IsBatch n a ps a'
  empty-IsBatch n a b ps a' same e =
      let (none_made, end) = some_pair [] ps b a' e in
      subst (λ l. IsBatch n a l a') none_made
        (subst (IsBatch n a []) (sym same ∙ end) (record {
          bound = omega arith;
          slots = tt;
          next = omega arith;
          values = refl;
          allowed = tt;
        }))

  -- A proposal in front of a batch.
  more-IsBatch :
      (n : ℕ) (a mid : ProposerAgent S N) (prop : Proposal) (rest : List Proposal)
      (a' : ProposerAgent S N)
      → IsBatch n mid rest a'
      → mid.slot_crash_list ≡ a.slot_crash_list
      → mid.proposer.current_slot ≡ a.proposer.current_slot + 1
      → prop.slot ≡ a.proposer.current_slot + 1
      → queued a.proposer ≡ prop.value ∷ queued mid.proposer
      → has prop.slot a.slot_crash_list ≡ false
      → IsBatch (suc n) a (prop ∷ rest) a'
  more-IsBatch n a mid prop rest a' ih list next slot values allowed = record {
    bound = let h = ih.bound in omega arith;
    slots = (slot, subst (λ s. SlotsFrom (s + 1) rest) next ih.slots);
    next = let h = ih.next in omega arith;
    values = values ∙ ap (λ l. prop.value ∷ l) ih.values;
    allowed =
        (allowed, subst (λ l. All (λ (p : Proposal). has p.slot l ≡ false) rest) list ih.allowed);
  }

  up_to-IsBatch :
      (n : ℕ) (a : ProposerAgent S N) (ps : List Proposal) (a' : ProposerAgent S N)
      → a.proposer.current_slot + n + 1 < u64_size
      → proposals_up_to n a ≡ some (ps, a')
      → IsBatch n a ps a'
  unfolding proposals_up_to
  up_to-IsBatch zero a ps a' small e = empty-IsBatch 0 a a ps a' refl e
  up_to-IsBatch (suc n) a ps a' small e =
      let mid : ProposerAgent S N = record a { proposer = (create_proposal a.proposer).1 } in
      elim (create_proposal_lem a.proposer (omega arith)) [
        | inl (why, r, same) ↦
            empty-IsBatch (suc n) a mid ps a' (ap (λ p. record a { proposer = p }) same)
              (rw (proposals_up_to, r) at e)
        | inr (prop, lead, r, values, ballot, slot, next, others) ↦
            elim (Bool-cases (has prop.slot a.slot_crash_list)) [
              | inl crashes ↦ absurd (let h = rw (proposals_up_to, r, crashes) at e in ground arith)
              | inr allowed ↦
                  let (rest, o, cons) =
                    prepend-some prop (proposals_up_to n mid) ps a'
                      (rw (proposals_up_to, r, allowed) at e) in
                  let ih = up_to-IsBatch n mid rest a' (omega arith) o in
                  subst (λ l. IsBatch (suc n) a l a') (sym cons)
                    (more-IsBatch n a mid prop rest a' ih refl (next ∙ slot) slot values allowed)
            ]
      ]

  -- A batch that does not meet a slot of the crash list holds at most `batch_size` proposals, for
  -- the slots that follow the last one, without a gap; they are the values at the front of the
  -- queues, in their order. (No slot of the batch reaches the end of the range.)
  pub proposals_to_accept-IsBatch :
      (a : ProposerAgent S N) (ps : List Proposal) (a' : ProposerAgent S N)
      → a.proposer.current_slot + a.config.batch_size + 1 < u64_size
      → proposals_to_accept a ≡ some (ps, a')
      → IsBatch a.config.batch_size a ps a'
  proposals_to_accept-IsBatch a ps a' small e = up_to-IsBatch a.config.batch_size a ps a' small e

  -- The answers to the clients come out in the order of their slots, at most `batch_size` at once,
  -- and fewer only if none is left; the others stay.
  pub collect_client_responses_lem :
      (a : ProposerAgent S N)
      → let (out, a') = collect_client_responses a in
        (KeyMap.values a.client_responses ≡ out ++ KeyMap.values a'.client_responses)
        × (length out ≤ a.config.batch_size)
        × ((length out ≡ a.config.batch_size) ⊎ (a'.client_responses ≡ []))
  unfolding collect_client_responses
  collect_client_responses_lem a = pop_lem a.config.batch_size a.client_responses
