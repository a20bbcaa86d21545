-- ===== src/ProposerAgent/Sends.antt =====
-- The accepts that the agent of paxos-wasm/agents/proposer-agent/src/proposer-agent.rs sends.
use wasm_master.Common.{
  ℕ, zero, suc, true, not, Option, none, some, List, [], ◌∷◌, ◌++◌, ◌≡◌, refl, sym, ◌∙◌, ap, subst,
  ◌⊎◌, inl, inr, arith, if_no, if_both, All, has, Bool-cases,
}
use mathlib.Core.List.{append-nil, append_assoc}
use wasm_master.Types.{
  Slot, Ballot, Value, Node, Proposal, Accepted, AcceptResult, Promise, PrepareResult,
}
use wasm_master.Types.Messages.{MessagePayload}
use wasm_master.Network.{NetworkOps, Sending, SendsInOrder, message_from}
use wasm_master.Proposer.{Proposer, propose, create_proposal}
use wasm_master.Persistence.{Clock}
use wasm_master.ProposerAgent.{
  ProposerAgent, start_prepare_round, proposals_up_to, proposals_to_accept,
}
use wasm_master.ProposerAgent.Broadcast.{
  CollectedResponses, send_forget, send_learns, commit_accepted, answer_clients, broadcast_prepare,
  prepare_phase, prepare_collected, broadcast_accept, accept_phase, accept_collected,
  insert_promises, insert_accepts, go_on, accept_all,
}
use wasm_master.ProposerAgent.Broadcast
use wasm_master.ProposerAgent.Batches.{prepend-some, some_pair}

abbrev pub accept_payload : Proposal → MessagePayload
accept_payload p =
    MessagePayload.accept (record { slot = p.slot; ballot = p.ballot; value = p.value })

-- One message to the acceptors for each proposal.
abbrev pub accepts_of : List Node → Node → List Proposal → List Sending
accepts_of acceptors node [] = []
accepts_of acceptors node (p ∷ ps) =
    record { nodes = acceptors; message = message_from node (accept_payload p) }
    ∷ accepts_of acceptors node ps

-- What making a proposal does: it has the ballot of the proposer, which keeps its ballot.
pub record IsMadeBy {S : Type 0} (p : Proposer S) (r : Option Proposal × Proposer S) : Type 0 where
  pub made :
      (r.0 ≡ none) ⊎ ((prop : Proposal) × (r.0 ≡ some prop) × (prop.ballot ≡ p.current_ballot))
  pub ballot : r.1.current_ballot ≡ p.current_ballot

propose-IsMadeBy :
    {S : Type 0} (next : Option (Value × List Value × List Value)) (p : Proposer S)
    → IsMadeBy p (propose next p)
propose-IsMadeBy none p = record { made = inl refl; ballot = refl }
propose-IsMadeBy (some (v, vs, ws)) p = record { made = inr (_, refl, refl); ballot = refl }

create_proposal-IsMadeBy : {S : Type 0} (p : Proposer S) → IsMadeBy p (create_proposal p)
unfolding create_proposal
create_proposal-IsMadeBy p =
    if_both (IsMadeBy p) (not p.is_leader) (record { made = inl refl; ballot = refl })
      (propose-IsMadeBy _ p)

module _ {S N : Type 0} where
  -- What collecting a batch leaves as it is, and the ballot of the batch.
  pub record IsUnder (a : ProposerAgent S N) (ps : List Proposal) (b : ProposerAgent S N)
      : Type 0 where
    pub ballots : All (λ (p : Proposal). p.ballot ≡ a.proposer.current_ballot) ps
    pub rest : b ≡ record a { proposer = b.proposer }

  stopped :
      (a mid : ProposerAgent S N) (ps : List Proposal) (b : ProposerAgent S N)
      → mid ≡ record a { proposer = mid.proposer }
      → ◌≡◌ {A = Option (List Proposal × ProposerAgent S N)} (some ([], mid)) (some (ps, b))
      → IsUnder a ps b
  stopped a mid ps b kept e =
      let (l, end) = some_pair [] ps mid b e in
      record {
        ballots = subst (All (λ (p : Proposal). p.ballot ≡ a.proposer.current_ballot)) l tt;
        rest = subst (λ (x : ProposerAgent S N). x ≡ record a { proposer = x.proposer }) end kept;
      }

  pub up_to-IsUnder :
      (n : ℕ) (a : ProposerAgent S N) (ps : List Proposal) (b : ProposerAgent S N)
      → proposals_up_to n a ≡ some (ps, b)
      → IsUnder a ps b
  unfolding proposals_up_to
  up_to-IsUnder zero a ps b e = stopped a a ps b refl e
  up_to-IsUnder (suc n) a ps b e =
      let p = a.proposer in
      let mid : ProposerAgent S N = record a { proposer = (create_proposal p).1 } in
      let step = create_proposal-IsMadeBy p in
      elim step.made [
        | inl nothing ↦ stopped a mid ps b refl (rw (proposals_up_to, nothing) at e)
        | inr (prop, r, ballot) ↦ elim (Bool-cases (has prop.slot a.slot_crash_list)) [
          | inl crashes ↦ absurd (let h = rw (proposals_up_to, r, crashes) at e in ground arith)
          | inr allowed ↦
              let (ps', o, cons) =
                prepend-some prop (proposals_up_to n mid) ps b
                  (rw (proposals_up_to, r, allowed) at e) in
              let ih = up_to-IsUnder n mid ps' b o in
              record {
                ballots =
                    subst (All (λ (q : Proposal). q.ballot ≡ a.proposer.current_ballot)) (sym cons)
                      (
                        ballot,
                        subst (λ c. All (λ (q : Proposal). q.ballot ≡ c) ps') step.ballot
                            ih.ballots,
                      );
                rest = ih.rest;
              }
        ]
      ]

module _ {S N : Type 0} (net : NetworkOps N) where
  -- Where the agent is event-driven, an accept is sent and the responses that are there are kept.
  pub accept_event :
      (v : Value) (slot : Slot) (ballot : Ballot) (initial : List Accepted) (a : ProposerAgent S N)
      → a.config.is_event_driven ≡ true
      → accept_phase net v slot ballot initial a ≡ (
        AcceptResult.is_event_driven,
        insert_accepts initial (
            send_forget net a.acceptors
              (MessagePayload.accept (record { slot = slot; ballot = ballot; value = v }))
              a),
      )
  unfolding accept_phase broadcast_accept
  accept_event v slot ballot initial a e =
      ap (accept_collected net slot initial) (if_no (not a.config.is_event_driven) _ _ (ap not e))

  -- The same of a prepare, which also starts the time of the round.
  pub prepare_event :
      (clock : Clock) (slot : Slot) (ballot : Ballot) (initial : List Promise)
      (a : ProposerAgent S N)
      → a.config.is_event_driven ≡ true
      → prepare_phase net clock slot ballot initial a ≡ (
        PrepareResult.is_event_driven,
        insert_promises initial (
            start_prepare_round clock (
              send_forget net a.acceptors
                (MessagePayload.prepare (record { slot = slot; ballot = ballot }))
                a)),
      )
  unfolding prepare_phase broadcast_prepare
  prepare_event clock slot ballot initial a e =
      ap (prepare_collected net clock slot initial)
        (if_no (not a.config.is_event_driven) _ _ (ap not e))

module _ {S N : Type 0} (net : NetworkOps N) (sends : SendsInOrder net) where
  -- Every proposal is sent to the acceptors in an accept, in the order of the proposals, and nothing
  -- else of the agent changes.
  accept_all_lem :
      (ps : List Proposal) (a : ProposerAgent S N)
      → a.config.is_event_driven ≡ true
      → (n : N) × (accept_all net ps a ≡ some (record a { network = n }))
        × (sends.sent n ≡ sends.sent a.network ++ accepts_of a.acceptors a.node ps)
  unfolding accept_all insert_accepts
  accept_all_lem [] a e = (a.network, refl, sym (append-nil (sends.sent a.network)))
  accept_all_lem (p ∷ ps) a e =
      let b = send_forget net a.acceptors (accept_payload p) a in
      let (n, all_sent, l) = accept_all_lem ps b e in
      (
        n,
        ap (λ r. elim (go_on net r) [ none ↦ none | some c ↦ accept_all net ps c ])
              (accept_event net p.value p.slot p.ballot [] a e)
            ∙ all_sent,
        l
            ∙ ap (λ k. k ++ accepts_of a.acceptors a.node ps)
                (sends.forgotten a.acceptors _ a.network)
            ∙ append_assoc (sends.sent a.network) _ (accepts_of a.acceptors a.node ps),
      )

  -- Where the agent is event-driven, the batch of its next proposals is sent to the acceptors, an
  -- accept for each proposal in order, before anything else is done. (No slot of the batch is on the
  -- crash list.)
  pub accept_commit_lem :
      (a b : ProposerAgent S N) (ps : List Proposal)
      → a.config.is_event_driven ≡ true
      → proposals_to_accept a ≡ some (ps, b)
      → (n : N) × (Broadcast.accept_commit net a
          ≡ some (answer_clients net (send_learns net (record b { network = n }))))
        × (sends.sent n ≡ sends.sent a.network ++ accepts_of a.acceptors a.node ps)
  unfolding Broadcast.accept_commit
  accept_commit_lem a b ps e batch =
      let under = up_to-IsUnder a.config.batch_size a ps b batch in
      let event = ap (λ (x : ProposerAgent S N). x.config.is_event_driven) under.rest ∙ e in
      let (n, run, all_sent) = accept_all_lem ps b event in
      (
        n,
        ap (λ o. elim o [ none ↦ none | some (qs, c) ↦ commit_accepted net (accept_all net qs c) ])
              batch
            ∙ ap (commit_accepted net) run,
        all_sent
            ∙ ap
                (λ (x : ProposerAgent S N).
                  sends.sent x.network ++ accepts_of x.acceptors x.node ps)
                under.rest,
      )
