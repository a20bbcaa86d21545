-- ===== src/Coordinator/Accepting.antt =====
-- `accept_phase` of paxos-wasm/runners/paxos-coordinator/src/coordinator.rs: what a node that leads
-- has accepted itself when it asks the others to accept it.
use wasm_master.Common.{
  Bool, true, Option, none, some, List, [], ◌∷◌, ◌++◌, ◌≡◌, sym, ◌∙◌, ap, subst, All, Option-cases,
  inl, inr, some_inj, none_some, map-some,
}
use mathlib.Core.List.{append-nil, append_assoc}
use wasm_master.Types.{Slot, Value, Node, Proposal, AcceptResult}
use wasm_master.Persistence.{StorageOps, Clock}
use wasm_master.Network.{NetworkOps, SendsInOrder}
use wasm_master.Acceptor.Agreement.{holds, IsVolatile}
use wasm_master.ProposerAgent.{ProposerAgent, proposals_to_accept}
use wasm_master.ProposerAgent.Sends.{accepts_of, up_to-IsUnder}
use wasm_master.ProposerAgent.Batches.{some_pair}
use wasm_master.Coordinator.{Combined, Encodings}
use wasm_master.Coordinator.Single.{
  accept_one-IsAccepted, accept_of-IsVolatile, accept_of-kept, accept_of-holds,
}
use wasm_master.Coordinator.Ticks.{accept_one, accept_loop, accept_batch, accept_phase}

module _ {S N : Type 0} (ops : StorageOps S) (net : NetworkOps N) (enc : Encodings)
    (clock : Clock) where
  -- The local acceptor has accepted the value of the proposal for its slot.
  abbrev pub Holds : Combined S N → Proposal → Type 0
  Holds c p = holds p.slot p.value c.acceptor.acceptor ≡ true

  -- A batch that was accepted by the node itself, and is sent to the other acceptors.
  record IsBatchAccepted (sends : SendsInOrder net) (ps : List Proposal) (c d : Combined S N)
      : Type 0 where
    volatile : IsVolatile d.acceptor.acceptor
    kept :
        (slot : Slot) (v : Value)
        → holds slot v c.acceptor.acceptor ≡ true
        → holds slot v d.acceptor.acceptor ≡ true
    held : All (Holds d) ps
    sent :
        sends.sent d.proposer.network
        ≡ sends.sent c.proposer.network ++ accepts_of c.proposer.acceptors c.proposer.node ps

  accept_loop-IsBatchAccepted :
      (sends : SendsInOrder net) (send_learns : Bool) (node : Node) (ps : List Proposal)
      (c d : Combined S N)
      → c.proposer.config.is_event_driven ≡ true
      → IsVolatile c.acceptor.acceptor
      → accept_loop ops net enc clock send_learns node ps c ≡ some d
      → IsBatchAccepted sends ps c d
  unfolding accept_loop
  accept_loop-IsBatchAccepted sends send_learns node [] c d event off e =
      subst (IsBatchAccepted sends [] c) (some_inj c d e) (record {
        volatile = off;
        kept = λ slot v h. h;
        held = tt;
        sent = sym (append-nil (sends.sent c.proposer.network));
      })
  accept_loop-IsBatchAccepted sends send_learns node (p ∷ ps) c d event off e =
      let go : Option (Combined S N) → Option (Combined S N) = λ o. elim o [
        | none ↦ none
        | some b ↦ accept_loop ops net enc clock send_learns node ps b
      ] in
      elim (Option-cases (accept_one ops net enc clock send_learns node p c)) [
        | inl stops ↦ absurd (none_some d (sym (ap go stops) ∙ e))
        | inr (b, one) ↦
            let first = accept_one-IsAccepted ops net enc clock send_learns node p c b event one in
            let event' =
              ap (λ (q : ProposerAgent S N). q.config.is_event_driven) first.proposer ∙ event in
            let off' =
              subst (IsVolatile {S = S}) (sym first.acceptor)
                (accept_of-IsVolatile ops net enc clock p _ off) in
            let rest =
              accept_loop-IsBatchAccepted sends send_learns node ps b d event' off'
                (sym (ap go one) ∙ e) in
            record {
              volatile = rest.volatile;
              kept = λ slot v h. rest.kept slot v (
                  subst (λ x. holds slot v x ≡ true) (sym first.acceptor)
                    (accept_of-kept ops net enc clock p slot v _ off h));
              held = (
                rest.kept p.slot p.value (
                    subst (λ x. holds p.slot p.value x ≡ true) (sym first.acceptor)
                      (accept_of-holds ops net enc clock sends p first.granted.0 _ off
                        first.granted.1)),
                rest.held,
              );
              sent =
                  rest.sent
                  ∙ ap
                      (λ (q : ProposerAgent S N).
                        sends.sent q.network ++ accepts_of q.acceptors q.node ps)
                      first.proposer
                  ∙ ap (λ k. k ++ accepts_of c.proposer.acceptors c.proposer.node ps)
                      (sends.forgotten c.proposer.acceptors _ c.proposer.network)
                  ∙ append_assoc (sends.sent c.proposer.network) _ _;
            }
      ]

  batch-IsBatchAccepted :
      (sends : SendsInOrder net) (send_learns : Bool) (node : Node) (ps : List Proposal)
      (c d : Combined S N) (r : AcceptResult)
      → c.proposer.config.is_event_driven ≡ true
      → IsVolatile c.acceptor.acceptor
      → accept_batch ops net enc clock send_learns node ps c ≡ some (r, d)
      → IsBatchAccepted sends ps c d
  unfolding accept_loop
  batch-IsBatchAccepted sends send_learns node [] c d r event off e =
      accept_loop-IsBatchAccepted sends send_learns node [] c d event off
        (ap some (some_pair AcceptResult.missing_proposal r c d e).1)
  batch-IsBatchAccepted sends send_learns node (p ∷ ps) c d r event off e =
      accept_loop-IsBatchAccepted sends send_learns node (p ∷ ps) c d event off
        (let (x, o, pair) = map-some _ _ (r, d) e in o ∙ ap some (ap (λ y. y.1) pair))

  -- An event-driven node that leads has itself accepted each proposal of its batch when its accept
  -- phase ends, and it has sent the other acceptors one accept for each, in order. (Persistence is
  -- off, no slot of the batch is on the crash list, and the phase ends: the node stops where its own
  -- acceptor rejects a proposal.)
  pub accept_phase-Holds :
      (sends : SendsInOrder net) (send_learns : Bool) (node : Node) (c d : Combined S N)
      (r : AcceptResult) (ps : List Proposal) (q : ProposerAgent S N)
      → c.proposer.config.is_event_driven ≡ true
      → IsVolatile c.acceptor.acceptor
      → proposals_to_accept c.proposer ≡ some (ps, q)
      → accept_phase ops net enc clock send_learns node c ≡ some (r, d)
      → All (Holds d) ps
        × (sends.sent d.proposer.network
            ≡ sends.sent c.proposer.network ++ accepts_of c.proposer.acceptors c.proposer.node ps)
  unfolding accept_phase
  accept_phase-Holds sends send_learns node c d r ps q event off batch e =
      let under = up_to-IsUnder c.proposer.config.batch_size c.proposer ps q batch in
      let run =
        sym (
          ap
            (λ o. elim o [
              | none ↦ none
              | some (l, x) ↦
                  accept_batch ops net enc clock send_learns node l (record c { proposer = x })
            ])
            batch)
        ∙ e in
      let event' = ap (λ (x : ProposerAgent S N). x.config.is_event_driven) under.rest ∙ event in
      let done =
        batch-IsBatchAccepted sends send_learns node ps (record c { proposer = q }) d r event' off
          run in
      (
        done.held,
        done.sent
            ∙ ap
                (λ (x : ProposerAgent S N).
                  sends.sent x.network ++ accepts_of x.acceptors x.node ps)
                under.rest,
      )
