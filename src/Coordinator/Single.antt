-- ===== src/Coordinator/Single.antt =====
-- One proposal in `accept_phase` of paxos-wasm/runners/paxos-coordinator/src/coordinator.rs: what the
-- node's own acceptor and its proposer agent do with it.
use wasm_master.Common.{
  Bool, true, false, Option, none, some, [], ◌∷◌, ◌≡◌, refl, sym, ◌∙◌, ap, subst, arith, if_both,
  some_inj, none_some,
}
use wasm_master.Types.{Slot, Value, Node, Proposal, Accepted, AcceptedResult, Learn}
use wasm_master.Persistence.{StorageOps, Clock}
use wasm_master.Network.{NetworkOps, SendsInOrder}
use wasm_master.Acceptor
use wasm_master.Acceptor.{Acceptor}
use wasm_master.Acceptor.Agreement.{holds, IsVolatile, step-IsVolatile, step-holds}
use wasm_master.Acceptor.Calls.{Request, step}
use wasm_master.AcceptorAgent
use wasm_master.AcceptorAgent.{AcceptorAgent}
use wasm_master.AcceptorAgent.Learns.{accept-holds}
use wasm_master.ProposerAgent.{ProposerAgent, insert_and_check_accepted}
use wasm_master.ProposerAgent.Broadcast.{insert_accepts, send_forget}
use wasm_master.ProposerAgent.Sends.{accept_event, accept_payload}
use wasm_master.Coordinator.{Combined, Encodings}
use wasm_master.Coordinator.Ticks.{
  accept_one, accept_with, commit_own, committed, event_driven_only,
}

module _ {S N : Type 0} (ops : StorageOps S) (net : NetworkOps N) (enc : Encodings)
    (clock : Clock) where
  -- The acceptor after the node has asked it to accept the proposal.
  abbrev pub accept_of : Proposal → Acceptor S → AcceptedResult × Acceptor S
  accept_of p a = Acceptor.accept ops enc.acceptor_codecs clock p.slot p.ballot p.value a

  -- One proposal of the batch: the local acceptor has accepted it, the accept is sent, and the rest
  -- of the proposer agent stays but for the responses that it keeps.
  pub record IsAccepted (p : Proposal) (c d : Combined S N) : Type 0 where
    pub granted :
        (acc : Accepted) × ((accept_of p c.acceptor.acceptor).0 ≡ AcceptedResult.accepted acc)
    pub acceptor : d.acceptor.acceptor ≡ (accept_of p c.acceptor.acceptor).1
    pub proposer :
        d.proposer ≡ record (send_forget net c.proposer.acceptors (accept_payload p) c.proposer) {
          in_flight_accepted = d.proposer.in_flight_accepted;
        }

  -- What `commit_own` leaves as it is.
  abbrev Same : Combined S N → Combined S N → Type 0
  Same c d = (d.proposer ≡ c.proposer) × (d.acceptor.acceptor ≡ c.acceptor.acceptor)

  abbrev KeptBy : Combined S N → Option (Option Learn × AcceptorAgent S N) → Type 0
  KeptBy c none = Unit
  KeptBy c (some r) = r.1.acceptor ≡ c.acceptor.acceptor

  committed-Same :
      (node : Node) (o : Option (Option Learn × AcceptorAgent S N)) (c d : Combined S N)
      → KeptBy c o
      → committed ops net enc clock node o c ≡ some d
      → Same c d
  committed-Same node none c d h e = ground arith
  committed-Same node (some (none, a)) c d h e = subst (Same c) (some_inj _ d e) (refl, h)
  committed-Same node (some (some l, a)) c d h e = subst (Same c) (some_inj _ d e) (refl, h)

  commit_phase-KeptBy :
      (slot : Slot) (v : Value) (c : Combined S N)
      → KeptBy c (AcceptorAgent.commit_phase ops net enc.acceptor_codecs slot v c.acceptor)
  unfolding AcceptorAgent.commit_phase
  commit_phase-KeptBy slot v c = if_both (KeptBy c) c.acceptor.config.acceptors_send_learns refl tt

  commit_own-Same :
      (send_learns : Bool) (node : Node) (p : Proposal) (c d : Combined S N)
      → commit_own ops net enc clock send_learns node p c ≡ some d
      → Same c d
  commit_own-Same true node p c d e =
      committed-Same node _ c d (commit_phase-KeptBy p.slot p.value c) e
  commit_own-Same false node p c d e = subst (Same c) (some_inj c d e) (refl, refl)

  accept_with-IsAccepted :
      (send_learns : Bool) (node : Node) (p : Proposal) (c d : Combined S N)
      (r : AcceptedResult × AcceptorAgent S N)
      → c.proposer.config.is_event_driven ≡ true
      → r.0 ≡ (accept_of p c.acceptor.acceptor).0
      → r.1.acceptor ≡ (accept_of p c.acceptor.acceptor).1
      → accept_with ops net enc clock send_learns node p r c ≡ some d
      → IsAccepted p c d
  unfolding insert_accepts insert_and_check_accepted
  accept_with-IsAccepted send_learns node p c d (AcceptedResult.rejected b, a) event same held e =
      absurd (none_some d e)
  accept_with-IsAccepted send_learns node p c d (AcceptedResult.accepted acc, a) event same held e =
      let sent = accept_event net p.value p.slot p.ballot (acc ∷ []) c.proposer event in
      let q =
        insert_accepts (acc ∷ [])
          (send_forget net c.proposer.acceptors (accept_payload p) c.proposer) in
      let (proposer, acceptor) =
        commit_own-Same send_learns node p (record c { proposer = q; acceptor = a }) d
          (sym (
              ap
                (λ r. event_driven_only ops net enc clock r.0 (
                  commit_own ops net enc clock send_learns node p
                    (record c { proposer = r.1; acceptor = a })))
                sent)
            ∙ e) in
      let rest =
        subst
          (λ (x : ProposerAgent S N).
            x ≡ record (send_forget net c.proposer.acceptors (accept_payload p) c.proposer) {
              in_flight_accepted = x.in_flight_accepted;
            })
          (sym proposer) refl in
      record { granted = (acc, sym same); acceptor = acceptor ∙ held; proposer = rest }

  pub accept_one-IsAccepted :
      (send_learns : Bool) (node : Node) (p : Proposal) (c d : Combined S N)
      → c.proposer.config.is_event_driven ≡ true
      → accept_one ops net enc clock send_learns node p c ≡ some d
      → IsAccepted p c d
  unfolding accept_one
  accept_one-IsAccepted send_learns node p c d event e =
      accept_with-IsAccepted send_learns node p c d _ event refl refl e

  pub accept_of-IsVolatile :
      (p : Proposal) (a : Acceptor S) → IsVolatile a → IsVolatile (accept_of p a).1
  unfolding step
  accept_of-IsVolatile p a off =
      step-IsVolatile ops enc.acceptor_codecs (clock, Request.accept p.slot p.ballot p.value) a off

  pub accept_of-kept :
      (p : Proposal) (slot : Slot) (v : Value) (a : Acceptor S)
      → IsVolatile a
      → holds slot v a ≡ true
      → holds slot v (accept_of p a).1 ≡ true
  unfolding step
  accept_of-kept p slot v a off h =
      step-holds ops enc.acceptor_codecs (clock, Request.accept p.slot p.ballot p.value) slot v a
        off h

  accept_of-slot :
      (p : Proposal) (acc : Accepted) (a : Acceptor S)
      → (accept_of p a).0 ≡ AcceptedResult.accepted acc
      → acc.slot ≡ p.slot
  unfolding Acceptor.accept
  accept_of-slot p acc a e = ground arith

  pub accept_of-holds :
      (sends : SendsInOrder net) (p : Proposal) (acc : Accepted) (a : Acceptor S)
      → IsVolatile a
      → (accept_of p a).0 ≡ AcceptedResult.accepted acc
      → holds p.slot p.value (accept_of p a).1 ≡ true
  accept_of-holds sends p acc a off e =
      subst (λ s. holds s p.value (accept_of p a).1 ≡ true) (accept_of-slot p acc a e)
        (accept-holds ops net enc.acceptor_codecs sends clock p.slot p.ballot p.value a acc off e)
