-- ===== src/Coordinator/Failover.antt =====
-- Who leads after `failure_service` of paxos-wasm/runners/paxos-coordinator/src/coordinator.rs.
use wasm_master.Common.{
  ℕ, Bool, true, false, not, Option, none, some, ◌≡◌, refl, sym, ◌∙◌, ap, subst, arith, Bool-cases,
  inl, inr, ◌==◌, ◌&&◌, ◌≢◌, if_no, if_yes, if_cases, some_inj, none_some, map-some,
}
use mathlib.Core.Option
use wasm_master.Persistence.{StorageOps, Clock}
use wasm_master.Network.{NetworkOps, may_propose}
use wasm_master.Proposer
use wasm_master.Proposer.{Proposer, as_leader}
use wasm_master.ProposerAgent.{ProposerAgent}
use wasm_master.ProposerAgent.Handlers
use wasm_master.ProposerAgent.Batches.{some_pair}
use wasm_master.FailureDetector
use wasm_master.Coordinator.{
  Agents, Coordinator, Encodings, proposer_of, with_proposer, leads, is_leader,
}
use wasm_master.Coordinator.Leading.{lead_or_resign, follow_leader, notified, failure_service}

module _ {S N : Type 0} (ops : StorageOps S) (net : NetworkOps N) (enc : Encodings)
    (clock : Clock) where
  as_leader-leads :
      (o : Option (Proposer S)) (r : Bool) (q : Proposer S)
      → as_leader ops enc.proposer_codec clock o ≡ some (r, q)
      → q.is_leader ≡ true
  as_leader-leads none r q e = ground arith
  as_leader-leads (some p) r q e = ground arith

  become_leader-leads :
      (p q : Proposer S) (r : Bool)
      → p.is_leader ≡ false
      → Proposer.become_leader ops enc.proposer_codec clock p ≡ some (r, q)
      → q.is_leader ≡ true
  unfolding Proposer.become_leader
  become_leader-leads p q r follows e = as_leader-leads _ r q (rw follows at e)

  agent_becomes :
      (o : Option (Bool × Proposer S)) (p q : ProposerAgent S N)
      → Option.map
          (λ (r : Bool × ProposerAgent S N). r.1)
          (elim o [ none ↦ none | some (r, x) ↦ some (r, record p { proposer = x }) ])
        ≡ some q
      → (r : Bool) × (x : Proposer S) × (o ≡ some (r, x)) × (q.proposer ≡ x)
  agent_becomes none p q e = absurd (none_some q e)
  agent_becomes (some (r, x)) p q e = (
    r,
    x,
    refl,
    sym (ap (λ (y : ProposerAgent S N). y.proposer) (some_inj (record p { proposer = x }) q e)),
  )

  become-leads :
      (p q : ProposerAgent S N)
      → p.proposer.is_leader ≡ false
      → Option.map (λ r. r.1) (Handlers.become_leader ops net enc.proposer_codec clock p) ≡ some q
      → Handlers.is_leader q ≡ true
  unfolding Handlers.become_leader
  become-leads p q follows e =
      let (r, x, o, same) = agent_becomes _ p q e in
      ap (λ (y : Proposer S). y.is_leader) same ∙ become_leader-leads p.proposer x r follows o

  resign-leads : (p : ProposerAgent S N) → Handlers.is_leader (Handlers.resign_leader p).1 ≡ false
  unfolding Handlers.resign_leader Proposer.resign_leader
  resign-leads p =
      if_cases (λ (r : Bool × Proposer S). r.1.is_leader ≡ false) p.proposer.is_leader (λ e. refl)
        (λ e. e)

  lead_or_resign-leads :
      (named : Bool) (p q : ProposerAgent S N)
      → lead_or_resign ops net enc clock named p ≡ some q
      → Handlers.is_leader q ≡ named
  lead_or_resign-leads true p q e = elim (Bool-cases p.proposer.is_leader) [
    | inl lead ↦
        subst (λ (x : ProposerAgent S N). x.proposer.is_leader ≡ true)
          (some_inj p q (sym (if_no (not p.proposer.is_leader) _ _ (ap not lead)) ∙ e)) lead
    | inr follow ↦
        become-leads p q follow (sym (if_yes (not p.proposer.is_leader) _ _ (ap not follow)) ∙ e)
  ]
  lead_or_resign-leads false p q e = elim (Bool-cases p.proposer.is_leader) [
    | inl lead ↦
        subst (λ (x : ProposerAgent S N). x.proposer.is_leader ≡ false)
          (some_inj (Handlers.resign_leader p).1 q (sym (if_yes p.proposer.is_leader _ _ lead) ∙ e))
          (resign-leads p)
    | inr follow ↦
        subst (λ (x : ProposerAgent S N). x.proposer.is_leader ≡ false)
          (some_inj p q (sym (if_no p.proposer.is_leader _ _ follow) ∙ e)) follow
  ]

  proposer_of-with_proposer :
      (p q : ProposerAgent S N) (agents : Agents S N)
      → proposer_of agents ≡ some p
      → proposer_of (with_proposer q agents) ≡ some q
  proposer_of-with_proposer p q (Agents.only_proposer x) e = refl
  proposer_of-with_proposer p q (Agents.only_acceptor a) e = ground arith
  proposer_of-with_proposer p q (Agents.only_learner l) e = ground arith
  proposer_of-with_proposer p q (Agents.combined c) e = refl

  followed :
      (o : Option (ProposerAgent S N)) (leader_id : ℕ) (c d : Coordinator S N)
      → o ≡ proposer_of c.agents
      → ◌≡◌ {A = Option (Coordinator S N)}
          (elim o [
            | none ↦ none
            | some p ↦
                Option.map
                  (λ q. record c { agents = with_proposer q c.agents })
                  (lead_or_resign ops net enc clock (leader_id == c.node.node_id) p)
          ])
          (some d)
      → (p q : ProposerAgent S N) × (proposer_of c.agents ≡ some p)
        × (lead_or_resign ops net enc clock (leader_id == c.node.node_id) p ≡ some q)
        × (d ≡ record c { agents = with_proposer q c.agents })
  followed none leader_id c d same e = ground arith
  followed (some p) leader_id c d same e =
      let (q, o, end) = map-some _ _ d e in (p, q, sym same, o, sym end)

  notified_lem :
      (o : Option ℕ) (leader_id : ℕ) (c d : Coordinator S N)
      → may_propose c.node.role ≡ true
      → notified ops net enc clock o c ≡ some (some leader_id, d)
      → follow_leader ops net enc clock leader_id c ≡ some d
  notified_lem none leader_id c d role e =
      absurd (none_some leader_id (some_pair none (some leader_id) c d e).0)
  notified_lem (some l) leader_id c d role e =
      let (x, follows, pair) =
        map-some (λ x. (some l, x)) _ _ (sym (if_yes (may_propose c.node.role) _ _ role) ∙ e) in
      let same = some_inj l leader_id (ap (λ r. r.0) pair) in
      subst (λ k. follow_leader ops net enc clock k c ≡ some d) same
        (follows ∙ ap (λ r. some r.1) pair)

  -- Once the failure detector has named a new leader, a node with a proposer leads exactly if it is
  -- the one that is named.
  pub failure_service-is_leader :
      (c d : Coordinator S N) (leader_id : ℕ)
      → may_propose c.node.role ≡ true
      → failure_service ops net enc clock c ≡ some (some leader_id, d)
      → is_leader d ≡ (leader_id == c.node.node_id)
  unfolding failure_service
  failure_service-is_leader c d leader_id role e =
      let found = FailureDetector.checker c.failure_detector in
      let c' : Coordinator S N = record c { failure_detector = found.1 } in
      let (p, q, held, follows, end) =
        followed (proposer_of c.agents) leader_id c' d refl
          (notified_lem found.0 leader_id c' d role e) in
      ap (λ (x : Coordinator S N). is_leader x) end
      ∙ ap leads (proposer_of-with_proposer p q c.agents held)
      ∙ lead_or_resign-leads _ p q follows

  -- Of two nodes with proposers to which the same new leader is named, and whose ids differ, at most
  -- one leads.
  pub one_leader :
      (c c' d d' : Coordinator S N) (leader_id : ℕ)
      → may_propose c.node.role ≡ true
      → may_propose d.node.role ≡ true
      → c.node.node_id ≢ d.node.node_id
      → failure_service ops net enc clock c ≡ some (some leader_id, c')
      → failure_service ops net enc clock d ≡ some (some leader_id, d')
      → (is_leader c' && is_leader d') ≡ false
  one_leader c c' d d' leader_id role role' differ e e' =
      let h = failure_service-is_leader c c' leader_id role e in
      let h' = failure_service-is_leader d d' leader_id role' e' in ground arith
