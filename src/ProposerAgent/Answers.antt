-- ===== src/ProposerAgent/Answers.antt =====
-- The answers to the clients of paxos-wasm/agents/proposer-agent/src/proposer-agent.rs: what a report
-- of executed slots changes, and that it changes nothing when it comes again.
use wasm_master.Common.{
  ◌≤◌, Bool, true, false, not, Option, none, some, List, [], ◌∷◌, ◌≡◌, refl, sym, ap, ◌∙◌, subst,
  ◌⊎◌, inl, inr, arith, ltb, if◌then◌else◌, Bool-cases, Option-cases, All,
}
use wasm_master.Common.Fallible.{Result, ok, err}
use wasm_master.Common.KeyMap
use wasm_master.Common.KeyMap.{KeyMap}
use wasm_master.Types.{
  Slot, Value, CmdResult, ExecuteResult, Executed, ProposalEntry, ProposalStatus,
}
use wasm_master.Types.ProposalStatus.{finalized}
use wasm_master.Persistence.{StorageOps, Codec, Clock}
use wasm_master.Proposer
use wasm_master.Proposer.{
  Proposer, mark_proposal_finalized, update_proposal_status, enqueue_prioritized_request,
}
use wasm_master.Proposer.Storage.{CurrentState, StorageHelper}
use wasm_master.Proposer.Statuses.{mark_proposal_finalized_lem}
use wasm_master.ProposerAgent.{
  ProposerAgent, requeue, answer, process_results, raise_adu, process_executed,
}

-- The slot has no proposal that is not finalized.
abbrev pub IsDone : Slot → KeyMap ProposalEntry → Type 0
IsDone slot m = (entry : ProposalEntry) → KeyMap.get slot m ≡ some entry → entry.status ≡ finalized

module _ {S : Type 0} where
  mark-IsDone :
      (slot : Slot) (p : Proposer S) → IsDone slot (mark_proposal_finalized slot p).1.proposals
  mark-IsDone slot p entry e = elim (mark_proposal_finalized_lem slot p) [
    | inl (old, held, open_status, r, set) ↦ let h = set slot in ground arith
    | inr (done, r, same) ↦ done entry (rw same at e)
  ]

  mark_keeps_IsDone :
      (slot k : Slot) (p : Proposer S)
      → IsDone k p.proposals
      → IsDone k (mark_proposal_finalized slot p).1.proposals
  mark_keeps_IsDone slot k p h entry e = elim (mark_proposal_finalized_lem slot p) [
    | inl (old, held, open_status, r, set) ↦ let g = set k in ground (arith, h entry)
    | inr (done, r, same) ↦ h entry (rw same at e)
  ]

  mark_done :
      (slot : Slot) (p : Proposer S)
      → IsDone slot p.proposals
      → mark_proposal_finalized slot p ≡ (none, p)
  mark_done slot p h = elim (mark_proposal_finalized_lem slot p) [
    | inl (old, held, open_status, r, set) ↦ absurd (open_status (h old held))
    | inr (done, r, same) ↦ λ i. (r i, same i)
  ]

  -- What leads, and where it has come to, is left alone.
  abbrev Keeps : Proposer S → Proposer S → Type 0
  Keeps p p' = (p'.adu ≡ p.adu) × (p'.is_leader ≡ p.is_leader)

  update-Keeps :
      (slot : Slot) (new_status : ProposalStatus) (p : Proposer S)
      → Keeps p (update_proposal_status slot new_status p).1
  unfolding update_proposal_status
  update-Keeps slot new_status p = elim (Option-cases (KeyMap.get slot p.proposals)) [
    | inl e ↦ rw (update_proposal_status, e) (refl, refl)
    | inr (entry, e) ↦ rw (update_proposal_status, e) (refl, refl)
  ]

  mark-Keeps : (slot : Slot) (p : Proposer S) → Keeps p (mark_proposal_finalized slot p).1
  unfolding mark_proposal_finalized
  mark-Keeps slot p = ground (arith, update-Keeps slot finalized p)

  requeue-Keeps :
      (c : CmdResult) (v : Value) (p : Proposer S)
      → Keeps p (requeue c v p) × ((requeue c v p).proposals ≡ p.proposals)
  unfolding enqueue_prioritized_request
  requeue-Keeps CmdResult.no_op v p = ground arith
  requeue-Keeps (CmdResult.cmd_value r) v p = ((refl, refl), refl)

module _ {S N : Type 0} where
  answer-Keeps :
      (result : ExecuteResult) (o : Option Value) (p : Proposer S) (a : ProposerAgent S N)
      → Keeps p (answer result (o, p) a).proposer
        × ((answer result (o, p) a).proposer.proposals ≡ p.proposals)
  answer-Keeps result none p a = ((refl, refl), refl)
  answer-Keeps result (some v) p a = requeue-Keeps result.cmd_result v p

  abbrev answered : ExecuteResult → ProposerAgent S N → ProposerAgent S N
  answered result a = answer result (mark_proposal_finalized result.slot a.proposer) a

  answered-IsDone :
      (result : ExecuteResult) (a : ProposerAgent S N)
      → IsDone result.slot (answered result a).proposer.proposals
  answered-IsDone result a =
      subst (IsDone result.slot) (sym (answer-Keeps result _ _ a).1)
        (mark-IsDone result.slot a.proposer)

  answered_keeps_IsDone :
      (result : ExecuteResult) (k : Slot) (a : ProposerAgent S N)
      → IsDone k a.proposer.proposals
      → IsDone k (answered result a).proposer.proposals
  answered_keeps_IsDone result k a h =
      subst (IsDone k) (sym (answer-Keeps result _ _ a).1)
        (mark_keeps_IsDone result.slot k a.proposer h)

  results_keep-IsDone :
      (rs : List ExecuteResult) (k : Slot) (a : ProposerAgent S N)
      → IsDone k a.proposer.proposals
      → IsDone k (process_results rs a).proposer.proposals
  unfolding process_results
  results_keep-IsDone [] k a h = h
  results_keep-IsDone (r ∷ rs) k a h =
      results_keep-IsDone rs k (answered r a) (answered_keeps_IsDone r k a h)

  -- After a report every slot that it names has no proposal that is not finalized.
  pub process_results-IsDone :
      (rs : List ExecuteResult) (a : ProposerAgent S N)
      → All (λ (r : ExecuteResult). IsDone r.slot (process_results rs a).proposer.proposals) rs
  unfolding process_results
  process_results-IsDone [] a = tt
  process_results-IsDone (r ∷ rs) a = (
    results_keep-IsDone rs r.slot (answered r a) (answered-IsDone r a),
    process_results-IsDone rs (answered r a),
  )

  results_done :
      (rs : List ExecuteResult) (a : ProposerAgent S N)
      → All (λ (r : ExecuteResult). IsDone r.slot a.proposer.proposals) rs
      → process_results rs a ≡ a
  unfolding process_results
  results_done [] a h = refl
  results_done (r ∷ rs) a h =
      let same : answered r a ≡ a = ap (λ m. answer r m a) (mark_done r.slot a.proposer h.0) in
      ap (process_results rs) same ∙ results_done rs a h.1

  results-Keeps :
      (rs : List ExecuteResult) (a : ProposerAgent S N)
      → Keeps a.proposer (process_results rs a).proposer
  unfolding process_results
  results-Keeps [] a = (refl, refl)
  results-Keeps (r ∷ rs) a =
      let m = mark-Keeps r.slot a.proposer in
      let n =
        (answer-Keeps r (mark_proposal_finalized r.slot a.proposer).0
          (mark_proposal_finalized r.slot a.proposer).1 a).0 in
      let l = results-Keeps rs (answered r a) in (l.0 ∙ n.0 ∙ m.0, l.1 ∙ n.1 ∙ m.1)

chosen_branch :
    {A : Type 0} (b : Bool) (x y z : A)
    → (if not b then some x else some y) ≡ some z
    → ((b ≡ false) × (z ≡ x)) ⊎ ((b ≡ true) × (z ≡ y))
chosen_branch true x y z e = ground arith
chosen_branch false x y z e = ground arith

same_branch :
    {A : Type 0} (b : Bool) (x y : A)
    → (b ≡ false) ⊎ (y ≡ x)
    → (if not b then some x else some y) ≡ some x
same_branch b x y h = ground arith

module _ {S : Type 0} (ops : StorageOps S) (codec : Codec CurrentState) (clock : Clock) where
  saved_adu :
      (r : Result (Unit {0}) × StorageHelper S) (p q : Proposer S)
      → Proposer.expect_saved ops codec clock r p ≡ some q
      → q.adu ≡ p.adu
  saved_adu (ok u, h) p q e = ground arith
  saved_adu (err u, h) p q e = ground arith

  raise_adu_le :
      (adu : Slot) (p q : Proposer S) → raise_adu ops codec clock adu p ≡ some q → adu ≤ q.adu
  unfolding Proposer.set_adu
  raise_adu_le adu p q e = elim (Bool-cases (ltb p.adu adu)) [
    | inl lower ↦ let h = saved_adu _ (record p { adu = adu }) q (rw lower at e) in omega arith
    | inr reached ↦ ground arith
  ]

module _ {S N : Type 0} (ops : StorageOps S) (codec : Codec CurrentState) (clock : Clock) where
  -- `process_executed` with its proposer after `raise_adu`.
  abbrev deliver : Executed → Option (Proposer S) → ProposerAgent S N → Option (ProposerAgent S N)
  deliver ex o a = elim o [
    | none ↦ none
    | some p ↦
        let a' : ProposerAgent S N = record a { proposer = p } in
        if not p.is_leader then some a' else some (process_results ex.results a')
  ]

  -- How a delivery that does not panic has gone.
  abbrev IsDelivered :
      Executed → Option (Proposer S) → ProposerAgent S N → ProposerAgent S N → Type 0
  IsDelivered ex o a a' =
      (p : Proposer S) × (o ≡ some p)
      × (((p.is_leader ≡ false) × (a' ≡ record a { proposer = p }))
          ⊎ ((p.is_leader ≡ true) × (a' ≡ process_results ex.results (record a { proposer = p }))))

  deliver-IsDelivered :
      (ex : Executed) (o : Option (Proposer S)) (a a' : ProposerAgent S N)
      → deliver ex o a ≡ some a'
      → IsDelivered ex o a a'
  deliver-IsDelivered ex none a a' e = ground arith
  deliver-IsDelivered ex (some p) a a' e =
      (p, refl, chosen_branch p.is_leader (record a { proposer = p }) _ a' e)

  settled :
      (ex : Executed) (a : ProposerAgent S N)
      → ex.adu ≤ a.proposer.adu
      → (a.proposer.is_leader ≡ false) ⊎ (process_results ex.results a ≡ a)
      → process_executed ops codec clock ex a ≡ some a
  unfolding process_executed
  settled ex a le done =
      let reached : raise_adu ops codec clock ex.adu a.proposer ≡ some a.proposer =
        (let t : ltb a.proposer.adu ex.adu ≡ false = ground arith in
          ap
            (λ b. if b then Proposer.set_adu ops codec clock ex.adu a.proposer else some a.proposer)
            t) in
      ap (λ o. deliver ex o a) reached
      ∙ same_branch a.proposer.is_leader a (process_results ex.results a) done

  -- A report of executed slots that the agent has processed changes nothing when it comes again: no
  -- client is answered twice for it, no command is queued again, and the executed slot stays.
  pub process_executed_again :
      (ex : Executed) (a a' : ProposerAgent S N)
      → process_executed ops codec clock ex a ≡ some a'
      → process_executed ops codec clock ex a' ≡ some a'
  unfolding process_executed
  process_executed_again ex a a' e =
      let (p, raised, how) =
        deliver-IsDelivered ex (raise_adu ops codec clock ex.adu a.proposer) a a' e in
      let le = raise_adu_le ops codec clock ex.adu a.proposer p raised in
      let mid : ProposerAgent S N = record a { proposer = p } in
      elim how [
        | inl (follows, same) ↦
            subst (λ x. process_executed ops codec clock ex x ≡ some x) (sym same)
              (settled ex mid le (inl follows))
        | inr (leads, same) ↦
            let kept = results-Keeps ex.results mid in
            subst (λ x. process_executed ops codec clock ex x ≡ some x) (sym same)
              (settled ex (process_results ex.results mid) (subst (λ n. ex.adu ≤ n) (sym kept.0) le)
                (inr (results_done ex.results _ (process_results-IsDone ex.results mid))))
      ]
