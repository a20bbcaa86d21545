-- ===== src/ProposerAgent/Ticks.antt =====
-- The ticks of paxos-wasm/agents/proposer-agent/src/proposer-agent.rs: the prepares that they send,
-- and the phases that they lead to.
mod Examples
use wasm_master.Common.{
  ℕ, zero, suc, ◌+◌, ◌-◌, ◌≤◌, ◌<◌, u64_size, add_u64, Bool, true, false, not, Option, none, some,
  List, [], ◌∷◌, ◌++◌, map, ◌≡◌, refl, sym, ◌∙◌, ap, subst, ◌⊎◌, inl, inr, arith, if_no, if_yes,
  if_both, All, length, has, Bool-cases, Option-cases, if◌then◌else◌,
}
use mathlib.Core.List.{append-nil, append_assoc}
use wasm_master.Common.Fallible.{Result, ok, err}
use wasm_master.Types.{
  Slot, Ballot, Value, Node, PaxosPhase, Promise, Proposal, Accepted, PrepareResult, AcceptResult,
  ClientResponse,
}
use wasm_master.Types.PaxosPhase.{prepare_send, prepare_pending, accept_commit}
use wasm_master.Types.Messages.{MessagePayload, NetworkMessage}
use wasm_master.Persistence.{StorageOps, Codec, Clock}
use wasm_master.Network.{NetworkOps, Sending, SendsInOrder, message_from}
use wasm_master.Proposer
use wasm_master.Proposer.{Proposer, propose, create_proposal, increase_ballot}
use wasm_master.Proposer.Ballots.{become_leader_lem, increase_ballot_lem}
use wasm_master.Proposer.Storage.{CurrentState, StorageHelper}
use wasm_master.ProposerAgent.{
  ProposerAgent, advance_phase, start_prepare_round, proposals_up_to, proposals_to_accept, prepend,
  check_prepare_timeout, next_phase,
}
use wasm_master.ProposerAgent.Broadcast.{
  CollectedResponses, send_forget, send_learns, commit_accepted, answer_clients, broadcast_prepare,
  prepare_phase, prepare_collected, broadcast_accept, accept_phase, accept_collected,
  insert_promises, insert_accepts, go_on, accept_all,
}
use wasm_master.ProposerAgent.Broadcast
use wasm_master.ProposerAgent.Batches.{prepend-some, some_pair}
use wasm_master.ProposerAgent.Handlers.{
  become_leader, with_proposer, tick_in, tick_prepare, sent_prepare, handle_tick, handle_payload,
  received_adu,
}
use wasm_master.ProposerAgent.Sends.{up_to-IsUnder, prepare_event}

module _ {S N : Type 0} (ops : StorageOps S) (net : NetworkOps N) (codec : Codec CurrentState)
    (clock : Clock) where
  became :
      (o : Option (Bool × Proposer S)) (a b : ProposerAgent S N) (changed : Bool)
      → ◌≡◌ {A = Option (Bool × ProposerAgent S N)}
          (elim o [ none ↦ none | some (r, p) ↦ some (r, record a { proposer = p }) ])
          (some (changed, b))
      → (p : Proposer S) × (o ≡ some (changed, p)) × (b ≡ record a { proposer = p })
  became none a b changed e = ground arith
  became (some (r, p)) a b changed e =
      let (same, end) = some_pair r changed (record a { proposer = p }) b e in
      (p, ap (λ (x : Bool). some (x, p)) same, sym end)

  -- What `tick_prepare` sends.
  prepared :
      (o : Option (Proposer S)) (a b : ProposerAgent S N) (out : Option (List ClientResponse))
      → tick_prepare ops net codec clock (with_proposer ops net codec clock o a) ≡ some (out, b)
      → (p : Proposer S) × (o ≡ some p)
        × (sent_prepare ops net codec clock (
              prepare_phase net clock
                (add_u64 p.adu 1)
                p.current_ballot
                []
                (record a { proposer = p }))
            ≡ some (out, b))
  prepared none a b out e = ground arith
  prepared (some p) a b out e = (p, refl, e)

  -- An agent that resigned while it was sending accepts goes on with them as soon as it leads again:
  -- its next tick is no prepare, although its ballot is a new one, and the proposals of its next batch
  -- are under this ballot, which no acceptor has promised. (The ballot did not wrap, and no slot of
  -- the batch is on the crash list.)
  pub reelected_skips_prepare :
      (a b c : ProposerAgent S N) (changed : Bool) (ps : List Proposal)
      → a.phase ≡ accept_commit
      → a.proposer.is_leader ≡ false
      → a.proposer.current_ballot + a.proposer.ballot_delta < u64_size
      → become_leader ops net codec clock a ≡ some (changed, b)
      → proposals_to_accept b ≡ some (ps, c)
      → (b.proposer.current_ballot ≡ a.proposer.current_ballot + a.proposer.ballot_delta)
        × (handle_tick ops net codec clock b ≡ Broadcast.accept_commit net b)
        × All (λ (p : Proposal). p.ballot ≡ b.proposer.current_ballot) ps
  unfolding become_leader handle_tick
  reelected_skips_prepare a b c changed ps phase follows small leads batch =
      let (p, o, r) =
        became (Proposer.become_leader ops codec clock a.proposer) a b changed leads in
      let same = ap (λ (x : ProposerAgent S N). x.phase) r ∙ phase in
      let raised : p.current_ballot ≡ a.proposer.current_ballot + a.proposer.ballot_delta =
        elim (become_leader_lem ops codec clock a.proposer p changed small o) [
          | inl (still, lead, rest) ↦ ground arith
          | inr (new, follow, lead, ballot, delta) ↦ ballot
        ] in
      (
        ap (λ (x : ProposerAgent S N). x.proposer.current_ballot) r ∙ raised,
        ap (λ ph. tick_in ops net codec clock ph b) same,
        (up_to-IsUnder b.config.batch_size b ps c batch).ballots,
      )

  -- The agent after its prepare has been sent.
  abbrev pub Prepared : (sends : SendsInOrder net) → (a b : ProposerAgent S N) → Type 0
  Prepared sends a b =
      (b.phase ≡ prepare_pending)
      × (b.last_prepare_start ≡ some clock.now)
      × (b.proposer.current_ballot ≡ a.proposer.current_ballot + a.proposer.ballot_delta)
      × (sends.sent b.network
          ≡ sends.sent a.network
            ++ (record {
              nodes = a.acceptors;
              message = message_from a.node (
                  MessagePayload.prepare (record {
                    slot = add_u64 b.proposer.adu 1;
                    ballot = b.proposer.current_ballot;
                  }));
            }
                ∷ []))

  -- A tick in the phase of the prepare raises the ballot and sends a prepare with it, for the slot
  -- after the last one that is known to be executed, to the acceptors; the agent then waits for the
  -- promises. (The agent is event-driven, and neither the ballot nor the slot wraps.)
  pub prepare_tick_lem :
      (sends : SendsInOrder net) (a b : ProposerAgent S N) (out : Option (List ClientResponse))
      → a.phase ≡ prepare_send
      → a.config.is_event_driven ≡ true
      → a.proposer.current_ballot + a.proposer.ballot_delta < u64_size
      → handle_tick ops net codec clock a ≡ some (out, b)
      → (out ≡ none) × Prepared sends a b
  unfolding handle_tick start_prepare_round advance_phase insert_promises
  prepare_tick_lem sends a b out phase event small e =
      let e' = sym (ap (λ ph. tick_in ops net codec clock ph a) phase) ∙ e in
      let (p, o, sent) = prepared (increase_ballot ops codec clock a.proposer) a b out e' in
      let (ballot, delta) = increase_ballot_lem ops codec clock a.proposer p small o in
      let c : ProposerAgent S N = record a { proposer = p } in
      let run = prepare_event net clock (add_u64 p.adu 1) p.current_ballot [] c event in
      let (no_answer, end) =
        some_pair none out _ b (sym (ap (sent_prepare ops net codec clock) run) ∙ sent) in
      (
        sym no_answer,
        subst (Prepared sends a) end
            (ap (next_phase none) phase, refl, ballot, sends.forgotten a.acceptors _ a.network),
      )

  -- What is saved, or not, keeps the adu.
  expect_saved-adu :
      (r : Result (Unit {0}) × StorageHelper S) (p q : Proposer S)
      → Proposer.expect_saved ops codec clock r p ≡ some q
      → q.adu ≡ p.adu
  expect_saved-adu (ok u, h) p q e = ground arith
  expect_saved-adu (err u, h) p q e = ground arith

  received :
      (o : Option (Proposer S)) (a b : ProposerAgent S N)
      → received_adu ops net codec clock (with_proposer ops net codec clock o a) ≡ some b
      → (p : Proposer S) × (o ≡ some p) × (record a { proposer = p; has_received_adu = true } ≡ b)
  received none a b e = ground arith
  received (some p) a b e = (p, refl, ground arith)

  -- What a learner reports as executed is taken over as it is, also where the agent knows of more.
  pub adu_message_overrides :
      (n : Slot) (sender : Node) (a b : ProposerAgent S N)
      → handle_payload ops net codec clock (MessagePayload.adu n) sender a ≡ some b
      → (b.proposer.adu ≡ n) × (b.has_received_adu ≡ true) × (b.phase ≡ a.phase)
  unfolding handle_payload Proposer.set_adu
  adu_message_overrides n sender a b e =
      let (p, o, end) = received (Proposer.set_adu ops codec clock n a.proposer) a b e in
      subst
        (λ (x : ProposerAgent S N).
          (x.proposer.adu ≡ n) × (x.has_received_adu ≡ true) × (x.phase ≡ a.phase))
        end (expect_saved-adu _ _ p o, refl, refl)
