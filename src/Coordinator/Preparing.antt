-- ===== src/Coordinator/Preparing.antt =====
-- `prepare_phase` of paxos-wasm/runners/paxos-coordinator/src/coordinator.rs: a leading node asks its
-- own acceptor first, and then the others.
use wasm_master.Common.{
  ◌<◌, ◌≤◌, none, some, [], ◌∷◌, ◌++◌, ◌≡◌, refl, ◌∙◌, ap, arith, ◌⊎◌, inl, inr, true, ltb,
  Bool-cases, if_no, add_u64,
}
use wasm_master.Types.{Slot, Ballot, Promise, PromiseResult, PrepareResult}
use wasm_master.Types.Messages.{MessagePayload}
use wasm_master.Persistence.{StorageOps, Clock}
use wasm_master.Network.{NetworkOps, SendsInOrder, message_from}
use wasm_master.Acceptor
use wasm_master.Acceptor.{Acceptor, highest_promised_ballot}
use wasm_master.AcceptorAgent.Replies.{refused_prepare}
use wasm_master.LearnerAgent
use wasm_master.ProposerAgent.{
  next_phase, start_prepare_round, advance_phase, insert_and_check_promises,
}
use wasm_master.ProposerAgent.Broadcast.{insert_promises}
use wasm_master.ProposerAgent.Sends.{prepare_event}
use wasm_master.Coordinator.{Combined, Encodings}
use wasm_master.Coordinator.Ticks.{prepare_phase, prepare_with}

module _ {S N : Type 0} (ops : StorageOps S) (net : NetworkOps N) (enc : Encodings)
    (clock : Clock) where
  granted_prepare :
      (slot : Slot) (ballot : Ballot) (a : Acceptor S)
      → highest_promised_ballot a ≤ ballot
      → (promise : Promise) × (b : Acceptor S) × (Acceptor.prepare ops enc.acceptor_codecs clock
            slot ballot a
          ≡ (PromiseResult.promised promise, b))
  unfolding Acceptor.prepare
  granted_prepare slot ballot a h =
      (_, _, if_no (ltb ballot (highest_promised_ballot a)) _ _ (ground arith))

  -- What a prepare phase that asks the other acceptors does.
  abbrev pub Asked : (sends : SendsInOrder net) → (c d : Combined S N) → Type 0
  Asked sends c d =
      (d.proposer.proposer ≡ c.proposer.proposer)
      × (d.proposer.phase ≡ next_phase none c.proposer.phase)
      × (sends.sent d.proposer.network
          ≡ sends.sent c.proposer.network
            ++ (record {
              nodes = c.proposer.acceptors;
              message = message_from c.proposer.node (
                  MessagePayload.prepare (record {
                    slot = add_u64 (LearnerAgent.get_adu c.learner) 1;
                    ballot = c.proposer.proposer.current_ballot;
                  }));
            }
                ∷ []))

  -- The prepare phase of an event-driven node takes the ballot as it is. Where the node's own acceptor
  -- has promised a higher one, the node panics; else the other acceptors are sent a prepare for the
  -- slot after the last executed one, the phase goes on, and the proposer, its ballot included, stays
  -- as it was.
  pub prepare_phase_lem :
      (sends : SendsInOrder net) (c : Combined S N)
      → c.proposer.config.is_event_driven ≡ true
      → ((c.proposer.proposer.current_ballot < highest_promised_ballot c.acceptor.acceptor)
          × (prepare_phase ops net enc clock c ≡ none))
        ⊎ ((highest_promised_ballot c.acceptor.acceptor ≤ c.proposer.proposer.current_ballot)
            × (d : Combined S N) × (prepare_phase ops net enc clock c
                ≡ some (PrepareResult.is_event_driven, d))
            × Asked sends c d)
  unfolding prepare_phase insert_promises insert_and_check_promises start_prepare_round
      advance_phase
  prepare_phase_lem sends c event =
      let slot = add_u64 (LearnerAgent.get_adu c.learner) 1 in
      let ballot = c.proposer.proposer.current_ballot in
      let a = c.acceptor.acceptor in
      elim (Bool-cases (ltb ballot (highest_promised_ballot a))) [
        | inl low ↦
            let less : ballot < highest_promised_ballot a = ground arith in
            inl (
              less,
              ap
                  (λ r.
                    prepare_with ops net enc clock slot ballot
                      (r.0, record c.acceptor { acceptor = r.1 }) c)
                  (refused_prepare ops net enc.acceptor_codecs clock slot ballot a less),
            )
        | inr high ↦
            let enough : highest_promised_ballot a ≤ ballot = ground arith in
            let (promise, b, granted) = granted_prepare slot ballot a enough in
            inr (
              enough,
              _,
              ap
                    (λ r.
                      prepare_with ops net enc clock slot ballot
                        (r.0, record c.acceptor { acceptor = r.1 }) c)
                    granted
                  ∙ ap
                      (λ r. some (
                        r.0,
                        record c { proposer = r.1; acceptor = record c.acceptor { acceptor = b } },
                      ))
                      (prepare_event net clock slot ballot (promise ∷ []) c.proposer event),
              (refl, refl, sends.forgotten c.proposer.acceptors _ c.proposer.network),
            )
      ]
