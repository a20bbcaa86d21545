-- ===== src/ProposerAgent/Ticks/Examples.antt =====
-- Ticks of the proposer agent (paxos-wasm/agents/proposer-agent/src/proposer-agent.rs), and the
-- theorems at them.
use wasm_master.Common.{
  ◌+◌, true, false, Option, none, some, List, [], ◌∷◌, ◌++◌, ◌≡◌, refl, arith, All,
}
use wasm_master.Common.KeyMap
use wasm_master.Types.{Proposal, ClientResponse}
use wasm_master.Types.PaxosPhase.{prepare_send, accept_commit}
use wasm_master.Types.Messages.{MessagePayload}
use wasm_master.Network.{message_from}
use wasm_master.Network.Outbox.{Outbox, outbox_ops, outbox-SendsInOrder}
use wasm_master.Persistence.InMemory.{Memory, memory_ops, no_codec, at_start}
use wasm_master.Proposer
use wasm_master.Proposer.{create_proposal, increase_ballot, reserve_next_chosen_proposal}
use wasm_master.Proposer.Storage.{save_state}
use wasm_master.ProposerAgent.{
  ProposerAgent, proposals_up_to, proposals_to_accept, advance_phase, start_prepare_round,
}
use wasm_master.ProposerAgent.Broadcast
use wasm_master.ProposerAgent.Broadcast.{
  send_learns, answer_clients, broadcast_prepare, prepare_phase, insert_promises,
}
use wasm_master.ProposerAgent.Handlers.{become_leader, resign_leader, handle_tick, handle_payload}
use wasm_master.ProposerAgent.Examples.{pending, proposed, sent, batch_run, node}
use wasm_master.ProposerAgent.Sends.{accepts_of, accept_commit_lem}
use wasm_master.ProposerAgent.Ticks.{Prepared, reelected_skips_prepare, prepare_tick_lem}

accept_commit_lem_example :
    (n : Outbox) × (Broadcast.accept_commit outbox_ops pending
      ≡ some (answer_clients outbox_ops (send_learns outbox_ops (record sent { network = n }))))
    × (n ≡ [] ++ accepts_of (node 2 ∷ node 3 ∷ []) (node 1) (proposed ∷ []))
accept_commit_lem_example =
    accept_commit_lem outbox_ops outbox-SendsInOrder pending sent (proposed ∷ []) refl batch_run

-- The agent accepts under ballot 4, resigns, and becomes leader again.
abbrev accepting : ProposerAgent Memory Outbox
accepting = record pending { phase = accept_commit }

abbrev resigned : ProposerAgent Memory Outbox
resigned = record accepting { proposer = record accepting.proposer { is_leader = false } }

resign_run : (resign_leader accepting).1 ≡ resigned
unfolding resign_leader Proposer.resign_leader
resign_run = refl

abbrev again : ProposerAgent Memory Outbox
again = record accepting { proposer = record accepting.proposer { current_ballot = 7 } }

become_run : become_leader memory_ops outbox_ops no_codec at_start resigned ≡ some (true, again)
unfolding become_leader Proposer.become_leader increase_ballot save_state
become_run = refl

abbrev again_sent : ProposerAgent Memory Outbox
again_sent = record again { proposer = (create_proposal again.proposer).1 }

abbrev again_proposed : Proposal
again_proposed = record proposed { ballot = 7 }

again_batch : proposals_to_accept again ≡ some (again_proposed ∷ [], again_sent)
unfolding proposals_up_to create_proposal KeyMap.insert
again_batch = refl

reelected_skips_prepare_example :
    (7 ≡ 4 + 3)
    × (handle_tick memory_ops outbox_ops no_codec at_start again
        ≡ Broadcast.accept_commit outbox_ops again)
    × All (λ (p : Proposal). p.ballot ≡ 7) (again_proposed ∷ [])
reelected_skips_prepare_example =
    reelected_skips_prepare memory_ops outbox_ops no_codec at_start resigned again again_sent true
      (again_proposed ∷ []) refl refl (omega arith) become_run again_batch

abbrev preparing : ProposerAgent Memory Outbox
preparing = record pending { phase = prepare_send }

abbrev prepared : ProposerAgent Memory Outbox
prepared = record pending {
  proposer = record pending.proposer { current_ballot = 7 };
  last_prepare_start = some 0;
  network =
      record {
        nodes = node 2 ∷ node 3 ∷ [];
        message = message_from (node 1) (MessagePayload.prepare (record { slot = 1; ballot = 7 }));
      }
      ∷ [];
}

prepare_run : handle_tick memory_ops outbox_ops no_codec at_start preparing ≡ some (none, prepared)
unfolding handle_tick increase_ballot save_state prepare_phase broadcast_prepare insert_promises
    start_prepare_round advance_phase
prepare_run = refl

prepare_tick_lem_example :
    (◌≡◌ {A = Option (List ClientResponse)} none none)
    × Prepared memory_ops outbox_ops no_codec at_start outbox-SendsInOrder preparing prepared
prepare_tick_lem_example =
    prepare_tick_lem memory_ops outbox_ops no_codec at_start outbox-SendsInOrder preparing prepared
      none refl refl (omega arith) prepare_run

-- The agent knows of slot 5; a learner reports slot 3.
abbrev ahead : ProposerAgent Memory Outbox
ahead = record pending { proposer = record pending.proposer { adu = 5 }; has_received_adu = false }

abbrev behind : ProposerAgent Memory Outbox
behind = record pending { proposer = record pending.proposer { adu = 3 } }

adu_run :
    handle_payload memory_ops outbox_ops no_codec at_start (MessagePayload.adu 3) (node 2) ahead
    ≡ some behind
unfolding handle_payload Proposer.set_adu save_state
adu_run = refl
