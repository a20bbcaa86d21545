-- ===== src/Coordinator/Examples.antt =====
-- Runs of paxos-wasm/runners/paxos-coordinator/src/coordinator.rs, and the theorems at them.
use wasm_master.Common.{
  ◌<◌, ◌≤◌, ◌==◌, true, false, none, some, [], ◌∷◌, ◌++◌, ◌≡◌, refl, ◌⊎◌, All, arith,
}
use wasm_master.Common.KeyMap
use wasm_master.Types.{PrepareResult, AcceptResult}
use wasm_master.Types.PaxosPhase.{accept_commit}
use wasm_master.Types.Samples.{config, set_x, get_x, node_one, node_two}
use wasm_master.Persistence.InMemory.{Memory, memory_ops, no_codec, at_start}
use wasm_master.Network.Outbox.{Outbox, outbox_ops, outbox-SendsInOrder}
use wasm_master.Acceptor
use wasm_master.Acceptor.{highest_promised_ballot, record_accepted}
use wasm_master.Acceptor.Examples
use wasm_master.Acceptor.Storage
use wasm_master.Acceptor.Snapshots
use wasm_master.AcceptorAgent.Examples as AcceptorExamples
use wasm_master.Learner.Examples as LearnerSamples
use wasm_master.LearnerAgent.Examples as LearnerExamples
use wasm_master.ProposerAgent.{proposals_to_accept, proposals_up_to, insert_and_check_accepted}
use wasm_master.ProposerAgent.Broadcast
use wasm_master.Proposer.{create_proposal, increase_ballot}
use wasm_master.Proposer
use wasm_master.Proposer.Storage.{save_state}
use wasm_master.ProposerAgent.Handlers
use wasm_master.ProposerAgent.Sends.{accepts_of}
use wasm_master.ProposerAgent.Examples.{pending, proposed, sent, node}
use wasm_master.LeaderDetector
use wasm_master.FailureDetector
use wasm_master.FailureDetector.{FailureDetector, FailureState}
use wasm_master.Coordinator.{Combined, Agents, Coordinator, Encodings, is_leader}
use wasm_master.Coordinator.Ticks.{prepare_phase, accept_phase, accept_loop, accept_one}
use wasm_master.Coordinator.Accepting.{Holds, accept_phase-Holds}
use wasm_master.Coordinator.Preparing.{Asked, prepare_phase_lem}
use wasm_master.Coordinator.Leading.{failure_service}
use wasm_master.Coordinator.Progress.{IsFreeFrom, accept_phase_ends}
use wasm_master.Coordinator.Failover.{failure_service-is_leader}

abbrev enc : Encodings
enc = record {
  proposer_codec = no_codec;
  acceptor_codecs = Examples.codecs;
  learner_codecs = LearnerSamples.codecs;
}

-- A leader that is about to send its accepts; slot 2 is the next one.
abbrev leading : Combined Memory Outbox
leading = record {
  proposer = record pending { phase = accept_commit };
  acceptor = AcceptorExamples.agent;
  learner = LearnerExamples.agent;
}

prepare_phase_lem_example :
    ((4 < highest_promised_ballot Examples.voted)
      × (prepare_phase memory_ops outbox_ops enc at_start leading ≡ none))
    ⊎ ((highest_promised_ballot Examples.voted ≤ 4)
        × (d : Combined Memory Outbox) × (prepare_phase memory_ops outbox_ops enc at_start leading
            ≡ some (PrepareResult.is_event_driven, d))
        × Asked memory_ops outbox_ops enc at_start outbox-SendsInOrder leading d)
prepare_phase_lem_example =
    prepare_phase_lem memory_ops outbox_ops enc at_start outbox-SendsInOrder leading refl

abbrev accepted : Combined Memory Outbox
accepted = record leading {
  proposer = record sent {
    phase = accept_commit;
    in_flight_accepted = (2, (1, record { slot = 2; ballot = 4; success = true }) ∷ []) ∷ [];
    network = accepts_of (node 2 ∷ node 3 ∷ []) (node 1) (proposed ∷ []);
  };
  acceptor = record AcceptorExamples.agent {
    acceptor = record Examples.voted {
      accepted =
          (1, record { slot = 1; ballot = 2; value = some set_x })
          ∷ (2, record { slot = 2; ballot = 4; value = some get_x })
          ∷ [];
    };
  };
}

accept_run :
    accept_phase memory_ops outbox_ops enc at_start false node_one leading
    ≡ some (AcceptResult.is_event_driven, accepted)
unfolding accept_phase accept_loop accept_one proposals_up_to create_proposal Acceptor.accept
    KeyMap.get Broadcast.accept_phase Broadcast.broadcast_accept Broadcast.insert_accepts
    record_accepted insert_and_check_accepted Snapshots.maybe_snapshot KeyMap.insert
    Storage.save_change
accept_run = refl

leading_batch :
    proposals_to_accept leading.proposer
    ≡ some (proposed ∷ [], record sent { phase = accept_commit })
unfolding proposals_up_to create_proposal KeyMap.insert
leading_batch = refl

accept_phase-Holds_example :
    All (Holds memory_ops outbox_ops enc at_start accepted) (proposed ∷ [])
    × (accepted.proposer.network ≡ [] ++ accepts_of (node 2 ∷ node 3 ∷ []) (node 1) (proposed ∷ []))
accept_phase-Holds_example =
    accept_phase-Holds memory_ops outbox_ops enc at_start outbox-SendsInOrder false node_one leading
      accepted AcceptResult.is_event_driven (proposed ∷ []) (record sent { phase = accept_commit })
      refl refl leading_batch accept_run

-- The detector of node 1, which has not heard of node 2 for one round, and that of a node 3 that has
-- not heard of node 2 either.
abbrev detector : FailureDetector
detector = record (FailureDetector.new node_one (node_two ∷ []) 10) {
  state_map = (1, FailureState.alive) ∷ (2, FailureState.suspected) ∷ [];
  seen = (1, true) ∷ [];
}

abbrev follower : Coordinator Memory Outbox
follower = record {
  config = config;
  node = node_one;
  nodes = node_two ∷ [];
  agents = Agents.combined (record leading {
    proposer = record pending { proposer = record pending.proposer { is_leader = false } };
  });
  failure_detector = detector;
}

abbrev leader : Coordinator Memory Outbox
leader = record follower {
  agents = Agents.combined (record leading {
    proposer = record pending { proposer = record pending.proposer { current_ballot = 7 } };
  });
  failure_detector = (FailureDetector.checker detector).1;
}

leader_run : failure_service memory_ops outbox_ops enc at_start follower ≡ some (some 1, leader)
unfolding failure_service FailureDetector.checker FailureDetector.new FailureDetector.check_node
    KeyMap.get KeyMap.remove KeyMap.insert LeaderDetector.suspect LeaderDetector.new
    LeaderDetector.recompute_leader Handlers.become_leader Proposer.become_leader increase_ballot
    save_state
leader_run = refl

failure_service-is_leader_example : is_leader leader ≡ (1 == 1)
failure_service-is_leader_example =
    failure_service-is_leader memory_ops outbox_ops enc at_start follower leader 1 refl leader_run

-- Node 3 leads, and resigns.
abbrev third : Coordinator Memory Outbox
third = record follower {
  node = node 3;
  agents = Agents.combined (record leading { proposer = pending });
}

abbrev resigned : Coordinator Memory Outbox
resigned = record third {
  agents = Agents.combined (record leading {
    proposer = record pending { proposer = record pending.proposer { is_leader = false } };
  });
  failure_detector = (FailureDetector.checker detector).1;
}

resigned_run : failure_service memory_ops outbox_ops enc at_start third ≡ some (some 1, resigned)
unfolding failure_service FailureDetector.checker FailureDetector.new FailureDetector.check_node
    KeyMap.get KeyMap.remove KeyMap.insert LeaderDetector.suspect LeaderDetector.new
    LeaderDetector.recompute_leader Handlers.resign_leader Proposer.resign_leader
resigned_run = refl

voted_free : IsFreeFrom 2 Examples.voted
unfolding KeyMap.get
voted_free k above = ground arith

accept_phase_ends_example :
    (r : AcceptResult) × (d : Combined Memory Outbox) × (accept_phase memory_ops outbox_ops enc
        at_start false node_one leading
      ≡ some (r, d))
accept_phase_ends_example =
    accept_phase_ends memory_ops outbox_ops enc at_start node_one leading (proposed ∷ [])
      (record sent { phase = accept_commit }) refl refl (omega arith) voted_free (omega arith)
      leading_batch
