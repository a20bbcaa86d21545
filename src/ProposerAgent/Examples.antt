-- ===== src/ProposerAgent/Examples.antt =====
-- Runs of the proposer agent (paxos-wasm/agents/proposer-agent/src/proposer-agent.rs), and the
-- theorems at them.
use wasm_master.Common.{ℕ, ◌≤◌, true, false, none, some, List, [], ◌∷◌, ◌≡◌, refl, ◌⊎◌, arith}
use wasm_master.Common.KeyMap
use wasm_master.Common.KeyMap.{KeyMap, IsSorted}
use wasm_master.Types.{Ballot, Node, PaxosRole, Promise, Proposal, Accepted, CmdResult, Executed}
use wasm_master.Types.PaxosPhase.{prepare_send, prepare_pending, accept_commit}
use wasm_master.Types.ProposalStatus.{chosen, finalized}
use wasm_master.Types.Samples.{config, set_x, get_x}
use wasm_master.Persistence.{Clock}
use wasm_master.Network.Outbox.{Outbox}
use wasm_master.Persistence.InMemory.{Memory, memory_ops, empty_memory, no_codec, at_start}
use wasm_master.Proposer
use wasm_master.Proposer.{
  Proposer, quorum, process_prepare, collect_accepted_values, all_accepted, gather, fill, dedup,
  commands, enqueue_all, create_proposal, mark_proposal_finalized, update_proposal_status,
}
use wasm_master.Proposer.Storage.{save_state}
use wasm_master.Proposer.Phases.{valid_promises}
use wasm_master.ProposerAgent.{
  ProposerAgent, advance_phase, insert_and_check_promises, handle_promise, check_prepare_timeout,
  proposals_up_to, proposals_to_accept, process_results, process_executed,
}
use wasm_master.ProposerAgent.Phases.{handle_promise_accepts, late_quorum_stalls}
use wasm_master.ProposerAgent.Answers.{process_executed_again}
use wasm_master.ProposerAgent.Batches.{IsBatch, proposals_to_accept-IsBatch}

abbrev pub node : ℕ → Node
node id = record { node_id = id; address = "a"; role = PaxosRole.coordinator }

abbrev first_promise : Promise
first_promise = record { slot = 1; ballot = 4; accepted = [] }

-- The leader of three acceptors, whose prepare for ballot 4 is pending with one promise; slot 1 is
-- chosen, and one value is queued.
abbrev pub pending : ProposerAgent Memory Outbox
pending = record {
  config = config;
  phase = prepare_pending;
  node = node 1;
  proposer = record {
    num_acceptors = 3;
    ballot_delta = 3;
    is_leader = true;
    current_slot = 1;
    current_ballot = 4;
    adu = 0;
    pending_client_requests = get_x ∷ [];
    prioritized_values = [];
    proposals =
        (1, record { proposal = record { slot = 1; ballot = 4; value = set_x }; status = chosen })
        ∷ [];
    chosen_slots = [];
    storage = record {
      store = empty_memory;
      enabled = false;
      run_config = config;
      flush_interval = 10;
      pending = 0;
      last_flush = 0;
    };
  };
  num_acceptors = 3;
  acceptors = node 2 ∷ node 3 ∷ [];
  learners = node 2 ∷ node 3 ∷ [];
  all_nodes = node 2 ∷ node 3 ∷ [];
  promises = (4, (2, first_promise) ∷ []) ∷ [];
  in_flight_accepted = [];
  client_responses = [];
  last_prepare_start = some 0;
  last_get_adu_start = 0;
  has_received_adu = true;
  slot_crash_list = 9 ∷ [];
  network = [];
}

promise_accepts : (handle_promise first_promise (node 3) pending).phase ≡ accept_commit
unfolding handle_promise insert_and_check_promises advance_phase process_prepare KeyMap.get
    KeyMap.insert
promise_accepts = refl

handle_promise_accepts_example :
    (prepare_pending ≡ accept_commit)
    ⊎ ((prepare_pending ≡ prepare_pending)
        × ((ballot : Ballot) × (ps : List Promise) × ((insert_and_check_promises first_promise
                (node 3)
                pending).0
              ≡ some (ballot, ps))
            × (quorum pending.proposer ≤ valid_promises ps pending.proposer)))
handle_promise_accepts_example =
    handle_promise_accepts first_promise (node 3) pending promise_accepts

-- The same agent after the prepare has timed out.
abbrev timed_out : ProposerAgent Memory Outbox
timed_out = record pending { phase = prepare_send; last_prepare_start = none }

abbrev two_promises : List Promise
two_promises = first_promise ∷ first_promise ∷ []

late_reached :
    (insert_and_check_promises first_promise (node 3) timed_out).0 ≡ some (4, two_promises)
unfolding insert_and_check_promises KeyMap.get KeyMap.insert
late_reached = refl

late_enough : quorum timed_out.proposer ≤ valid_promises two_promises timed_out.proposer
late_enough = omega arith

late_quorum_stalls_example :
    let a' = handle_promise first_promise (node 3) timed_out in
    (a'.phase ≡ prepare_pending) × ((clock : Clock) → check_prepare_timeout clock a' ≡ (false, a'))
late_quorum_stalls_example =
    late_quorum_stalls first_promise (node 3) timed_out 4 two_promises refl refl late_reached
      late_enough

abbrev report : Executed
report = record {
  results =
      record { value = set_x; slot = 1; success = true; cmd_result = CmdResult.cmd_value none }
      ∷ [];
  adu = 1;
}

abbrev answered : ProposerAgent Memory Outbox
answered = record pending {
  proposer = record pending.proposer {
    adu = 1;
    proposals =
        (
          1,
          record { proposal = record { slot = 1; ballot = 4; value = set_x }; status = finalized },
        )
        ∷ [];
  };
  client_responses =
      (
        1,
        record {
          client_id = "c";
          client_seq = 1;
          success = true;
          command_result = CmdResult.cmd_value none;
        },
      )
      ∷ [];
}

report_run : process_executed memory_ops no_codec at_start report pending ≡ some answered
unfolding process_executed Proposer.set_adu save_state process_results mark_proposal_finalized
    update_proposal_status KeyMap.get KeyMap.insert
report_run = refl

process_executed_again_example :
    process_executed memory_ops no_codec at_start report answered ≡ some answered
process_executed_again_example =
    process_executed_again memory_ops no_codec at_start report pending answered report_run

abbrev pub proposed : Proposal
proposed = record { slot = 2; ballot = 4; value = get_x }

abbrev pub sent : ProposerAgent Memory Outbox
sent = record pending { proposer = (create_proposal pending.proposer).1 }

pub batch_run : proposals_to_accept pending ≡ some (proposed ∷ [], sent)
unfolding proposals_up_to create_proposal KeyMap.insert
batch_run = refl

proposals_to_accept-IsBatch_example : IsBatch 10 pending (proposed ∷ []) sent
proposals_to_accept-IsBatch_example =
    proposals_to_accept-IsBatch pending (proposed ∷ []) sent (omega arith) batch_run

abbrev accepted : Accepted
accepted = record { slot = 2; ballot = 4; success = true }
