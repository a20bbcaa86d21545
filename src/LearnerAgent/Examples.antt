-- ===== src/LearnerAgent/Examples.antt =====
-- Runs of paxos-wasm/agents/learner-agent/src/learner-agent.rs, and the theorems at them.
use wasm_master.Common.{
  ℕ, ◌+◌, ◌<◌, true, none, some, List, [], ◌∷◌, ◌≡◌, refl, arith, length, as_usize, ◌==◌,
  if◌then◌else◌,
}
use wasm_master.Common.Fallible.{ok, err}
use wasm_master.Common.KeyMap
use wasm_master.Types.{CmdResult, RunConfig}
use wasm_master.Types.Samples.{config, set_x, get_x, node_one, node_two}
use wasm_master.Types.Messages.{MessagePayload, RetryLearnResult}
use wasm_master.Persistence.{Clock}
use wasm_master.Persistence.InMemory.{Memory, memory_ops, empty_memory, no_codec, at_start}
use wasm_master.Network.{message_from}
use wasm_master.Network.Outbox.{Outbox, outbox_ops}
use wasm_master.Learner
use wasm_master.Learner.{to_be_executed, collect, get_highest_learned}
use wasm_master.Learner.Storage
use wasm_master.Learner.Storage.{Codecs}
use wasm_master.Learner.Decided.{Log, commands}
use wasm_master.Learner.Examples.{codecs, waiting}
use wasm_master.KvStore
use wasm_master.KvStore.Refinement.{new-IsReplayed}
use wasm_master.LearnerAgent
use wasm_master.LearnerAgent.{
  LearnerAgent, scan, evaluate_retry, collect_executed, get_adu, available_of, handle_tick,
  execute_chosen_learns,
}
use wasm_master.LearnerAgent.Retries.{IsBatch, evaluate_retry-IsBatch}
use wasm_master.LearnerAgent.Replication.{Replica}
use wasm_master.LearnerAgent.Runs.{Event, run, Consistent, runs_agree}
use wasm_master.LearnerAgent.Runs.Event.{receive, tick}
use wasm_master.LearnerAgent.Reports.{new_skips_log}

-- One result waits in the buffer, and slot 1 is learned and not executed.
abbrev pub agent : LearnerAgent Memory Outbox
agent = record {
  config = config;
  node = node_one;
  proposers = node_one ∷ node_two ∷ [];
  acceptors = node_one ∷ node_two ∷ [];
  all_nodes = node_one ∷ node_two ∷ [];
  learner = waiting;
  kv_store = KvStore.new;
  network = [];
  last_learn_time = 0;
  retries = [];
  exec_buffer =
      record { value = get_x; slot = 0; success = true; cmd_result = CmdResult.cmd_value none }
      ∷ [];
  last_exec_time = 0;
}

abbrev at_20 : Clock
at_20 = record { now = 20; timestamp = "" }

abbrev at_25 : Clock
at_25 = record { now = 25; timestamp = "" }

abbrev asked : LearnerAgent Memory Outbox
asked = record agent { retries = (1, 20) ∷ []; last_learn_time = 20 }

asks : evaluate_retry at_20 agent ≡ (RetryLearnResult.retry (1 ∷ []), asked)
unfolding evaluate_retry scan KeyMap.get KeyMap.insert
asks = refl

evaluate_retry-IsBatch_example :
    (0 < length {A = ℕ} (1 ∷ []))
    × IsBatch 1 2 (as_usize 10) 20 10 [] (1 ∷ []) (evaluate_retry at_20 agent).1.retries
evaluate_retry-IsBatch_example =
    evaluate_retry-IsBatch at_20 agent (1 ∷ []) (omega arith) (λ i. (asks i).0)

abbrev log : Log
log s = if s == 1 then set_x else get_x

agent-Replica : Replica log agent
agent-Replica = record {
  follows = record {
    learned = ((refl, omega arith), tt);
    votes = ((refl, tt), tt);
    small = omega arith;
  };
  history = refl;
  replayed = new-IsReplayed;
}

abbrev events : List (Clock × Event)
events =
    (
      at_20,
      receive (message_from node_two (MessagePayload.learn (record { slot = 2; value = get_x }))),
    )
    ∷ (at_25, tick)
    ∷ []

runs_agree_example :
    (c d : LearnerAgent Memory Outbox) × (run memory_ops outbox_ops codecs events agent ≡ some c)
    × (run memory_ops outbox_ops codecs ((at_25, tick) ∷ []) agent ≡ some d)
    × Consistent c d
runs_agree_example =
    runs_agree memory_ops outbox_ops codecs log events ((at_25, tick) ∷ []) agent agent
      ((refl, omega arith), (tt, tt)) (tt, tt) agent-Replica agent-Replica

-- A change is stored as its slot; its value is `set_x`.
abbrev slot_codecs : Codecs
slot_codecs = record {
  change = record {
    encode = λ e. ok (e.slot ∷ []);
    decode = λ b. elim b [ [] ↦ err "empty" | s ∷ _ ↦ ok (record { slot = s; value = set_x }) ];
  };
  snapshot = no_codec;
}

abbrev on_disk : Memory
on_disk = record empty_memory { changes = (1 ∷ []) ∷ (2 ∷ []) ∷ [] }

abbrev durable : RunConfig
durable = record config { persistent_storage = true }

-- It has loaded slots 1 and 2.
abbrev restarted : LearnerAgent Memory Outbox
restarted = record agent {
  config = durable;
  exec_buffer = [];
  learner = record waiting {
    num_acceptors = 3;
    slot_learns = [];
    learned = (1, set_x) ∷ (2, set_x) ∷ [];
    adu = 2;
    storage = record waiting.storage { store = on_disk; run_config = durable; enabled = true };
  };
}

restarts :
    LearnerAgent.new memory_ops outbox_ops slot_codecs 7 on_disk [] node_one
      (node_one ∷ node_two ∷ [])
      durable
      at_start
    ≡ some restarted
unfolding LearnerAgent.new Learner.new Storage.new Learner.load_state Storage.load_and_replay_state
    Storage.apply_snapshots Storage.replay_changes Storage.contiguous_end Storage.advance
    Storage.skip_to KeyMap.insert
restarts = refl

new_skips_log_example :
    (n : ℕ) × (b : LearnerAgent Memory Outbox) × (execute_chosen_learns memory_ops outbox_ops
        slot_codecs at_20 restarted
      ≡ some b)
    × (get_adu b ≡ 2 + n)
    × (b.kv_store.history ≡ commands (λ s. set_x) 3 n)
new_skips_log_example =
    new_skips_log memory_ops outbox_ops slot_codecs 7 on_disk [] node_one (node_one ∷ node_two ∷ [])
      durable at_start at_20 restarted (λ s. set_x) restarts
      (record {
        learned = ((refl, omega arith), ((refl, omega arith), tt));
        votes = tt;
        small = omega arith;
      })
