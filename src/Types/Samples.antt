-- ===== src/Types/Samples.antt =====
-- Values of the types of paxos-wasm/shared/wit/types.wit, at which the examples run.
use wasm_master.Common.{true, false, some, []}
use wasm_master.Types.{Value, RunConfig, Operation, Node, PaxosRole}

abbrev pub config : RunConfig
config = record {
  is_event_driven = true;
  acceptors_send_learns = false;
  learners_send_executed = true;
  prepare_timeout = 5000;
  batch_size = 10;
  exec_interval_ms = 10;
  retry_interval_ms = 10;
  learn_max_gap = 10;
  message_batch_size = 10;
  persistent_storage = false;
  crashes = [];
  storage_load_snapshots = 2;
  storage_max_snapshots = 2;
  storage_flush_state_count = 1;
  storage_flush_state_interval_ms = 10;
  storage_flush_change_count = 1;
  storage_flush_change_interval_ms = 10;
  storage_snapshot_slot_interval = 4;
}

abbrev pub set_x : Value
set_x = record {
  command = some (Operation.set (record { key = "x"; value = "1" }));
  client_id = "c";
  client_seq = 1;
}

abbrev pub get_x : Value
get_x = record { command = some (Operation.get "x"); client_id = "c"; client_seq = 2 }

abbrev pub node_one : Node
node_one = record { node_id = 1; address = "127.0.0.1:50051"; role = PaxosRole.coordinator }

abbrev pub node_two : Node
node_two = record { node_id = 2; address = "127.0.0.1:50052"; role = PaxosRole.coordinator }
