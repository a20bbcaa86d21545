-- ===== src/LeaderDetector/Examples.antt =====
-- Runs of the leader detector (paxos-wasm/core/leader-detector/src/leader-detector.rs), and the
-- theorems at them.
use wasm_master.Common.{some, ℕ, false, List, [], ◌∷◌, ◌≡◌, refl}
use wasm_master.Common.KeyMap
use wasm_master.Types.{Node, PaxosRole}
use wasm_master.LeaderDetector.{proposer_ids, recompute_leader, new, suspect, restore}
use wasm_master.LeaderDetector.Election.{IsLeader}
use wasm_master.LeaderDetector.Calls.{Call, down, up, call_all, down_after, call_all-new-IsLeader}

abbrev node : ℕ → PaxosRole → Node
node id role = record { node_id = id; address = "a"; role = role }

abbrev nodes : List Node
nodes =
    node 3 PaxosRole.coordinator
    ∷ node 9 PaxosRole.acceptor
    ∷ node 5 PaxosRole.proposer
    ∷ node 4 PaxosRole.coordinator
    ∷ []

abbrev calls : List Call
calls = down 5 ∷ down 9 ∷ down 4 ∷ up 4 ∷ []

calls_run : (call_all calls (new nodes (node 3 PaxosRole.coordinator))).last_leader ≡ some 4
unfolding call_all new suspect restore recompute_leader KeyMap.get KeyMap.insert
calls_run = refl

call_all-new-IsLeader_example :
    IsLeader
      (down_after calls (λ k. false))
      (proposer_ids nodes)
      (call_all calls (new nodes (node 3 PaxosRole.coordinator))).last_leader
call_all-new-IsLeader_example = call_all-new-IsLeader nodes (node 3 PaxosRole.coordinator) calls
