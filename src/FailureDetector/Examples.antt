-- ===== src/FailureDetector/Examples.antt =====
-- Runs of the failure detector (paxos-wasm/core/failure-detector/src/failure-detector.rs), and the
-- theorems at them.
use wasm_master.Common.{some, ℕ, List, [], ◌∷◌, ◌≡◌, refl}
use wasm_master.Common.KeyMap
use wasm_master.Types.{Node, PaxosRole}
use wasm_master.LeaderDetector
use wasm_master.LeaderDetector.{proposer_ids, recompute_leader, suspect, restore}
use wasm_master.FailureDetector.{state_of, new, check_node, checker, heartbeat, alive_nodes}
use wasm_master.FailureDetector.Checks.{ids_of, IsDistinct}
use wasm_master.FailureDetector.Rounds.{
  heartbeats, rounds, missed, grade, cluster, rounds-new-state,
}

abbrev node : ℕ → Node
node id = record { node_id = id; address = "a"; role = PaxosRole.coordinator }

abbrev others : List Node
others = node 2 ∷ node 3 ∷ []

-- Node 3 is silent for two rounds.
abbrev two_rounds : List (List ℕ)
two_rounds = (2 ∷ []) ∷ (2 ∷ []) ∷ []

leader_run : (rounds two_rounds (new (node 1) others 10)).leader_detector.last_leader ≡ some 2
unfolding rounds new check_node checker heartbeat heartbeats LeaderDetector.new suspect restore
    recompute_leader KeyMap.get KeyMap.insert KeyMap.remove
leader_run = refl

-- Nobody sends anything: the local node is not listed as alive by itself either.
isolated_run : alive_nodes (rounds ([] ∷ [] ∷ []) (new (node 1) others 10)) ≡ []
unfolding rounds new check_node checker heartbeat heartbeats LeaderDetector.new suspect restore
    recompute_leader KeyMap.get KeyMap.insert KeyMap.remove
isolated_run = refl

distinct : IsDistinct (ids_of (cluster (node 1) others))
distinct = (refl, (refl, (refl, tt)))

rounds-new-state_example :
    state_of (rounds two_rounds (new (node 1) others 10)) 3 ≡ grade (missed 1 3 two_rounds 0)
rounds-new-state_example = rounds-new-state (node 1) others 10 two_rounds 3 distinct refl
