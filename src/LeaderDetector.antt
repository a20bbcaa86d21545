-- ===== src/LeaderDetector.antt =====
-- `MyLeaderDetectorResource` of paxos-wasm/core/leader-detector/src/leader-detector.rs: the
-- proposers, which of them are suspected, and the leader that was announced last.
pub mod Election
pub mod Calls
pub mod Examples
use wasm_master.Common.{
  ℕ, Bool, true, false, not, Option, none, some, List, [], ◌∷◌, ltb, leb, ◌==◌, select,
  if◌then◌else◌, has,
}
use wasm_master.Common.KeyMap
use wasm_master.Common.KeyMap.{KeyMap}
use wasm_master.Types.{Node, PaxosRole}
use wasm_master.Types.PaxosRole.{coordinator, proposer, acceptor, learner, client}

pub record LeaderDetector : Type 0 where
  pub proposers : List ℕ
  pub suspected : KeyMap Bool
  pub last_leader : Option ℕ

abbrev pub opt_eq : Option ℕ → Option ℕ → Bool
opt_eq none none = true
opt_eq (some a) (some b) = a == b
opt_eq _ _ = false

abbrev pub unwrap_or : Option Bool → Bool → Bool
unwrap_or none b = b
unwrap_or (some a) b = a

abbrev pub is_suspected : KeyMap Bool → ℕ → Bool
is_suspected suspected id = unwrap_or (KeyMap.get id suspected) false

-- `max()` of an iterator, over what has been seen before
abbrev pub max_with : Option ℕ → ℕ → Option ℕ
max_with none id = some id
max_with (some m) id = if leb m id then some id else some m

abbrev pub max_of : Option ℕ → List ℕ → Option ℕ
max_of seen [] = seen
max_of seen (id ∷ ids) = max_of (max_with seen id) ids

unfoldable pub recompute_leader : LeaderDetector → Option ℕ
recompute_leader d = max_of none (select (λ id. not (is_suspected d.suspected id)) d.proposers)

abbrev pub may_propose : PaxosRole → Bool
may_propose coordinator = true
may_propose proposer = true
may_propose acceptor = false
may_propose learner = false
may_propose client = false

-- The ids of the nodes that may propose.
abbrev pub proposer_ids : List Node → List ℕ
proposer_ids [] = []
proposer_ids (n ∷ ns) =
    let rest = proposer_ids ns in if may_propose n.role then n.node_id ∷ rest else rest

abbrev pub unsuspected : KeyMap Bool → List Node → KeyMap Bool
unsuspected m [] = m
unsuspected m (n ∷ ns) =
    unsuspected (if may_propose n.role then KeyMap.insert n.node_id false m else m) ns

-- The loop that finds the initial leader.
abbrev pub higher : Option ℕ → ℕ → Option ℕ
higher none id = some id
higher (some m) id = if ltb m id then some id else some m

abbrev pub initial_leader : Option ℕ → List ℕ → Option ℕ
initial_leader max_id [] = max_id
initial_leader max_id (id ∷ ids) = initial_leader (higher max_id id) ids

unfoldable pub new : List Node → Node → LeaderDetector
new all local = record {
  proposers = proposer_ids all;
  suspected = unsuspected [] all;
  last_leader = initial_leader none (proposer_ids all);
}

-- The end of `suspect` and of `restore`: what is announced, and remembered, is a change.
abbrev pub announce : Option ℕ → LeaderDetector → Option ℕ × LeaderDetector
announce new_leader d =
    if not (opt_eq new_leader d.last_leader)
    then (new_leader, record d { last_leader = new_leader })
    else (none, d)

-- `suspected.insert(node, b)`
abbrev pub mark : ℕ → Bool → LeaderDetector → LeaderDetector
mark node b d = record d { suspected = KeyMap.insert node b d.suspected }

unfoldable pub suspect : ℕ → LeaderDetector → Option ℕ × LeaderDetector
suspect node d =
    if not (has node d.proposers)
    then (none, d)
    else announce (recompute_leader (mark node true d)) (mark node true d)

unfoldable pub restore : ℕ → LeaderDetector → Option ℕ × LeaderDetector
restore node d =
    if not (has node d.proposers)
    then (none, d)
    else announce (recompute_leader (mark node false d)) (mark node false d)
