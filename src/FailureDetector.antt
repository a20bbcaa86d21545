-- ===== src/FailureDetector.antt =====
-- `MyFailureDetectorResource` of paxos-wasm/core/failure-detector/src/failure-detector.rs: the state
-- of each node, the heartbeats since the last check, and the leader detector that it tells.
pub mod Checks
pub mod Rounds
pub mod Alive
pub mod Examples
use wasm_master.Common.{
  ℕ, Bool, true, false, not, Option, none, some, List, [], ◌∷◌, ◌++◌, if◌then◌else◌,
}
use wasm_master.Common.KeyMap
use wasm_master.Common.KeyMap.{KeyMap}
use wasm_master.Types.{Node}
use wasm_master.LeaderDetector
use wasm_master.LeaderDetector.{LeaderDetector, suspect, restore, unwrap_or}

pub data FailureState : Type 0 where
  alive suspected dead : FailureState

pub record FailureDetector : Type 0 where
  pub local_id : ℕ
  pub all_nodes : List Node
  pub leader_detector : LeaderDetector
  pub state_map : KeyMap FailureState
  pub seen : KeyMap Bool

abbrev pub all_alive : KeyMap FailureState → List Node → KeyMap FailureState
all_alive m [] = m
all_alive m (n ∷ ns) = all_alive (KeyMap.insert n.node_id FailureState.alive m) ns

unfoldable pub new : Node → List Node → ℕ → FailureDetector
new local others delta =
    let all = others ++ local ∷ [] in
    record {
      local_id = local.node_id;
      all_nodes = all;
      leader_detector = LeaderDetector.new all local;
      state_map = all_alive [] all;
      seen = [];
    }

-- `get(&id).unwrap_or(&FailureState::Alive)`
abbrev pub or_alive : Option FailureState → FailureState
or_alive none = FailureState.alive
or_alive (some s) = s

abbrev pub state_of : FailureDetector → ℕ → FailureState
state_of d id = or_alive (KeyMap.get id d.state_map)

abbrev pub is_alive : FailureState → Bool
is_alive FailureState.alive = true
is_alive FailureState.suspected = false
is_alive FailureState.dead = false

abbrev pub is_dead : FailureState → Bool
is_dead FailureState.alive = false
is_dead FailureState.suspected = false
is_dead FailureState.dead = true

abbrev pub heard : FailureDetector → ℕ → Bool
heard d id = unwrap_or (KeyMap.get id d.seen) false

abbrev pub set_state : ℕ → FailureState → FailureDetector → FailureDetector
set_state id s d = record d { state_map = KeyMap.insert id s d.state_map }

-- `if let Some(l) = … { new_leader = Some(l) }`
abbrev pub or_keep : Option ℕ → Option ℕ → Option ℕ
or_keep none new_leader = new_leader
or_keep (some l) new_leader = some l

-- The leader detector's answer and its state, taken over.
abbrev pub notify :
    Option ℕ × LeaderDetector → Option ℕ × FailureDetector → Option ℕ × FailureDetector
notify (r, ld) (new_leader, d) = (or_keep r new_leader, record d { leader_detector = ld })

abbrev pub map_state : ℕ → FailureState → Option ℕ × FailureDetector → Option ℕ × FailureDetector
map_state id s (new_leader, d) = (new_leader, set_state id s d)

-- A node whose heartbeat was seen.
abbrev pub hear : FailureState → ℕ → Option ℕ × FailureDetector → Option ℕ × FailureDetector
hear current id (new_leader, d) = map_state id FailureState.alive (
    if not (is_alive current)
    then notify (restore id d.leader_detector) (new_leader, d)
    else (new_leader, d))

-- A node whose heartbeat is missing.
abbrev pub miss : FailureState → ℕ → Option ℕ × FailureDetector → Option ℕ × FailureDetector
miss FailureState.alive id (new_leader, d) = (new_leader, set_state id FailureState.suspected d)
miss FailureState.suspected id (new_leader, d) =
    notify (suspect id d.leader_detector) (new_leader, set_state id FailureState.dead d)
miss FailureState.dead id (new_leader, d) = (new_leader, d)

-- The body of the loop of `checker`.
unfoldable pub check_node : ℕ → Option ℕ × FailureDetector → Option ℕ × FailureDetector
check_node id (new_leader, d) =
    let current = state_of d id in
    let d' : FailureDetector = record d { seen = KeyMap.remove id d.seen } in
    if heard d id then hear current id (new_leader, d') else miss current id (new_leader, d')

abbrev pub check_nodes : List Node → Option ℕ × FailureDetector → Option ℕ × FailureDetector
check_nodes [] acc = acc
check_nodes (n ∷ ns) acc = check_nodes ns (check_node n.node_id acc)

unfoldable pub checker : FailureDetector → Option ℕ × FailureDetector
checker d =
    let (new_leader, d') = check_nodes d.all_nodes (none, d) in
    (new_leader, record d' { seen = [] })

unfoldable pub heartbeat : ℕ → FailureDetector → FailureDetector
heartbeat from d = record d {
  seen = KeyMap.insert d.local_id true (KeyMap.insert from true d.seen);
}

abbrev pub not_dead : FailureDetector → List Node → List ℕ
not_dead d [] = []
not_dead d (n ∷ ns) =
    let rest = not_dead d ns in
    if not (is_dead (state_of d n.node_id)) then n.node_id ∷ rest else rest

abbrev pub alive_nodes : FailureDetector → List ℕ
alive_nodes d = not_dead d d.all_nodes
