-- ===== src/FailureDetector/Checks.antt =====
-- One check of the nodes by paxos-wasm/core/failure-detector/src/failure-detector.rs: what it makes
-- of the state of each node, and what the leader detector is told.
use wasm_master.Common.{
  ℕ, Bool, true, false, Option, List, [], ◌∷◌, ◌≡◌, refl, sym, ap, ◌∙◌, arith, ◌==◌, ==_iff,
  if◌then◌else◌, Bool-cases, has, map, inl, inr,
}
use wasm_master.Common.KeyMap
use wasm_master.Common.KeyMap.{KeyMap, get-insert, get-remove, get-nil}
use wasm_master.Types.{Node}
use wasm_master.LeaderDetector.Calls.{Agrees, Agrees-same, put, down, up, call-Agrees}
use wasm_master.FailureDetector.{
  FailureState, FailureDetector, state_of, is_dead, heard, set_state, hear, miss, check_node,
  check_nodes,
}
use wasm_master.FailureDetector.FailureState.{alive, suspected, dead}

-- A check heals a node that was heard and makes one that was not worse, by one degree.
abbrev pub step_state : Bool → FailureState → FailureState
step_state true s = alive
step_state false alive = suspected
step_state false suspected = dead
step_state false dead = dead

abbrev pub dead_nodes : FailureDetector → ℕ → Bool
dead_nodes d k = is_dead (state_of d k)

-- The leader detector holds exactly the dead ones of the nodes `ids` as suspected.
abbrev pub Follows : List ℕ → FailureDetector → Type 0
Follows ids d = Agrees (dead_nodes d) ids d.leader_detector

-- What a check of one node does, from `d` to `d'`.
record IsCheckOf (id : ℕ) (s : FailureState) (d d' : FailureDetector) : Type 0 where
  nodes : d'.all_nodes ≡ d.all_nodes
  local : d'.local_id ≡ d.local_id
  states : (k : ℕ) → state_of d' k ≡ (if id == k then s else state_of d k)
  heards : (k : ℕ) → heard d' k ≡ (if id == k then false else heard d k)
  follows : (ids : List ℕ) → Follows ids d → Follows ids d'

abbrev forget : ℕ → FailureDetector → FailureDetector
forget id d = record d { seen = KeyMap.remove id d.seen }

heard-forget :
    (id k : ℕ) (d : FailureDetector)
    → heard (forget id d) k ≡ (if id == k then false else heard d k)
heard-forget id k d = ground (arith, get-remove id k d.seen)

state-set :
    (id k : ℕ) (s : FailureState) (d : FailureDetector)
    → state_of (set_state id s d) k ≡ (if id == k then s else state_of d k)
state-set id k s d = ground (arith, get-insert id k s d.state_map)

state-same :
    (id k : ℕ) (s : FailureState) (d : FailureDetector)
    → state_of d id ≡ s
    → state_of d k ≡ (if id == k then s else state_of d k)
state-same id k s d e = elim (Bool-cases (id == k)) [
  | inl same ↦ rw same (ap (state_of d) (sym ((==_iff id k).0 same)) ∙ e)
  | inr other ↦ rw other refl
]

-- The new dead nodes, when the state of one has changed.
dead-put :
    (id k : ℕ) (s : FailureState) (b : Bool) (d : FailureDetector)
    → is_dead s ≡ b
    → put id b (dead_nodes d) k ≡ dead_nodes (set_state id s d) k
dead-put id k s b d e = ground (arith, get-insert id k s d.state_map)

dead-keep :
    (id k : ℕ) (s : FailureState) (d : FailureDetector)
    → is_dead (state_of d id) ≡ is_dead s
    → dead_nodes d k ≡ dead_nodes (set_state id s d) k
dead-keep id k s d e = elim (Bool-cases (id == k)) [
  | inl same ↦
      rw (get-insert id k s d.state_map, same) (ap (dead_nodes d) (sym ((==_iff id k).0 same)) ∙ e)
  | inr other ↦ rw (get-insert id k s d.state_map, other) refl
]

hear-IsCheckOf :
    (s : FailureState) (id : ℕ) (nl : Option ℕ) (d : FailureDetector)
    → state_of d id ≡ s
    → IsCheckOf id alive d (hear s id (nl, forget id d)).1
hear-IsCheckOf alive id nl d e = record {
  nodes = refl;
  local = refl;
  states = λ k. state-set id k alive d;
  heards = λ k. heard-forget id k d;
  follows =
      λ ids. Agrees-same _ _ ids d.leader_detector (λ k. dead-keep id k alive d (ap is_dead e));
}
hear-IsCheckOf suspected id nl d e = record {
  nodes = refl;
  local = refl;
  states = λ k. state-set id k alive d;
  heards = λ k. heard-forget id k d;
  follows = λ ids a.
      Agrees-same _ _ ids _ (λ k. dead-put id k alive false d refl)
        (call-Agrees (up id) _ ids d.leader_detector a);
}
hear-IsCheckOf dead id nl d e = record {
  nodes = refl;
  local = refl;
  states = λ k. state-set id k alive d;
  heards = λ k. heard-forget id k d;
  follows = λ ids a.
      Agrees-same _ _ ids _ (λ k. dead-put id k alive false d refl)
        (call-Agrees (up id) _ ids d.leader_detector a);
}

miss-IsCheckOf :
    (s : FailureState) (id : ℕ) (nl : Option ℕ) (d : FailureDetector)
    → state_of d id ≡ s
    → IsCheckOf id (step_state false s) d (miss s id (nl, forget id d)).1
miss-IsCheckOf alive id nl d e = record {
  nodes = refl;
  local = refl;
  states = λ k. state-set id k suspected d;
  heards = λ k. heard-forget id k d;
  follows =
      λ ids. Agrees-same _ _ ids d.leader_detector (λ k. dead-keep id k suspected d (ap is_dead e));
}
miss-IsCheckOf suspected id nl d e = record {
  nodes = refl;
  local = refl;
  states = λ k. state-set id k dead d;
  heards = λ k. heard-forget id k d;
  follows = λ ids a.
      Agrees-same _ _ ids _ (λ k. dead-put id k dead true d refl)
        (call-Agrees (down id) _ ids d.leader_detector a);
}
miss-IsCheckOf dead id nl d e = record {
  nodes = refl;
  local = refl;
  states = λ k. state-same id k dead d e;
  heards = λ k. heard-forget id k d;
  follows = λ ids a. a;
}

check_node-IsCheckOf :
    (id : ℕ) (nl : Option ℕ) (d : FailureDetector)
    → IsCheckOf id (step_state (heard d id) (state_of d id)) d (check_node id (nl, d)).1
unfolding check_node
check_node-IsCheckOf id nl d = elim (Bool-cases (heard d id)) [
  | inl h ↦ rw h (hear-IsCheckOf (state_of d id) id nl d refl)
  | inr m ↦ rw m (miss-IsCheckOf (state_of d id) id nl d refl)
]

abbrev pub ids_of : List Node → List ℕ
ids_of ns = map (λ (n : Node). n.node_id) ns

abbrev pub IsDistinct : List ℕ → Type 0
IsDistinct [] = Unit
IsDistinct (x ∷ xs) = (has x xs ≡ false) × IsDistinct xs

-- What the loop does, from `d` to `d'`, over nodes with the ids `ids`.
pub record IsLoopOf (ids : List ℕ) (d d' : FailureDetector) : Type 0 where
  pub nodes : d'.all_nodes ≡ d.all_nodes
  pub local : d'.local_id ≡ d.local_id
  pub states :
      (k : ℕ)
      → state_of d' k ≡ (if has k ids then step_state (heard d k) (state_of d k) else state_of d k)
  pub follows : (ps : List ℕ) → Follows ps d → Follows ps d'

loop_state :
    (id k : ℕ) (ids : List ℕ) (d d' : FailureDetector)
    → has id ids ≡ false
    → IsCheckOf id (step_state (heard d id) (state_of d id)) d d'
    → (if has k ids then step_state (heard d' k) (state_of d' k) else state_of d' k)
      ≡ (if has k (id ∷ ids) then step_state (heard d k) (state_of d k) else state_of d k)
loop_state id k ids d d' once c = elim (Bool-cases (id == k)) [
  | inl same ↦
      let p : id ≡ k = (==_iff id k).0 same in
      let absent : has k ids ≡ false = ap (λ j. has j ids) (sym p) ∙ once in
      rw (absent, c.states k, same) (ap (λ j. step_state (heard d j) (state_of d j)) p)
  | inr other ↦ rw (c.states k, c.heards k, other) refl
]

pub check_nodes-IsLoopOf :
    (ns : List Node) (nl : Option ℕ) (d : FailureDetector)
    → IsDistinct (ids_of ns)
    → IsLoopOf (ids_of ns) d (check_nodes ns (nl, d)).1
check_nodes-IsLoopOf [] nl d h = record {
  nodes = refl;
  local = refl;
  states = λ k. refl;
  follows = λ ps a. a;
}
check_nodes-IsLoopOf (n ∷ ns) nl d h =
    let c = check_node-IsCheckOf n.node_id nl d in
    let r = check_node n.node_id (nl, d) in
    let l = check_nodes-IsLoopOf ns r.0 r.1 h.1 in
    record {
      nodes = l.nodes ∙ c.nodes;
      local = l.local ∙ c.local;
      states = λ k. l.states k ∙ loop_state n.node_id k (ids_of ns) d r.1 h.0 c;
      follows = λ ps a. l.follows ps (c.follows ps a);
    }
