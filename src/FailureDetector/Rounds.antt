-- ===== src/FailureDetector/Rounds.antt =====
-- Rounds of heartbeats, each ended by a check, of
-- paxos-wasm/core/failure-detector/src/failure-detector.rs.
use wasm_master.Common.{
  ℕ, zero, suc, Bool, true, false, ◌||◌, none, List, [], ◌∷◌, ◌++◌, ◌≡◌, refl, sym, ap, ◌∙◌, subst,
  arith, ◌==◌, leb, if◌then◌else◌, has,
}
use wasm_master.Common.KeyMap
use wasm_master.Common.KeyMap.{KeyMap, get-insert, get-remove, get-nil}
use wasm_master.Types.{Node}
use wasm_master.LeaderDetector.{unwrap_or, proposer_ids}
use wasm_master.LeaderDetector.Election.{IsLeader}
use wasm_master.LeaderDetector.Calls.{Agrees-same, Agrees-IsLeader, new-Agrees, IsLeader-agree}
use wasm_master.FailureDetector.{
  FailureState, FailureDetector, state_of, or_alive, all_alive, is_dead, heard, checker, heartbeat,
  new,
}
use wasm_master.FailureDetector.FailureState.{alive, suspected, dead}
use wasm_master.FailureDetector.Checks.{
  step_state, Follows, ids_of, IsDistinct, check_nodes-IsLoopOf,
}

unfoldable pub heartbeats : List ℕ → FailureDetector → FailureDetector
heartbeats [] d = d
heartbeats (from ∷ froms) d = heartbeats froms (heartbeat from d)

abbrev pub round : List ℕ → FailureDetector → FailureDetector
round froms d = (checker (heartbeats froms d)).1

-- Each round is the list of the senders of its heartbeats.
unfoldable pub rounds : List (List ℕ) → FailureDetector → FailureDetector
rounds [] d = d
rounds (r ∷ rs) d = rounds rs (round r d)

-- A round hears its senders, and the local node if there is a sender at all.
abbrev pub hears : ℕ → List ℕ → ℕ → Bool
hears local [] k = false
hears local (from ∷ froms) k = (local == k) || has k (from ∷ froms)

-- The rounds without a sign of `k` since the last one with a sign, of which `n` lie before.
unfoldable pub missed : ℕ → ℕ → List (List ℕ) → ℕ → ℕ
missed local k [] n = n
missed local k (r ∷ rs) n = missed local k rs (if hears local r k then 0 else suc n)

abbrev pub grade : ℕ → FailureState
grade zero = alive
grade (suc zero) = suspected
grade (suc (suc n)) = dead

step-grade : (b : Bool) (n : ℕ) → step_state b (grade n) ≡ grade (if b then 0 else suc n)
step-grade true n = refl
step-grade false zero = refl
step-grade false (suc zero) = refl
step-grade false (suc (suc n)) = refl

-- Heartbeats change what was seen alone.
heartbeats_frame :
    (froms : List ℕ) (d : FailureDetector)
    → heartbeats froms d ≡ record d { seen = (heartbeats froms d).seen }
unfolding heartbeats heartbeat
heartbeats_frame [] d = refl
heartbeats_frame (from ∷ froms) d = heartbeats_frame froms (heartbeat from d)

heard-heartbeat :
    (from k : ℕ) (d : FailureDetector)
    → heard (heartbeat from d) k
      ≡ (if d.local_id == k then true else if from == k then true else heard d k)
unfolding heartbeat
heard-heartbeat from k d = ground (
  arith,
  get-insert d.local_id k true (KeyMap.insert from true d.seen),
  get-insert from k true d.seen,
)

heard-heartbeats :
    (froms : List ℕ) (d : FailureDetector) (k : ℕ)
    → heard (heartbeats froms d) k ≡ hears d.local_id froms k || heard d k
unfolding heartbeats heartbeat
heard-heartbeats [] d k = refl
heard-heartbeats (from ∷ []) d k = ground (arith, heard-heartbeat from k d)
heard-heartbeats (from ∷ f ∷ froms) d k =
    heard-heartbeats (f ∷ froms) (heartbeat from d) k
    ∙ ap (λ b. hears (heartbeat from d).local_id (f ∷ froms) k || b) (heard-heartbeat from k d)
    ∙ ground arith

-- What a round does, from `d` to `d'`, when nothing was seen before it.
pub record IsRoundOf (froms : List ℕ) (d d' : FailureDetector) : Type 0 where
  pub nodes : d'.all_nodes ≡ d.all_nodes
  pub local : d'.local_id ≡ d.local_id
  pub seen : d'.seen ≡ []
  pub states :
      (k : ℕ)
      → has k (ids_of d.all_nodes) ≡ true
      → state_of d' k ≡ step_state (hears d.local_id froms k) (state_of d k)
  pub follows : (ps : List ℕ) → Follows ps d → Follows ps d'

heard_first :
    (froms : List ℕ) (d : FailureDetector) (k : ℕ)
    → d.seen ≡ []
    → heard (heartbeats froms d) k ≡ hears d.local_id froms k
heard_first froms d k e =
    let quiet : heard d k ≡ false = rw e (ap (λ o. unwrap_or o false) (get-nil k)) in
    heard-heartbeats froms d k ∙ ground (arith, quiet)

pub round-IsRoundOf :
    (froms : List ℕ) (d : FailureDetector)
    → IsDistinct (ids_of d.all_nodes)
    → d.seen ≡ []
    → IsRoundOf froms d (round froms d)
unfolding checker
round-IsRoundOf froms d distinct e =
    let h = heartbeats froms d in
    let frame = heartbeats_frame froms d in
    let same : h.all_nodes ≡ d.all_nodes = ap (λ (q : FailureDetector). q.all_nodes) frame in
    let l =
      check_nodes-IsLoopOf h.all_nodes none h
        (subst (λ ns. IsDistinct (ids_of ns)) (sym same) distinct) in
    record {
      nodes = l.nodes ∙ same;
      local = l.local ∙ ap (λ (q : FailureDetector). q.local_id) frame;
      seen = refl;
      states = λ k listed.
          l.states k
          ∙ (let listed' : has k (ids_of h.all_nodes) ≡ true =
                ap (λ ns. has k (ids_of ns)) same ∙ listed in
              let state : state_of h k ≡ state_of d k =
                ap (λ (q : FailureDetector). state_of q k) frame in
              rw (listed', heard_first froms d k e, state) refl);
      follows = λ ps a. l.follows ps (subst (Follows ps) (sym frame) a);
    }

rounds_state :
    (rs : List (List ℕ)) (d : FailureDetector) (k n : ℕ)
    → IsDistinct (ids_of d.all_nodes)
    → d.seen ≡ []
    → has k (ids_of d.all_nodes) ≡ true
    → state_of d k ≡ grade n
    → state_of (rounds rs d) k ≡ grade (missed d.local_id k rs n)
unfolding rounds missed
rounds_state [] d k n distinct quiet listed e = e
rounds_state (r ∷ rs) d k n distinct quiet listed e =
    let c = round-IsRoundOf r d distinct quiet in
    let next = if hears d.local_id r k then 0 else suc n in
    rounds_state rs (round r d) k next (subst (λ ns. IsDistinct (ids_of ns)) (sym c.nodes) distinct)
      c.seen (ap (λ ns. has k (ids_of ns)) c.nodes ∙ listed)
      (c.states k listed
        ∙ ap (step_state (hears d.local_id r k)) e
        ∙ step-grade (hears d.local_id r k) n)
    ∙ ap (λ i. grade (missed i k rs next)) c.local

rounds-Follows :
    (rs : List (List ℕ)) (d : FailureDetector) (ps : List ℕ)
    → IsDistinct (ids_of d.all_nodes)
    → d.seen ≡ []
    → Follows ps d
    → Follows ps (rounds rs d)
unfolding rounds
rounds-Follows [] d ps distinct quiet a = a
rounds-Follows (r ∷ rs) d ps distinct quiet a =
    let c = round-IsRoundOf r d distinct quiet in
    rounds-Follows rs (round r d) ps (subst (λ ns. IsDistinct (ids_of ns)) (sym c.nodes) distinct)
      c.seen (c.follows ps a)

all_alive_none :
    (ns : List Node) (m : KeyMap FailureState)
    → ((k : ℕ) → or_alive (KeyMap.get k m) ≡ alive)
    → (k : ℕ) → or_alive (KeyMap.get k (all_alive m ns)) ≡ alive
all_alive_none [] m h k = h k
all_alive_none (n ∷ ns) m h k =
    all_alive_none ns (KeyMap.insert n.node_id alive m)
      (λ j. let eq = get-insert n.node_id j alive m in ground (arith, h j)) k

new_alive :
    (local : Node) (others : List Node) (delta k : ℕ) → state_of (new local others delta) k ≡ alive
unfolding new
new_alive local others delta k =
    all_alive_none (others ++ local ∷ []) [] (λ j. ap or_alive (get-nil j)) k

-- The ids of a new detector's nodes.
abbrev pub cluster : Node → List Node → List Node
cluster local others = others ++ local ∷ []

-- If no two nodes have the same id, then after any rounds of heartbeats with a check at the end of
-- each, a node is alive if the last round has heard it, suspected if one round has passed since it
-- was heard, and dead if two or more have; the detector starts as if it had just heard all of them.
-- The local node counts as heard in each round with a heartbeat from anybody.
pub rounds-new-state :
    (local : Node) (others : List Node) (delta : ℕ) (rs : List (List ℕ)) (k : ℕ)
    → IsDistinct (ids_of (cluster local others))
    → has k (ids_of (cluster local others)) ≡ true
    → state_of (rounds rs (new local others delta)) k ≡ grade (missed local.node_id k rs 0)
unfolding new
rounds-new-state local others delta rs k distinct listed =
    rounds_state rs (new local others delta) k 0 distinct refl listed
      (new_alive local others delta k)

has-proposer_ids :
    (k : ℕ) (ns : List Node) → has k (proposer_ids ns) ≡ true → has k (ids_of ns) ≡ true
has-proposer_ids k [] h = h
has-proposer_ids k (n ∷ ns) h = ground (arith, has-proposer_ids k ns)

pub is_dead-grade : (n : ℕ) → is_dead (grade n) ≡ leb 2 n
is_dead-grade zero = refl
is_dead-grade (suc zero) = refl
is_dead-grade (suc (suc n)) = ground arith

-- If no two nodes have the same id, then after any rounds the leader is the highest id of a node
-- that may propose and was heard in one of the last two rounds; there is none if there is no such
-- node. (A new detector counts as having heard all nodes.)
pub rounds-new-IsLeader :
    (local : Node) (others : List Node) (delta : ℕ) (rs : List (List ℕ))
    → IsDistinct (ids_of (cluster local others))
    → IsLeader
        (λ k. leb 2 (missed local.node_id k rs 0))
        (proposer_ids (cluster local others))
        (rounds rs (new local others delta)).leader_detector.last_leader
unfolding new
rounds-new-IsLeader local others delta rs distinct =
    let d = new local others delta in
    let ids = proposer_ids (cluster local others) in
    let start : Follows ids d =
      Agrees-same (λ k. false) _ ids d.leader_detector
        (λ k. sym (ap is_dead (new_alive local others delta k)))
        (new-Agrees (cluster local others) local) in
    let last = rounds-Follows rs d ids distinct refl start in
    IsLeader-agree _ _ ids _
      (λ k listed.
        ap is_dead (
          rounds-new-state local others delta rs k distinct
            (has-proposer_ids k (cluster local others) listed))
        ∙ is_dead-grade (missed local.node_id k rs 0))
      (Agrees-IsLeader _ ids _ last)
