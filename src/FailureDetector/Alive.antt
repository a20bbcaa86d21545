-- ===== src/FailureDetector/Alive.antt =====
-- `alive_nodes` of paxos-wasm/core/failure-detector/src/failure-detector.rs.
use wasm_master.Common.{
  ℕ, Bool, not, List, [], ◌∷◌, ◌≡◌, refl, sym, ap, ◌∙◌, subst, leb, if◌then◌else◌, All, All-imp,
  All-has, select,
}
use wasm_master.Types.{Node}
use wasm_master.FailureDetector.{FailureDetector, state_of, is_dead, new, not_dead, alive_nodes}
use wasm_master.FailureDetector.Checks.{ids_of, IsDistinct}
use wasm_master.FailureDetector.Rounds.{
  round, rounds, missed, cluster, round-IsRoundOf, rounds-new-state, is_dead-grade,
}

not_dead-select :
    (d : FailureDetector) (f : ℕ → Bool) (ns : List Node)
    → All (λ k. is_dead (state_of d k) ≡ f k) (ids_of ns)
    → not_dead d ns ≡ select (λ k. not (f k)) (ids_of ns)
not_dead-select d f [] a = refl
not_dead-select d f (n ∷ ns) a =
    rw a.0 (ap (λ l. if not (f n.node_id) then n.node_id ∷ l else l) (not_dead-select d f ns a.1))

rounds_nodes :
    (rs : List (List ℕ)) (d : FailureDetector)
    → IsDistinct (ids_of d.all_nodes)
    → d.seen ≡ []
    → (rounds rs d).all_nodes ≡ d.all_nodes
unfolding rounds
rounds_nodes [] d distinct quiet = refl
rounds_nodes (r ∷ rs) d distinct quiet =
    let c = round-IsRoundOf r d distinct quiet in
    rounds_nodes rs (round r d) (subst (λ ns. IsDistinct (ids_of ns)) (sym c.nodes) distinct) c.seen
    ∙ c.nodes

-- If no two nodes have the same id, then after any rounds `alive_nodes` lists, in the order of the
-- nodes, those that were heard in one of the last two rounds. (A new detector counts as having
-- heard all nodes.)
pub alive_nodes_lem :
    (local : Node) (others : List Node) (delta : ℕ) (rs : List (List ℕ))
    → IsDistinct (ids_of (cluster local others))
    → alive_nodes (rounds rs (new local others delta))
      ≡ select (λ k. not (leb 2 (missed local.node_id k rs 0))) (ids_of (cluster local others))
unfolding new
alive_nodes_lem local others delta rs distinct =
    let d = rounds rs (new local others delta) in
    ap (not_dead d) (rounds_nodes rs (new local others delta) distinct refl)
    ∙ not_dead-select d _ (cluster local others) (
        All-imp
          (λ k listed.
            ap is_dead (rounds-new-state local others delta rs k distinct listed)
            ∙ is_dead-grade (missed local.node_id k rs 0))
          (ids_of (cluster local others)) (All-has (ids_of (cluster local others))))
