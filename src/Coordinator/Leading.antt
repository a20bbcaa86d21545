-- ===== src/Coordinator/Leading.antt =====
-- `failure_service` of paxos-wasm/runners/paxos-coordinator/src/coordinator.rs: the failure detector
-- names the leader, and the proposer of the node leads or resigns.
use wasm_master.Common.{ℕ, Bool, not, Option, none, some, ◌==◌, ◌&&◌, if◌then◌else◌}
use mathlib.Core.Option
use wasm_master.Persistence.{StorageOps, Clock}
use wasm_master.Network.{NetworkOps, may_propose}
use wasm_master.ProposerAgent.{ProposerAgent}
use wasm_master.ProposerAgent.Handlers
use wasm_master.FailureDetector
use wasm_master.FailureDetector.{FailureDetector}
use wasm_master.Coordinator.{Coordinator, Encodings, proposer_of, with_proposer}

module _ {S N : Type 0} (ops : StorageOps S) (net : NetworkOps N) (enc : Encodings)
    (clock : Clock) where
  -- A proposer that `new_leader` names becomes leader, and any other that leads resigns.
  abbrev pub lead_or_resign : Bool → ProposerAgent S N → Option (ProposerAgent S N)
  lead_or_resign named p =
      if named && not (Handlers.is_leader p)
      then Option.map (λ r. r.1) (Handlers.become_leader ops net enc.proposer_codec clock p)
      else if not named && Handlers.is_leader p
      then some (Handlers.resign_leader p).1
      else some p

  -- A node with the role of a proposer or coordinator has a proposer; `none` is a panic.
  abbrev pub follow_leader : ℕ → Coordinator S N → Option (Coordinator S N)
  follow_leader leader_id c = elim (proposer_of c.agents) [
    | none ↦ none
    | some p ↦
        Option.map (λ q. record c { agents = with_proposer q c.agents })
          (lead_or_resign (leader_id == c.node.node_id) p)
  ]

  abbrev pub notified : Option ℕ → Coordinator S N → Option (Option ℕ × Coordinator S N)
  notified none c = some (none, c)
  notified (some leader_id) c =
      if may_propose c.node.role
      then Option.map (λ c'. (some leader_id, c')) (follow_leader leader_id c)
      else some (some leader_id, c)

  unfoldable pub failure_service : Coordinator S N → Option (Option ℕ × Coordinator S N)
  failure_service c =
      let (maybe_new_leader, d) = FailureDetector.checker c.failure_detector in
      notified maybe_new_leader (record c { failure_detector = d })
