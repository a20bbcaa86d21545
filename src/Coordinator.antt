-- ===== src/Coordinator.antt =====
-- The coordinator of paxos-wasm/runners/paxos-coordinator/src/coordinator.rs
-- (`MyPaxosCoordinatorResource`): the agents of a node, which role runs which, who gets a message,
-- and how the failure detector makes a node lead or resign.

pub mod Messages
pub mod Leading
pub mod Ticks
pub mod Single
pub mod Accepting
pub mod Failover
pub mod Preparing
pub mod Progress
mod Examples
use wasm_master.Common.{
  ℕ, Bool, true, false, not, Option, none, some, List, [], ◌∷◌, ◌==◌, ◌&&◌, if◌then◌else◌,
}
use mathlib.Core.Option
use wasm_master.Types.PaxosRole.{coordinator, proposer, acceptor, learner, client}
use wasm_master.Types.{Slot, Value, Node, PaxosRole, LearnedEntry, KvPair, RunConfig}
use wasm_master.Types.Messages.{MessagePayload, NetworkMessage}
use wasm_master.Persistence.{StorageOps, Codec, Clock}
use wasm_master.Network.{NetworkOps, message_from, may_propose}
use wasm_master.Proposer.Storage.{CurrentState}
use wasm_master.Acceptor.Storage.{Codecs as AcceptorCodecs}
use wasm_master.Learner.Storage.{Codecs as LearnerCodecs}
use wasm_master.ProposerAgent.{ProposerAgent}
use wasm_master.ProposerAgent.Broadcast
use wasm_master.ProposerAgent.Handlers
use wasm_master.AcceptorAgent
use wasm_master.AcceptorAgent.{AcceptorAgent}
use wasm_master.LearnerAgent
use wasm_master.LearnerAgent.{LearnerAgent}
use wasm_master.FailureDetector
use wasm_master.FailureDetector.{FailureDetector}

-- The fields of `Agents::Coordinator`.
pub record Combined (S N : Type 0) : Type 0 where
  pub proposer : ProposerAgent S N
  pub acceptor : AcceptorAgent S N
  pub learner : LearnerAgent S N

pub data Agents (S N : Type 0) : Type 0 where
  only_proposer : ProposerAgent S N → Agents S N
  only_acceptor : AcceptorAgent S N → Agents S N
  only_learner : LearnerAgent S N → Agents S N
  combined : Combined S N → Agents S N

pub record Coordinator (S N : Type 0) : Type 0 where
  pub config : RunConfig
  pub node : Node
  pub nodes : List Node
  pub agents : Agents S N
  pub failure_detector : FailureDetector

-- What the constructors of the resources of an agent make: the hash, the storage, and the client.
pub record Made (S N : Type 0) : Type 0 where
  pub hash : ℕ
  pub store : S
  pub network : N

-- The encodings of the three components.
pub record Encodings : Type 0 where
  pub proposer_codec : Codec CurrentState
  pub acceptor_codecs : AcceptorCodecs
  pub learner_codecs : LearnerCodecs

module _ {S N : Type 0} where
  -- `none` where the node has no proposer, on which `proposer()` panics.
  abbrev pub proposer_of : Agents S N → Option (ProposerAgent S N)
  proposer_of (Agents.only_proposer p) = some p
  proposer_of (Agents.only_acceptor a) = none
  proposer_of (Agents.only_learner l) = none
  proposer_of (Agents.combined c) = some c.proposer

  abbrev pub with_proposer : ProposerAgent S N → Agents S N → Agents S N
  with_proposer p (Agents.only_proposer q) = Agents.only_proposer p
  with_proposer p (Agents.only_acceptor a) = Agents.only_acceptor a
  with_proposer p (Agents.only_learner l) = Agents.only_learner l
  with_proposer p (Agents.combined c) = Agents.combined (record c { proposer = p })

  abbrev pub leads : Option (ProposerAgent S N) → Bool
  leads none = false
  leads (some p) = Handlers.is_leader p

  abbrev pub is_leader : Coordinator S N → Bool
  is_leader c = leads (proposer_of c.agents)

  abbrev pub submitted :
      Value → Option (ProposerAgent S N) → Coordinator S N → Bool × Coordinator S N
  submitted req none c = (false, c)
  submitted req (some p) c =
      let (r, p') = Handlers.submit_client_request req p in
      (r, record c { agents = with_proposer p' c.agents })

  unfoldable pub submit_client_request : Value → Coordinator S N → Bool × Coordinator S N
  submit_client_request req c = submitted req (proposer_of c.agents) c

  -- `none` is the panic of `learner()`.
  abbrev pub state_of : Agents S N → Option (List LearnedEntry × List KvPair)
  state_of (Agents.only_learner l) = some (LearnerAgent.get_state l)
  state_of (Agents.combined c) = some (LearnerAgent.get_state c.learner)
  state_of _ = none

  abbrev pub get_state : Coordinator S N → Option (List LearnedEntry × List KvPair)
  get_state c = state_of c.agents

module _ {S N : Type 0} (ops : StorageOps S) (net : NetworkOps N) (enc : Encodings) where
  abbrev pub agents_heartbeat : Agents S N → Agents S N
  agents_heartbeat (Agents.only_proposer p) = Agents.only_proposer (Broadcast.send_heartbeat net p)
  agents_heartbeat (Agents.only_acceptor a) =
      Agents.only_acceptor (AcceptorAgent.send_heartbeat ops net enc.acceptor_codecs a)
  agents_heartbeat (Agents.only_learner l) = Agents.only_learner (LearnerAgent.send_heartbeat net l)
  agents_heartbeat (Agents.combined c) =
      Agents.combined (record c { proposer = Broadcast.send_heartbeat net c.proposer })

  unfoldable pub send_heartbeat : Coordinator S N → Coordinator S N
  send_heartbeat c = record c { agents = agents_heartbeat c.agents }

  module _ (clock : Clock) where
    abbrev pub new_proposer :
        Made S N → Node → List Node → Bool → RunConfig → Option (ProposerAgent S N)
    new_proposer m node nodes is_leader config =
        Handlers.new ops net enc.proposer_codec m.store m.network node nodes is_leader config clock

    abbrev pub new_acceptor : Made S N → Node → List Node → RunConfig → Option (AcceptorAgent S N)
    new_acceptor m node nodes config =
        AcceptorAgent.new ops net enc.acceptor_codecs m.hash m.store m.network node nodes config
          clock

    abbrev pub new_learner : Made S N → Node → List Node → RunConfig → Option (LearnerAgent S N)
    new_learner m node nodes config =
        LearnerAgent.new ops net enc.learner_codecs m.hash m.store m.network node nodes config clock

    abbrev combine :
        Option (ProposerAgent S N)
        → Option (AcceptorAgent S N)
        → Option (LearnerAgent S N)
        → Option (Agents S N)
    combine (some p) (some a) (some l) =
        some (Agents.combined (record { proposer = p; acceptor = a; learner = l }))
    combine _ _ _ = none

    -- `none` is a panic; a client has no coordinator. The three agents that one node may have are
    -- made with `p`, `a` and `l`.
    abbrev pub new_agents :
        PaxosRole
        → Made S N
        → Made S N
        → Made S N
        → Node
        → List Node
        → Bool
        → RunConfig
        → Option (Agents S N)
    new_agents proposer p a l node nodes is_leader config =
        Option.map Agents.only_proposer (new_proposer p node nodes is_leader config)
    new_agents acceptor p a l node nodes is_leader config =
        Option.map Agents.only_acceptor (new_acceptor a node nodes config)
    new_agents learner p a l node nodes is_leader config =
        Option.map Agents.only_learner (new_learner l node nodes config)
    new_agents coordinator p a l node nodes is_leader config =
        combine (new_proposer p node nodes is_leader config) (new_acceptor a node nodes config)
          (new_learner l node nodes config)
    new_agents client p a l node nodes is_leader config = none

    unfoldable pub new :
        Made S N
        → Made S N
        → Made S N
        → Node
        → List Node
        → Bool
        → RunConfig
        → Option (Coordinator S N)
    new p a l node nodes is_leader config =
        elim (new_agents node.role p a l node nodes is_leader config) [
          | none ↦ none
          | some agents ↦ some (record {
            config = config;
            node = node;
            nodes = nodes;
            agents = agents;
            failure_detector = FailureDetector.new node nodes 10;
          })
        ]
