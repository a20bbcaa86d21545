-- ===== src/Network.antt =====
-- The network client that the agents share: interface `network-client` of
-- paxos-wasm/shared/wit/network.wit, over any type of its state, and the roles by which the agents
-- pick the nodes that they send to.
pub mod Outbox
use wasm_master.Common.{Bool, true, false, List, [], ◌∷◌, ◌++◌, ◌≡◌, select}
use wasm_master.Types.{Node, PaxosRole}
use wasm_master.Types.PaxosRole.{coordinator, proposer, acceptor, learner}
use wasm_master.Types.Messages.{NetworkMessage, MessagePayload}

pub record NetworkOps (N : Type 0) : Type 0 where
  pub send_message : List Node → NetworkMessage → N → List NetworkMessage × N
  pub send_message_forget : List Node → NetworkMessage → N → N

-- One call of the client: the nodes that it sends to, and the message.
pub record Sending : Type 0 where
  pub nodes : List Node
  pub message : NetworkMessage

-- What the program relies on: the client hands over each message that it is given once, to the
-- nodes that it is given, in the order of the calls.
pub record SendsInOrder {N : Type 0} (net : NetworkOps N) : Type 0 where
  pub sent : N → List Sending
  pub forgotten :
      (nodes : List Node) (m : NetworkMessage) (n : N)
      → sent (net.send_message_forget nodes m n)
        ≡ sent n ++ record { nodes = nodes; message = m } ∷ []
  pub answered :
      (nodes : List Node) (m : NetworkMessage) (n : N)
      → sent (net.send_message nodes m n).1 ≡ sent n ++ record { nodes = nodes; message = m } ∷ []

abbrev pub message_from : Node → MessagePayload → NetworkMessage
message_from node payload = record { sender = node; payload = payload }

-- `matches!(x.role, PaxosRole::… | PaxosRole::Coordinator)`
abbrev pub may_propose : PaxosRole → Bool
may_propose proposer = true
may_propose coordinator = true
may_propose _ = false

abbrev pub may_accept : PaxosRole → Bool
may_accept acceptor = true
may_accept coordinator = true
may_accept _ = false

abbrev pub may_learn : PaxosRole → Bool
may_learn learner = true
may_learn coordinator = true
may_learn _ = false

abbrev pub is_coordinator : PaxosRole → Bool
is_coordinator coordinator = true
is_coordinator _ = false

abbrev pub with_role : (PaxosRole → Bool) → List Node → List Node
with_role p = select λ (n : Node). p n.role
