-- ===== src/Coordinator/Messages.antt =====
-- How `handle_message` of paxos-wasm/runners/paxos-coordinator/src/coordinator.rs hands a message on
-- to the agents of the node.
use wasm_master.Common.{Bool, not, Option, none, some, if◌then◌else◌}
use wasm_master.Types.{Node}
use wasm_master.Types.Messages.{MessagePayload, NetworkMessage}
use wasm_master.Persistence.{StorageOps, Clock}
use wasm_master.Network.{NetworkOps, message_from}
use wasm_master.ProposerAgent.{ProposerAgent}
use wasm_master.ProposerAgent.Handlers
use wasm_master.AcceptorAgent
use wasm_master.AcceptorAgent.{AcceptorAgent}
use wasm_master.LearnerAgent
use wasm_master.LearnerAgent.{LearnerAgent}
use wasm_master.FailureDetector
use wasm_master.FailureDetector.{FailureDetector}
use wasm_master.Coordinator.{Combined, Agents, Coordinator, Encodings}

module _ {S N : Type 0} (ops : StorageOps S) (net : NetworkOps N) (enc : Encodings)
    (clock : Clock) where
  -- The calls of an agent's `handle_message`; `none` is a panic.
  abbrev pub to_proposer :
      NetworkMessage
      → ProposerAgent S N
      → (ProposerAgent S N → Agents S N)
      → Option (NetworkMessage × Agents S N)
  to_proposer m p as_agents = elim (Handlers.handle_message ops net enc.proposer_codec clock m p) [
    | none ↦ none
    | some (reply, p') ↦ some (reply, as_agents p')
  ]

  abbrev pub to_acceptor :
      NetworkMessage
      → AcceptorAgent S N
      → (AcceptorAgent S N → Agents S N)
      → Option (NetworkMessage × Agents S N)
  to_acceptor m a as_agents =
      let (reply, a') = AcceptorAgent.handle_message ops net enc.acceptor_codecs clock m a in
      some (reply, as_agents a')

  abbrev pub to_learner :
      NetworkMessage
      → LearnerAgent S N
      → (LearnerAgent S N → Agents S N)
      → Option (NetworkMessage × Agents S N)
  to_learner m l as_agents =
      elim (LearnerAgent.handle_message ops net enc.learner_codecs clock m l) [
        | none ↦ none
        | some (reply, l') ↦ some (reply, as_agents l')
      ]

  -- What is not handed on to an agent is answered with the ignore message.
  abbrev pub ignored : Node → Agents S N → Option (NetworkMessage × Agents S N)
  ignored node agents = some (message_from node MessagePayload.ignore, agents)

  abbrev pub proposer_receives :
      Bool
      → Node
      → MessagePayload
      → NetworkMessage
      → ProposerAgent S N
      → Option (NetworkMessage × Agents S N)
  proposer_receives send_learns node (MessagePayload.promise _) m p =
      to_proposer m p Agents.only_proposer
  proposer_receives send_learns node (MessagePayload.accepted _) m p =
      to_proposer m p Agents.only_proposer
  proposer_receives send_learns node (MessagePayload.adu _) m p =
      to_proposer m p Agents.only_proposer
  proposer_receives send_learns node (MessagePayload.retry_learns _) m p =
      if not send_learns
      then to_proposer m p Agents.only_proposer
      else ignored node (Agents.only_proposer p)
  proposer_receives send_learns node (MessagePayload.executed _) m p =
      to_proposer m p Agents.only_proposer
  proposer_receives send_learns node _ m p = ignored node (Agents.only_proposer p)

  abbrev pub acceptor_receives :
      Bool
      → Node
      → MessagePayload
      → NetworkMessage
      → AcceptorAgent S N
      → Option (NetworkMessage × Agents S N)
  acceptor_receives send_learns node (MessagePayload.prepare _) m a =
      to_acceptor m a Agents.only_acceptor
  acceptor_receives send_learns node (MessagePayload.accept _) m a =
      to_acceptor m a Agents.only_acceptor
  acceptor_receives send_learns node (MessagePayload.retry_learns _) m a =
      if send_learns
      then to_acceptor m a Agents.only_acceptor
      else ignored node (Agents.only_acceptor a)
  acceptor_receives send_learns node _ m a = ignored node (Agents.only_acceptor a)

  abbrev pub learner_receives :
      Node
      → MessagePayload
      → NetworkMessage
      → LearnerAgent S N
      → Option (NetworkMessage × Agents S N)
  learner_receives node (MessagePayload.learn _) m l = to_learner m l Agents.only_learner
  learner_receives node (MessagePayload.adu _) m l = to_learner m l Agents.only_learner
  learner_receives node _ m l = ignored node (Agents.only_learner l)

  abbrev pub combined_receives :
      Bool
      → Node
      → MessagePayload
      → NetworkMessage
      → Combined S N
      → Option (NetworkMessage × Agents S N)
  combined_receives send_learns node payload m c =
      let by_proposer =
        to_proposer m c.proposer (λ p. Agents.combined (record c { proposer = p })) in
      let by_acceptor =
        to_acceptor m c.acceptor (λ a. Agents.combined (record c { acceptor = a })) in
      let by_learner = to_learner m c.learner (λ l. Agents.combined (record c { learner = l })) in
      elim payload [
        | MessagePayload.promise _ ↦ by_proposer
        | MessagePayload.accepted _ ↦ by_proposer
        | MessagePayload.retry_learns _ ↦ if not send_learns then by_proposer else by_acceptor
        | MessagePayload.prepare _ ↦ by_acceptor
        | MessagePayload.accept _ ↦ by_acceptor
        | MessagePayload.learn _ ↦ by_learner
        | _ ↦ ignored node (Agents.combined c)
      ]

  abbrev pub agents_receive :
      Bool → Node → NetworkMessage → Agents S N → Option (NetworkMessage × Agents S N)
  agents_receive send_learns node m (Agents.only_proposer p) =
      proposer_receives send_learns node m.payload m p
  agents_receive send_learns node m (Agents.only_acceptor a) =
      acceptor_receives send_learns node m.payload m a
  agents_receive send_learns node m (Agents.only_learner l) = learner_receives node m.payload m l
  agents_receive send_learns node m (Agents.combined c) =
      combined_receives send_learns node m.payload m c

  abbrev pub with_agents :
      Option (NetworkMessage × Agents S N)
      → Coordinator S N
      → Option (NetworkMessage × Coordinator S N)
  with_agents none c = none
  with_agents (some (reply, agents)) c = some (reply, record c { agents = agents })

  unfoldable pub handle_message :
      NetworkMessage → Coordinator S N → Option (NetworkMessage × Coordinator S N)
  handle_message m c =
      let handled =
        with_agents (agents_receive c.config.acceptors_send_learns c.node m c.agents) c in
      elim m.payload [
        | MessagePayload.heartbeat ↦ some (
          message_from c.node MessagePayload.heartbeat,
          record c {
            failure_detector = FailureDetector.heartbeat m.sender.node_id c.failure_detector;
          },
        )
        | _ ↦ handled
      ]
