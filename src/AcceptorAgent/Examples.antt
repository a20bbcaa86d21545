-- ===== src/AcceptorAgent/Examples.antt =====
-- Runs of paxos-wasm/agents/acceptor-agent/src/acceptor-agent.rs, and the theorems at them.
use wasm_master.Common.{true, none, List, [], ◌∷◌, ◌++◌, ◌≡◌, refl, arith}
use wasm_master.Common.KeyMap
use wasm_master.Types.Samples.{config, get_x, node_one, node_two}
use wasm_master.Types.Messages.{MessagePayload, NetworkMessage}
use wasm_master.Persistence.{Clock}
use wasm_master.Persistence.InMemory.{Memory, memory_ops, at_start}
use wasm_master.Network.{message_from}
use wasm_master.Network.Outbox.{Outbox, outbox_ops, outbox-SendsInOrder}
use wasm_master.Acceptor.Examples.{codecs, voted}
use wasm_master.Acceptor.Agreement.{holds}
use wasm_master.AcceptorAgent.{AcceptorAgent, no_op, handle_message}
use wasm_master.AcceptorAgent.Learns.{IsHonest, retry_then_accept}
use wasm_master.AcceptorAgent.Events.{Event, handle_all, handle_all-IsHonest}

-- Ballot 2 is promised, `set_x` is accepted in slot 1, and nothing has been sent.
abbrev pub agent : AcceptorAgent Memory Outbox
agent = record {
  config = config;
  node = node_one;
  learners = node_one ∷ node_two ∷ [];
  proposers = node_one ∷ node_two ∷ [];
  acceptor = voted;
  network = [];
  all_nodes = node_one ∷ node_two ∷ [];
}

abbrev ask_again : NetworkMessage
ask_again = message_from node_two (MessagePayload.retry_learns (record { slots = 1 ∷ 2 ∷ [] }))

abbrev low_accept : NetworkMessage
low_accept =
    message_from node_two (MessagePayload.accept (record { slot = 2; ballot = 1; value = get_x }))

abbrev events : List (Clock × Event)
events =
    (at_start, Event.receive ask_again)
    ∷ (at_start, Event.vote 2 3 get_x)
    ∷ (at_start, Event.receive low_accept)
    ∷ (at_start, Event.tick)
    ∷ []

agent-IsHonest : IsHonest memory_ops outbox_ops codecs outbox-SendsInOrder agent
agent-IsHonest = record { volatile = refl; backed = tt }

handle_all-IsHonest_example :
    IsHonest memory_ops outbox_ops codecs outbox-SendsInOrder
      (handle_all memory_ops outbox_ops codecs outbox-SendsInOrder events agent)
handle_all-IsHonest_example =
    handle_all-IsHonest memory_ops outbox_ops codecs outbox-SendsInOrder events agent agent-IsHonest

second_free : KeyMap.get 2 voted.accepted ≡ none
unfolding KeyMap.get
second_free = refl

retry_then_accept_example :
    let b =
      (handle_message memory_ops outbox_ops codecs at_start
        (message_from node_two (MessagePayload.retry_learns (record { slots = 2 ∷ [] })))
        agent).1 in
    let (reply, c) =
      handle_message memory_ops outbox_ops codecs at_start
        (message_from node_two
          (MessagePayload.accept (record { slot = 2; ballot = 2; value = get_x })))
        b in
    (b.network
      ≡ []
        ++ record {
          nodes = node_one ∷ node_two ∷ [];
          message =
              message_from node_one (MessagePayload.learn (record { slot = 2; value = no_op }));
        }
          ∷ [])
    × (reply
        ≡ message_from node_one
            (MessagePayload.accepted (record { slot = 2; ballot = 2; success = true })))
    × (holds 2 get_x c.acceptor ≡ true)
retry_then_accept_example =
    retry_then_accept memory_ops outbox_ops codecs outbox-SendsInOrder at_start at_start node_two
      node_two 2 2 get_x agent refl second_free (omega arith)
