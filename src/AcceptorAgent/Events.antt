-- ===== src/AcceptorAgent/Events.antt =====
-- Runs of one agent of paxos-wasm/agents/acceptor-agent/src/acceptor-agent.rs: its messages, its
-- ticks, and the calls that a coordinator makes of it.
use wasm_master.Common.{
  true, none, some, ◌≡◌, refl, List, ◌∷◌, [], Option, if◌then◌else◌, if_both, inl,
}
use wasm_master.Types.{AcceptedResult, Slot, Ballot, Value, Accepted, Learn}
use wasm_master.Types.Messages.{MessagePayload, NetworkMessage}
use wasm_master.Persistence.{StorageOps, Clock}
use wasm_master.Network.{NetworkOps, SendsInOrder}
use wasm_master.Acceptor.Storage.{Codecs}
use wasm_master.Acceptor.Calls.{Request, step}
use wasm_master.Acceptor.Agreement.{holds}
use wasm_master.AcceptorAgent.{
  AcceptorAgent, handle_message, process_accept, process_prepare, commit_phase, handle_tick,
  maybe_flush_state, send_heartbeat,
}
use wasm_master.AcceptorAgent.Learns.{
  IsHonest, send_forget-IsHonest, serve-IsHonest, handle_payload-IsHonest, accept-holds,
}

-- What an agent is given: a message, a tick, or one of the calls that its coordinator makes in the
-- phases of the proposer, which for a vote are `process_accept` and then `commit_phase`.
pub data Event : Type 0 where
  receive : NetworkMessage → Event
  tick : Event
  heartbeat : Event
  promise : Slot → Ballot → Event
  vote : Slot → Ballot → Value → Event

module _ {S N : Type 0} (ops : StorageOps S) (net : NetworkOps N) (codecs : Codecs)
    (sends : SendsInOrder net) where
  -- A vote that is granted is followed by its learn, where the acceptors send them. (The test is that
  -- of `commit_phase`, so that its panic is never reached.)
  abbrev committed :
      Option (Option Learn × AcceptorAgent S N) → AcceptorAgent S N → AcceptorAgent S N
  committed none a = a
  committed (some (learn, b)) a = b

  abbrev after_vote : Value → AcceptedResult × AcceptorAgent S N → AcceptorAgent S N
  after_vote v (AcceptedResult.accepted acc, a) =
      if a.config.acceptors_send_learns
      then committed (commit_phase ops net codecs acc.slot v a) a
      else a
  after_vote v (AcceptedResult.rejected b, a) = a

  unfoldable pub handle_event : Clock → Event → AcceptorAgent S N → AcceptorAgent S N
  handle_event clock (Event.receive m) a = (handle_message ops net codecs clock m a).1
  handle_event clock Event.tick a = handle_tick ops net codecs clock a
  handle_event clock Event.heartbeat a = send_heartbeat ops net codecs a
  handle_event clock (Event.promise slot ballot) a =
      (process_prepare ops net codecs clock slot ballot a).1
  handle_event clock (Event.vote slot ballot v) a =
      after_vote v (process_accept ops net codecs clock slot ballot v a)

  committed-IsHonest :
      (slot : Slot) (v : Value) (a : AcceptorAgent S N)
      → IsHonest ops net codecs sends a
      → holds slot v a.acceptor ≡ true
      → IsHonest ops net codecs sends (committed (commit_phase ops net codecs slot v a) a)
  unfolding commit_phase
  committed-IsHonest slot v a h held =
      if_both (λ r. IsHonest ops net codecs sends (committed r a)) a.config.acceptors_send_learns
        (send_forget-IsHonest ops net codecs sends a.learners
          (MessagePayload.learn (record { slot = slot; value = v })) a h (inl held))
        h

  after_vote-IsHonest :
      (v : Value) (r : AcceptedResult) (a : AcceptorAgent S N)
      → IsHonest ops net codecs sends a
      → ((acc : Accepted) → r ≡ AcceptedResult.accepted acc → holds acc.slot v a.acceptor ≡ true)
      → IsHonest ops net codecs sends (after_vote v (r, a))
  after_vote-IsHonest v (AcceptedResult.accepted acc) a h held =
      if_both (IsHonest ops net codecs sends) a.config.acceptors_send_learns
        (committed-IsHonest acc.slot v a h (held acc refl)) h
  after_vote-IsHonest v (AcceptedResult.rejected b) a h held = h

  handle_event-IsHonest :
      (clock : Clock) (e : Event) (a : AcceptorAgent S N)
      → IsHonest ops net codecs sends a
      → IsHonest ops net codecs sends (handle_event clock e a)
  unfolding handle_event handle_message maybe_flush_state send_heartbeat step
  handle_event-IsHonest clock (Event.receive m) a h =
      handle_payload-IsHonest ops net codecs sends clock m.payload m.sender a h
  handle_event-IsHonest clock Event.tick a h =
      serve-IsHonest ops net codecs sends (clock, Request.maybe_flush) a h
  handle_event-IsHonest clock Event.heartbeat a h =
      send_forget-IsHonest ops net codecs sends a.all_nodes MessagePayload.heartbeat a h tt
  handle_event-IsHonest clock (Event.promise slot ballot) a h =
      serve-IsHonest ops net codecs sends (clock, Request.prepare slot ballot) a h
  handle_event-IsHonest clock (Event.vote slot ballot v) a h =
      after_vote-IsHonest v _ _
        (serve-IsHonest ops net codecs sends (clock, Request.accept slot ballot v) a h)
        (λ acc. accept-holds ops net codecs sends clock slot ballot v a.acceptor acc h.volatile)

  -- The events in their order, each at its time.
  unfoldable pub handle_all : List (Clock × Event) → AcceptorAgent S N → AcceptorAgent S N
  handle_all [] a = a
  handle_all ((clock, e) ∷ es) a = handle_all es (handle_event clock e a)

  -- With persistence off, and if it was so at the start: whatever messages an agent has handled and
  -- whatever calls its coordinator has made, in any order, each learn that the agent has sent is one
  -- of the value that its acceptor holds for the slot now, or one of the no-op.
  pub handle_all-IsHonest :
      (es : List (Clock × Event)) (a : AcceptorAgent S N)
      → IsHonest ops net codecs sends a
      → IsHonest ops net codecs sends (handle_all es a)
  unfolding handle_all
  handle_all-IsHonest [] a h = h
  handle_all-IsHonest ((clock, e) ∷ es) a h =
      handle_all-IsHonest es _ (handle_event-IsHonest clock e a h)
