-- ===== src/AcceptorAgent/Replies.antt =====
-- The replies of paxos-wasm/agents/acceptor-agent/src/acceptor-agent.rs to prepare and accept
-- requests.
use wasm_master.Common.{◌<◌, some, ◌≡◌, ◌≢◌, refl, ◌⊎◌, inl, inr, arith, lt→ltb, ltb, Bool-cases}
use wasm_master.Common.KeyMap
use wasm_master.Types.{PValue, PromiseResult, AcceptedResult, Slot, Ballot, Value, Node}
use wasm_master.Types.Messages.{MessagePayload, NetworkMessage}
use wasm_master.Types.Equality.{holds_value}
use wasm_master.Persistence.{StorageOps, Clock}
use wasm_master.Network.{NetworkOps, message_from}
use wasm_master.Acceptor
use wasm_master.Acceptor.{Acceptor, highest_promised_ballot, collect_accepted_from}
use wasm_master.Acceptor.Storage.{Codecs}
use wasm_master.Acceptor.Writes.{holds_value_iff}
use wasm_master.AcceptorAgent.{AcceptorAgent, handle_payload, handle_message}

-- The request has a ballot below the highest promise, or its slot holds another value.
abbrev pub IsRefused : {S N : Type 0} → MessagePayload → AcceptorAgent S N → Type 0
IsRefused (MessagePayload.prepare p) a = p.ballot < highest_promised_ballot a.acceptor
IsRefused (MessagePayload.accept p) a =
    (p.ballot < highest_promised_ballot a.acceptor)
    ⊎ ((pv : PValue) × (KeyMap.get p.slot a.acceptor.accepted ≡ some pv)
        × (pv.value ≢ some p.value))
IsRefused _ a = ⊥

module _ {S N : Type 0} (ops : StorageOps S) (net : NetworkOps N) (codecs : Codecs)
    (clock : Clock) where
  pub refused_prepare :
      (slot : Slot) (ballot : Ballot) (b : Acceptor S)
      → ballot < highest_promised_ballot b
      → Acceptor.prepare ops codecs clock slot ballot b
        ≡ (PromiseResult.rejected (highest_promised_ballot b), b)
  unfolding Acceptor.prepare
  refused_prepare slot ballot b h = rw (lt→ltb _ _ h) refl

  refused_accept :
      (slot : Slot) (ballot : Ballot) (value : Value) (b : Acceptor S)
      → (ballot < highest_promised_ballot b)
        ⊎ ((pv : PValue) × (KeyMap.get slot b.accepted ≡ some pv) × (pv.value ≢ some value))
      → (held : Ballot) × (Acceptor.accept ops codecs clock slot ballot value b
          ≡ (AcceptedResult.rejected held, b))
  unfolding Acceptor.accept
  refused_accept slot ballot value b (inl h) = (highest_promised_ballot b, rw (lt→ltb _ _ h) refl)
  refused_accept slot ballot value b (inr (pv, e, differ)) =
      elim (Bool-cases (ltb ballot (highest_promised_ballot b))) [
        | inl low ↦ (highest_promised_ballot b, rw low refl)
        | inr high ↦ (
          pv.ballot,
          rw (high, e)
              (elim (Bool-cases (holds_value pv.value value)) [
                | inl same ↦ absurd (differ ((holds_value_iff pv.value value).0 same))
                | inr other ↦ ground arith
              ]),
        )
      ]

  refused_payload :
      (payload : MessagePayload) (sender : Node) (a : AcceptorAgent S N)
      → IsRefused payload a
      → handle_payload ops net codecs clock payload sender a ≡ (MessagePayload.ignore, a)
  refused_payload (MessagePayload.prepare p) sender a h =
      rw (refused_prepare p.slot p.ballot a.acceptor h) refl
  refused_payload (MessagePayload.accept p) sender a h =
      let (held, e) = refused_accept p.slot p.ballot p.value a.acceptor h in rw e refl
  refused_payload _ sender a h = ground arith

  -- A prepare or accept request with a ballot below the highest promise, and an accept request for
  -- a slot that holds another value, is answered with the ignore message; nothing is sent, and the
  -- agent is left as it was.
  pub handle_message_refused :
      (message : NetworkMessage) (a : AcceptorAgent S N)
      → IsRefused message.payload a
      → handle_message ops net codecs clock message a
        ≡ (message_from a.node MessagePayload.ignore, a)
  unfolding handle_message
  handle_message_refused message a h = rw (refused_payload message.payload message.sender a h) refl
