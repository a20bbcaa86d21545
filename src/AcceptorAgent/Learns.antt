-- ===== src/AcceptorAgent/Learns.antt =====
-- The learns that paxos-wasm/agents/acceptor-agent/src/acceptor-agent.rs sends.
use wasm_master.Common.{
  ◌≤◌, true, none, some, ◌≡◌, refl, ◌∙◌, ap, ◌⊎◌, inl, inr, arith, List, ◌∷◌, [], ◌++◌, All,
  All-append, All-imp, Option, Option-cases, if_both,
}
use wasm_master.Common.KeyMap
use wasm_master.Common.KeyMap.{get-insert}
use wasm_master.Types.{PValue, PromiseResult, AcceptedResult, Slot, Ballot, Value, Node, Accepted}
use wasm_master.Types.Equality.{value_eq_iff}
use wasm_master.Types.Messages.{MessagePayload}
use wasm_master.Persistence.{StorageOps, Clock}
use wasm_master.Network.{NetworkOps, message_from, Sending, SendsInOrder}
use wasm_master.Acceptor
use wasm_master.Acceptor.{Acceptor, highest_promised_ballot, accepted_reply}
use wasm_master.Acceptor.Storage.{Codecs}
use wasm_master.Acceptor.Writes.{accept_reply_iff, record_accepted_disabled, holds_value_iff}
use wasm_master.Acceptor.Calls.{Request, step}
use wasm_master.Acceptor.Agreement.{holds, holds_option, IsVolatile, step-IsVolatile, step-holds}
use wasm_master.AcceptorAgent.{
  AcceptorAgent, no_op, value_to_retry, value_or_no_op, handle_payload, handle_message, send_forget,
  retry_slots, answer_prepare, answer_accept, announce_accepted, process_accept,
}

-- The message is no learn, or it is one of the value accepted for its slot, or of the no-op.
abbrev pub IsBacked : {S : Type 0} → Acceptor S → MessagePayload → Type 0
IsBacked b (MessagePayload.learn l) = (holds l.slot l.value b ≡ true) ⊎ (l.value ≡ no_op)
IsBacked b _ = Unit

abbrev pub AllBacked : {S : Type 0} → Acceptor S → List Sending → Type 0
AllBacked b = All λ s. IsBacked b s.message.payload

-- What the one holds the other holds.
abbrev Extends : {S : Type 0} → Acceptor S → Acceptor S → Type 0
Extends b c = (slot : Slot) (v : Value) → holds slot v b ≡ true → holds slot v c ≡ true

Backed-Extends :
    {S : Type 0} (b c : Acceptor S) (p : MessagePayload) → Extends b c → IsBacked b p → IsBacked c p
Backed-Extends b c (MessagePayload.learn l) ext (inl h) = inl (ext l.slot l.value h)
Backed-Extends b c (MessagePayload.learn l) ext (inr e) = inr e
Backed-Extends b c _ ext h = tt

option_retry :
    (o : Option PValue) → (holds_option o (value_to_retry o) ≡ true) ⊎ (value_to_retry o ≡ no_op)
option_retry none = inr refl
option_retry (some p) = elim (Option-cases p.value) [
  | inl e ↦ inr (ap value_or_no_op e)
  | inr (v, e) ↦ inl ((holds_value_iff p.value (value_or_no_op p.value)).1 (rw e refl))
]

module _ {S N : Type 0} (ops : StorageOps S) (net : NetworkOps N) (codecs : Codecs)
    (sends : SendsInOrder net) where
  -- Persistence is off, and every learn that was sent is backed by the acceptor.
  pub record IsHonest (a : AcceptorAgent S N) : Type 0 where
    pub volatile : IsVolatile a.acceptor
    pub backed : AllBacked a.acceptor (sends.sent a.network)

  pub send_forget-IsHonest :
      (nodes : List Node) (p : MessagePayload) (a : AcceptorAgent S N)
      → IsHonest a
      → IsBacked a.acceptor p
      → IsHonest (send_forget ops net codecs nodes p a)
  send_forget-IsHonest nodes p a h b = record {
    volatile = h.volatile;
    backed = rw (sends.forgotten nodes (message_from a.node p) a.network) (
        All-append (λ s. IsBacked a.acceptor s.message.payload) (sends.sent a.network) _ h.backed
          (b, tt));
  }

  retry_slots-IsHonest :
      (slots : List Slot) (a : AcceptorAgent S N)
      → IsHonest a
      → IsHonest (retry_slots ops net codecs slots a)
  unfolding retry_slots
  retry_slots-IsHonest [] a h = h
  retry_slots-IsHonest (slot ∷ slots) a h =
      retry_slots-IsHonest slots _
        (send_forget-IsHonest a.learners _ a h (option_retry (KeyMap.get slot a.acceptor.accepted)))

  -- The acceptor serves a request, and nothing is sent.
  pub serve-IsHonest :
      (r : Clock × Request) (a : AcceptorAgent S N)
      → IsHonest a
      → IsHonest (record a { acceptor = step ops codecs r a.acceptor })
  serve-IsHonest r a h = record {
    volatile = step-IsVolatile ops codecs r a.acceptor h.volatile;
    backed =
        All-imp
          (λ s.
            Backed-Extends a.acceptor (step ops codecs r a.acceptor) s.message.payload
              (λ slot v. step-holds ops codecs r slot v a.acceptor h.volatile))
          (sends.sent a.network) h.backed;
  }

  answer_prepare-IsHonest :
      (clock : Clock) (sender : Node) (r : PromiseResult) (a : AcceptorAgent S N)
      → IsHonest a
      → IsHonest (answer_prepare ops net codecs clock sender (r, a)).1
  answer_prepare-IsHonest clock sender (PromiseResult.promised p) a h =
      if_both IsHonest a.config.is_event_driven
        (send_forget-IsHonest (sender ∷ []) (MessagePayload.promise p) a h tt) h
  answer_prepare-IsHonest clock sender (PromiseResult.rejected b) a h = h

  announce_accepted-IsHonest :
      (clock : Clock) (sender : Node) (v : Value) (acc : Accepted) (a : AcceptorAgent S N)
      → IsHonest a
      → holds acc.slot v a.acceptor ≡ true
      → IsHonest (announce_accepted ops net codecs clock sender v acc a)
  announce_accepted-IsHonest clock sender v acc a h held =
      if_both IsHonest a.config.acceptors_send_learns
        (send_forget-IsHonest a.learners
          (MessagePayload.learn (record { slot = acc.slot; value = v })) a h (inl held))
        (send_forget-IsHonest (sender ∷ []) (MessagePayload.accepted acc) a h tt)

  answer_accept-IsHonest :
      (clock : Clock) (sender : Node) (v : Value) (r : AcceptedResult) (a : AcceptorAgent S N)
      → IsHonest a
      → ((acc : Accepted) → r ≡ AcceptedResult.accepted acc → holds acc.slot v a.acceptor ≡ true)
      → IsHonest (answer_accept ops net codecs clock sender v (r, a)).1
  answer_accept-IsHonest clock sender v (AcceptedResult.accepted acc) a h held =
      if_both IsHonest a.config.is_event_driven
        (announce_accepted-IsHonest clock sender v acc a h (held acc refl)) h
  answer_accept-IsHonest clock sender v (AcceptedResult.rejected b) a h held = h

  pub accept-holds :
      (clock : Clock) (slot : Slot) (ballot : Ballot) (v : Value) (b : Acceptor S) (acc : Accepted)
      → IsVolatile b
      → (Acceptor.accept ops codecs clock slot ballot v b).0 ≡ AcceptedResult.accepted acc
      → holds acc.slot v (Acceptor.accept ops codecs clock slot ballot v b).1 ≡ true
  unfolding Acceptor.accept
  accept-holds clock slot ballot v b acc off e =
      let pv : PValue = record { slot = slot; ballot = ballot; value = some v } in
      ground (
        arith,
        record_accepted_disabled ops codecs clock pv b off,
        get-insert slot slot pv b.accepted,
        value_eq_iff v v,
      )

  pub handle_payload-IsHonest :
      (clock : Clock) (p : MessagePayload) (sender : Node) (a : AcceptorAgent S N)
      → IsHonest a
      → IsHonest (handle_payload ops net codecs clock p sender a).1
  unfolding step
  handle_payload-IsHonest clock (MessagePayload.prepare p) sender a h =
      answer_prepare-IsHonest clock sender _ _
        (serve-IsHonest (clock, Request.prepare p.slot p.ballot) a h)
  handle_payload-IsHonest clock (MessagePayload.accept p) sender a h =
      answer_accept-IsHonest clock sender p.value _ _
        (serve-IsHonest (clock, Request.accept p.slot p.ballot p.value) a h)
        (λ acc. accept-holds clock p.slot p.ballot p.value a.acceptor acc h.volatile)
  handle_payload-IsHonest clock (MessagePayload.retry_learns r) sender a h =
      retry_slots-IsHonest r.slots a h
  handle_payload-IsHonest clock _ sender a h = h

  acceptor-answer_accept :
      (clock : Clock) (sender : Node) (v : Value) (r : AcceptedResult) (a : AcceptorAgent S N)
      → (answer_accept ops net codecs clock sender v (r, a)).1.acceptor ≡ a.acceptor
  acceptor-answer_accept clock sender v r a = ground arith

  reply-answer_accept :
      (clock : Clock) (sender : Node) (v : Value) (r : AcceptedResult) (acc : Accepted)
      (a : AcceptorAgent S N)
      → r ≡ AcceptedResult.accepted acc
      → (answer_accept ops net codecs clock sender v (r, a)).0 ≡ MessagePayload.accepted acc
  reply-answer_accept clock sender v r acc a e = ground arith

  -- A request to retry the learn of a slot for which the acceptor holds nothing makes it send a
  -- learn of the no-op, and yet it accepts any value for that slot afterwards, if the ballot is no
  -- lower than the highest promise (with persistence off).
  pub retry_then_accept :
      (clock later : Clock) (asker proposer : Node) (slot : Slot) (ballot : Ballot) (v : Value)
      (a : AcceptorAgent S N)
      → IsVolatile a.acceptor
      → KeyMap.get slot a.acceptor.accepted ≡ none
      → highest_promised_ballot a.acceptor ≤ ballot
      → let b =
          (handle_message ops net codecs clock
            (message_from asker (MessagePayload.retry_learns (record { slots = slot ∷ [] })))
            a).1 in
        let (reply, c) =
          handle_message ops net codecs later
            (message_from proposer
              (MessagePayload.accept (record { slot = slot; ballot = ballot; value = v })))
            b in
        (sends.sent b.network
          ≡ sends.sent a.network
            ++ record {
              nodes = a.learners;
              message =
                  message_from a.node
                    (MessagePayload.learn (record { slot = slot; value = no_op }));
            }
              ∷ [])
        × (reply
            ≡ message_from a.node
                (MessagePayload.accepted (record { slot = slot; ballot = ballot; success = true })))
        × (holds slot v c.acceptor ≡ true)
  unfolding handle_message retry_slots
  retry_then_accept clock later asker proposer slot ballot v a off free high =
      let b = a.acceptor in
      let granted = (accept_reply_iff ops codecs later slot ballot v b).1 (high, inl free) in
      let (r, served) =
        process_accept ops net codecs later slot ballot v
          (retry_slots ops net codecs (slot ∷ []) a) in
      (
        rw free (sends.forgotten a.learners _ a.network),
        ap (message_from a.node) (reply-answer_accept later proposer v _ _ _ granted),
        ap (holds slot v) (acceptor-answer_accept later proposer v r served)
            ∙ accept-holds later slot ballot v b _ off granted,
      )
