-- ===== src/LearnerAgent/Runs.antt =====
-- Messages and ticks of paxos-wasm/agents/learner-agent/src/learner-agent.rs in any order, and two
-- agents of one log.
use mathlib.Core.Option
use mathlib.Core.List.{reverse}
use wasm_master.Common.{
  ℕ, String, ◌+◌, ◌≤◌, ◌<◌, Bool, true, false, Option, none, some, List, [], ◌∷◌, ◌++◌, map, ◌≡◌,
  refl, sym, ◌∙◌, ap, ◌⊎◌, inl, inr, arith, length, leb, ltb, ◌-◌, Bool-cases, All, u64_size,
  if_both,
}
use wasm_master.Types.{Slot, Value, Cmd, LearnedEntry, Node}
use wasm_master.Types.Messages.{MessagePayload, NetworkMessage}
use wasm_master.Persistence.{StorageOps, Clock}
use wasm_master.Network.{NetworkOps, message_from}
use wasm_master.Learner.{Learner, maybe_flush}
use wasm_master.Learner.Storage.{Codecs}
use wasm_master.Learner.Execution.{result_of}
use wasm_master.Learner.Decided.{
  Log, Follows, commands, commands-append, command_of, learn-Follows, handle_learn-Follows,
  to_be_executed-Follows, adu-learn_quorum, adu-handle_learn,
}
use wasm_master.KvStore.Dict
use wasm_master.KvStore.Refinement.{last_write}
use wasm_master.LearnerAgent.{
  LearnerAgent, execute_all, collect_executed, handle_evaluate_retry, record_learn, execute_result,
  execute_chosen_learns, maybe_flush_state, report_executed, learn_recorded, reply_or_ignore,
  handle_payload, handle_message, tick_executed, handle_tick, send_forget,
}
use wasm_master.LearnerAgent.Replication.{
  Replica, core, moved-Replica, applied-IsReplica, core-collect_executed, core-dispatch_executed,
  core-handle_evaluate_retry,
}

-- What an agent is given: a message, or a tick.
pub data Event : Type 0 where
  receive : NetworkMessage → Event
  tick : Event

-- A learn is one of the decided value, of a slot that leaves room for a successor in a u64.
abbrev pub IsTruePayload : Log → MessagePayload → Type 0
IsTruePayload log (MessagePayload.learn l) = (l.value ≡ log l.slot) × (l.slot + 1 < u64_size)
IsTruePayload log _ = Unit

abbrev pub IsTrue : Log → Event → Type 0
IsTrue log (receive m) = IsTruePayload log m.payload
IsTrue log tick = Unit

module _ {S N : Type 0} (ops : StorageOps S) (net : NetworkOps N) (codecs : Codecs) where
  core-report_executed :
      (clock : Clock) (full : Bool) (a : LearnerAgent S N)
      → core (report_executed ops net codecs clock full a).1 ≡ core a
  core-report_executed clock full a =
      let size = some a.config.message_batch_size in
      if_both (λ (r : Option MessagePayload × LearnerAgent S N). core r.1 ≡ core a) _
        (core-dispatch_executed net (collect_executed size full a).0
            (collect_executed size full a).1
          ∙ core-collect_executed size full a)
        refl

  core-reply_or_ignore :
      (clock : Clock) (r : Option MessagePayload × LearnerAgent S N)
      → core (reply_or_ignore ops net codecs clock r).1 ≡ core r.1
  core-reply_or_ignore clock (none, a) = refl
  core-reply_or_ignore clock (some m, a) = refl

  module _ (log : Log) (clock : Clock) where
    record_learn-Replica :
        (slot : Slot) (v : Value) (sender : Node) (a : LearnerAgent S N)
        → v ≡ log slot
        → slot + 1 < u64_size
        → Replica log a
        → Replica log (record_learn ops net codecs clock slot v sender a).1
    unfolding record_learn
    record_learn-Replica slot v sender a e h r =
        let (f, same) =
          if_both (λ (k : Bool × Learner S). Follows log k.1 × (k.1.adu ≡ a.learner.adu))
            a.config.acceptors_send_learns
            (
              handle_learn-Follows log ops codecs clock (record { slot = slot; value = v }) sender
                  a.learner e h r.follows,
              adu-handle_learn log ops codecs clock (record { slot = slot; value = v }) sender
                  a.learner,
            )
            (
              learn-Follows log ops codecs clock slot v a.learner e h r.follows,
              adu-learn_quorum log ops codecs clock slot (some v) a.learner,
            ) in
        record {
          follows = f;
          history = r.history ∙ ap (commands log 1) (sym same);
          replayed = r.replayed;
        }

    executed-Replica :
        (out : List LearnedEntry) (l : Learner S) (a : LearnerAgent S N)
        → map command_of out ≡ commands log (a.learner.adu + 1) (length out)
        → l.adu ≡ a.learner.adu + length out
        → Follows log l
        → Replica log a
        → Replica log (execute_result ops net codecs clock (result_of out, l) a)
    unfolding execute_all
    executed-Replica [] l a cmds moved f r =
        applied-IsReplica log [] a.learner l a.kv_store a.exec_buffer cmds moved f r
    executed-Replica (e ∷ out) l a cmds moved f r =
        applied-IsReplica log (e ∷ out) a.learner l a.kv_store a.exec_buffer cmds moved f r

    execute_chosen_learns-Replica :
        (a : LearnerAgent S N)
        → Replica log a
        → (b : LearnerAgent S N) × (execute_chosen_learns ops net codecs clock a ≡ some b)
          × Replica log b
    unfolding execute_chosen_learns
    execute_chosen_learns-Replica a r =
        let (out, l, e, cmds, moved, f) =
          to_be_executed-Follows log ops codecs clock a.learner r.follows in
        (
          execute_result ops net codecs clock (result_of out, l) a,
          rw (e, execute_chosen_learns) refl,
          executed-Replica out l a cmds moved f r,
        )

    maybe_flush_state-Replica :
        (a : LearnerAgent S N)
        → Replica log a
        → Replica log (maybe_flush_state ops net codecs clock a)
    unfolding maybe_flush_state maybe_flush
    maybe_flush_state-Replica a r = record {
      follows = record {
        learned = r.follows.learned;
        votes = r.follows.votes;
        small = r.follows.small;
      };
      history = r.history;
      replayed = r.replayed;
    }

    -- What answers a message is not stuck, and leaves a replica.
    abbrev Answers : Option (MessagePayload × LearnerAgent S N) → Type 0
    Answers o =
        (reply : MessagePayload) × (b : LearnerAgent S N) × (o ≡ some (reply, b)) × Replica log b

    learn_recorded-Replica :
        (new : Bool) (a : LearnerAgent S N)
        → Replica log a
        → Answers (learn_recorded ops net codecs clock (new, a))
    learn_recorded-Replica false a r = (MessagePayload.ignore, a, refl, r)
    learn_recorded-Replica true a r =
        let (b, e, r') = execute_chosen_learns-Replica a r in
        let reported = report_executed ops net codecs clock true b in
        let (reply, c) = reply_or_ignore ops net codecs clock reported in
        (
          reply,
          c,
          rw (e, learn_recorded) refl,
          moved-Replica log b c
              (core-reply_or_ignore clock reported ∙ core-report_executed clock true b) r',
        )

    handle_payload-Replica :
        (p : MessagePayload) (sender : Node) (a : LearnerAgent S N)
        → IsTruePayload log p
        → Replica log a
        → Answers (handle_payload ops net codecs clock p sender a)
    handle_payload-Replica (MessagePayload.learn l) sender a t r =
        learn_recorded-Replica _ _ (record_learn-Replica l.slot l.value sender a t.0 t.1 r)
    handle_payload-Replica (MessagePayload.adu n) sender a t r = (
      _,
      send_forget net (sender ∷ []) _ a,
      refl,
      record { follows = r.follows; history = r.history; replayed = r.replayed },
    )
    handle_payload-Replica _ sender a t r = (MessagePayload.ignore, a, refl, r)

    handle_message-Replica :
        (m : NetworkMessage) (a : LearnerAgent S N)
        → IsTruePayload log m.payload
        → Replica log a
        → (reply : NetworkMessage) × (b : LearnerAgent S N) × (handle_message ops net codecs clock m
              a
            ≡ some (reply, b))
          × Replica log b
    unfolding handle_message
    handle_message-Replica m a t r =
        let (reply, b, e, r') = handle_payload-Replica m.payload m.sender a t r in
        (message_from a.node reply, b, rw (e, handle_message) refl, r')

    handle_tick-Replica :
        (a : LearnerAgent S N)
        → Replica log a
        → (b : LearnerAgent S N) × (handle_tick ops net codecs clock a ≡ some b) × Replica log b
    unfolding handle_tick
    handle_tick-Replica a r =
        let b = handle_evaluate_retry net clock a in
        let r' = moved-Replica log a b (core-handle_evaluate_retry net clock a) r in
        let c : LearnerAgent S N = record b { last_exec_time = clock.now } in
        let r'' : Replica log c = record {
          follows = r'.follows;
          history = r'.history;
          replayed = r'.replayed;
        } in
        let (d, e, done) = execute_chosen_learns-Replica c r'' in
        let flushed =
          maybe_flush_state ops net codecs clock (report_executed ops net codecs clock false d).1 in
        let ticked : tick_executed ops net codecs clock
              (execute_chosen_learns ops net codecs clock c)
            ≡ some flushed =
          rw (e, tick_executed) refl in
        if_both
          (λ (o : Option (LearnerAgent S N)). (k : LearnerAgent S N) × (o ≡ some k) × Replica log k)
          (ltb (clock.now - b.last_exec_time) b.config.exec_interval_ms) (b, refl, r')
          (
            flushed,
            ticked,
            maybe_flush_state-Replica (report_executed ops net codecs clock false d).1 (
                moved-Replica log d (report_executed ops net codecs clock false d).1
                  (core-report_executed clock false d) done),
          )

  unfoldable pub step : Clock × Event → LearnerAgent S N → Option (LearnerAgent S N)
  step (clock, receive m) a = Option.map (λ r. r.1) (handle_message ops net codecs clock m a)
  step (clock, tick) a = handle_tick ops net codecs clock a

  -- The events in their order; `none` if one of them stops the agent.
  unfoldable pub run : List (Clock × Event) → LearnerAgent S N → Option (LearnerAgent S N)
  run [] a = some a
  run (e ∷ es) a = let rest = run es in elim (step e a) [ none ↦ none | some b ↦ rest b ]

  step-Replica :
      (log : Log) (e : Clock × Event) (a : LearnerAgent S N)
      → IsTrue log e.1
      → Replica log a
      → (b : LearnerAgent S N) × (step e a ≡ some b) × Replica log b
  unfolding step
  step-Replica log (clock, receive m) a t r =
      let (reply, b, e, r') = handle_message-Replica log clock m a t r in (b, rw e refl, r')
  step-Replica log (clock, tick) a t r = handle_tick-Replica log clock a r

  pub run-Replica :
      (log : Log) (es : List (Clock × Event)) (a : LearnerAgent S N)
      → All (λ e. IsTrue log e.1) es
      → Replica log a
      → (b : LearnerAgent S N) × (run es a ≡ some b) × Replica log b
  unfolding run
  run-Replica log [] a t r = (a, refl, r)
  run-Replica log (e ∷ es) a t r =
      let (b, first, r') = step-Replica log e a t.0 r in
      let (c, rest, r'') = run-Replica log es b t.1 r' in (c, rw (first, run) rest, r'')

longer :
    (log : Log) (n m : ℕ)
    → n ≤ m
    → (rest : List Cmd) × (commands log 1 m ≡ commands log 1 n ++ rest)
longer log n m h =
    let sum : m ≡ n + (m - n) = omega arith in
    (commands log (1 + n) (m - n), ap (commands log 1) sum ∙ commands-append log 1 n (m - n))

-- The history of the one is the beginning of the other's, or the other way around; and if they have
-- executed equally many slots, then each key has the same value in both.
abbrev pub Consistent : {S N : Type 0} → (a b : LearnerAgent S N) → Type 0
Consistent a b =
    (((rest : List Cmd) × (b.kv_store.history ≡ a.kv_store.history ++ rest))
      ⊎ ((rest : List Cmd) × (a.kv_store.history ≡ b.kv_store.history ++ rest)))
    × (a.learner.adu ≡ b.learner.adu
        → (k : String) → Dict.get k a.kv_store.store ≡ Dict.get k b.kv_store.store)

stores_agree :
    {S N : Type 0} (log : Log) (a b : LearnerAgent S N)
    → Replica log a
    → Replica log b
    → Consistent a b
stores_agree log a b r s = (
  elim (Bool-cases (leb a.learner.adu b.learner.adu)) [
    | inl e ↦
        let (rest, more) = longer log a.learner.adu b.learner.adu (ground arith) in
        inl (rest, s.history ∙ more ∙ ap (λ h. h ++ rest) (sym r.history))
    | inr e ↦
        let (rest, more) = longer log b.learner.adu a.learner.adu (ground arith) in
        inr (rest, r.history ∙ more ∙ ap (λ h. h ++ rest) (sym s.history))
  ],
  λ same k.
      let equal : a.kv_store.history ≡ b.kv_store.history =
        r.history ∙ ap (commands log 1) same ∙ sym s.history in
      r.replayed k ∙ ap (λ h. last_write k (reverse h)) equal ∙ sym (s.replayed k),
)

-- Two agents that start as replicas of a log, and each get messages that say the truth about it, and
-- ticks, in orders of their own, are not stopped; afterwards the one has executed the beginning of
-- what the other has, and if they have executed equally many slots, each key has the same value in
-- both.
pub runs_agree :
    {S N : Type 0} (ops : StorageOps S) (net : NetworkOps N) (codecs : Codecs) (log : Log)
    (es fs : List (Clock × Event)) (a b : LearnerAgent S N)
    → All (λ e. IsTrue log e.1) es
    → All (λ e. IsTrue log e.1) fs
    → Replica log a
    → Replica log b
    → (c d : LearnerAgent S N) × (run ops net codecs es a ≡ some c)
      × (run ops net codecs fs b ≡ some d)
      × Consistent c d
runs_agree ops net codecs log es fs a b t u r s =
    let (c, first, r') = run-Replica ops net codecs log es a t r in
    let (d, second, s') = run-Replica ops net codecs log fs b u s in
    (c, d, first, second, stores_agree log c d r' s')
