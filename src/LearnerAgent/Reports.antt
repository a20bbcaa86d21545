-- ===== src/LearnerAgent/Reports.antt =====
-- The results of executed commands that paxos-wasm/agents/learner-agent/src/learner-agent.rs
-- buffers and hands out, and what it executes after a restart.
use mathlib.Core.List.{append-nil}
use wasm_master.Common.{
  ℕ, ◌+◌, ◌-◌, ◌≤◌, Bool, true, false, Option, none, some, List, [], ◌∷◌, ◌++◌, map, ◌≡◌, refl, sym,
  ◌∙◌, ap, ◌⊎◌, inl, inr, arith, leb, ltb, ◌&&◌, if◌then◌else◌, length, take, drop, take-drop,
  length-take, as_usize, Bool-cases, if_no,
}
use wasm_master.Types.{LearnResult, LearnedEntry, ExecuteResult, Node, RunConfig}
use wasm_master.Types.Messages.{RetryLearnResult}
use wasm_master.Persistence.{StorageOps, Clock}
use wasm_master.Network.{NetworkOps}
use wasm_master.Learner.{Learner, to_be_executed}
use wasm_master.Learner.Storage.{Codecs}
use wasm_master.Learner.Execution.{result_of}
use wasm_master.Learner.Decided.{Log, Follows, commands, command_of, to_be_executed-Follows}
use wasm_master.KvStore
use wasm_master.KvStore.{KvStore}
use wasm_master.LearnerAgent.{
  LearnerAgent, get_adu, available_of, is_short, collect_executed, execute_result,
  execute_chosen_learns, evaluate_retry, handle_evaluate_retry, dispatch_executed, report_executed,
  maybe_flush_state, tick_executed, handle_tick, new, send_retry,
}
use wasm_master.LearnerAgent.Replication.{executed-history}

abbrev pub IsFull : Option ℕ → List ExecuteResult → Type 0
IsFull none results = Unit
IsFull (some n) results = length results ≡ as_usize n

abbrev pub IsWithin : Option ℕ → List ExecuteResult → Type 0
IsWithin none results = Unit
IsWithin (some n) results = length results ≤ as_usize n

available_le : (size : Option ℕ) (len : ℕ) → available_of size len ≤ len
available_le none len = omega arith
available_le (some n) len = ground arith

drop-length : (buf : List ExecuteResult) → drop (length buf) buf ≡ []
drop-length [] = refl
drop-length (r ∷ rs) = drop-length rs

empty-IsWithin : (size : Option ℕ) → IsWithin size []
empty-IsWithin none = tt
empty-IsWithin (some n) = omega arith

abbrev taken : Option ℕ → List ExecuteResult → List ExecuteResult
taken size buf = take (available_of size (length buf)) buf

length-taken :
    (size : Option ℕ) (buf : List ExecuteResult)
    → length (taken size buf) ≡ available_of size (length buf)
length-taken size buf =
    length-take (available_of size (length buf)) buf (available_le size (length buf))

taken-IsWithin : (size : Option ℕ) (buf : List ExecuteResult) → IsWithin size (taken size buf)
taken-IsWithin none buf = tt
taken-IsWithin (some n) buf = ground (arith, length-taken (some n) buf)

taken-IsFull :
    (size : Option ℕ) (buf : List ExecuteResult)
    → is_short size (available_of size (length buf)) ≡ false
    → IsFull size (taken size buf)
taken-IsFull none buf h = tt
taken-IsFull (some n) buf h = ground (arith, length-taken (some n) buf)

taken-rest :
    (size : Option ℕ) (buf : List ExecuteResult)
    → IsFull size (taken size buf) ⊎ (drop (available_of size (length buf)) buf ≡ [])
taken-rest none buf = inl tt
taken-rest (some n) buf = elim (Bool-cases (leb (length buf) (as_usize n))) [
  | inl e ↦ inr (rw e (drop-length buf))
  | inr e ↦ inl (taken-IsFull (some n) buf (ground arith))
]

module _ {S N : Type 0} where
  -- The results come out of the buffer from the front, in their order, and none is lost; there are
  -- no more than the batch size, and fewer only if the buffer is empty afterwards or nothing at all
  -- came out. If a full batch is required, either a full one comes out or none.
  pub collect_executed_lem :
      (size : Option ℕ) (full : Bool) (a : LearnerAgent S N)
      → let (exec, b) = collect_executed size full a in
        (a.exec_buffer ≡ exec.results ++ b.exec_buffer)
        × (exec.adu ≡ get_adu a)
        × IsWithin size exec.results
        × ((full ≡ true) → (exec.results ≡ []) ⊎ IsFull size exec.results)
        × ((full ≡ false) → IsFull size exec.results ⊎ (b.exec_buffer ≡ []))
  unfolding collect_executed
  collect_executed_lem size full a =
      let buf = a.exec_buffer in
      elim (Bool-cases (full && is_short size (available_of size (length buf)))) [
        | inl e ↦ rw e (refl, refl, empty-IsWithin size, λ f. inl refl, λ f. ground arith)
        | inr e ↦ rw e (
          sym (take-drop (available_of size (length buf)) buf),
          refl,
          taken-IsWithin size buf,
          λ f. inr (taken-IsFull size buf (ground arith)),
          λ f. taken-rest size buf,
        )
      ]

module _ {S N : Type 0} (ops : StorageOps S) (net : NetworkOps N) (codecs : Codecs) where
  reported-nothing :
      (clock : Clock) (a : LearnerAgent S N)
      → a.config.is_event_driven ≡ false
      → a.config.learners_send_executed ≡ true
      → (report_executed ops net codecs clock false a).1
        ≡ (collect_executed (some a.config.message_batch_size) false a).1
  unfolding dispatch_executed collect_executed
  reported-nothing clock a replies sends = ground arith

  kv_store-new :
      (hash : ℕ) (store : S) (network : N) (node : Node) (nodes : List Node) (config : RunConfig)
      (clock : Clock) (a : LearnerAgent S N)
      → new ops net codecs hash store network node nodes config clock ≡ some a
      → a.kv_store ≡ KvStore.new
  unfolding new
  kv_store-new hash store network node nodes config clock a e = ground arith

  learner-execute_result :
      (clock : Clock) (out : List LearnedEntry) (l : Learner S) (a : LearnerAgent S N)
      → (execute_result ops net codecs clock (result_of out, l) a).learner ≡ l
  learner-execute_result clock [] l a = refl
  learner-execute_result clock (e ∷ out) l a = refl

  history-execute_result :
      (clock : Clock) (out : List LearnedEntry) (l : Learner S) (a : LearnerAgent S N)
      → (execute_result ops net codecs clock (result_of out, l) a).kv_store.history
        ≡ a.kv_store.history ++ map command_of out
  history-execute_result clock [] l a = sym (append-nil a.kv_store.history)
  history-execute_result clock (e ∷ out) l a = executed-history (e ∷ out) a.kv_store a.exec_buffer

  -- Where messages are answered by their replies, a tick that has nothing to ask for and nothing to
  -- execute takes results out of the buffer, as many as a message may carry, and sends nothing.
  pub tick_loses_results :
      (clock : Clock) (a : LearnerAgent S N) (l : Learner S)
      → a.config.is_event_driven ≡ false
      → a.config.learners_send_executed ≡ true
      → evaluate_retry clock a ≡ (RetryLearnResult.no_gap, a)
      → a.config.exec_interval_ms ≤ clock.now - a.last_exec_time
      → to_be_executed ops codecs clock a.learner ≡ some (LearnResult.ignore, l)
      → (b : LearnerAgent S N) × (handle_tick ops net codecs clock a ≡ some b)
        × (b.exec_buffer
            ≡ drop
                (available_of (some a.config.message_batch_size) (length a.exec_buffer))
                a.exec_buffer)
        × (b.network ≡ a.network)
  unfolding handle_tick handle_evaluate_retry execute_chosen_learns dispatch_executed
      collect_executed maybe_flush_state
  tick_loses_results clock a l replies sends quiet due idle =
      let c : LearnerAgent S N = record a { learner = l; last_exec_time = clock.now } in
      let b =
        maybe_flush_state ops net codecs clock (report_executed ops net codecs clock false c).1 in
      let ticked : LearnerAgent S N → Option (LearnerAgent S N) = λ d.
        if ltb (clock.now - d.last_exec_time) d.config.exec_interval_ms
        then some d
        else tick_executed ops net codecs clock (
            execute_chosen_learns ops net codecs clock (record d { last_exec_time = clock.now })) in
      let executed : execute_chosen_learns ops net codecs clock
            (record a { last_exec_time = clock.now })
          ≡ some c =
        rw (idle, execute_chosen_learns) refl in
      let kept = reported-nothing clock c replies sends in
      (
        b,
        ap ticked (ap (send_retry net) quiet)
            ∙ if_no (ltb (clock.now - a.last_exec_time) a.config.exec_interval_ms) (some a) _
                (ground arith)
            ∙ ap (tick_executed ops net codecs clock) executed,
        ap (λ (d : LearnerAgent S N). d.exec_buffer) kept,
        ap (λ (d : LearnerAgent S N). d.network) kept,
      )

  -- A restarted agent has an empty store, and executes the commands of the slots after the one that
  -- its learner has loaded as the last executed; it executes none of the slots up to that one.
  pub new_skips_log :
      (hash : ℕ) (store : S) (network : N) (node : Node) (nodes : List Node) (config : RunConfig)
      (clock later : Clock) (a : LearnerAgent S N) (log : Log)
      → new ops net codecs hash store network node nodes config clock ≡ some a
      → Follows log a.learner
      → (n : ℕ) × (b : LearnerAgent S N) × (execute_chosen_learns ops net codecs later a ≡ some b)
        × (get_adu b ≡ get_adu a + n)
        × (b.kv_store.history ≡ commands log (get_adu a + 1) n)
  unfolding new execute_chosen_learns
  new_skips_log hash store network node nodes config clock later a log e f =
      let (out, l, executes, cmds, moved, _) =
        to_be_executed-Follows log ops codecs later a.learner f in
      (
        length out,
        execute_result ops net codecs later (result_of out, l) a,
        rw (executes, execute_chosen_learns) refl,
        ap (λ (k : Learner S). k.adu) (learner-execute_result later out l a) ∙ moved,
        history-execute_result later out l a
            ∙ ap (λ (kv : KvStore). kv.history ++ map command_of out)
                (kv_store-new hash store network node nodes config clock a e)
            ∙ cmds,
      )
