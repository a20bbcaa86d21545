-- ===== src/LearnerAgent.antt =====
-- `MyLearnerAgentResource` of paxos-wasm/agents/learner-agent/src/learner-agent.rs: the learns that
-- arrive, the requests for those that are missing, the execution on the key/value store, and the
-- batches of results. The fields `tp_*` only feed log lines and are left out; an error of the
-- storage is logged by the source and otherwise ignored, as here.
pub mod Retries
pub mod Replication
pub mod Runs
pub mod Reports
pub mod Examples
use wasm_master.Common.{
  ℕ, zero, suc, ◌+◌, ◌-◌, Bool, true, false, Option, none, some, List, [], ◌∷◌, ◌++◌, if◌then◌else◌,
  ◌&&◌, ◌||◌, not, ltb, leb, length, take, drop, add_u64, as_usize,
}
use wasm_master.Common.KeyMap
use wasm_master.Common.KeyMap.{KeyMap}
use wasm_master.Types.{
  Slot, Value, Node, Learn, LearnedEntry, LearnResult, CmdResult, ExecuteResult, Executed,
  RunConfig, KvPair,
}
use wasm_master.Types.Messages.{RetryLearns, MessagePayload, NetworkMessage, RetryLearnResult}
use wasm_master.Persistence.{StorageOps, Clock}
use wasm_master.Network.{
  NetworkOps, message_from, may_propose, may_accept, is_coordinator, with_role,
}
use wasm_master.Learner
use wasm_master.Learner.{Learner}
use wasm_master.Learner.Storage.{Codecs}
use wasm_master.KvStore
use wasm_master.KvStore.{KvStore}

pub record LearnerAgent (S N : Type 0) : Type 0 where
  pub config : RunConfig
  pub node : Node
  pub proposers : List Node
  pub acceptors : List Node
  pub all_nodes : List Node
  pub learner : Learner S
  pub kv_store : KvStore
  pub network : N
  pub last_learn_time : ℕ
  pub retries : KeyMap ℕ
  pub exec_buffer : List ExecuteResult
  pub last_exec_time : ℕ

-- `retries.get(&slot).map(|t| now.duration_since(*t)).unwrap_or(global_timeout + 1ms)`, compared
-- with the timeout.
abbrev pub is_cooled_down : Option ℕ → ℕ → ℕ → Bool
is_cooled_down none now timeout = leb timeout (timeout + 1)
is_cooled_down (some t) now timeout = leb timeout (now - t)

-- The loop of `evaluate_retry` over `count` slots from `slot` on, with room for `room` more in the
-- batch: the slots to retry, and the times of the retries.
unfoldable pub scan : ℕ → ℕ → Slot → ℕ → ℕ → KeyMap ℕ → List Slot × KeyMap ℕ
scan zero room slot now timeout retries = ([], retries)
scan (suc count) zero slot now timeout retries = ([], retries)
scan (suc count) (suc room) slot now timeout retries =
    let (out, retries') = scan count room (slot + 1) now timeout (KeyMap.insert slot now retries) in
    let skipped = scan count (suc room) (slot + 1) now timeout retries in
    if is_cooled_down (KeyMap.get slot retries) now timeout then (slot ∷ out, retries') else skipped

-- `!matches!(cmd_res, CmdResult::NoOp)`
abbrev pub is_success : CmdResult → Bool
is_success CmdResult.no_op = false
is_success (CmdResult.cmd_value r) = true

abbrev pub result_at : LearnedEntry → CmdResult → ExecuteResult
result_at e r = record { value = e.value; slot = e.slot; success = is_success r; cmd_result = r }

-- The loop over the entries: each command is applied, and its result joins the buffer.
unfoldable pub execute_all :
    List LearnedEntry → KvStore × List ExecuteResult → KvStore × List ExecuteResult
execute_all [] s = s
execute_all (e ∷ es) (kv, buf) =
    let (r, kv') = KvStore.apply e.value.command kv in
    execute_all es (kv', buf ++ result_at e r ∷ [])

abbrev pub available_of : Option ℕ → ℕ → ℕ
available_of none len = len
available_of (some n) len = if leb len (as_usize n) then len else as_usize n

-- `batch_size.map_or(false, |n| available < n as usize)`
abbrev pub is_short : Option ℕ → ℕ → Bool
is_short none available = false
is_short (some n) available = ltb available (as_usize n)

-- `self_is_coordinator as u64` is added although the list holds the node itself, if it is there.
abbrev pub num_acceptors_of : Node → List Node → ℕ
num_acceptors_of node nodes =
    length (with_role may_accept nodes) + (if is_coordinator node.role then 1 else 0)

abbrev pub is_empty : List ExecuteResult → Bool
is_empty [] = true
is_empty (r ∷ rs) = false

module _ {S N : Type 0} where
  abbrev pub get_adu : LearnerAgent S N → Slot
  get_adu a = Learner.adu a.learner

  abbrev pub get_state : LearnerAgent S N → List LearnedEntry × List KvPair
  get_state a = (Learner.get_state a.learner, KvStore.get_state a.kv_store)

  unfoldable pub collect_executed : Option ℕ → Bool → LearnerAgent S N → Executed × LearnerAgent S N
  collect_executed batch_size require_full_batch a =
      let available = available_of batch_size (length a.exec_buffer) in
      if require_full_batch && is_short batch_size available
      then (record { results = []; adu = get_adu a }, a)
      else (
        record { results = take available a.exec_buffer; adu = get_adu a },
        record a { exec_buffer = drop available a.exec_buffer },
      )

  -- The slots that the retry asks for, and the times of the retries after it.
  abbrev pub scan_missing : Clock → LearnerAgent S N → List Slot × KeyMap ℕ
  scan_missing clock a =
      let highest = Learner.get_highest_learned a.learner in
      let first = add_u64 (get_adu a) 1 in
      scan (highest + 1 - first) (as_usize a.config.message_batch_size) first clock.now
        a.config.retry_interval_ms a.retries

  abbrev pub retry_scanned :
      Clock → List Slot × KeyMap ℕ → LearnerAgent S N → RetryLearnResult × LearnerAgent S N
  retry_scanned clock ([], retries) a =
      (RetryLearnResult.skip (get_adu a), record a { retries = retries })
  retry_scanned clock (slot ∷ slots, retries) a = (
    RetryLearnResult.retry (slot ∷ slots),
    record a { retries = retries; last_learn_time = clock.now },
  )

  unfoldable pub evaluate_retry : Clock → LearnerAgent S N → RetryLearnResult × LearnerAgent S N
  evaluate_retry clock a =
      let gap = Learner.get_highest_learned a.learner - get_adu a in
      if ltb gap a.config.learn_max_gap
        && ltb (clock.now - a.last_learn_time) a.config.retry_interval_ms
      then (RetryLearnResult.no_gap, a)
      else retry_scanned clock (scan_missing clock a) a

module _ {S N : Type 0} (net : NetworkOps N) where
  abbrev pub send_forget : List Node → MessagePayload → LearnerAgent S N → LearnerAgent S N
  send_forget nodes payload a = record a {
    network = net.send_message_forget nodes (message_from a.node payload) a.network;
  }

  unfoldable pub send_heartbeat : LearnerAgent S N → LearnerAgent S N
  send_heartbeat a = send_forget a.all_nodes MessagePayload.heartbeat a

  -- The message that the caller is to return, if there is one.
  unfoldable pub dispatch_executed :
      Executed → LearnerAgent S N → Option MessagePayload × LearnerAgent S N
  dispatch_executed exec a =
      if not a.config.learners_send_executed || is_empty exec.results
      then (none, a)
      else if a.config.is_event_driven
      then (none, send_forget a.proposers (MessagePayload.executed exec) a)
      else (some (MessagePayload.executed exec), a)

  abbrev pub send_retry : RetryLearnResult × LearnerAgent S N → LearnerAgent S N
  send_retry (RetryLearnResult.no_gap, a) = a
  send_retry (RetryLearnResult.skip slot, a) = a
  send_retry (RetryLearnResult.retry slots, a) =
      send_forget (if a.config.acceptors_send_learns then a.acceptors else a.proposers)
        (MessagePayload.retry_learns (record { slots = slots })) a

  unfoldable pub handle_evaluate_retry : Clock → LearnerAgent S N → LearnerAgent S N
  handle_evaluate_retry clock a = send_retry (evaluate_retry clock a)

module _ {S N : Type 0} (ops : StorageOps S) (net : NetworkOps N) (codecs : Codecs) where
  -- `hash`, `store` and `network` are what the constructors of the resources make; `none` is a panic.
  unfoldable pub new : ℕ → S → N → Node → List Node → RunConfig → Clock → Option (LearnerAgent S N)
  new hash store network node nodes config clock =
      elim (Learner.new (num_acceptors_of node nodes) hash store config clock) [
        | none ↦ none
        | some learner ↦ some (record {
          config = config;
          node = node;
          proposers = with_role may_propose nodes;
          acceptors = with_role may_accept nodes;
          all_nodes = nodes;
          learner = (Learner.load_state ops codecs learner).1;
          kv_store = KvStore.new;
          network = network;
          last_learn_time = clock.now;
          retries = [];
          exec_buffer = [];
          last_exec_time = clock.now;
        })
      ]

  module _ (clock : Clock) where
    abbrev pub learn_or_vote : Slot → Value → Node → LearnerAgent S N → Bool × Learner S
    learn_or_vote slot value sender a =
        if a.config.acceptors_send_learns
        then Learner.handle_learn ops codecs clock (record { slot = slot; value = value }) sender
            a.learner
        else Learner.learn ops codecs clock slot value a.learner

    unfoldable pub record_learn : Slot → Value → Node → LearnerAgent S N → Bool × LearnerAgent S N
    record_learn slot value sender a =
        let (was_new, learner) = learn_or_vote slot value sender a in
        (
          was_new,
          record a {
            learner = learner;
            last_learn_time = if was_new then clock.now else a.last_learn_time;
          },
        )

    abbrev pub execute_result : LearnResult × Learner S → LearnerAgent S N → LearnerAgent S N
    execute_result (LearnResult.ignore, learner) a = record a { learner = learner }
    execute_result (LearnResult.execute entries, learner) a =
        let (kv, buf) = execute_all entries (a.kv_store, a.exec_buffer) in
        record a { learner = learner; kv_store = kv; exec_buffer = buf }

    -- `none` is a loop of `to_be_executed` that its fuel has stopped.
    unfoldable pub execute_chosen_learns : LearnerAgent S N → Option (LearnerAgent S N)
    execute_chosen_learns a = elim (Learner.to_be_executed ops codecs clock a.learner) [
      | none ↦ none
      | some r ↦ some (execute_result r a)
    ]

    unfoldable pub maybe_flush_state : LearnerAgent S N → LearnerAgent S N
    maybe_flush_state a = record a { learner = (Learner.maybe_flush ops codecs clock a.learner).1 }

    -- The reply that a batch of results makes, and the ignore message where there is none.
    abbrev pub reply_or_ignore :
        Option MessagePayload × LearnerAgent S N → MessagePayload × LearnerAgent S N
    reply_or_ignore (none, a) = (MessagePayload.ignore, a)
    reply_or_ignore (some reply, a) = (reply, a)

    abbrev pub report_executed : Bool → LearnerAgent S N → Option MessagePayload × LearnerAgent S N
    report_executed require_full_batch a =
        if a.config.learners_send_executed
        then (let (exec, a') =
              collect_executed (some a.config.message_batch_size) require_full_batch a in
            dispatch_executed net exec a')
        else (none, a)

    abbrev pub learn_recorded : Bool × LearnerAgent S N → Option (MessagePayload × LearnerAgent S N)
    learn_recorded (false, a) = some (MessagePayload.ignore, a)
    learn_recorded (true, a) = elim (execute_chosen_learns a) [
      | none ↦ none
      | some a' ↦ some (reply_or_ignore (report_executed true a'))
    ]

    abbrev pub handle_payload :
        MessagePayload → Node → LearnerAgent S N → Option (MessagePayload × LearnerAgent S N)
    handle_payload (MessagePayload.learn l) sender a =
        learn_recorded (record_learn l.slot l.value sender a)
    handle_payload (MessagePayload.adu n) sender a =
        let reply = MessagePayload.adu (get_adu a) in
        some (reply, send_forget net (sender ∷ []) reply a)
    handle_payload _ sender a = some (MessagePayload.ignore, a)

    unfoldable pub handle_message :
        NetworkMessage → LearnerAgent S N → Option (NetworkMessage × LearnerAgent S N)
    handle_message message a = elim (handle_payload message.payload message.sender a) [
      | none ↦ none
      | some (reply, a') ↦ some (message_from a.node reply, a')
    ]

    abbrev pub tick_executed : Option (LearnerAgent S N) → Option (LearnerAgent S N)
    tick_executed none = none
    tick_executed (some a) = some (maybe_flush_state (report_executed false a).1)

    unfoldable pub handle_tick : LearnerAgent S N → Option (LearnerAgent S N)
    handle_tick a =
        let b = handle_evaluate_retry net clock a in
        if ltb (clock.now - b.last_exec_time) b.config.exec_interval_ms
        then some b
        else tick_executed (execute_chosen_learns (record b { last_exec_time = clock.now }))
