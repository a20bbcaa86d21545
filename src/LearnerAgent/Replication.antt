-- ===== src/LearnerAgent/Replication.antt =====
-- State machine replication: what paxos-wasm/agents/learner-agent/src/learner-agent.rs executes on
-- the key/value store, over any messages and ticks.
use mathlib.Core.List.{append-nil, append_assoc}
use wasm_master.Common.{
  ℕ, ◌+◌, Bool, Option, List, [], ◌∷◌, ◌++◌, map, ◌≡◌, refl, sym, ◌∙◌, ap, subst, arith, length,
  if_both,
}
use wasm_master.Common.KeyMap.{KeyMap}
use wasm_master.Types.{Slot, CmdResult, LearnedEntry, ExecuteResult, Executed}
use wasm_master.Types.Messages.{RetryLearnResult}
use wasm_master.Persistence.{Clock}
use wasm_master.Network.{NetworkOps}
use wasm_master.Learner.{Learner}
use wasm_master.Learner.Decided.{Log, Follows, commands, commands-append, command_of}
use wasm_master.KvStore.{KvStore, apply}
use wasm_master.KvStore.Refinement.{
  apply_all, apply_all-run_table, IsReplayed, apply_all-IsReplayed,
}
use wasm_master.LearnerAgent.{
  LearnerAgent, result_at, execute_all, collect_executed, evaluate_retry, retry_scanned,
  scan_missing, dispatch_executed, send_retry, handle_evaluate_retry,
}

-- Each entry with the result of its command.
abbrev pub results_of : List LearnedEntry → List CmdResult → List ExecuteResult
results_of (e ∷ es) (r ∷ rs) = result_at e r ∷ results_of es rs
results_of _ _ = []

pub execute_all_lem :
    (es : List LearnedEntry) (kv : KvStore) (buf : List ExecuteResult)
    → let (rs, kv') = apply_all (map command_of es) kv in
      execute_all es (kv, buf) ≡ (kv', buf ++ results_of es rs)
unfolding execute_all apply_all
execute_all_lem [] kv buf = ap (λ b. (kv, b)) (sym (append-nil buf))
execute_all_lem (e ∷ es) kv buf =
    let (r, kv') = apply e.value.command kv in
    execute_all_lem es kv' (buf ++ result_at e r ∷ [])
    ∙ ap (λ b. ((apply_all (map command_of es) kv').1, b))
        (append_assoc buf (result_at e r ∷ [])
          (results_of es (apply_all (map command_of es) kv').0))

-- The learner follows the log; the history of the store is the commands of the slots from 1 to the
-- last executed one, and the store holds what they have written.
pub record IsReplica {S : Type 0} (log : Log) (l : Learner S) (kv : KvStore) : Type 0 where
  pub follows : Follows log l
  pub history : kv.history ≡ commands log 1 l.adu
  pub replayed : IsReplayed kv

pub executed-history :
    (out : List LearnedEntry) (kv : KvStore) (buf : List ExecuteResult)
    → (execute_all out (kv, buf)).0.history ≡ kv.history ++ map command_of out
executed-history out kv buf =
    ap (λ p. p.0.history) (execute_all_lem out kv buf)
    ∙ (apply_all-run_table (map command_of out) kv).2

pub applied-IsReplica :
    {S : Type 0} (log : Log) (out : List LearnedEntry) (old l : Learner S) (kv : KvStore)
    (buf : List ExecuteResult)
    → map command_of out ≡ commands log (old.adu + 1) (length out)
    → l.adu ≡ old.adu + length out
    → Follows log l
    → IsReplica log old kv
    → IsReplica log l (execute_all out (kv, buf)).0
applied-IsReplica log out old l kv buf cmds moved f r =
    let kv' = (apply_all (map command_of out) kv).1 in
    let same : (execute_all out (kv, buf)).0 ≡ kv' = ap (λ p. p.0) (execute_all_lem out kv buf) in
    let (_, _, grown) = apply_all-run_table (map command_of out) kv in
    let start : old.adu + 1 ≡ 1 + old.adu = omega arith in
    subst (IsReplica log l) (sym same) (record {
      follows = f;
      history =
          grown
          ∙ (λ i. r.history i ++ (cmds ∙ ap (λ k. commands log k (length out)) start) i)
          ∙ sym (commands-append log 1 old.adu (length out))
          ∙ ap (commands log 1) (sym moved);
      replayed = apply_all-IsReplayed (map command_of out) kv r.replayed;
    })

module _ {S N : Type 0} where
  -- The part of the agent that is replicated.
  abbrev pub core : LearnerAgent S N → Learner S × KvStore
  core a = (a.learner, a.kv_store)

  abbrev pub Replica : Log → LearnerAgent S N → Type 0
  Replica log a = IsReplica log a.learner a.kv_store

  pub moved-Replica :
      (log : Log) (a b : LearnerAgent S N) → core b ≡ core a → Replica log a → Replica log b
  moved-Replica log a b e h = subst (λ c. IsReplica log c.0 c.1) (sym e) h

  pub core-collect_executed :
      (size : Option ℕ) (full : Bool) (a : LearnerAgent S N)
      → core (collect_executed size full a).1 ≡ core a
  unfolding collect_executed
  core-collect_executed size full a =
      if_both (λ (r : Executed × LearnerAgent S N). core r.1 ≡ core a) _ refl refl

  core-retry_scanned :
      (clock : Clock) (r : List Slot × KeyMap ℕ) (a : LearnerAgent S N)
      → core (retry_scanned clock r a).1 ≡ core a
  core-retry_scanned clock ([], times) a = refl
  core-retry_scanned clock (slot ∷ slots, times) a = refl

  core-evaluate_retry :
      (clock : Clock) (a : LearnerAgent S N) → core (evaluate_retry clock a).1 ≡ core a
  unfolding evaluate_retry
  core-evaluate_retry clock a =
      if_both (λ (r : RetryLearnResult × LearnerAgent S N). core r.1 ≡ core a) _ refl
        (core-retry_scanned clock (scan_missing clock a) a)

module _ {S N : Type 0} (net : NetworkOps N) where
  pub core-dispatch_executed :
      (exec : Executed) (a : LearnerAgent S N) → core (dispatch_executed net exec a).1 ≡ core a
  unfolding dispatch_executed
  core-dispatch_executed exec a = ground arith

  core-send_retry :
      (r : RetryLearnResult) (a : LearnerAgent S N) → core (send_retry net (r, a)) ≡ core a
  core-send_retry r a = ground arith

  pub core-handle_evaluate_retry :
      (clock : Clock) (a : LearnerAgent S N) → core (handle_evaluate_retry net clock a) ≡ core a
  unfolding handle_evaluate_retry
  core-handle_evaluate_retry clock a =
      core-send_retry (evaluate_retry clock a).0 (evaluate_retry clock a).1
      ∙ core-evaluate_retry clock a
