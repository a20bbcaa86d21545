-- ===== src/KvStore/Examples.antt =====
-- Runs of the key/value store (paxos-wasm/core/kv-store/src/kv-store.rs), and the theorems at them.
use wasm_master.Common.{none, some, List, [], ◌∷◌, ◌++◌, ◌≡◌, refl}
use wasm_master.Types.{Cmd, CmdResult}
use wasm_master.Types.Operation.{get, set, remove}
use wasm_master.KvStore.{new, apply}
use wasm_master.KvStore.Dict
use wasm_master.KvStore.Refinement.{view, run_table, apply_all, apply_all-run_table}

abbrev commands : List Cmd
commands =
    some (set (record { key = "x"; value = "1" }))
    ∷ some (set (record { key = "y"; value = "2" }))
    ∷ none
    ∷ some (set (record { key = "x"; value = "3" }))
    ∷ some (remove "y")
    ∷ some (get "x")
    ∷ []

commands_run :
    (apply_all commands new).0
    ≡ CmdResult.cmd_value none
      ∷ CmdResult.cmd_value none
      ∷ CmdResult.no_op
      ∷ CmdResult.cmd_value none
      ∷ CmdResult.cmd_value (some "2")
      ∷ CmdResult.cmd_value (some "3")
      ∷ []
unfolding apply_all apply Dict.get Dict.insert Dict.remove
commands_run = refl

apply_all-run_table_example :
    let (rs, s') = apply_all commands new in
    let (spec_rs, spec_t) = run_table commands (view new) in
    (rs ≡ spec_rs) × (view s' ≡ spec_t) × (s'.history ≡ new.history ++ commands)
apply_all-run_table_example = apply_all-run_table commands new
