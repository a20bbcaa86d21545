-- ===== src/KvStore.antt =====
-- `MyKvStoreResource` of paxos-wasm/core/kv-store/src/kv-store.rs: the pairs of the state machine
-- and the history of the commands that were applied to it.
pub mod Dict
pub mod Refinement
pub mod Listing
pub mod Examples
use wasm_master.Common.{String, Option, none, some, List, [], ◌∷◌, ◌++◌, map}
use wasm_master.Types.{KvPair, Operation, Cmd, CmdResult}
use wasm_master.Types.Operation.{get, set, remove, clear, demo}
use Dict
use Dict.{Pairs}

pub record KvStore : Type 0 where
  pub store : Pairs
  pub history : List Cmd

abbrev pub new : KvStore
new = record { store = []; history = [] }

abbrev pub log_cmd : Cmd → KvStore → KvStore
log_cmd cmd s = record s { history = s.history ++ cmd ∷ [] }

abbrev pub apply_get : String → KvStore → Option String × KvStore
apply_get key s = (Dict.get key s.store, s)

abbrev pub apply_set : KvPair → KvStore → Option String × KvStore
apply_set kv s = (none, record s { store = Dict.insert kv.key kv.value s.store })

abbrev pub apply_remove : String → KvStore → Option String × KvStore
apply_remove key s = (Dict.get key s.store, record s { store = Dict.remove key s.store })

abbrev pub apply_clear : KvStore → Option String × KvStore
apply_clear s = (none, record s { store = [] })

abbrev pub execute : Operation → KvStore → Option String × KvStore
execute (get key) s = apply_get key s
execute (set kv) s = apply_set kv s
execute (remove key) s = apply_remove key s
execute clear s = apply_clear s
execute demo s = (some "Demo", s)

abbrev pub execute_cmd : Cmd → KvStore → CmdResult × KvStore
execute_cmd none s = (CmdResult.no_op, s)
execute_cmd (some op) s = let (r, s') = execute op s in (CmdResult.cmd_value r, s')

unfoldable pub apply : Cmd → KvStore → CmdResult × KvStore
apply cmd s = execute_cmd cmd (log_cmd cmd s)

abbrev pub pair : String × String → KvPair
pair (key, value) = record { key = key; value = value }

abbrev pub get_state : KvStore → List KvPair
get_state s = map pair s.store

abbrev pub get_history : KvStore → List Cmd
get_history s = s.history
