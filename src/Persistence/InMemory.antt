-- ===== src/Persistence/InMemory.antt =====
-- A storage in memory that never fails: an instance of the interface of
-- paxos-wasm/shared/wit/core.wit at which the examples run.
use wasm_master.Common.{ℕ, List, [], ◌∷◌, ◌++◌}
use wasm_master.Common.Fallible.{ok, err}
use wasm_master.Persistence.{Bytes, StorageOps, Codec, Clock}

pub record Memory : Type 0 where
  pub state : Bytes
  pub changes : List Bytes
  pub snapshots : List Bytes

abbrev pub empty_memory : Memory
empty_memory = record { state = []; changes = []; snapshots = [] }

abbrev pub memory_ops : StorageOps Memory
memory_ops = record {
  save_state = λ b m. (ok tt, record m { state = b });
  load_state = λ m. ok m.state;
  flush_state = λ m. (ok tt, m);
  save_change = λ b m. (ok tt, record m { changes = m.changes ++ b ∷ [] });
  flush_changes = λ m. (ok tt, m);
  checkpoint = λ b t m. (ok tt, record m { snapshots = m.snapshots ++ b ∷ []; changes = [] });
  load_state_and_changes = λ n m. ok (m.snapshots, m.changes);
}

-- A codec whose encoding always fails, where an example stores nothing.
abbrev pub no_codec : {A : Type 0} → Codec A
no_codec = record { encode = λ a. err "not stored"; decode = λ b. err "not stored" }

abbrev pub numbers_codec : Codec (List ℕ)
numbers_codec = record { encode = λ a. ok a; decode = λ b. ok b }

abbrev pub at_start : Clock
at_start = record { now = 0; timestamp = "2025-01-01T00:00:00Z" }
