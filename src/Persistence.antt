-- ===== src/Persistence.antt =====
-- What the core components use of their environment: the storage resource (interface `storage` of
-- paxos-wasm/shared/wit/core.wit, which core/storage implements), the serialiser `bincode`, the
-- clock, and the test of an error text.
pub mod InMemory
use text.Mathlib.Text.{find?}
use wasm_master.Common.{ℕ, String, Bool, List, ◌≡◌, is_some}
use wasm_master.Common.Fallible.{Result, ok, Act}

abbrev pub Bytes : Type 0
Bytes = List ℕ

-- The methods of `StorageResource`, over any type of its state.
pub record StorageOps (S : Type 0) : Type 0 where
  pub save_state : Bytes → Act S (Unit {0})
  pub load_state : S → Result Bytes
  pub flush_state : Act S (Unit {0})
  pub save_change : Bytes → Act S (Unit {0})
  pub flush_changes : Act S (Unit {0})
  pub checkpoint : Bytes → String → Act S (Unit {0})
  pub load_state_and_changes : ℕ → S → Result (List Bytes × List Bytes)

-- `bincode::serde::{encode_to_vec, decode_from_slice}` at one type.
pub record Codec (A : Type 0) : Type 0 where
  pub encode : A → Result Bytes
  pub decode : Bytes → Result A

-- What the program relies on: what was encoded is decoded to the same value.
abbrev pub IsRoundTrip : {A : Type 0} → Codec A → Type 0
IsRoundTrip {A} c = (a : A) (b : Bytes) → c.encode a ≡ ok b → c.decode b ≡ ok a

-- The clocks as one call reads them: milliseconds of `Instant::now()`, and the text of
-- `Utc::now().to_rfc3339()`.
pub record Clock : Type 0 where
  pub now : ℕ
  pub timestamp : String

-- `e.contains("no such file")`
abbrev pub is_missing_file : String → Bool
is_missing_file e = is_some (find? e "no such file")

-- What the program relies on: a state whose save has succeeded is the one that is read, and a flush
-- of the state does not change it.
pub record KeepsState {S : Type 0} (ops : StorageOps S) : Type 0 where
  pub saved :
      (b : Bytes) (s : S)
      → (ops.save_state b s).0 ≡ ok tt
      → ops.load_state (ops.save_state b s).1 ≡ ok b
  pub flushed : (s : S) → ops.load_state (ops.flush_state s).1 ≡ ops.load_state s
