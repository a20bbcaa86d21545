-- ===== src/Types/Equality.antt =====
-- `PartialEq` of operations, values and statuses, which the bindings derive.
use text.Mathlib.Text.{◌==◌ as str_eq}
use text.Mathlib.TextEquality.{eq_iff}
use wasm_master.Common.{Bool, true, false, Option, none, some, ◌≡◌, ◌↔◌, ◌&&◌, arith, ◌==◌}
use wasm_master.Types.{Operation, Value, ProposalStatus}
use wasm_master.Types.Operation.{get, set, remove, clear, demo}
use wasm_master.Types.ProposalStatus.{in_flight, chosen, commit_pending, finalized}

unfoldable pub operation_eq : Operation → Operation → Bool
operation_eq (get k) (get j) = str_eq k j
operation_eq (set a) (set b) = str_eq a.key b.key && str_eq a.value b.value
operation_eq (remove k) (remove j) = str_eq k j
operation_eq clear clear = true
operation_eq demo demo = true
operation_eq _ _ = false

pub operation_eq_iff : (a b : Operation) → (operation_eq a b ≡ true) ↔ (a ≡ b)
unfolding operation_eq
operation_eq_iff (get k) (get j) = ground (arith, eq_iff k j)
operation_eq_iff (set a) (set b) = ground (arith, eq_iff a.key b.key, eq_iff a.value b.value)
operation_eq_iff (remove k) (remove j) = ground (arith, eq_iff k j)
operation_eq_iff _ _ = ground arith

abbrev cmd_eq : Option Operation → Option Operation → Bool
cmd_eq none none = true
cmd_eq (some a) (some b) = operation_eq a b
cmd_eq _ _ = false

cmd_eq_iff : (a b : Option Operation) → (cmd_eq a b ≡ true) ↔ (a ≡ b)
cmd_eq_iff (some a) (some b) = ground (arith, operation_eq_iff a b)
cmd_eq_iff _ _ = ground arith

unfoldable pub value_eq : Value → Value → Bool
unfolding operation_eq
value_eq a b =
    cmd_eq a.command b.command && str_eq a.client_id b.client_id && a.client_seq == b.client_seq

pub value_eq_iff : (a b : Value) → (value_eq a b ≡ true) ↔ (a ≡ b)
unfolding value_eq
value_eq_iff a b = ground (arith, cmd_eq_iff a.command b.command, eq_iff a.client_id b.client_id)

-- `existing == Some(value)`
abbrev pub holds_value : Option Value → Value → Bool
holds_value none v = false
holds_value (some w) v = value_eq w v

abbrev pub status_eq : ProposalStatus → ProposalStatus → Bool
status_eq in_flight in_flight = true
status_eq chosen chosen = true
status_eq commit_pending commit_pending = true
status_eq finalized finalized = true
status_eq _ _ = false
