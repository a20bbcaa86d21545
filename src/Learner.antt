-- ===== src/Learner.antt =====
-- `MyLearnerResource` of paxos-wasm/core/learner/src/learner.rs: the votes of the acceptors, the
-- learned values, and the cursor `adu` (all decided up to) of what has been executed.
pub mod Storage
pub mod Quorum
pub mod Execution
pub mod Recovery
pub mod Replicas
pub mod Entries
pub mod Decided
pub mod Examples
use wasm_master.Common.{
  ℕ, zero, suc, ◌+◌, ◌-◌, ◌/◌, Bool, true, false, Option, none, some, List, [], ◌∷◌, map, ◌&&◌, leb,
  ◌==◌, if◌then◌else◌, add_u64, as_usize, length,
}
use wasm_master.Common.Fallible.{Result, ok, err, Act}
use wasm_master.Common.KeyMap
use wasm_master.Common.KeyMap.{KeyMap}
use wasm_master.Types.{Slot, Value, Learn, LearnedEntry, LearnResult, Node, RunConfig}
use wasm_master.Types.Equality.{value_eq}
use wasm_master.Persistence.{StorageOps, Clock}
use Storage.{
  Codecs, StorageHelper, save_change, maybe_snapshot, maybe_flush_changes, load_and_replay_state,
}

pub record Learner (S : Type 0) : Type 0 where
  pub num_acceptors : ℕ
  pub slot_learns : KeyMap (KeyMap Learn)
  pub learned : KeyMap Value
  pub adu : Slot
  pub storage : StorageHelper S

-- `none` is a panic.
unfoldable pub new : {S : Type 0} → ℕ → ℕ → S → RunConfig → Clock → Option (Learner S)
new num_acceptors hash store config clock =
    elim (Storage.new hash store config config.persistent_storage clock) [
      | none ↦ none
      | some storage ↦ some (record {
        num_acceptors = num_acceptors;
        slot_learns = [];
        learned = [];
        adu = 0;
        storage = storage;
      })
    ]

abbrev pub quorum_of : ℕ → ℕ
quorum_of num_acceptors = as_usize (num_acceptors / 2 + 1)

-- `*counts.entry(value).or_default() += 1`
unfoldable pub bump : Value → List (Value × ℕ) → List (Value × ℕ)
bump v [] = (v, 1) ∷ []
bump v ((w, n) ∷ counts) =
    let rest = bump v counts in if value_eq w v then (w, n + 1) ∷ counts else (w, n) ∷ rest

unfoldable pub tally_from : List (Value × ℕ) → List Learn → List (Value × ℕ)
tally_from counts [] = counts
tally_from counts (l ∷ ls) = tally_from (bump l.value counts) ls

-- `counts.into_iter().find(|(_, cnt)| *cnt >= quorum)`, in one of the orders of the hash map
unfoldable pub find_quorum : ℕ → List (Value × ℕ) → Option Value
find_quorum q [] = none
find_quorum q ((v, n) ∷ counts) =
    let rest = find_quorum q counts in if leb q n then some v else rest

abbrev pub check_votes : ℕ → Option (KeyMap Learn) → Option Value
check_votes q none = none
check_votes q (some votes) =
    if leb q (length votes) then find_quorum q (tally_from [] (KeyMap.values votes)) else none

abbrev pub or_empty : {V : Type 0} → Option (KeyMap V) → KeyMap V
or_empty none = []
or_empty (some m) = m

-- The `while let` loop of `to_be_executed`, on fuel; `none` means that the fuel ran out.
unfoldable pub collect : ℕ → Slot → KeyMap Value → Option (List LearnedEntry × Slot)
collect zero next learned = none
collect (suc fuel) next learned =
    let rest = collect fuel (add_u64 next 1) learned in
    elim (KeyMap.get next learned) [
      | none ↦ some ([], next)
      | some v ↦ elim rest [
        | none ↦ none
        | some (out, end) ↦ some (record { slot = next; value = v } ∷ out, end)
      ]
    ]

abbrev pub or_default : Option ℕ → ℕ
or_default none = 0
or_default (some n) = n

abbrev pub entry_at : Slot → Option Value → Option LearnedEntry
entry_at slot none = none
entry_at slot (some v) = some (record { slot = slot; value = v })

module _ {S : Type 0} where
  abbrev pub quorum : Learner S → ℕ
  quorum l = quorum_of l.num_acceptors

  unfoldable pub check_quorum : Learner S → Slot → Option Value
  check_quorum l slot = check_votes (quorum l) (KeyMap.get slot l.slot_learns)

  abbrev pub get_state : Learner S → List LearnedEntry
  get_state l = map (λ e. record { slot = e.0; value = e.1 }) l.learned

  abbrev pub get_highest_learned : Learner S → Slot
  get_highest_learned l = or_default (KeyMap.last_key l.learned)

  abbrev pub get_learned : Learner S → Slot → Option LearnedEntry
  get_learned l slot = entry_at slot (KeyMap.get slot l.learned)

  -- The vote of a sender replaces the one that it sent before.
  unfoldable pub record_vote : Learn → ℕ → Learner S → Learner S
  record_vote learn sender l = record l {
    slot_learns =
        KeyMap.insert learn.slot
          (KeyMap.insert sender learn (or_empty (KeyMap.get learn.slot l.slot_learns)))
          l.slot_learns;
  }

module _ {S : Type 0} (ops : StorageOps S) (codecs : Codecs) (clock : Clock) where
  unfoldable pub learn : Slot → Value → Learner S → Bool × Learner S
  learn slot value l = elim (KeyMap.get slot l.learned) [
    | some _ ↦ (false, l)
    | none ↦ (
      true,
      record l {
        learned = KeyMap.insert slot value l.learned;
        storage =
            (save_change ops codecs clock (record { slot = slot; value = value }) l.storage).1;
      },
    )
  ]

  abbrev pub learn_quorum : Slot → Option Value → Learner S → Bool × Learner S
  learn_quorum slot none l = (false, l)
  learn_quorum slot (some v) l = learn slot v l

  unfoldable pub handle_learn : Learn → Node → Learner S → Bool × Learner S
  handle_learn vote sender l =
      let l' = record_vote vote sender.node_id l in
      learn_quorum vote.slot (check_quorum l' vote.slot) l'

  -- `maybe_snapshot`, where an error leaves the map as it was
  abbrev pub after_snapshot :
      KeyMap Value → Result (KeyMap Value) × StorageHelper S → Learner S → Learner S
  after_snapshot m (ok kept, h) l = record l { learned = kept; storage = h }
  after_snapshot m (err _, h) l = record l { learned = m; storage = h }

  abbrev pub execute_entries : List LearnedEntry → Slot → Learner S → LearnResult × Learner S
  execute_entries [] next l = (LearnResult.ignore, l)
  execute_entries (e ∷ out) next l =
      let new_adu = next - 1 in
      (
        LearnResult.execute (e ∷ out),
        after_snapshot l.learned (maybe_snapshot ops codecs clock new_adu l.learned l.storage)
            (record l { adu = new_adu }),
      )

  abbrev pub execute_collected :
      Option (List LearnedEntry × Slot) → Learner S → Option (LearnResult × Learner S)
  execute_collected none l = none
  execute_collected (some (out, next)) l = some (execute_entries out next l)

  -- The fuel is one more than the number of learned slots; `none` would be a loop that it stopped.
  unfoldable pub to_be_executed : Learner S → Option (LearnResult × Learner S)
  to_be_executed l =
      execute_collected (collect (suc (length l.learned)) (add_u64 l.adu 1) l.learned) l

  unfoldable pub maybe_flush : Act (Learner S) (Unit {0})
  maybe_flush l =
      let (r, h) = maybe_flush_changes ops codecs clock l.storage in (r, record l { storage = h })

module _ {S : Type 0} (ops : StorageOps S) (codecs : Codecs) where
  unfoldable pub load_state : Act (Learner S) (Unit {0})
  load_state l =
      let (r, (learned', adu')) = load_and_replay_state ops codecs l.storage (l.learned, l.adu) in
      (r, record l { learned = learned'; adu = adu' })
