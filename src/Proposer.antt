-- ===== src/Proposer.antt =====
-- `MyProposerResource` of paxos-wasm/core/proposer/src/proposer.rs: the queues of values, the
-- proposals with their status, and the ballot and slot counters. `none` of a method that saves its
-- state is the panic of `expect`.
pub mod Storage
pub mod Gather
pub mod Collect
pub mod Phases
pub mod Proposals
pub mod Statuses
pub mod Ballots
pub mod Recovery
pub mod Examples
use wasm_master.Common.{
  ℕ, zero, suc, ◌+◌, ◌-◌, ◌/◌, Bool, true, false, Option, none, some, List, [], ◌∷◌, ◌++◌, ◌&&◌,
  not, ltb, leb, ◌==◌, if◌then◌else◌, add_u64, as_usize, length, select, count_if, has, is_some,
}
use wasm_master.Common.Fallible.{Result, ok, err, Act}
use wasm_master.Common.KeyMap
use wasm_master.Common.KeyMap.{KeyMap}
use wasm_master.Types.{
  Slot, Ballot, Value, PValue, Promise, Proposal, Accepted, PrepareResult, AcceptResult,
  ProposalStatus, ProposalEntry, RunConfig,
}
use wasm_master.Types.ProposalStatus.{in_flight, chosen, commit_pending, finalized}
use wasm_master.Types.Equality.{value_eq, status_eq}
use wasm_master.Persistence.{StorageOps, Codec, Clock}
use Storage.{CurrentState, StorageHelper, save_state, maybe_flush_state}

pub record Proposer (S : Type 0) : Type 0 where
  pub num_acceptors : ℕ
  pub ballot_delta : Ballot
  pub is_leader : Bool
  pub current_slot : Slot
  pub current_ballot : Ballot
  pub adu : Slot
  pub pending_client_requests : List Value
  pub prioritized_values : List Value
  pub proposals : KeyMap ProposalEntry
  pub chosen_slots : List Slot
  pub storage : StorageHelper S

unfoldable pub new : {S : Type 0} → Bool → ℕ → Ballot → S → RunConfig → Clock → Proposer S
new is_leader num_acceptors init_ballot store config clock = record {
  num_acceptors = num_acceptors;
  ballot_delta = num_acceptors;
  is_leader = is_leader;
  current_slot = 0;
  current_ballot = init_ballot;
  adu = 0;
  pending_client_requests = [];
  prioritized_values = [];
  proposals = [];
  chosen_slots = [];
  storage = Storage.new store config config.persistent_storage clock;
}

abbrev pub quorum_of : ℕ → ℕ
quorum_of num_acceptors = as_usize (num_acceptors / 2 + 1)

-- The entry of a slot in `slot_map`, after one more accepted proposal has been seen.
abbrev pub better : Option PValue → PValue → PValue
better none a = a
better (some old) a = if ltb old.ballot a.ballot then a else old

-- `entry(slot).and_modify(..).or_insert(..)`, for an accepted proposal from `min_slot` on
unfoldable pub note : Slot → PValue → KeyMap PValue → KeyMap PValue
note min_slot a m =
    if leb min_slot a.slot then KeyMap.insert a.slot (better (KeyMap.get a.slot m) a) m else m

-- The highest-ballot proposal for each slot from `min_slot` on, over accepted proposals in the
-- order in which the promises list them.
unfoldable pub gather : Slot → KeyMap PValue → List PValue → KeyMap PValue
gather min_slot m [] = m
gather min_slot m (a ∷ rest) = gather min_slot (note min_slot a m) rest

-- All that the promises list as accepted.
unfoldable pub all_accepted : List Promise → List PValue
all_accepted [] = []
all_accepted (p ∷ ps) = p.accepted ++ all_accepted ps

-- The inner `while`: a no-op for each slot of a gap.
unfoldable pub no_ops : Ballot → ℕ → Slot → List PValue
no_ops ballot zero expected = []
no_ops ballot (suc n) expected =
    record { slot = expected; ballot = ballot; value = none } ∷ no_ops ballot n (expected + 1)

-- The outer loop, over the slots in ascending order.
unfoldable pub fill : Ballot → Slot → KeyMap PValue → List PValue
fill ballot expected [] = []
fill ballot expected ((slot, pv) ∷ m) =
    no_ops ballot (slot - expected) expected ++ (pv ∷ fill ballot (add_u64 slot 1) m)

-- `filter(|p| seen_slots.insert(p.slot))`
unfoldable pub dedup : List Slot → List PValue → List PValue
dedup seen [] = []
dedup seen (p ∷ ps) =
    let rest = dedup (if has p.slot seen then seen else p.slot ∷ seen) ps in
    if has p.slot seen then rest else p ∷ rest

abbrev pub with_command : Option Value → List Value
with_command none = []
with_command (some v) = if is_some v.command then v ∷ [] else []

-- `filter_map(|p| p.value).filter(|v| v.command.is_some())`
unfoldable pub commands : List PValue → List Value
commands [] = []
commands (p ∷ ps) = with_command p.value ++ commands ps

abbrev pub contains : Value → List Value → Bool
contains v [] = false
contains v (w ∷ ws) = let rest = contains v ws in if value_eq w v then true else rest

-- The first value of the prioritised queue or else of the clients' queue, with what is left of both.
abbrev pub next_value : List Value → List Value → Option (Value × List Value × List Value)
next_value (v ∷ prioritized) pending = some (v, prioritized, pending)
next_value [] (v ∷ pending) = some (v, [], pending)
next_value [] [] = none

-- The accepts that count for a proposal.
abbrev pub matches : Proposal → Accepted → Bool
matches prop a = a.slot == prop.slot && a.ballot == prop.ballot && a.success

abbrev pub filter_status : (ProposalStatus → Bool) → Option ProposalEntry → Option Proposal
filter_status pred none = none
filter_status pred (some e) = if pred e.status then some e.proposal else none

module _ {S : Type 0} where
  abbrev pub quorum : Proposer S → ℕ
  quorum p = quorum_of p.num_acceptors

  unfoldable pub collect_accepted_values :
      Slot → List Promise → Proposer S → List PValue × Proposer S
  collect_accepted_values min_slot promises p = if ltb min_slot p.current_slot then ([], p) else (
    fill p.current_ballot min_slot (gather min_slot [] (all_accepted promises)),
    record p { current_slot = min_slot - 1 },
  )

  abbrev pub get_proposal_by : (ProposalStatus → Bool) → Slot → Proposer S → Option Proposal
  get_proposal_by pred slot p = filter_status pred (KeyMap.get slot p.proposals)

  abbrev pub get_proposal_by_status : Slot → ProposalStatus → Proposer S → Option Proposal
  get_proposal_by_status slot ps p = get_proposal_by (λ s. status_eq s ps) slot p

  unfoldable pub update_proposal_status :
      Slot → ProposalStatus → Proposer S → Option Value × Proposer S
  update_proposal_status slot new_status p = elim (KeyMap.get slot p.proposals) [
    | none ↦ (none, p)
    | some e ↦ (
      some e.proposal.value,
      record p { proposals = KeyMap.insert slot (record e { status = new_status }) p.proposals },
    )
  ]

  abbrev pub get_state : Proposer S → Bool × ℕ × Slot × Ballot × List Value × List ProposalEntry
  get_state p = (
    p.is_leader,
    p.num_acceptors,
    p.current_slot,
    p.current_ballot,
    p.pending_client_requests,
    KeyMap.values p.proposals,
  )

  abbrev pub enqueue_client_request : Value → Proposer S → Bool × Proposer S
  enqueue_client_request req p =
      (true, record p { pending_client_requests = p.pending_client_requests ++ req ∷ [] })

  unfoldable pub enqueue_prioritized_request : Value → Proposer S → Proposer S
  enqueue_prioritized_request req p =
      if contains req p.prioritized_values
      then p
      else record p { prioritized_values = p.prioritized_values ++ req ∷ [] }

  unfoldable pub enqueue_all : List Value → Proposer S → Proposer S
  enqueue_all [] p = p
  enqueue_all (v ∷ vs) p = enqueue_all vs (enqueue_prioritized_request v p)

  -- `borrow_mut().get_mut(&slot)` of the slot that was popped
  abbrev pub reserve : Slot → Option ProposalEntry → Proposer S → Option Proposal × Proposer S
  reserve slot none p = (none, p)
  reserve slot (some e) p = (
    some e.proposal,
    record p { proposals = KeyMap.insert slot (record e { status = commit_pending }) p.proposals },
  )

  abbrev pub reserve_first : List Slot → Proposer S → Option Proposal × Proposer S
  reserve_first [] p = (none, p)
  reserve_first (slot ∷ rest) p =
      reserve slot (KeyMap.get slot p.proposals) (record p { chosen_slots = rest })

  unfoldable pub reserve_next_chosen_proposal : Proposer S → Option Proposal × Proposer S
  reserve_next_chosen_proposal p = reserve_first p.chosen_slots p

  -- A new proposal in the next slot, in flight, with the queues that are left.
  abbrev pub propose :
      Option (Value × List Value × List Value) → Proposer S → Option Proposal × Proposer S
  propose none p = (none, p)
  propose (some (value, prioritized, pending)) p =
      let slot = add_u64 p.current_slot 1 in
      let prop : Proposal = record { slot = slot; ballot = p.current_ballot; value = value } in
      (
        some prop,
        record p {
          prioritized_values = prioritized;
          pending_client_requests = pending;
          current_slot = slot;
          proposals =
              KeyMap.insert slot (record { proposal = prop; status = in_flight }) p.proposals;
        },
      )

  unfoldable pub create_proposal : Proposer S → Option Proposal × Proposer S
  create_proposal p =
      if not p.is_leader
      then (none, p)
      else propose (next_value p.prioritized_values p.pending_client_requests) p

  unfoldable pub process_prepare : Slot → List Promise → Proposer S → PrepareResult × Proposer S
  process_prepare min_slot promises p =
      if ltb (length (select (λ (q : Promise). q.ballot == p.current_ballot) promises)) (quorum p)
      then (PrepareResult.quorum_failure, p)
      else let (values, p') = collect_accepted_values min_slot promises p in
        (PrepareResult.success, enqueue_all (commands (dedup [] values)) p')

  -- The state does not change between the two reads of the proposal.
  unfoldable pub process_accept : Slot → List Accepted → Proposer S → AcceptResult
  process_accept slot accepts p = elim (get_proposal_by_status slot in_flight p) [
    | none ↦ AcceptResult.missing_proposal
    | some prop ↦
        let count = count_if (matches prop) accepts in
        if ltb count (quorum p)
        then AcceptResult.quorum_failure
        else if not (is_some (get_proposal_by_status slot in_flight p))
        then AcceptResult.missing_proposal
        else AcceptResult.accepted count
  ]

  -- `?` on the value, then the push of the slot
  abbrev pub push_chosen : Slot → Option Value × Proposer S → Option Value × Proposer S
  push_chosen slot (none, p) = (none, p)
  push_chosen slot (some v, p) = (some v, record p { chosen_slots = p.chosen_slots ++ slot ∷ [] })

  unfoldable pub mark_proposal_chosen : Slot → Proposer S → Option Value × Proposer S
  mark_proposal_chosen slot p =
      if not (is_some (get_proposal_by_status slot in_flight p))
      then (none, p)
      else push_chosen slot (update_proposal_status slot chosen p)

  unfoldable pub mark_proposal_finalized : Slot → Proposer S → Option Value × Proposer S
  mark_proposal_finalized slot p =
      if not (is_some (get_proposal_by (λ s. not (status_eq s finalized)) slot p))
      then (none, p)
      else update_proposal_status slot finalized p

  unfoldable pub resign_leader : Proposer S → Bool × Proposer S
  resign_leader p = if p.is_leader then (true, record p { is_leader = false }) else (false, p)

module _ {S : Type 0} (ops : StorageOps S) (codec : Codec CurrentState) (clock : Clock) where
  -- `expect`, with the helper's state
  abbrev pub expect_saved : Result (Unit {0}) × StorageHelper S → Proposer S → Option (Proposer S)
  expect_saved (ok _, h) p = some (record p { storage = h })
  expect_saved (err _, h) p = none

  unfoldable pub set_adu : Slot → Proposer S → Option (Proposer S)
  set_adu adu p =
      expect_saved (save_state ops codec clock p.current_ballot adu p.storage)
        (record p { adu = adu })

  abbrev pub raised : Proposer S → Ballot
  raised p = add_u64 p.current_ballot p.ballot_delta

  -- The method answers the new ballot, which is the result's `current_ballot`.
  unfoldable pub increase_ballot : Proposer S → Option (Proposer S)
  increase_ballot p =
      expect_saved (save_state ops codec clock (raised p) p.adu p.storage)
        (record p { current_ballot = raised p })

  abbrev pub as_leader : Option (Proposer S) → Option (Bool × Proposer S)
  as_leader none = none
  as_leader (some p) = some (true, record p { is_leader = true })

  unfoldable pub become_leader : Proposer S → Option (Bool × Proposer S)
  become_leader p = if p.is_leader then some (false, p) else as_leader (increase_ballot p)

  unfoldable pub maybe_flush : Act (Proposer S) (Unit {0})
  maybe_flush p =
      let (r, h) = maybe_flush_state ops codec clock p.storage in (r, record p { storage = h })

module _ {S : Type 0} (ops : StorageOps S) (codec : Codec CurrentState) where
  unfoldable pub load_state : Act (Proposer S) (Unit {0})
  load_state p =
      let (r, current) =
        Storage.load_state ops codec p.storage
          (record { current_ballot = p.current_ballot; adu = p.adu }) in
      (r, record p { current_ballot = current.current_ballot; adu = current.adu })
