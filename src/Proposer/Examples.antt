-- ===== src/Proposer/Examples.antt =====
-- Runs of the proposer (paxos-wasm/core/proposer/src/proposer.rs), and the theorems at them.
use wasm_master.Common.{
  subst, ℕ, ◌+◌, ◌-◌, ◌≤◌, ◌<◌, true, false, none, some, List, [], ◌∷◌, ◌≡◌, ◌≢◌, ◌⊎◌, refl, arith,
  All, length, u64_size,
}
use wasm_master.Common.KeyMap
use wasm_master.Common.KeyMap.{KeyMap}
use wasm_master.Types.{
  Value, PValue, Proposal, Promise, Accepted, PrepareResult, AcceptResult, Slot,
}
use wasm_master.Types.ProposalStatus.{in_flight, finalized}
use wasm_master.Types.Samples.{config, set_x, get_x}
use wasm_master.Types.Equality.{value_eq}
use wasm_master.Common.Fallible.{Result, ok, err}
use wasm_master.Persistence.{Bytes, Codec, IsRoundTrip, KeepsState}
use wasm_master.Persistence.InMemory.{Memory, memory_ops, empty_memory, no_codec, at_start}
use wasm_master.Proposer.{
  Proposer, quorum, contains, all_accepted, collect_accepted_values, fill, no_ops, gather, note,
  dedup, commands, enqueue_all, enqueue_prioritized_request, create_proposal, process_prepare,
  process_accept, increase_ballot, load_state, become_leader, resign_leader,
}
use wasm_master.Proposer.Storage.{CurrentState, save_state, maybe_flush_state}
use wasm_master.Proposer.Recovery.{increase_ballot-loaded}
use wasm_master.Proposer.Gather.{IsHighest, Occurs}
use wasm_master.Proposer.Collect.{UpFrom, no_op, collect_accepted_values_lem}
use wasm_master.Proposer.Phases.{IsQueued, valid_promises, process_prepare_lem}
use wasm_master.Proposer.Proposals.{late_prepare_reuses_slot}
use wasm_master.Proposer.Ballots.{become, resign, elect_all, ballots_distinct}

-- The leader of three acceptors, with ballot 4 and one queued value.
abbrev leader : Proposer Memory
leader = record {
  num_acceptors = 3;
  ballot_delta = 3;
  is_leader = true;
  current_slot = 1;
  current_ballot = 4;
  adu = 0;
  pending_client_requests = get_x ∷ [];
  prioritized_values = [];
  proposals =
      (1, record { proposal = record { slot = 1; ballot = 4; value = set_x }; status = in_flight })
      ∷ [];
  chosen_slots = [];
  storage = record {
    store = empty_memory;
    enabled = false;
    run_config = config;
    flush_interval = 10;
    pending = 0;
    last_flush = 0;
  };
}

abbrev pvalue : Slot → ℕ → Value → PValue
pvalue s b v = record { slot = s; ballot = b; value = some v }

-- Slot 2 is listed with two ballots, slot 3 by nobody.
abbrev promises : List Promise
promises =
    record { slot = 2; ballot = 4; accepted = pvalue 2 1 get_x ∷ pvalue 4 2 get_x ∷ [] }
    ∷ record { slot = 2; ballot = 4; accepted = pvalue 2 3 set_x ∷ [] }
    ∷ []

promises_small : All (λ (a : PValue). a.slot + 1 < u64_size) (all_accepted promises)
unfolding all_accepted
promises_small = (omega arith, (omega arith, (omega arith, tt)))

collect_run :
    (collect_accepted_values 2 promises leader).0
    ≡ pvalue 2 3 set_x ∷ no_op 4 3 ∷ pvalue 4 2 get_x ∷ []
unfolding collect_accepted_values all_accepted gather note fill no_ops KeyMap.get KeyMap.insert
collect_run = refl

collect_accepted_values_lem_example :
    let (r, p') = collect_accepted_values 2 promises leader in
    let l = all_accepted promises in
    ((2 < 1) × (r ≡ []) × (p' ≡ leader))
    ⊎ ((1 ≤ 2)
        × (p' ≡ record leader { current_slot = 2 - 1 })
        × UpFrom 2 r
        × All
            (λ (e : PValue).
              IsHighest e.slot (some e) l ⊎ (IsHighest e.slot none l × (e ≡ no_op 4 e.slot)))
            r
        × All (λ (a : PValue). 2 ≤ a.slot → a.slot < 2 + length r) l
        × All (λ (e : PValue). (a : PValue) × Occurs a l × (e.slot ≤ a.slot)) r)
collect_accepted_values_lem_example = collect_accepted_values_lem 2 promises leader promises_small

prepare_run : (process_prepare 2 promises leader).1.prioritized_values ≡ set_x ∷ get_x ∷ []
unfolding process_prepare collect_accepted_values all_accepted gather note fill no_ops KeyMap.get
    KeyMap.insert dedup commands enqueue_all enqueue_prioritized_request value_eq
prepare_run = refl

process_prepare_lem_example :
    let (result, p') = process_prepare 2 promises leader in
    let (values, collected) = collect_accepted_values 2 promises leader in
    ((valid_promises promises leader < quorum leader)
      × (result ≡ PrepareResult.quorum_failure)
      × (p' ≡ leader))
    ⊎ ((quorum leader ≤ valid_promises promises leader)
        × (result ≡ PrepareResult.success)
        × All (IsQueued p'.prioritized_values) values
        × ((v : Value)
            → contains v leader.prioritized_values ≡ true
            → contains v p'.prioritized_values ≡ true)
        × (p' ≡ record collected { prioritized_values = p'.prioritized_values }))
process_prepare_lem_example = process_prepare_lem 2 promises leader promises_small

abbrev accepts : List Accepted
accepts =
    record { slot = 1; ballot = 4; success = true }
    ∷ record { slot = 1; ballot = 4; success = true }
    ∷ record { slot = 1; ballot = 1; success = true }
    ∷ []

accept_run : process_accept 1 accepts leader ≡ AcceptResult.accepted 2
unfolding process_accept KeyMap.get
accept_run = refl

abbrev promises_late : List Promise
promises_late =
    record { slot = 1; ballot = 4; accepted = [] }
    ∷ record { slot = 1; ballot = 4; accepted = [] }
    ∷ []

two_of_three : quorum leader ≤ valid_promises promises_late leader
two_of_three = omega arith

abbrev late_proposal : Proposal
late_proposal = record { slot = 1; ballot = 4; value = get_x }

late_run : (create_proposal (process_prepare 1 promises_late leader).1).0 ≡ some late_proposal
unfolding process_prepare collect_accepted_values all_accepted gather note fill no_ops KeyMap.get
    KeyMap.insert dedup commands enqueue_all enqueue_prioritized_request value_eq create_proposal
late_run = refl

late_prepare_reuses_slot_example : late_proposal.slot ≡ 1
late_prepare_reuses_slot_example =
    late_prepare_reuses_slot promises_late leader late_proposal (omega arith) (omega arith)
      two_of_three late_run

-- Slot 1 is chosen and finalized, and still in the queue.
abbrev follower : Proposer Memory
follower = record leader {
  is_leader = false;
  chosen_slots = 1 ∷ [];
  proposals =
      (1, record { proposal = record { slot = 1; ballot = 4; value = set_x }; status = finalized })
      ∷ [];
}

abbrev raised_leader : Proposer Memory
raised_leader = record follower { is_leader = true; current_ballot = 7 }

become_run : become_leader memory_ops no_codec at_start follower ≡ some (true, raised_leader)
unfolding become_leader increase_ballot save_state
become_run = refl

-- Another proposer, with ballot 5, becomes leader, resigns and becomes leader again.
abbrev rival : Proposer Memory
rival = record follower { current_ballot = 5 }

abbrev raised_rival : Proposer Memory
raised_rival = record rival { is_leader = true; current_ballot = 11 }

leader_elections :
    elect_all memory_ops no_codec at_start (become ∷ []) follower ≡ some raised_leader
unfolding elect_all become_leader increase_ballot save_state
leader_elections = refl

rival_elections :
    elect_all memory_ops no_codec at_start (become ∷ resign ∷ become ∷ []) rival ≡ some raised_rival
unfolding elect_all become_leader resign_leader increase_ballot save_state
rival_elections = refl

ballots_distinct_example : raised_leader.current_ballot ≢ raised_rival.current_ballot
ballots_distinct_example =
    ballots_distinct memory_ops no_codec at_start (become ∷ []) (become ∷ resign ∷ become ∷ [])
      follower rival raised_leader raised_rival 3 refl refl (omega arith) (omega arith)
      (λ h. omega arith) leader_elections rival_elections

abbrev decode_pair : List ℕ → Result CurrentState
decode_pair (b ∷ a ∷ []) = ok (record { current_ballot = b; adu = a })
decode_pair _ = err "malformed"

abbrev pair_codec : Codec CurrentState
pair_codec = record { encode = λ c. ok (c.current_ballot ∷ c.adu ∷ []); decode = decode_pair }

abbrev decode_result : Result Bytes → Result CurrentState
decode_result (ok b) = decode_pair b
decode_result (err e) = err e

pair_codec-IsRoundTrip : IsRoundTrip pair_codec
pair_codec-IsRoundTrip c b e = subst (λ (r : Result Bytes). decode_result r ≡ ok c) e refl

memory_ops-KeepsState : KeepsState memory_ops
memory_ops-KeepsState = record { saved = λ b s h. refl; flushed = λ s. refl }

-- A follower with persistence.
abbrev durable : Proposer Memory
durable = record follower {
  storage = record leader.storage {
    enabled = true;
    run_config = record config { storage_flush_state_count = 5 };
  };
}

abbrev durable_raised : Proposer Memory
durable_raised = record durable {
  current_ballot = 7;
  storage = record durable.storage {
    store = record empty_memory { state = 7 ∷ 0 ∷ [] };
    pending = 1;
  };
}

durable_run : increase_ballot memory_ops pair_codec at_start durable ≡ some durable_raised
unfolding increase_ballot save_state maybe_flush_state
durable_run = refl

-- The proposer after a restart, before it has loaded its state.
abbrev restarted : Proposer Memory
restarted = record durable { current_ballot = 1; storage = durable_raised.storage }

increase_ballot-loaded_example :
    let (r, q') = load_state memory_ops pair_codec restarted in
    (r ≡ ok tt) × (q'.current_ballot ≡ 7) × (q'.adu ≡ 0)
increase_ballot-loaded_example =
    increase_ballot-loaded memory_ops pair_codec at_start memory_ops-KeepsState durable
      durable_raised restarted pair_codec-IsRoundTrip refl durable_run refl refl
