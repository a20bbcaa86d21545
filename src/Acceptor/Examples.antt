-- ===== src/Acceptor/Examples.antt =====
-- Runs of the acceptor (paxos-wasm/core/acceptor/src/acceptor.rs), and the theorems at them.
use wasm_master.Common.{
  ℕ, ap, sym, ◌≤◌, false, none, some, List, [], ◌∷◌, ◌≡◌, refl, ◌⊎◌, arith, update_at, ◌↔◌, true,
  subst, ◌∙◌, All,
}
use wasm_master.Common.KeyMap
use wasm_master.Types.{RunConfig, PValue, PromiseResult, AcceptedResult}
use wasm_master.Types.Samples.{config, set_x}
use wasm_master.Types.Equality.{value_eq}
use wasm_master.Common.Fallible.{Result, ok, err}
use wasm_master.Persistence.{Bytes, Clock, IsRoundTrip, KeepsState}
use wasm_master.Persistence.InMemory.{
  Memory, memory_ops, empty_memory, no_codec, numbers_codec, at_start,
}
use wasm_master.Acceptor.Storage
use wasm_master.Acceptor.Storage.{
  Codecs, save_current_state, maybe_flush_current_state, flush_current_state,
}
use wasm_master.Acceptor.Recovery.{promise_survives}
use wasm_master.Acceptor.Snapshots
use wasm_master.Acceptor
use wasm_master.Acceptor.{
  Acceptor, accepted_reply, highest_promised_ballot, record_accepted, record_promise,
  collect_accepted_from,
}
use wasm_master.Acceptor.Writes.{accept_reply_iff, IsSnapshot, accept_keeps}
use wasm_master.Acceptor.Invariant.{IsValid, Climbs}
use wasm_master.Acceptor.Loading.{IsSound}
use wasm_master.Acceptor.Calls.{Request, step, run, run-load_state-IsValid, promise_kept}
use wasm_master.Acceptor.Calls.Request.{prepare, accept}
use wasm_master.Acceptor.Agreement.{Step, Reach, IsChosen, agreement}

abbrev pub codecs : Codecs
codecs = record { promises = numbers_codec; change = no_codec; snapshot = no_codec }

abbrev pub fresh : Acceptor Memory
fresh = record {
  promises = [];
  accepted = [];
  storage = record {
    store = empty_memory;
    enabled = false;
    run_config = config;
    state_flush_interval = 10;
    state_pending = 0;
    state_last_flush = 0;
    change_flush_interval = 10;
    change_pending = 0;
    change_last_flush = 0;
    snapshot_slot_offset = 3;
    last_snapshot_slot = 0;
  };
}

-- The acceptor that has promised ballot 2 and accepted `set_x` in slot 1.
abbrev pub voted : Acceptor Memory
voted = record fresh {
  promises = 2 ∷ [];
  accepted = (1, record { slot = 1; ballot = 2; value = some set_x }) ∷ [];
}

fresh_is_new : Acceptor.new 7 empty_memory config at_start ≡ some fresh
unfolding Acceptor.new Storage.new
fresh_is_new = refl

abbrev votes : List (Clock × Request)
votes = (at_start, prepare 1 2) ∷ (at_start, accept 1 2 set_x) ∷ []

votes_run : run memory_ops codecs votes fresh ≡ voted
unfolding run step Acceptor.prepare record_promise Storage.save_current_state Acceptor.accept
    record_accepted Storage.save_change Snapshots.maybe_snapshot KeyMap.get KeyMap.insert
votes_run = refl

voted_promises :
    (Acceptor.prepare memory_ops codecs at_start 2 2 voted).0
    ≡ PromiseResult.promised (record { slot = 2; ballot = 2; accepted = [] })
unfolding Acceptor.prepare record_promise KeyMap.retain
voted_promises = refl

promise_kept_example :
    let a' =
      run memory_ops codecs votes (Acceptor.prepare memory_ops codecs at_start 2 2 voted).1 in
    (Acceptor.prepare memory_ops codecs at_start 4 1 a'
      ≡ (PromiseResult.rejected (highest_promised_ballot a'), a'))
    × (Acceptor.accept memory_ops codecs at_start 4 1 set_x a'
        ≡ (AcceptedResult.rejected (highest_promised_ballot a'), a'))
promise_kept_example =
    promise_kept memory_ops codecs at_start at_start 2 4 2 1 set_x voted _ votes voted_promises
      (omega arith)

accept_reply_iff_example :
    ((Acceptor.accept memory_ops codecs at_start 1 3 set_x voted).0 ≡ accepted_reply 1 3) ↔ (
      (highest_promised_ballot voted ≤ 3)
      × ((KeyMap.get 1 voted.accepted ≡ none)
          ⊎ ((pv : PValue) × (KeyMap.get 1 voted.accepted ≡ some pv) × (pv.value ≡ some set_x))))
accept_reply_iff_example = accept_reply_iff memory_ops codecs at_start 1 3 set_x voted

voted_holds :
    KeyMap.get 1 voted.accepted ≡ some (record { slot = 1; ballot = 2; value = some set_x })
unfolding KeyMap.get
voted_holds = refl

accept_keeps_example :
    (KeyMap.get 1 (Acceptor.accept memory_ops codecs at_start 4 3 set_x voted).1.accepted
      ≡ some (record { slot = 1; ballot = 2; value = some set_x }))
    ⊎ ((KeyMap.get 1 (Acceptor.accept memory_ops codecs at_start 4 3 set_x voted).1.accepted ≡ none)
        × IsSnapshot memory_ops codecs at_start 4 3 set_x voted)
accept_keeps_example = accept_keeps memory_ops codecs at_start 4 1 3 set_x voted _ voted_holds

-- Two of three acceptors have voted, and the third serves a request.
abbrev trio : List (Acceptor Memory)
trio = voted ∷ voted ∷ fresh ∷ []

abbrev later : List (Acceptor Memory)
later = update_at 2 (step memory_ops codecs (at_start, prepare 1 5)) trio

trio-IsChosen : IsChosen 1 set_x trio
unfolding KeyMap.get value_eq
trio-IsChosen = omega arith

later-IsChosen : IsChosen 1 set_x later
unfolding step Acceptor.prepare record_promise Storage.save_current_state KeyMap.get value_eq
later-IsChosen = omega arith

agreement_example : set_x ≡ set_x
agreement_example =
    agreement memory_ops codecs 1 set_x set_x {c = trio} {d = later} (refl, (refl, (refl, tt)))
      (Reach.next Reach.here (Step.serve 2 (at_start, prepare 1 5))) trio-IsChosen later-IsChosen

abbrev decoded : Result (List ℕ) → List ℕ
decoded (ok b) = b
decoded (err e) = []

numbers_codec-IsRoundTrip : IsRoundTrip numbers_codec
numbers_codec-IsRoundTrip a b e = ap (λ r. ok (decoded r)) (sym e)

-- The storage of an acceptor that has promised ballots 2 and 5; the promises are all it reads.
abbrev promised_store : Memory
promised_store = record empty_memory { state = 2 ∷ 5 ∷ [] }

abbrev durable_config : RunConfig
durable_config = record config { persistent_storage = true }

abbrev opened : Acceptor Memory
opened = record fresh {
  storage = record fresh.storage {
    store = promised_store;
    enabled = true;
    run_config = durable_config;
  };
}

opened_is_new : Acceptor.new 7 promised_store durable_config at_start ≡ some opened
unfolding Acceptor.new Storage.new
opened_is_new = refl

abbrev read_both : Result (List Bytes × List Bytes) → List Bytes × List Bytes
read_both (ok r) = r
read_both (err e) = ([], [])

promised_store-IsSound : IsSound memory_ops codecs promised_store
promised_store-IsSound = record {
  promises = λ blob ps e d. subst (Climbs 0) (ap decoded (e ∙ d)) (omega arith, (omega arith, tt));
  snapshots = λ n snaps changes e. subst (All _) (ap (λ r. (read_both r).0) e) tt;
  changes = λ n snaps changes e. subst (All _) (ap (λ r. (read_both r).1) e) tt;
}

run-load_state-IsValid_example :
    IsValid (run memory_ops codecs votes (Acceptor.load_state memory_ops codecs opened).1)
run-load_state-IsValid_example =
    run-load_state-IsValid memory_ops codecs 7 promised_store durable_config at_start opened votes
      opened_is_new (λ _. promised_store-IsSound)

memory_ops-KeepsState : KeepsState memory_ops
memory_ops-KeepsState = record { saved = λ b s h. refl; flushed = λ s. refl }

-- An acceptor with persistence that has promised ballot 2.
abbrev durable : Acceptor Memory
durable = record fresh { promises = 2 ∷ []; storage = record fresh.storage { enabled = true } }

durable_saved :
    (save_current_state memory_ops codecs at_start (2 ∷ 5 ∷ []) durable.storage).0 ≡ ok tt
unfolding save_current_state maybe_flush_current_state flush_current_state
durable_saved = refl

-- The acceptor after a restart, before it has loaded its state.
abbrev restarted : Acceptor Memory
restarted = record fresh {
  storage = record durable.storage {
    store = (Acceptor.prepare memory_ops codecs at_start 1 5 durable).1.storage.store;
  };
}

promise_survives_example :
    highest_promised_ballot (Acceptor.load_state memory_ops codecs restarted).1 ≡ 5
promise_survives_example =
    promise_survives memory_ops codecs at_start memory_ops-KeepsState 1 5 durable restarted
      numbers_codec-IsRoundTrip refl (omega arith) durable_saved refl refl
