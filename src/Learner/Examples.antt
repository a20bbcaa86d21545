-- ===== src/Learner/Examples.antt =====
-- Runs of the learner (paxos-wasm/core/learner/src/learner.rs), and the theorems at them.
use wasm_master.Common.{
  ◌+◌, ◌/◌, ◌≤◌, true, false, none, some, List, [], ◌∷◌, ◌≡◌, refl, arith, ◌↔◌, length,
}
use wasm_master.Common.KeyMap
use wasm_master.Common.KeyMap.{KeyMap}
use wasm_master.Types.{Value, Learn, LearnedEntry, Node, PaxosRole}
use wasm_master.Types.Samples.{config, set_x, get_x}
use wasm_master.Types.Equality.{value_eq}
use wasm_master.Persistence.InMemory.{Memory, memory_ops, empty_memory, no_codec, at_start}
use wasm_master.Learner.Storage.{Codecs}
use wasm_master.Learner.{
  Learner, check_quorum, bump, tally_from, find_quorum, record_vote, learn, handle_learn,
  to_be_executed, quorum,
}
use wasm_master.Learner.Quorum.{votes_for, votes_at, check_quorum_iff, handle_learn_sound}
use wasm_master.Learner.Execution.{IsRun, result_of, to_be_executed_lem}

abbrev pub codecs : Codecs
codecs = record { change = no_codec; snapshot = no_codec }

abbrev pub vote : Learn
vote = record { slot = 2; value = get_x }

-- One of three acceptors has voted for `get_x` in slot 2, and slot 1 is learned.
abbrev pub waiting : Learner Memory
waiting = record {
  num_acceptors = 3;
  slot_learns = (2, (1, vote) ∷ []) ∷ [];
  learned = (1, set_x) ∷ [];
  adu = 0;
  storage = record {
    store = empty_memory;
    enabled = false;
    run_config = config;
    change_flush_interval = 10;
    change_pending = 0;
    change_last_flush = 0;
    snapshot_slot_offset = 3;
    last_snapshot_slot = 0;
  };
}

abbrev pub second : Node
second = record { node_id = 2; address = "b"; role = PaxosRole.acceptor }

vote_makes_quorum : (handle_learn memory_ops codecs at_start vote second waiting).0 ≡ true
unfolding handle_learn record_vote check_quorum bump tally_from find_quorum learn KeyMap.get
    KeyMap.insert value_eq
vote_makes_quorum = refl

handle_learn_sound_example :
    let l' = record_vote vote second.node_id waiting in
    (v : Value) × (KeyMap.get 2 waiting.learned ≡ none)
    × (KeyMap.get 2 (handle_learn memory_ops codecs at_start vote second waiting).1.learned
        ≡ some v)
    × (quorum waiting ≤ votes_for v (KeyMap.values (votes_at l' 2)))
handle_learn_sound_example =
    handle_learn_sound memory_ops codecs at_start vote second waiting vote_makes_quorum

one_vote : length (votes_at waiting 2) ≤ 3
unfolding KeyMap.get
one_vote = omega arith

check_quorum_iff_example :
    (check_quorum waiting 2 ≡ some get_x)
    ↔ (waiting.num_acceptors / 2 + 1 ≤ votes_for get_x (KeyMap.values (votes_at waiting 2)))
check_quorum_iff_example = check_quorum_iff waiting 2 get_x (omega arith) one_vote

to_be_executed_lem_example :
    (out : List LearnedEntry) × (l' : Learner Memory) × (to_be_executed memory_ops codecs at_start
        waiting
      ≡ some (result_of out, l'))
    × IsRun (waiting.adu + 1) out (waiting.adu + length out + 1) waiting.learned
    × (l'.adu ≡ waiting.adu + length out)
to_be_executed_lem_example = to_be_executed_lem memory_ops codecs at_start waiting (omega arith)

-- Slots 3 and 4 follow the loaded adu 2, and slot 5 is missing.
abbrev loaded : KeyMap Value
loaded = (2, set_x) ∷ (3, set_x) ∷ (4, get_x) ∷ (6, get_x) ∷ []
