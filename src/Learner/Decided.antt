-- ===== src/Learner/Decided.antt =====
-- A learner (paxos-wasm/core/learner/src/learner.rs) of a log: it hears of no other values than
-- those that are decided, one for each slot, and so it learns and executes no others.
use wasm_master.Common.{
  ℕ, zero, suc, ◌+◌, ◌<◌, Option, none, some, List, [], ◌∷◌, ◌++◌, map, ◌≡◌, refl, ap, subst, inl,
  inr, arith, length, leb, count_if-le-length, All, All-imp, Option-cases, u64_size, add_u64,
}
use wasm_master.Common.KeyMap
use wasm_master.Common.KeyMap.{KeyMap, All-insert, All-get}
use wasm_master.Types.{Slot, Value, Cmd, Learn, LearnedEntry, LearnResult, Node}
use wasm_master.Persistence.{StorageOps, Clock}
use wasm_master.Learner.Storage.{Codecs}
use wasm_master.Learner.{
  Learner, or_empty, record_vote, learn, learn_quorum, handle_learn, check_quorum, quorum,
  to_be_executed, execute_entries, execute_collected,
}
use wasm_master.Learner.Execution.{IsRun, IsRun-end, result_of, execute_collected_lem}
use wasm_master.Learner.Entries.{
  collect_small, learn_quorum-All, execute_entries-All, check_votes-All, AllVotes,
  slot_learns-learn_quorum,
}
use wasm_master.Learner.Recovery.{IsSmall}

-- What is decided for the slots.
abbrev pub Log : Type 0
Log = Slot → Value

abbrev pub IsDecided : Log → ℕ × Value → Type 0
IsDecided log e = (e.1 ≡ log e.0) × (e.0 + 1 < u64_size)

abbrev VotesFor : Log → ℕ × KeyMap Learn → Type 0
VotesFor log e = All (λ (v : ℕ × Learn). v.1.value ≡ log e.0) e.1

-- Every vote and every learned value is the decided one, and the slots leave room for a successor
-- in a u64.
pub record Follows {S : Type 0} (log : Log) (l : Learner S) : Type 0 where
  pub learned : All (IsDecided log) l.learned
  pub votes : All (VotesFor log) l.slot_learns
  pub small : l.adu + 1 < u64_size

-- The commands of `n` slots from `next` on.
abbrev pub commands : Log → Slot → ℕ → List Cmd
commands log next zero = []
commands log next (suc n) = (log next).command ∷ commands log (next + 1) n

pub commands-append :
    (log : Log) (next n m : ℕ)
    → commands log next (n + m) ≡ commands log next n ++ commands log (next + n) m
commands-append log next zero m =
    let none_before : zero + m ≡ m = omega arith in
    let here : next + zero ≡ next = omega arith in rw (none_before, here) refl
commands-append log next (suc n) m =
    let one_more : suc n + m ≡ suc (n + m) = omega arith in
    let there : next + suc n ≡ next + 1 + n = omega arith in
    rw (one_more, there) (ap (λ l. (log next).command ∷ l) (commands-append log (next + 1) n m))

abbrev pub command_of : LearnedEntry → Cmd
command_of e = e.value.command

run-commands :
    (log : Log) (next end : Slot) (out : List LearnedEntry) (m : KeyMap Value)
    → All (IsDecided log) m
    → IsRun next out end m
    → map command_of out ≡ commands log next (length out)
run-commands log next end [] m d r = refl
run-commands log next end (e ∷ out) m d (s, v, r) =
    let same : e.value ≡ log next = (All-get (IsDecided log) next m d v).0 in
    λ i. (same i).command ∷ run-commands log (next + 1) end out m d r i

run_small :
    (log : Log) (next end : Slot) (out : List LearnedEntry) (m : KeyMap Value)
    → next < u64_size
    → All (IsDecided log) m
    → IsRun next out end m
    → end < u64_size
run_small log next end [] m h d r = rw r.0 h
run_small log next end (e ∷ out) m h d (s, v, r) =
    run_small log (next + 1) end out m (All-get (IsDecided log) next m d v).1 d r

values-AllVotes :
    (Q : Value → Type 0) (m : KeyMap Learn)
    → All (λ (v : ℕ × Learn). Q v.1.value) m
    → AllVotes Q (KeyMap.values m)
values-AllVotes Q [] a = tt
values-AllVotes Q (v ∷ m) a = (a.0, values-AllVotes Q m a.1)

or_empty-VotesFor :
    (log : Log) (slot : Slot) (m : KeyMap (KeyMap Learn))
    → All (VotesFor log) m
    → VotesFor log (slot, or_empty (KeyMap.get slot m))
or_empty-VotesFor log slot m a = elim (Option-cases (KeyMap.get slot m)) [
  | inl e ↦ rw e tt
  | inr (votes, e) ↦ rw e (All-get (VotesFor log) slot m a e)
]

module _ {S : Type 0} (log : Log) where
  record_vote-Follows :
      (vote : Learn) (sender : ℕ) (l : Learner S)
      → vote.value ≡ log vote.slot
      → Follows log l
      → Follows log (record_vote vote sender l)
  unfolding record_vote
  record_vote-Follows vote sender l e f = record {
    learned = f.learned;
    votes =
        All-insert (VotesFor log) vote.slot _ l.slot_learns
          (All-insert (λ (v : ℕ × Learn). v.1.value ≡ log vote.slot) sender vote _ e
            (or_empty-VotesFor log vote.slot l.slot_learns f.votes))
          f.votes;
    small = f.small;
  }

  quorum_decided :
      (l : Learner S) (slot : Slot) (v : Value)
      → Follows log l
      → check_quorum l slot ≡ some v
      → v ≡ log slot
  unfolding check_quorum
  quorum_decided l slot v f e =
      check_votes-All (λ w. w ≡ log slot) (quorum l) (KeyMap.get slot l.slot_learns) v
        (λ m found.
          values-AllVotes (λ w. w ≡ log slot) m
            (All-get (VotesFor log) slot l.slot_learns f.votes found))
        e

  module _ (ops : StorageOps S) (codecs : Codecs) (clock : Clock) where
    pub adu-learn_quorum :
        (slot : Slot) (o : Option Value) (l : Learner S)
        → (learn_quorum ops codecs clock slot o l).1.adu ≡ l.adu
    unfolding learn
    adu-learn_quorum slot o l = ground arith

    pub adu-handle_learn :
        (vote : Learn) (sender : Node) (l : Learner S)
        → (handle_learn ops codecs clock vote sender l).1.adu ≡ l.adu
    unfolding handle_learn record_vote
    adu-handle_learn vote sender l =
        adu-learn_quorum vote.slot _ (record_vote vote sender.node_id l)

    learn_quorum-Follows :
        (slot : Slot) (o : Option Value) (l : Learner S)
        → ((v : Value) → o ≡ some v → v ≡ log slot)
        → slot + 1 < u64_size
        → Follows log l
        → Follows log (learn_quorum ops codecs clock slot o l).1
    learn_quorum-Follows slot o l d h f = record {
      learned =
          learn_quorum-All (IsDecided log) ops codecs clock slot o l (λ v e. (d v e, h)) f.learned;
      votes = rw (slot_learns-learn_quorum ops codecs clock slot o l) f.votes;
      small = let same = adu-learn_quorum slot o l in let h = f.small in omega arith;
    }

    pub learn-Follows :
        (slot : Slot) (v : Value) (l : Learner S)
        → v ≡ log slot
        → slot + 1 < u64_size
        → Follows log l
        → Follows log (learn ops codecs clock slot v l).1
    learn-Follows slot v l e h f = learn_quorum-Follows slot (some v) l (λ w q. ground arith) h f

    pub handle_learn-Follows :
        (vote : Learn) (sender : Node) (l : Learner S)
        → vote.value ≡ log vote.slot
        → vote.slot + 1 < u64_size
        → Follows log l
        → Follows log (handle_learn ops codecs clock vote sender l).1
    unfolding handle_learn
    handle_learn-Follows vote sender l e h f =
        let f' = record_vote-Follows vote sender.node_id l e f in
        learn_quorum-Follows vote.slot _ _
          (λ v. quorum_decided (record_vote vote sender.node_id l) vote.slot v f') h f'

    slot_learns-execute_entries :
        (out : List LearnedEntry) (next : Slot) (l : Learner S)
        → (execute_entries ops codecs clock out next l).1.slot_learns ≡ l.slot_learns
    slot_learns-execute_entries out next l = ground arith

    collected-Follows :
        (o : Option (List LearnedEntry × Slot)) (r : LearnResult) (l l' : Learner S)
        → execute_collected ops codecs clock o l ≡ some (r, l')
        → l'.adu + 1 < u64_size
        → Follows log l
        → Follows log l'
    collected-Follows none r l l' e h f = cc
    collected-Follows (some (out, next)) r l l' e h f =
        let same : (execute_entries ops codecs clock out next l).1 ≡ l' = ground arith in
        record {
          learned =
              subst (λ (k : Learner S). All (IsDecided log) k.learned) same
                (execute_entries-All (IsDecided log) ops codecs clock out next l f.learned);
          votes =
              subst (λ (k : Learner S). All (VotesFor log) k.slot_learns) same
                (rw (slot_learns-execute_entries out next l) f.votes);
          small = h;
        }

    -- The operation succeeds; its entries are those of the slots after `adu`, each with the decided
    -- command, and `adu` moves over them.
    pub to_be_executed-Follows :
        (l : Learner S)
        → Follows log l
        → (out : List LearnedEntry) × (l' : Learner S) × (to_be_executed ops codecs clock l
            ≡ some (result_of out, l'))
          × (map command_of out ≡ commands log (l.adu + 1) (length out))
          × (l'.adu ≡ l.adu + length out)
          × Follows log l'
    unfolding to_be_executed
    to_be_executed-Follows l f =
        let keys : IsSmall l.learned = All-imp (λ e d. d.1) l.learned f.learned in
        let (out, end, found, run) =
          collect_small (suc (length l.learned)) (l.adu + 1) l.learned f.small keys (
            omega (arith, count_if-le-length (λ (e : ℕ × Value). leb (l.adu + 1) e.0) l.learned)) in
        let no_wrap : add_u64 l.adu 1 ≡ l.adu + 1 = let h = f.small in omega arith in
        let (l', reply, slots, moved) =
          execute_collected_lem ops codecs clock l out end found run no_wrap in
        let last_small : l'.adu + 1 < u64_size = omega (
          arith,
          run_small log (l.adu + 1) end out l.learned f.small f.learned run,
          IsRun-end (l.adu + 1) end out l.learned run,
        ) in
        (
          out,
          l',
          reply,
          run-commands log (l.adu + 1) end out l.learned f.learned run,
          moved,
          collected-Follows _ _ l l' reply last_small f,
        )
