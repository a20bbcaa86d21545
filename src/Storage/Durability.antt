-- ===== src/Storage/Durability.antt =====
-- What paxos-wasm/core/storage/src/storage.rs keeps of the states that it is given, and what a
-- failing call of the file system leaves.
use mathlib.Core.List.{append-nil}
use wasm_master.Common.{
  ℕ, zero, suc, String, Option, none, some, List, [], ◌∷◌, ◌++◌, ◌≡◌, refl, ◌∙◌, ap, arith, length,
  take, drop,
}
use wasm_master.Common.Fallible.{Result, ok, err, Act, resume, ◌>>◌}
use wasm_master.Persistence.{Bytes, KeepsState}
use wasm_master.Storage.{
  Fault, Storage, after_fault, io_next, io, io_write, no_effect, set_state, write_at, write_state,
  rewind, save_state, load_state, flush_state, storage_ops,
}

-- What holds of both outcomes of a call of the file system holds of the call.
io_next_cases :
    (P : Result (Unit {0}) × Storage → Type 0) (faults : List (Option Fault))
    (f : Storage → Storage) (part : ℕ → Storage → Storage) (s : Storage)
    → ((fs : List (Option Fault)) → P (ok tt, f (after_fault fs s)))
    → ((e : String) (n : ℕ) (fs : List (Option Fault)) → P (err e, part n (after_fault fs s)))
    → P (io_next faults f part s)
io_next_cases P [] f part s good bad = good []
io_next_cases P (none ∷ fs) f part s good bad = good fs
io_next_cases P (some x ∷ fs) f part s good bad = bad x.message x.written fs

pub io_cases :
    (P : Result (Unit {0}) × Storage → Type 0) (f : Storage → Storage) (s : Storage)
    → ((fs : List (Option Fault)) → P (ok tt, f (after_fault fs s)))
    → ((e : String) (fs : List (Option Fault)) → P (err e, after_fault fs s))
    → P (io f s)
unfolding io
io_cases P f s good bad =
    io_next_cases P s.disk.faults f (λ _. no_effect) s good (λ e n fs. bad e fs)

pub io_write_cases :
    (P : Result (Unit {0}) × Storage → Type 0) (f : Storage → Storage)
    (part : ℕ → Storage → Storage) (s : Storage)
    → ((fs : List (Option Fault)) → P (ok tt, f (after_fault fs s)))
    → ((e : String) (n : ℕ) (fs : List (Option Fault)) → P (err e, part n (after_fault fs s)))
    → P (io_write f part s)
unfolding io_write
io_write_cases P f part s good bad = io_next_cases P s.disk.faults f part s good bad

-- The same for an action after a call.
pub io_then :
    (P : Result (Unit {0}) × Storage → Type 0) (f : Storage → Storage) (m : Act Storage (Unit {0}))
    (s : Storage)
    → ((fs : List (Option Fault)) → P (m (f (after_fault fs s))))
    → ((e : String) (fs : List (Option Fault)) → P (err e, after_fault fs s))
    → P ((io f >> m) s)
io_then P f m s good bad = io_cases (λ r. P (resume r.0 (λ _. m) r.1)) f s good bad

pub io_write_then :
    (P : Result (Unit {0}) × Storage → Type 0) (f : Storage → Storage)
    (part : ℕ → Storage → Storage) (m : Act Storage (Unit {0})) (s : Storage)
    → ((fs : List (Option Fault)) → P (m (f (after_fault fs s))))
    → ((e : String) (n : ℕ) (fs : List (Option Fault)) → P (err e, part n (after_fault fs s)))
    → P ((io_write f part >> m) s)
io_write_then P f part m s good bad =
    io_write_cases (λ r. P (resume r.0 (λ _. m) r.1)) f part s good bad

drop-nil : (n : ℕ) → drop {A = ℕ} n [] ≡ []
drop-nil zero = refl
drop-nil (suc n) = refl

-- What is written at the start of an empty file is all of it.
write_at-empty : (b : Bytes) → write_at 0 b [] ≡ b
write_at-empty b = ap (λ l. b ++ l) (drop-nil (length b)) ∙ append-nil b

saved :
    (b : Bytes) (s : Storage) → (save_state b s).0 ≡ ok tt → load_state (save_state b s).1 ≡ ok b
unfolding save_state
saved b s =
    let P : Result (Unit {0}) × Storage → Type 0 = λ r. r.0 ≡ ok tt → load_state r.1 ≡ ok b in
    let part = λ (n : ℕ). write_state (take n b) in
    let write : Act Storage (Unit {0}) = io_write (write_state b) part in
    io_then P rewind (io (set_state []) >> write) s
      (λ fs.
        io_then P (set_state []) write _
          (λ gs.
            io_write_cases P (write_state b) part _ (λ hs _. ap ok (write_at-empty b))
              (λ e n hs h. ground arith))
          (λ e gs h. ground arith))
      (λ e fs h. ground arith)

-- The storage keeps the state that was saved right before, as the components rely on.
pub storage_ops-KeepsState : KeepsState storage_ops
unfolding flush_state
storage_ops-KeepsState = record {
  saved = saved;
  flushed =
      λ s. io_cases (λ r. load_state r.1 ≡ load_state s) no_effect s (λ fs. refl) (λ e fs. refl);
}

-- A save whose last step fails has emptied the file, and left what it has written: the state saved
-- before is lost.
pub save_state_torn :
    (b : Bytes) (s : Storage) (x : Fault) (faults : List (Option Fault))
    → s.disk.faults ≡ none ∷ none ∷ some x ∷ faults
    → ((save_state b s).0 ≡ err x.message) × (load_state (save_state b s).1 ≡ ok (take x.written b))
unfolding save_state io io_write
save_state_torn b s x faults h = ground (arith, write_at-empty (take x.written b))
