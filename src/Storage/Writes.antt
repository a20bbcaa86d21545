-- ===== src/Storage/Writes.antt =====
-- The buffered writer of paxos-wasm/core/storage/src/storage.rs: the changes that are saved are the
-- records of the log, whatever is still buffered, and are loaded again after a flush.
use mathlib.Core.List.{append-nil, append_assoc}
use wasm_master.Common.{
  ◌-◌, ◌%◌, ◌≤◌, ◌<◌, String, true, List, [], ◌∷◌, ◌++◌, ◌≡◌, refl, sym, ◌∙◌, ap, subst, ◌⊎◌, inl,
  inr, arith, leb, ltb, if_cases, length, take, drop, take-drop, ℕ,
}
use wasm_master.Common.Fallible.{Result, ok, err, Act, resume, ◌>>◌}
use wasm_master.Persistence.{Bytes}
use wasm_master.Storage.Frames.{u32_size, be_bytes, frame, frames}
use wasm_master.Storage.Changelog.{AreSmall}
use wasm_master.Storage.{
  Storage, capacity, append_changelog, drain, drain_part, is_empty, flush_buf, buffer_or_write,
  write_all, save_change, flush_changes,
}
use wasm_master.Storage.Durability.{io_write_cases}

-- The bytes of the changelog, those still in the buffer included.
abbrev pub log : Storage → Bytes
log s = s.disk.changelog ++ s.writer

-- The outcome of writing bytes to the log: they are there, or an error has left the log as it was.
-- Only bytes that do not fit in the buffer can be there in part after an error.
abbrev pub Wrote : Bytes → Storage → Result (Unit {0}) × Storage → Type 0
Wrote b s r =
    ((r.0 ≡ ok tt) × (log r.1 ≡ log s ++ b))
    ⊎ ((e : String) × (k : ℕ) × (r.0 ≡ err e)
        × (log r.1 ≡ log s ++ take k b)
        × ((k ≡ 0) ⊎ (capacity ≤ length b)))

-- The outcome of a flush: the buffer is empty, or an error has come; the log is as before.
abbrev pub Flushed : Storage → Result (Unit {0}) × Storage → Type 0
Flushed s r =
    ((r.0 ≡ ok tt) × (log r.1 ≡ log s) × (r.1.writer ≡ []))
    ⊎ ((e : String) × (r.0 ≡ err e) × (log r.1 ≡ log s))

is_empty-nil : (b : Bytes) → is_empty b ≡ true → b ≡ []
is_empty-nil [] e = refl
is_empty-nil (x ∷ b) e = cc

log_drained : (n : ℕ) (s : Storage) → log (drain_part n s) ≡ log s
log_drained n s =
    append_assoc s.disk.changelog (take n s.writer) (drop n s.writer)
    ∙ ap (λ w. s.disk.changelog ++ w) (take-drop n s.writer)

pub flush_buf-Flushed : (s : Storage) → Flushed s (flush_buf s)
unfolding flush_buf
flush_buf-Flushed s =
    if_cases (Flushed s) (is_empty s.writer) (λ e. inl (refl, refl, is_empty-nil s.writer e))
      (λ e.
        io_write_cases (Flushed s) drain drain_part s (λ fs. inl (refl, append-nil (log s), refl))
          (λ f n fs. inr (f, refl, log_drained n s)))

log_appended : (b : Bytes) (s : Storage) → s.writer ≡ [] → log (append_changelog b s) ≡ log s ++ b
log_appended b s e =
    rw e (append-nil (s.disk.changelog ++ b) ∙ ap (λ l. l ++ b) (sym (append-nil s.disk.changelog)))

-- Writing to the file itself is right where nothing is buffered.
buffer_or_write-Wrote :
    (b : Bytes) (s : Storage)
    → (capacity ≤ length b → s.writer ≡ [])
    → Wrote b s (buffer_or_write b s)
buffer_or_write-Wrote b s h =
    if_cases (Wrote b s) (leb capacity (length b))
      (λ e.
        let part = λ (n : ℕ). append_changelog (take n b) in
        let long : capacity ≤ length b = ground arith in
        io_write_cases (Wrote b s) (append_changelog b) part s
          (λ fs. inl (refl, log_appended b s (h long)))
          (λ f n fs. inr (f, n, refl, log_appended (take n b) s (h long), inr long)))
      (λ e. inl (refl, sym (append_assoc s.disk.changelog s.writer b)))

Wrote-from :
    (b : Bytes) (s s' : Storage) (r : Result (Unit {0}) × Storage)
    → log s' ≡ log s
    → Wrote b s' r
    → Wrote b s r
Wrote-from b s s' r e (inl (done, l)) = inl (done, l ∙ ap (λ k. k ++ b) e)
Wrote-from b s s' r e (inr (f, k, failed, l, few)) =
    inr (f, k, failed, l ∙ ap (λ m. m ++ take k b) e, few)

after_flush-Wrote :
    (b : Bytes) (s : Storage) (r : Result (Unit {0}) × Storage)
    → Flushed s r
    → Wrote b s (resume r.0 (λ _. buffer_or_write b) r.1)
after_flush-Wrote b s (ok _, s') (inl (_, same, empty)) =
    Wrote-from b s s' (buffer_or_write b s') same (buffer_or_write-Wrote b s' (λ _. empty))
after_flush-Wrote b s (ok _, s') (inr (f, failed, _)) = cc
after_flush-Wrote b s (err f, s') (inl (done, _, _)) = cc
after_flush-Wrote b s (err f, s') (inr (_, _, same)) =
    inr (f, 0, refl, same ∙ sym (append-nil (log s)), inl refl)

nothing_buffered : (w : Bytes) → length w ≡ 0 → w ≡ []
nothing_buffered [] e = refl
nothing_buffered (x ∷ w) e = absurd (omega arith)

write_all-Wrote : (b : Bytes) (s : Storage) → Wrote b s (write_all b s)
unfolding write_all
write_all-Wrote b s =
    if_cases (Wrote b s) (ltb (capacity - length s.writer) (length b))
      (λ e. after_flush-Wrote b s (flush_buf s) (flush_buf-Flushed s))
      (λ e. buffer_or_write-Wrote b s (λ h. nothing_buffered s.writer (ground arith)))

-- The log holds these changes, each in its record.
abbrev pub IsLog : List Bytes → Storage → Type 0
IsLog changes s = log s ≡ frames changes

frames-append : (cs ds : List Bytes) → frames (cs ++ ds) ≡ frames cs ++ frames ds
frames-append [] ds = refl
frames-append (c ∷ cs) ds =
    ap (λ l. frame c ++ l) (frames-append cs ds)
    ∙ sym (append_assoc (frame c) (frames cs) (frames ds))

-- The log after a save, by its reply: with success the change is its last record; with an error the
-- log is as it was, or it ends in the length of the change and a first part of it, which is empty
-- unless the change does not fit in the buffer.
abbrev pub Saved : List Bytes → Bytes → Result (Unit {0}) × Storage → Type 0
Saved cs c r =
    ((r.0 ≡ ok tt) × IsLog (cs ++ c ∷ []) r.1)
    ⊎ ((e : String) × (r.0 ≡ err e)
        × (IsLog cs r.1
            ⊎ ((k : ℕ) × (log r.1 ≡ (frames cs ++ be_bytes (length c)) ++ take k c)
                × ((k ≡ 0) ⊎ (capacity ≤ length c)))))

body-Saved :
    (cs : List Bytes) (c : Bytes) (s : Storage) (r : Result (Unit {0}) × Storage)
    → log s ≡ frames cs ++ be_bytes (length c)
    → Wrote c s r
    → Saved cs c r
body-Saved cs c s r h (inl (done, l)) = inl (
  done,
  l
      ∙ ap (λ k. k ++ c) h
      ∙ append_assoc (frames cs) (be_bytes (length c)) c
      ∙ ap (λ k. frames cs ++ k) (sym (append-nil (frame c)))
      ∙ sym (frames-append cs (c ∷ [])),
)
body-Saved cs c s r h (inr (e, k, failed, l, few)) =
    inr (e, failed, inr (k, l ∙ ap (λ m. m ++ take k c) h, few))

header-Saved :
    (cs : List Bytes) (c : Bytes) (s : Storage) (r : Result (Unit {0}) × Storage)
    → IsLog cs s
    → Wrote (be_bytes (length c)) s r
    → Saved cs c (resume r.0 (λ _. write_all c) r.1)
header-Saved cs c s (ok _, s') h (inl (_, l)) =
    body-Saved cs c s' (write_all c s') (l ∙ ap (λ k. k ++ be_bytes (length c)) h)
      (write_all-Wrote c s')
header-Saved cs c s (ok _, s') h (inr (_, _, failed, _, _)) = cc
header-Saved cs c s (err e, s') h (inl (done, _)) = cc
header-Saved cs c s (err e, s') h (inr (_, k, _, l, inl none_of)) = inr (
  e,
  refl,
  inl (l ∙ ap (λ m. log s ++ take m (be_bytes (length c))) none_of ∙ append-nil (log s) ∙ h),
)
header-Saved cs c s (err e, s') h (inr (_, k, _, l, inr long)) = absurd (omega arith)

-- A change that is saved with success is the last record of the log. After an error the log is as it
-- was, or it ends in the length of the change alone; or, for a change of 8192 bytes or more, in the
-- length and a first part of the change. (The change is shorter than 2^32 bytes.)
pub save_change-Saved :
    (cs : List Bytes) (c : Bytes) (s : Storage)
    → length c < u32_size
    → IsLog cs s
    → Saved cs c (save_change c s)
unfolding save_change
save_change-Saved cs c s small h =
    let exact : length c % u32_size ≡ length c = omega arith in
    subst (λ k. Saved cs c ((write_all (be_bytes k) >> write_all c) s)) (sym exact)
      (header-Saved cs c s (write_all (be_bytes (length c)) s) h
        (write_all-Wrote (be_bytes (length c)) s))

-- The changes in their order, up to the first error.
unfoldable pub save_all : List Bytes → Act Storage (Unit {0})
save_all [] s = (ok tt, s)
save_all (c ∷ cs) s = (save_change c >> save_all cs) s

rest-IsLog :
    (cs ds : List Bytes) (d : Bytes) (r : Result (Unit {0}) × Storage)
    → ((s : Storage)
        → IsLog (cs ++ d ∷ []) s
        → (save_all ds s).0 ≡ ok tt
        → IsLog ((cs ++ d ∷ []) ++ ds) (save_all ds s).1)
    → Saved cs d r
    → (resume r.0 (λ _. save_all ds) r.1).0 ≡ ok tt
    → IsLog (cs ++ d ∷ ds) (resume r.0 (λ _. save_all ds) r.1).1
rest-IsLog cs ds d (ok _, s) rest (inl (_, l)) e =
    rest s l e ∙ ap frames (append_assoc cs (d ∷ []) ds)
rest-IsLog cs ds d (ok _, s) rest (inr (_, failed, _)) e = cc
rest-IsLog cs ds d (err f, s) rest saved e = cc

pub save_all-IsLog :
    (cs ds : List Bytes) (s : Storage)
    → AreSmall ds
    → IsLog cs s
    → (save_all ds s).0 ≡ ok tt
    → IsLog (cs ++ ds) (save_all ds s).1
unfolding save_all
save_all-IsLog cs [] s small h e = h ∙ ap frames (sym (append-nil cs))
save_all-IsLog cs (d ∷ ds) s small h e =
    rest-IsLog cs ds d (save_change d s) (λ s'. save_all-IsLog (cs ++ d ∷ []) ds s' small.1)
      (save_change-Saved cs d s small.0 h) e

-- What a flush has written, if it succeeds.
pub changelog-flush :
    (s : Storage) → (flush_changes s).0 ≡ ok tt → (flush_changes s).1.disk.changelog ≡ log s
unfolding flush_changes
changelog-flush s e = elim (flush_buf-Flushed s) [
  | inl (_, same, empty) ↦
      sym (append-nil _) ∙ ap (λ w. (flush_buf s).1.disk.changelog ++ w) (sym empty) ∙ same
  | inr (f, failed, _) ↦ cc
]
