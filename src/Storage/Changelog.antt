-- ===== src/Storage/Changelog.antt =====
-- The changelog of paxos-wasm/core/storage/src/storage.rs is read back as it was written, and where
-- its end is torn.
use mathlib.Core.List.{append-nil, append_assoc}
use wasm_master.Common.{
  ℕ, zero, suc, String, ◌+◌, ◌-◌, ◌*◌, ◌/◌, ◌%◌, ◌≤◌, ◌<◌, Option, none, some, List, [], ◌∷◌, ◌++◌,
  ◌≡◌, ◌≢◌, refl, ◌∙◌, ap, arith, ltb, length, length-append, take, drop, All, if_no, if_yes,
  if_both,
}
use wasm_master.Common.Fallible.{Result, ok, err}
use wasm_master.Persistence.{Bytes}
use wasm_master.Storage.Frames.{
  u32_size, be_bytes, frame, frames, read_exact, on_exact, push_change, read_loop, read_changes,
}

-- The bytes of a u32 give it back.
u32_roundtrip :
    (n : ℕ)
    → n < u32_size
    → ((n / 16777216 % 256 * 256 + n / 65536 % 256) * 256 + n / 256 % 256) * 256 + n % 256 ≡ n
u32_roundtrip n h = omega arith

take-append : (xs ys : Bytes) → take (length xs) (xs ++ ys) ≡ xs
take-append [] ys = refl
take-append (x ∷ xs) ys = ap (λ l. x ∷ l) (take-append xs ys)

drop-append : (xs ys : Bytes) → drop (length xs) (xs ++ ys) ≡ ys
drop-append [] ys = refl
drop-append (x ∷ xs) ys = drop-append xs ys

read_exact-append : (c rest : Bytes) → read_exact (length c) (c ++ rest) ≡ ok (c, rest)
read_exact-append c rest =
    if_no (ltb (length (c ++ rest)) (length c)) _ _ (ground (arith, length-append c rest)) ∙ λ i.
    ok (take-append c rest i, drop-append c rest i)

-- A record in front of the rest.
read_frame :
    (fuel : ℕ) (c rest : Bytes)
    → length c < u32_size
    → read_loop (suc fuel) (frame c ++ rest) ≡ push_change c (read_loop fuel rest)
unfolding read_loop
read_frame fuel c rest h =
    let next = λ (r : Bytes × Bytes). push_change r.0 (read_loop fuel r.1) in
    ap (λ k. on_exact next (read_exact k (c ++ rest))) (u32_roundtrip (length c) h)
    ∙ ap (on_exact next) (read_exact-append c rest)

abbrev pub AreSmall : List Bytes → Type 0
AreSmall = All λ c. length c < u32_size

abbrev push_all : List Bytes → Option (Result (List Bytes)) → Option (Result (List Bytes))
push_all [] r = r
push_all (c ∷ cs) r = push_change c (push_all cs r)

read_frames :
    (fuel : ℕ) (cs : List Bytes) (rest : Bytes)
    → AreSmall cs
    → read_loop (length cs + fuel) (frames cs ++ rest) ≡ push_all cs (read_loop fuel rest)
read_frames fuel [] rest h = let same : 0 + fuel ≡ fuel = omega arith in rw same refl
read_frames fuel (c ∷ cs) rest h =
    let one_more : suc (length cs) + fuel ≡ suc (length cs + fuel) = omega arith in
    ap (λ n. read_loop n ((frame c ++ frames cs) ++ rest)) one_more
    ∙ ap (read_loop (suc (length cs + fuel))) (append_assoc (frame c) (frames cs) rest)
    ∙ read_frame (length cs + fuel) c (frames cs ++ rest) h.0
    ∙ ap (push_change c) (read_frames fuel cs rest h.1)

push_all-ok : (cs ds : List Bytes) → push_all cs (some (ok ds)) ≡ some (ok (cs ++ ds))
push_all-ok [] ds = refl
push_all-ok (c ∷ cs) ds = ap (push_change c) (push_all-ok cs ds)

push_all-err : (cs : List Bytes) (e : String) → push_all cs (some (err e)) ≡ some (err e)
push_all-err [] e = refl
push_all-err (c ∷ cs) e = ap (push_change c) (push_all-err cs e)

length-drop-le : (n : ℕ) (xs : Bytes) → length (drop n xs) ≤ length xs
length-drop-le zero xs = omega arith
length-drop-le (suc n) [] = omega arith
length-drop-le (suc n) (x ∷ xs) = omega (arith, length-drop-le n xs)

push_change_some :
    (c : Bytes) (r : Option (Result (List Bytes))) → r ≢ none → push_change c r ≢ none
push_change_some c none h = h
push_change_some c (some (err e)) h = ground arith
push_change_some c (some (ok cs)) h = ground arith

on_exact_some :
    (n : ℕ) (rest : Bytes) (next : Bytes × Bytes → Option (Result (List Bytes)))
    → next (take n rest, drop n rest) ≢ none
    → on_exact next (read_exact n rest) ≢ none
on_exact_some n rest next h =
    if_both (λ (r : Result (Bytes × Bytes)). on_exact next r ≢ none) (ltb (length rest) n)
      (ground arith) h

read_loop_some : (fuel : ℕ) (file : Bytes) → length file < fuel → read_loop fuel file ≢ none
unfolding read_loop
read_loop_some zero file h = absurd (omega arith)
read_loop_some (suc fuel) (a ∷ b ∷ c ∷ d ∷ rest) h =
    let n = ((a * 256 + b) * 256 + c) * 256 + d in
    on_exact_some n rest (λ r. push_change r.0 (read_loop fuel r.1))
      (push_change_some (take n rest) _
        (read_loop_some fuel (drop n rest) (omega (arith, length-drop-le n rest))))
read_loop_some (suc fuel) _ h = ground arith

-- Whatever bytes the file holds, the loop over its records ends.
pub read_changes_some : (file : Bytes) → read_changes file ≢ none
read_changes_some file = read_loop_some (suc (length file)) file (omega arith)

length-frames : (cs : List Bytes) → length cs ≤ length (frames cs)
length-frames [] = omega arith
length-frames (c ∷ cs) = omega (arith, length-append (frame c) (frames cs), length-frames cs)

-- The records at the front, and what the loop makes of the rest.
read_changes-frames :
    (cs : List Bytes) (tail : Bytes)
    → AreSmall cs
    → (fuel : ℕ) × (read_changes (frames cs ++ tail) ≡ push_all cs (read_loop (suc fuel) tail))
read_changes-frames cs tail h =
    let file = frames cs ++ tail in
    let fuel = length file - length cs in
    let enough : suc (length file) ≡ length cs + suc fuel =
      omega (arith, length-append (frames cs) tail, length-frames cs) in
    (fuel, ap (λ n. read_loop n file) enough ∙ read_frames (suc fuel) cs tail h)

read_loop_short :
    (fuel : ℕ) (tail : Bytes) → length tail < 4 → read_loop (suc fuel) tail ≡ some (ok [])
unfolding read_loop
read_loop_short fuel (a ∷ b ∷ c ∷ d ∷ rest) h = absurd (omega arith)
read_loop_short fuel _ h = refl

read_loop_torn :
    (fuel n : ℕ) (part : Bytes)
    → n < u32_size
    → length part < n
    → read_loop (suc fuel) (be_bytes n ++ part) ≡ some (err "failed to fill whole buffer")
unfolding read_loop
read_loop_torn fuel n part small short =
    let next = λ (r : Bytes × Bytes). push_change r.0 (read_loop fuel r.1) in
    ap (λ k. on_exact next (read_exact k part)) (u32_roundtrip n small)
    ∙ ap (on_exact next) (if_yes (ltb (length part) n) _ _ (ground arith))

-- The records of a file come back as they were written, in their order; an end of fewer than four
-- bytes, as an interrupted write of a length leaves it, is passed over. (A record is shorter than
-- 2^32 bytes.)
pub read_changes-torn_length :
    (cs : List Bytes) (tail : Bytes)
    → AreSmall cs
    → length tail < 4
    → read_changes (frames cs ++ tail) ≡ some (ok cs)
unfolding read_loop
read_changes-torn_length cs tail h short =
    let (fuel, e) = read_changes-frames cs tail h in
    e
    ∙ ap (push_all cs) (read_loop_short fuel tail short)
    ∙ push_all-ok cs []
    ∙ ap (λ l. some (ok l)) (append-nil cs)

-- A file that ends within the bytes of a record, after its length, is not read at all: the records
-- before it are given up with an error. (Records are shorter than 2^32 bytes.)
pub read_changes-torn_record :
    (cs : List Bytes) (n : ℕ) (part : Bytes)
    → AreSmall cs
    → n < u32_size
    → length part < n
    → read_changes (frames cs ++ (be_bytes n ++ part)) ≡ some (err "failed to fill whole buffer")
unfolding read_loop
read_changes-torn_record cs n part h small short =
    let (fuel, e) = read_changes-frames cs (be_bytes n ++ part) h in
    e ∙ ap (push_all cs) (read_loop_torn fuel n part small short) ∙ push_all-err cs _
