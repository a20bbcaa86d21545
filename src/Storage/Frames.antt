-- ===== src/Storage/Frames.antt =====
-- The records of the changelog in paxos-wasm/core/storage/src/storage.rs: each change after its
-- length as a big-endian u32, and the loop of `load_state_and_changes` that reads them back.
use wasm_master.Common.{
  ℕ, zero, suc, ◌+◌, ◌*◌, ◌/◌, ◌%◌, ◌^◌, Option, none, some, List, [], ◌∷◌, ◌++◌, ltb,
  if◌then◌else◌, length, take, drop,
}
use wasm_master.Common.Fallible.{Result, ok, err}
use wasm_master.Persistence.{Bytes}

abbrev pub u32_size : ℕ
u32_size = 2 ^ 32

-- `write_u32::<BigEndian>(n as u32)`
abbrev pub be_bytes : ℕ → Bytes
be_bytes n = n / 16777216 % 256 ∷ n / 65536 % 256 ∷ n / 256 % 256 ∷ n % 256 ∷ []

abbrev pub frame : Bytes → Bytes
frame change = be_bytes (length change) ++ change

abbrev pub frames : List Bytes → Bytes
frames [] = []
frames (c ∷ cs) = frame c ++ frames cs

-- `read_u32::<BigEndian>()`: the number with the rest of the file, or `none` for the end of the file
-- in fewer than four bytes.
abbrev pub read_u32 : Bytes → Option (ℕ × Bytes)
read_u32 (a ∷ b ∷ c ∷ d ∷ rest) = some (((a * 256 + b) * 256 + c) * 256 + d, rest)
read_u32 _ = none

-- `read_exact` into a buffer of `n` bytes.
abbrev pub read_exact : ℕ → Bytes → Result (Bytes × Bytes)
read_exact n file =
    if ltb (length file) n then err "failed to fill whole buffer" else ok (take n file, drop n file)

abbrev pub push_change : Bytes → Option (Result (List Bytes)) → Option (Result (List Bytes))
push_change c none = none
push_change c (some (err e)) = some (err e)
push_change c (some (ok cs)) = some (ok (c ∷ cs))

abbrev pub on_exact :
    (Bytes × Bytes → Option (Result (List Bytes)))
    → Result (Bytes × Bytes)
    → Option (Result (List Bytes))
on_exact next (err e) = some (err e)
on_exact next (ok r) = next r

-- The loop, on fuel; `none` means that the fuel ran out.
unfoldable pub read_loop : ℕ → Bytes → Option (Result (List Bytes))
read_loop zero file = none
read_loop (suc fuel) file =
    let next = λ (r : Bytes × Bytes). push_change r.0 (read_loop fuel r.1) in
    elim (read_u32 file) [
      | none ↦ some (ok [])
      | some (len, rest) ↦ on_exact next (read_exact len rest)
    ]

-- Each record takes at least four bytes, so the file is not longer than the fuel.
abbrev pub read_changes : Bytes → Option (Result (List Bytes))
read_changes file = read_loop (suc (length file)) file
