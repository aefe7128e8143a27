-- ===== src/Tape/Block.antt =====
-- The block that TAPOUT leaves in its file (sjasm/sjio.cpp).
use sjasmplus.Common.{
  ℕ, ◌+◌, ◌≤◌, ◌<◌, ◌≡◌, refl, sym, ap, ◌∙◌, inl, inr, true, false, some, List, [], ◌∷◌, ◌++◌, ltb,
  ◌==◌, bit_xor, length, length-append, append_assoc, append-nil, Bool-cases, Option-cases, arith,
}
use sjasmplus.Tape.{
  dest_buf_len, Tape, Output, xor_all, finish_tap, append_tape, write_tape, write_full, write_dest,
  write_byte, write_bytes,
}

-- A block of `flag` that holds `written` so far, behind `base` in its file.
abbrev pub block_of : List ℕ → ℕ → List ℕ → Tape
block_of base flag written = record {
  content = base ++ (0 ∷ 0 ∷ flag ∷ written);
  seek = length base;
  parity = xor_all flag written;
  block_length = 2 + length written;
}

pub xor_all-append :
    (start : ℕ) (xs ys : List ℕ) → xor_all start (xs ++ ys) ≡ xor_all (xor_all start xs) ys
unfolding xor_all
xor_all-append start [] ys = refl
xor_all-append start (x ∷ xs) ys = xor_all-append (bit_xor start x) xs ys

pub append_tape-block_of :
    (base written bytes : List ℕ) (flag : ℕ)
    → append_tape bytes (block_of base flag written) ≡ block_of base flag (written ++ bytes)
append_tape-block_of base written bytes flag = rw (
  append_assoc base (0 ∷ 0 ∷ flag ∷ written) bytes,
  xor_all-append flag written bytes,
  length-append written bytes,
  sum_assoc 2 (length written) (length bytes),
)
  where
    sum_assoc : (a b c : ℕ) → a + b + c ≡ a + (b + c)
    sum_assoc a b c = omega arith

pub write_full-HasBlock :
    (base written : List ℕ) (flag : ℕ) (o : Output)
    → o.tape ≡ some (block_of base flag written)
    → length written + length o.buffer ≤ 65533
    → ((write_full o).tape ≡ some (block_of base flag (written ++ o.buffer)))
      × ((write_full o).closed ≡ o.closed)
unfolding write_full write_tape
write_full-HasBlock base written flag o open_tape fits =
    rw (write_full, open_tape, roomy)
      (ap some (append_tape-block_of base written o.buffer flag), refl)
  where
    roomy : ltb 65535 (2 + length written + length o.buffer) ≡ false
    roomy = ground arith

-- The open block holds `bytes` together with the buffer, which is not full.
pub record IsTaping (past : List (List ℕ)) (base : List ℕ) (flag : ℕ) (bytes : List ℕ) (o : Output)
    : Type 0 where
  pub kept : o.closed ≡ past
  pub written : List ℕ
  pub parts : written ++ o.buffer ≡ bytes
  pub open_tape : o.tape ≡ some (block_of base flag written)
  pub short : length o.buffer < dest_buf_len

pub write_full-buffer : (o : Output) → (write_full o).buffer ≡ []
unfolding write_full write_tape finish_tap
write_full-buffer o = elim (Option-cases o.tape) [
  | inl closed ↦ rw closed
  | inr (t, open_tape) ↦ elim (Bool-cases (ltb 65535 (t.block_length + length o.buffer))) [
    | inl over ↦ rw (open_tape, over)
    | inr fits ↦ rw (open_tape, fits)
  ]
]

pub length_parts : (xs ys zs : List ℕ) → xs ++ ys ≡ zs → length xs + length ys ≡ length zs
length_parts xs ys zs e = sym (length-append xs ys) ∙ ap length e

pub length-zero : (xs : List ℕ) → (length xs == 0) ≡ true → xs ≡ []
length-zero [] h = refl
length-zero (x ∷ xs) h = absurd (ground (arith, h))

pub write_dest-block_of :
    (base written bytes : List ℕ) (flag : ℕ) (o : Output)
    → o.tape ≡ some (block_of base flag written)
    → written ++ o.buffer ≡ bytes
    → length bytes ≤ 65533
    → ((write_dest o).tape ≡ some (block_of base flag bytes))
      × ((write_dest o).buffer ≡ [])
      × ((write_dest o).closed ≡ o.closed)
unfolding write_dest
write_dest-block_of base written bytes flag o open_tape parts fits =
    elim (Bool-cases (length o.buffer == 0)) [
      | inl idle ↦
          let nothing : o.buffer ≡ [] = length-zero o.buffer idle in
          let all : written ≡ bytes = sym (append-nil written) ∙ rw nothing at parts in
          rw (write_dest, idle)
            (open_tape ∙ ap (λ w. some (block_of base flag w)) all, nothing, refl)
      | inr pending ↦
          let (tape, closed) =
            write_full-HasBlock base written flag o open_tape
              (omega (arith, length_parts written o.buffer bytes parts)) in
          rw (write_dest, pending)
            (tape ∙ ap (λ w. some (block_of base flag w)) parts, write_full-buffer o, closed)
    ]

pub write_byte-IsTaping :
    (past : List (List ℕ)) (base bytes : List ℕ) (flag byte : ℕ) (o : Output)
    → IsTaping past base flag bytes o
    → length bytes < 65533
    → IsTaping past base flag (bytes ++ (byte ∷ [])) (write_byte o byte)
unfolding write_byte write_dest
write_byte-IsTaping past base bytes flag byte o h fits =
    elim (Bool-cases (length (o.buffer ++ (byte ∷ [])) == dest_buf_len)) [
      | inl full ↦ rw (write_byte, full) (flushed full)
      | inr short ↦
          rw (write_byte, short)
            (record {
              kept = h.kept;
              written = h.written;
              parts = together;
              open_tape = h.open_tape;
              short = ground (arith, short, length-append o.buffer (byte ∷ []));
            })
    ]
  where
    together : h.written ++ (o.buffer ++ (byte ∷ [])) ≡ bytes ++ (byte ∷ [])
    together =
        sym (append_assoc h.written o.buffer (byte ∷ [])) ∙ ap (λ xs. xs ++ (byte ∷ [])) h.parts

    put : Output
    put = record o { buffer = o.buffer ++ (byte ∷ []) }

    flushed :
        (length (o.buffer ++ (byte ∷ [])) == dest_buf_len) ≡ true
        → IsTaping past base flag (bytes ++ (byte ∷ [])) (write_dest put)
    flushed full =
        let (tape, buffer, closed) =
          write_dest-block_of base h.written (bytes ++ (byte ∷ [])) flag put h.open_tape together
            (omega (arith, length-append bytes (byte ∷ []))) in
        record {
          kept = closed ∙ h.kept;
          written = bytes ++ (byte ∷ []);
          parts = rw buffer (append-nil (bytes ++ (byte ∷ [])));
          open_tape = tape;
          short = rw buffer (omega arith);
        }

pub write_bytes-IsTaping :
    (past : List (List ℕ)) (base bytes more : List ℕ) (flag : ℕ) (o : Output)
    → IsTaping past base flag bytes o
    → length bytes + length more ≤ 65533
    → IsTaping past base flag (bytes ++ more) (write_bytes o more)
unfolding write_bytes
write_bytes-IsTaping past base bytes [] flag o h fits = rw append-nil h
write_bytes-IsTaping past base bytes (b ∷ more) flag o h fits =
    rw⁻¹ (append_assoc bytes (b ∷ []) more) (
      write_bytes-IsTaping past base (bytes ++ (b ∷ [])) more flag (write_byte o b)
        (write_byte-IsTaping past base bytes flag b o h (omega arith))
        (omega (arith, length-append bytes (b ∷ []))))
