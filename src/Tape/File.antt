-- ===== src/Tape/File.antt =====
-- The file that TAPOUT leaves (sjasm/sjio.cpp).
use sjasmplus.Common.{
  ℕ, zero, suc, ◌+◌, ◌-◌, ◌*◌, ◌/◌, ◌%◌, ◌^◌, ◌≤◌, ◌<◌, ◌≡◌, refl, ap, ◌∙◌, inl, inr, true, false,
  none, some, List, [], ◌∷◌, ◌++◌, ltb, ◌==◌, bit_xor, length, take, drop, length-append,
  append_assoc, Bool-cases, Option-cases, ==-self, arith,
}
use native.Mathlib.Nat.{div-add-mod', mod-eq_of_lt}
use sjasmplus.Tape.{
  Output, write_at, xor_all, finish_tap, append_tape, write_tape, write_raw, write_full, write_dest,
  close_tap_file, open_tap_file, write_bytes,
}
use sjasmplus.Tape.Reader.{checksum_of, split_at, check_parity, read_body, read_block}
use sjasmplus.Tape.Block.{
  block_of, append_tape-block_of, IsTaping, write_full-buffer, length-zero, write_dest-block_of,
  write_bytes-IsTaping,
}

-- The file of a block of `bytes` behind `base`.
abbrev pub file_of : List ℕ → ℕ → List ℕ → List ℕ
file_of base flag bytes =
    let size = 2 + length bytes in
    base ++ (size % 256 ∷ size / 2 ^ 8 % 256 ∷ flag ∷ (bytes ++ (xor_all flag bytes % 256 ∷ [])))

take-length : (xs ys : List ℕ) → take (length xs) (xs ++ ys) ≡ xs
take-length [] ys = refl
take-length (x ∷ xs) ys = ap (λ zs. x ∷ zs) (take-length xs ys)

drop-length : (xs ys : List ℕ) (n : ℕ) → drop (length xs + n) (xs ++ ys) ≡ drop n ys
drop-length [] ys n = rw (no_more n)
  where
    no_more : (n : ℕ) → 0 + n ≡ n
    no_more n = omega arith
drop-length (x ∷ xs) ys n = rw (one_more (length xs) n) (drop-length xs ys n)
  where
    one_more : (k n : ℕ) → suc k + n ≡ suc (k + n)
    one_more k n = omega arith

write_at-length :
    (base : List ℕ) (a b x y : ℕ) (ys : List ℕ)
    → write_at (length base) (a ∷ b ∷ []) (base ++ (x ∷ y ∷ ys)) ≡ base ++ (a ∷ b ∷ ys)
write_at-length base a b x y ys =
    rw (take-length base (x ∷ y ∷ ys), drop-length base (x ∷ y ∷ ys) 2)

finish_tap-file_of :
    (base bytes : List ℕ) (flag : ℕ) (o : Output)
    → o.tape ≡ some (block_of base flag bytes)
    → (finish_tap o).closed ≡ file_of base flag bytes ∷ o.closed
unfolding finish_tap
finish_tap-file_of base bytes flag o open_tape =
    rw (open_tape, append_assoc base (0 ∷ 0 ∷ flag ∷ bytes) (xor_all flag bytes % 256 ∷ []))
      (ap (λ f. f ∷ o.closed) (write_at-length base _ _ 0 0 _))

pub checksum_of-xor_all :
    (start : ℕ) (bytes : List ℕ) → checksum_of start bytes ≡ xor_all start bytes
unfolding checksum_of xor_all
checksum_of-xor_all start [] = refl
checksum_of-xor_all start (b ∷ bytes) = checksum_of-xor_all (bit_xor start b) bytes

pub split_at-length : (xs ys : List ℕ) → split_at (length xs) (xs ++ ys) ≡ some (xs, ys)
unfolding split_at
split_at-length [] ys = refl
split_at-length (x ∷ xs) ys = rw (split_at-length xs ys)

read_body-file_of :
    (bytes : List ℕ) (flag : ℕ)
    → read_body (2 + length bytes) (flag ∷ (bytes ++ (xor_all flag bytes % 256 ∷ [])))
      ≡ some (record { flag = flag; data_bytes = bytes; rest = [] })
unfolding read_body check_parity
read_body-file_of bytes flag = rw (
  read_body,
  minus_two,
  split_at-length bytes (xor_all flag bytes % 256 ∷ []),
  checksum_of-xor_all flag bytes,
  ==-self (xor_all flag bytes % 256),
)
  where
    minus_two : 2 + length bytes - 2 ≡ length bytes
    minus_two = omega arith

read_block-file_of :
    (base bytes : List ℕ) (flag : ℕ)
    → length bytes ≤ 65533
    → read_block (drop (length base) (file_of base flag bytes))
      ≡ some (record { flag = flag; data_bytes = bytes; rest = [] })
unfolding read_block
read_block-file_of base bytes flag fits =
    let size = 2 + length bytes in
    let tail = flag ∷ (bytes ++ (xor_all flag bytes % 256 ∷ [])) in
    let start : length base ≡ length base + 0 = omega arith in
    let dropped : drop (length base) (file_of base flag bytes)
        ≡ size % 256 ∷ size / 2 ^ 8 % 256 ∷ tail =
      ap (λ k. drop k (file_of base flag bytes)) start
      ∙ drop-length base (size % 256 ∷ size / 2 ^ 8 % 256 ∷ tail) 0 in
    let joined : size % 256 + size / 2 ^ 8 % 256 * 256 ≡ size =
      omega (arith, div-add-mod' size 256) in
    rw (dropped, joined) (read_body-file_of bytes flag)

write_dest-buffer : (o : Output) → (write_dest o).buffer ≡ []
unfolding write_dest
write_dest-buffer o = elim (Bool-cases (length o.buffer == 0)) [
  | inl idle ↦ rw (write_dest, idle) (length-zero o.buffer idle)
  | inr pending ↦ rw (write_dest, pending) (write_full-buffer o)
]

finish_tap-buffer : (o : Output) → (finish_tap o).buffer ≡ o.buffer
unfolding finish_tap
finish_tap-buffer o = elim (Option-cases o.tape) [
  | inl closed ↦ rw (finish_tap, closed)
  | inr (t, open_tape) ↦ rw (finish_tap, open_tape)
]

close_tap_file-buffer : (o : Output) → (close_tap_file o).buffer ≡ []
unfolding close_tap_file
close_tap_file-buffer o = finish_tap-buffer (write_dest o) ∙ write_dest-buffer o

close_tap_file-file_of :
    (base bytes : List ℕ) (flag : ℕ) (o : Output)
    → (write_dest o).tape ≡ some (block_of base flag bytes)
    → (close_tap_file o).closed ≡ file_of base flag bytes ∷ (write_dest o).closed
unfolding close_tap_file
close_tap_file-file_of base bytes flag o tape =
    finish_tap-file_of base bytes flag (write_dest o) tape

-- At most 65533 bytes that are written between OpenTapFile on an existing file and CloseTapFile follow
-- what the file held as one block with the flag, which a reader of TAP blocks reads back whole: length
-- and parity are right, however the bytes were cut into buffers. The flag is below 256.
pub read_block-close_tap_file :
    (base bytes : List ℕ) (flag : ℕ) (o : Output)
    → flag < 256
    → length bytes ≤ 65533
    → (file : List ℕ) × ((close_tap_file
          (write_bytes (open_tap_file (some base) flag o) bytes)).closed
        ≡ file ∷ (close_tap_file o).closed)
      × (take (length base) file ≡ base)
      × (read_block (drop (length base) file)
          ≡ some (record { flag = flag; data_bytes = bytes; rest = [] }))
unfolding open_tap_file
read_block-close_tap_file base bytes flag o small fits =
    let opened = open_tap_file (some base) flag o in
    let past = (close_tap_file o).closed in
    let h = write_bytes-IsTaping past base [] bytes flag opened start (omega arith) in
    let (tape, buffer, closed) =
      write_dest-block_of base h.written bytes flag (write_bytes opened bytes) h.open_tape h.parts
        fits in
    (
      file_of base flag bytes,
      close_tap_file-file_of base bytes flag (write_bytes opened bytes) tape
          ∙ ap (λ c. file_of base flag bytes ∷ c) (closed ∙ h.kept),
      take-length base _,
      read_block-file_of base bytes flag fits,
    )
  where
    flag_byte : flag % 256 ≡ flag
    flag_byte = mod-eq_of_lt small

    opened_block : (open_tap_file (some base) flag o).tape ≡ some (block_of base flag [])
    opened_block = unfold xor_all in rw flag_byte

    start : IsTaping (close_tap_file o).closed base flag [] (open_tap_file (some base) flag o)
    start = record {
      kept = refl;
      written = [];
      parts = close_tap_file-buffer o;
      open_tape = opened_block;
      short = rw (close_tap_file-buffer o) (omega arith);
    }

length-take : (n : ℕ) (xs : List ℕ) → length (take n xs) ≤ n
length-take zero xs = omega arith
length-take (suc n) [] = omega arith
length-take (suc n) (x ∷ xs) = omega (arith, length-take n xs)

-- A write that would make the block longer than 65533 bytes closes it with its first 65533 bytes,
-- reports the error, and leaves no open block; a reader reads this block back.
pub write_dest-exceeded :
    (base written : List ℕ) (flag : ℕ) (o : Output)
    → o.tape ≡ some (block_of base flag written)
    → length written ≤ 65533
    → 65533 < length written + length o.buffer
    → let bytes = written ++ take (65533 - length written) o.buffer in
      ((write_dest o).tape ≡ none)
      × ((write_dest o).exceeded ≡ suc o.exceeded)
      × ((write_dest o).closed ≡ file_of base flag bytes ∷ o.closed)
      × (read_block (drop (length base) (file_of base flag bytes))
          ≡ some (record { flag = flag; data_bytes = bytes; rest = [] }))
unfolding write_dest write_full write_tape
write_dest-exceeded base written flag o open_tape fits over =
    rw (write_dest, pending, write_full, open_tape, too_long)
      (
        no_tape,
        refl,
        finish_tap-file_of base bytes flag cut whole,
        read_block-file_of base bytes flag (
            omega (
              arith,
              length-append written (take (65533 - length written) o.buffer),
              length-take (65533 - length written) o.buffer,
            )),
      )
  where
    bytes : List ℕ
    bytes = written ++ take (65533 - length written) o.buffer

    cut : Output
    cut = record o {
      buffer = [];
      raw = write_raw o.buffer o.raw;
      dest_length = o.dest_length + length o.buffer;
      tape =
          some (
            append_tape (take (65535 - (2 + length written)) o.buffer)
              (block_of base flag written));
    }

    pending : (length o.buffer == 0) ≡ false
    pending = ground arith

    too_long : ltb 65535 (2 + length written + length o.buffer) ≡ true
    too_long = ground arith

    room : 65535 - (2 + length written) ≡ 65533 - length written
    room = omega arith

    whole : cut.tape ≡ some (block_of base flag bytes)
    whole =
        rw room (
          ap some (append_tape-block_of base written (take (65533 - length written) o.buffer) flag))

    no_tape : (finish_tap cut).tape ≡ none
    no_tape = unfold finish_tap in refl
