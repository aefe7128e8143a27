-- ===== src/Tzx/File.antt =====
-- A TZX file of appended blocks (sjasm/io_tzx.cpp), read back block by block.
use sjasmplus.Common.{
  ℕ, zero, suc, ◌+◌, ◌-◌, ◌*◌, ◌/◌, ◌%◌, ◌^◌, ◌≤◌, ◌<◌, ◌≡◌, refl, sym, ap, ◌∙◌, some, List, [],
  ◌∷◌, ◌++◌, length, All, append_assoc, append-nil, length-append, ==-self, arith,
}
use native.Mathlib.Nat.{div-add-mod', mod-eq_of_lt}
use sjasmplus.Tape.{xor_all}
use sjasmplus.Tape.File.{checksum_of-xor_all, split_at-length}
use sjasmplus.Tzx.{
  TurboBlock, put_word, tzx_create_empty, tzx_append_pause_block, tzx_append_standard_block,
  tzx_append_turbo_block,
}
use sjasmplus.Tzx.Reader.{
  TzxBlock, pause, standard, turbo, two_bytes, read_standard, read_turbo, read_pause_block,
  read_standard_block, read_turbo_block, read_one, read_rounds, read_tzx,
}

-- The call that appends a block.
unfoldable pub append_block : List ℕ → TzxBlock → List ℕ
append_block file (pause ms) = tzx_append_pause_block file ms
append_block file (standard ms sync buf) = tzx_append_standard_block file buf ms sync
append_block file (turbo t buf) = tzx_append_turbo_block file buf t

unfoldable pub append_blocks : List ℕ → List TzxBlock → List ℕ
append_blocks file [] = file
append_blocks file (b ∷ blocks) = append_blocks (append_block file b) blocks

pub record IsTurbo (t : TurboBlock) : Type 0 where
  pub pilot_pulse : t.pilot_pulse_len < 2 ^ 16
  pub first_sync : t.first_sync_len < 2 ^ 16
  pub second_sync : t.second_sync_len < 2 ^ 16
  pub zero_bit : t.zero_bit_len < 2 ^ 16
  pub one_bit : t.one_bit_len < 2 ^ 16
  pub pilot_tone : t.pilot_tone_len < 2 ^ 16
  pub used_bits : t.last_byte_used_bits < 256
  pub pause_after : t.pause_after_ms < 2 ^ 16

-- The values fit the C types, and the data fit the length fields.
abbrev pub IsFit : TzxBlock → Type 0
IsFit (pause ms) = ms < 2 ^ 16
IsFit (standard ms sync buf) = (ms < 2 ^ 16) × (length buf ≤ 65533)
IsFit (turbo t buf) = IsTurbo t × (length buf < 2 ^ 24)

two_bytes-put : (w : ℕ) → w < 2 ^ 16 → two_bytes (w % 256) (w / 2 ^ 8 % 256) ≡ w
two_bytes-put w h = omega (arith, div-add-mod' w 256)

three_bytes :
    (n : ℕ) → n < 2 ^ 24 → two_bytes (n % 256) (n / 2 ^ 8 % 256) + n / 2 ^ 16 % 256 * 65536 ≡ n
three_bytes n h = omega arith

read_standard-bytes :
    (ms sync : ℕ) (buf rest : List ℕ)
    → read_standard ms (length buf + 2) (sync ∷ (buf ++ (xor_all sync buf % 256 ∷ rest)))
      ≡ some (standard ms sync buf, rest)
unfolding read_standard
read_standard-bytes ms sync buf rest = rw (
  read_standard,
  minus_two,
  split_at-length buf (xor_all sync buf % 256 ∷ rest),
  checksum_of-xor_all sync buf,
  ==-self (xor_all sync buf % 256),
)
  where
    minus_two : length buf + 2 - 2 ≡ length buf
    minus_two = omega arith

-- The identifier of a block and the bytes behind it.
abbrev id_of : TzxBlock → ℕ
id_of (pause ms) = 0x20
id_of (standard ms sync buf) = 0x10
id_of (turbo t buf) = 0x11

abbrev body_of : TzxBlock → List ℕ → List ℕ
body_of (pause ms) rest = put_word ms rest
body_of (standard ms sync buf) rest =
    put_word ms (put_word (length buf + 2) (sync ∷ (buf ++ (xor_all sync buf % 256 ∷ rest))))
body_of (turbo t buf) rest = put_word t.pilot_pulse_len (
    put_word t.first_sync_len (
      put_word t.second_sync_len (
        put_word t.zero_bit_len (
          put_word t.one_bit_len (
            put_word t.pilot_tone_len (
              t.last_byte_used_bits % 256
              ∷ put_word t.pause_after_ms
                  (put_word (length buf) (length buf / 2 ^ 16 % 256 ∷ (buf ++ rest)))))))))

read_turbo-bytes :
    (t : TurboBlock) (buf rest : List ℕ)
    → read_turbo t (length buf) (buf ++ rest) ≡ some (turbo t buf, rest)
unfolding read_turbo
read_turbo-bytes t buf rest = rw (read_turbo, split_at-length buf rest)

read_one-body_of :
    (b : TzxBlock) (rest : List ℕ) → IsFit b → read_one (id_of b) (body_of b rest) ≡ some (b, rest)
unfolding read_one read_pause_block read_standard_block read_turbo_block
read_one-body_of (pause ms) rest fit = rw (two_bytes-put ms fit)
read_one-body_of (standard ms sync buf) rest (fit, short) =
    rw (two_bytes-put ms fit, two_bytes-put (length buf + 2) (omega arith))
      (read_standard-bytes ms sync buf rest)
read_one-body_of (turbo t buf) rest (fit, short) =
    rw
      (
        two_bytes-put t.pilot_pulse_len fit.pilot_pulse,
        two_bytes-put t.first_sync_len fit.first_sync,
        two_bytes-put t.second_sync_len fit.second_sync,
        two_bytes-put t.zero_bit_len fit.zero_bit,
        two_bytes-put t.one_bit_len fit.one_bit,
        two_bytes-put t.pilot_tone_len fit.pilot_tone,
        two_bytes-put t.pause_after_ms fit.pause_after,
        three_bytes (length buf) short,
        mod-eq_of_lt fit.used_bits,
      )
      (read_turbo-bytes t buf rest)

abbrev encode : List TzxBlock → List ℕ
encode [] = []
encode (b ∷ blocks) = id_of b ∷ body_of b (encode blocks)

append_block-body_of :
    (file rest : List ℕ) (b : TzxBlock)
    → append_block file b ++ rest ≡ file ++ (id_of b ∷ body_of b rest)
unfolding append_block tzx_append_pause_block tzx_append_standard_block tzx_append_turbo_block
append_block-body_of file rest (pause ms) = append_assoc file _ rest
append_block-body_of file rest (standard ms sync buf) =
    append_assoc file _ rest
    ∙ ap (λ xs. file ++ (0x10 ∷ put_word ms (put_word (length buf + 2) (sync ∷ xs))))
        (append_assoc buf _ rest)
append_block-body_of file rest (turbo t buf) = append_assoc file _ rest

append_blocks-encode :
    (file : List ℕ) (blocks : List TzxBlock) → append_blocks file blocks ≡ file ++ encode blocks
unfolding append_blocks
append_blocks-encode file [] = sym (append-nil file)
append_blocks-encode file (b ∷ blocks) =
    append_blocks-encode (append_block file b) blocks ∙ append_block-body_of file (encode blocks) b

read_rounds-encode :
    (rounds : ℕ) (blocks : List TzxBlock)
    → All IsFit blocks
    → length blocks ≤ rounds
    → read_rounds rounds (encode blocks) ≡ some blocks
unfolding read_rounds
read_rounds-encode rounds [] fit enough = read_rounds-nil rounds
  where
    read_rounds-nil : (rounds : ℕ) → read_rounds rounds [] ≡ some []
    read_rounds-nil zero = refl
    read_rounds-nil (suc rounds) = refl
read_rounds-encode zero (b ∷ blocks) fit enough = absurd (omega arith)
read_rounds-encode (suc rounds) (b ∷ blocks) (fit, more) enough = rw (
  read_rounds,
  read_one-body_of b (encode blocks) fit,
  read_rounds-encode rounds blocks more (omega arith),
)

length-body_of : (b : TzxBlock) (rest : List ℕ) → length rest ≤ length (body_of b rest)
length-body_of (pause ms) rest = omega arith
length-body_of (standard ms sync buf) rest =
    omega (arith, length-append buf (xor_all sync buf % 256 ∷ rest))
length-body_of (turbo t buf) rest = omega (arith, length-append buf rest)

length-encode : (blocks : List TzxBlock) → length blocks ≤ length (encode blocks)
length-encode [] = omega arith
length-encode (b ∷ blocks) = omega (arith, length-encode blocks, length-body_of b (encode blocks))

-- A file that TZX_CreateEmpty starts and to which pauses, standard blocks and turbo blocks are appended
-- is read back as these blocks in their order, with the data, the flags and the times of each; words are
-- 16 bits, standard data have at most 65533 bytes and turbo data less than 2 ^ 24.
pub read_tzx-append_blocks :
    (blocks : List TzxBlock)
    → All IsFit blocks
    → read_tzx (append_blocks tzx_create_empty blocks) ≡ some blocks
unfolding tzx_create_empty read_tzx
read_tzx-append_blocks blocks fit =
    ap read_tzx (append_blocks-encode tzx_create_empty blocks)
    ∙ read_rounds-encode (length (encode blocks)) blocks fit (length-encode blocks)
