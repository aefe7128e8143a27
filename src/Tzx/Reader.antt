-- ===== src/Tzx/Reader.antt =====
-- An independent reader of TZX files with standard blocks, turbo blocks and pauses.
use sjasmplus.Common.{
  ℕ, zero, suc, ◌+◌, ◌-◌, ◌*◌, ◌%◌, ◌&&◌, Option, none, some, List, [], ◌∷◌, if◌then◌else◌, ◌==◌,
  length,
}
use sjasmplus.Tape.Reader.{checksum_of, split_at}
use sjasmplus.Tzx.{TurboBlock}

pub data TzxBlock : Type 0 where
  pause : ℕ → TzxBlock
  standard : ℕ → ℕ → List ℕ → TzxBlock
  turbo : TurboBlock → List ℕ → TzxBlock

abbrev pub two_bytes : ℕ → ℕ → ℕ
two_bytes lo hi = lo + hi * 256

-- The data of a standard block: the flag, the bytes and their xor.
unfoldable pub read_standard : ℕ → ℕ → List ℕ → Option (TzxBlock × List ℕ)
read_standard pause_ms size [] = none
read_standard pause_ms size (flag ∷ bytes) = elim (split_at (size - 2) bytes) [
  | none ↦ none
  | some (data_bytes, []) ↦ none
  | some (data_bytes, parity ∷ rest) ↦
      if checksum_of flag data_bytes % 256 == parity
      then some (standard pause_ms flag data_bytes, rest)
      else none
]

unfoldable pub read_turbo : TurboBlock → ℕ → List ℕ → Option (TzxBlock × List ℕ)
read_turbo t size bytes = elim (split_at size bytes) [
  | none ↦ none
  | some (data_bytes, rest) ↦ some (turbo t data_bytes, rest)
]

unfoldable pub read_pause_block : List ℕ → Option (TzxBlock × List ℕ)
read_pause_block (lo ∷ hi ∷ rest) = some (pause (two_bytes lo hi), rest)
read_pause_block bytes = none

unfoldable pub read_standard_block : List ℕ → Option (TzxBlock × List ℕ)
read_standard_block (p ∷ p' ∷ n ∷ n' ∷ bytes) =
    read_standard (two_bytes p p') (two_bytes n n') bytes
read_standard_block bytes = none

unfoldable pub read_turbo_block : List ℕ → Option (TzxBlock × List ℕ)
read_turbo_block
      (a ∷ a' ∷ b ∷ b' ∷ c ∷ c' ∷ d ∷ d' ∷ e ∷ e' ∷ f ∷ f' ∷ u ∷ p ∷ p' ∷ n ∷ n' ∷ n'' ∷ bytes) =
    read_turbo
      (record {
        pilot_pulse_len = two_bytes a a';
        first_sync_len = two_bytes b b';
        second_sync_len = two_bytes c c';
        zero_bit_len = two_bytes d d';
        one_bit_len = two_bytes e e';
        pilot_tone_len = two_bytes f f';
        last_byte_used_bits = u;
        pause_after_ms = two_bytes p p';
      })
      (two_bytes n n' + n'' * 65536) bytes
read_turbo_block bytes = none

unfoldable pub read_one : ℕ → List ℕ → Option (TzxBlock × List ℕ)
read_one id bytes =
    if id == 0x10
    then read_standard_block bytes
    else if id == 0x11
    then read_turbo_block bytes
    else if id == 0x20
    then read_pause_block bytes
    else none

-- Each round reads one block, so that as many rounds as there are bytes are enough.
unfoldable pub read_rounds : ℕ → List ℕ → Option (List TzxBlock)
read_rounds rounds [] = some []
read_rounds zero (id ∷ bytes) = none
read_rounds (suc rounds) (id ∷ bytes) = elim (read_one id bytes) [
  | none ↦ none
  | some (block, rest) ↦ elim (read_rounds rounds rest) [
    | none ↦ none
    | some blocks ↦ some (block ∷ blocks)
  ]
]

-- The signature "ZXTape!" and 0x1A, the version, whose minor part a reader does not need, and the blocks.
unfoldable pub read_tzx : List ℕ → Option (List TzxBlock)
read_tzx (z ∷ x ∷ t ∷ a ∷ p ∷ e ∷ mark ∷ end ∷ major ∷ minor ∷ bytes) =
    if z == b'Z'
      && x == b'X'
      && t == b'T'
      && a == b'a'
      && p == b'p'
      && e == b'e'
      && mark == b'!'
      && end == 0x1A
      && major == 1
    then read_rounds (length bytes) bytes
    else none
read_tzx bytes = none
