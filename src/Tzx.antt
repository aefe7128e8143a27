-- ===== src/Tzx.antt =====
-- TZX files: sjasm/io_tzx.cpp and sjasm/io_tzx.h. A file is the list of its bytes.
pub mod Reader
pub mod File
mod Examples
use sjasmplus.Common.{ℕ, ◌+◌, ◌/◌, ◌%◌, ◌^◌, List, [], ◌∷◌, ◌++◌, length}
use sjasmplus.Tape.{xor_all}

-- STZXTurboBlock
pub record TurboBlock : Type 0 where
  pub pilot_pulse_len : ℕ
  pub first_sync_len : ℕ
  pub second_sync_len : ℕ
  pub zero_bit_len : ℕ
  pub one_bit_len : ℕ
  pub pilot_tone_len : ℕ
  pub last_byte_used_bits : ℕ
  pub pause_after_ms : ℕ

-- A word as `fputc(w & 0xFF); fputc(w >> 8);`, of which fputc writes the low byte.
abbrev pub put_word : ℕ → List ℕ → List ℕ
put_word w rest = w % 256 ∷ w / 2 ^ 8 % 256 ∷ rest

abbrev pub magic : List ℕ
magic = b'Z' ∷ b'X' ∷ b'T' ∷ b'a' ∷ b'p' ∷ b'e' ∷ b'!' ∷ 0x1A ∷ 1 ∷ 10 ∷ []

unfoldable pub tzx_create_empty : List ℕ
tzx_create_empty = magic

unfoldable pub tzx_append_pause_block : List ℕ → ℕ → List ℕ
tzx_append_pause_block file pause_after_ms = file ++ (0x20 ∷ put_word pause_after_ms [])

unfoldable pub tzx_append_standard_block : List ℕ → List ℕ → ℕ → ℕ → List ℕ
tzx_append_standard_block file buf pause_after_ms sync =
    file
    ++ (0x10
        ∷ put_word pause_after_ms
            (put_word (length buf + 2) (sync ∷ (buf ++ (xor_all sync buf % 256 ∷ [])))))

unfoldable pub tzx_append_turbo_block : List ℕ → List ℕ → TurboBlock → List ℕ
tzx_append_turbo_block file buf turbo =
    file
    ++ (0x11
        ∷ put_word turbo.pilot_pulse_len (
            put_word turbo.first_sync_len (
              put_word turbo.second_sync_len (
                put_word turbo.zero_bit_len (
                  put_word turbo.one_bit_len (
                    put_word turbo.pilot_tone_len (
                      turbo.last_byte_used_bits % 256
                      ∷ put_word turbo.pause_after_ms
                          (put_word (length buf) (length buf / 2 ^ 16 % 256 ∷ buf)))))))))
