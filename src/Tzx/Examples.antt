-- ===== src/Tzx/Examples.antt =====
-- Examples of TZX files.
use sjasmplus.Common.{◌≡◌, some, List, [], ◌∷◌, arith}
use sjasmplus.Tzx.{TurboBlock, tzx_create_empty}
use sjasmplus.Tzx.Reader.{TzxBlock, pause, standard, turbo, read_tzx}
use sjasmplus.Tzx.File.{append_blocks, IsTurbo, read_tzx-append_blocks}

abbrev fast : TurboBlock
fast = record {
  pilot_pulse_len = 2168;
  first_sync_len = 667;
  second_sync_len = 735;
  zero_bit_len = 600;
  one_bit_len = 1200;
  pilot_tone_len = 3223;
  last_byte_used_bits = 8;
  pause_after_ms = 1000;
}

fast-IsTurbo : IsTurbo fast
fast-IsTurbo = record {
  pilot_pulse = omega arith;
  first_sync = omega arith;
  second_sync = omega arith;
  zero_bit = omega arith;
  one_bit = omega arith;
  pilot_tone = omega arith;
  used_bits = omega arith;
  pause_after = omega arith;
}

abbrev three_blocks : List TzxBlock
three_blocks = standard 1000 255 (1 ∷ 2 ∷ 3 ∷ []) ∷ pause 500 ∷ turbo fast (7 ∷ 7 ∷ []) ∷ []

read_tzx-append_blocks_example :
    read_tzx (append_blocks tzx_create_empty three_blocks) ≡ some three_blocks
read_tzx-append_blocks_example =
    read_tzx-append_blocks three_blocks
      ((omega arith, omega arith), (omega arith, ((fast-IsTurbo, omega arith), tt)))
