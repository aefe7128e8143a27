-- ===== src/Tape/Examples.antt =====
-- Examples of TAPOUT blocks.
use sjasmplus.Common.{
  ℕ, ◌-◌, ◌≡◌, refl, none, some, List, [], ◌∷◌, ◌++◌, take, drop, replicate, length,
  length-replicate, arith,
}
use sjasmplus.Tape.{Output, open_tap_file, write_bytes, close_tap_file, write_dest}
use sjasmplus.Tape.Reader.{read_block}
use sjasmplus.Tape.Block.{block_of}
use sjasmplus.Tape.File.{file_of, read_block-close_tap_file, write_dest-exceeded}

abbrev idle : Output
idle = record { buffer = []; raw = none; tape = none; dest_length = 0; closed = []; exceeded = 0 }

read_block-close_tap_file_example :
    (file : List ℕ) × ((close_tap_file
        (write_bytes (open_tap_file (some (1 ∷ 2 ∷ [])) 255 idle) (7 ∷ 9 ∷ []))).closed
      ≡ file ∷ (close_tap_file idle).closed)
    × (take 2 file ≡ 1 ∷ 2 ∷ [])
    × (read_block (drop 2 file) ≡ some (record { flag = 255; data_bytes = 7 ∷ 9 ∷ []; rest = [] }))
read_block-close_tap_file_example =
    read_block-close_tap_file (1 ∷ 2 ∷ []) (7 ∷ 9 ∷ []) 255 idle (omega arith) (omega arith)

long_block : (bytes : List ℕ) × (length bytes ≡ 65532)
long_block = (replicate 65532 7, length-replicate {A = ℕ} 65532 7)

-- The block holds 65532 bytes, and two are pending.
abbrev nearly_full : Output
nearly_full = record idle { buffer = 5 ∷ 6 ∷ []; tape = some (block_of [] 255 (long_block.0)) }

write_dest-exceeded_example :
    let bytes = long_block.0 ++ take (65533 - length (long_block.0)) (5 ∷ 6 ∷ []) in
    ((write_dest nearly_full).tape ≡ none)
    × ((write_dest nearly_full).exceeded ≡ 1)
    × ((write_dest nearly_full).closed ≡ file_of [] 255 bytes ∷ [])
    × (read_block (drop 0 (file_of [] 255 bytes))
        ≡ some (record { flag = 255; data_bytes = bytes; rest = [] }))
write_dest-exceeded_example =
    write_dest-exceeded [] (long_block.0) 255 nearly_full refl (omega (arith, long_block.1))
      (omega (arith, long_block.1))
