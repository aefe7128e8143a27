-- ===== src/Hex/Examples.antt =====
-- Concrete runs of the HEX writer, and its theorems at concrete inputs.
use sjasmplus.Common.{ℕ, ◌≡◌, refl, some, List, [], ◌∷◌, ◌<◌, length, arith}
use sjasmplus.Common.Int.{pos}
use sjasmplus.Hex.Stream.{load-close_hex, emit_all-small, entry_of}
use sjasmplus.Hex.{
  hex_record_max, open_hex, emit_all, emit_to_hex, follow_address, put_byte, flush_hex_buffer,
  close_hex, start_record, write_hex_record, print_hex, hex_digit, print_bytes, checksum,
}
use sjasmplus.Hex.Reader.{
  load, split_lines, load_lines, read_line, read_bytes, digit_value, block_of_bytes, byte_sum,
  load_block, addressed, big_endian,
}

abbrev two_spots : List (ℕ × ℕ)
two_spots = (0xFFFF, 0x21) ∷ (0x0000, 0x33) ∷ (0x0001, 0xC9) ∷ []

-- Everything that a run of the writer and the reader computes with.
write_all_parts : ℕ
unfolding open_hex emit_all emit_to_hex follow_address put_byte flush_hex_buffer close_hex
    start_record write_hex_record print_hex hex_digit print_bytes checksum
write_all_parts = 0

load_all_parts : ℕ
unfolding load split_lines load_lines read_line read_bytes digit_value block_of_bytes byte_sum
    load_block addressed big_endian
load_all_parts = 0

read_back :
    load (close_hex (pos 0x8000) (emit_all two_spots (open_hex 7)))
    ≡ some (record { content = two_spots; entry = some 0x8000 })
unfolding load_all_parts write_all_parts
read_back = refl

load-close_hex_example :
    load (close_hex (pos 0x8000) (emit_all two_spots (open_hex 7)))
    ≡ some (record { content = two_spots; entry = entry_of (pos 0x8000) })
load-close_hex_example = load-close_hex two_spots (pos 0x8000) 7 (omega arith) (omega arith)

emit_all-small_example : length (emit_all two_spots (open_hex 7)).bytes < hex_record_max
emit_all-small_example = emit_all-small two_spots 7 (omega arith)
