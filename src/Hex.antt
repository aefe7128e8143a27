-- ===== src/Hex.antt =====
-- sjasm/sjio.cpp, Intel HEX output: WriteHexRecord, FlushHexBuffer, EmitToHex and CloseHex over the
-- buffer (hexBytes, hexCnt, hexAddress) and the text of the output file (FP_HEX).
pub mod Reader
pub mod Line
pub mod Stream
mod Examples
use sjasmplus.Common.{
  ℕ, zero, suc, ◌+◌, ◌-◌, ◌/◌, ◌%◌, ◌^◌, ◌<◌, List, [], ◌∷◌, ◌++◌, if◌then◌else◌, ltb, ◌==◌, length,
}
use sjasmplus.Common.Int.{ℤ, pos, negsuc}
use mathlib.Core.List.{foldl}

-- A text is the list of its character codes, a buffer the list of its bytes.
abbrev pub hex_record_max : ℕ
hex_record_max = 16

abbrev pub newline : ℕ
newline = 10

-- The digits of printf's "%X".
unfoldable pub hex_digit : ℕ → ℕ
hex_digit d = if ltb d 10 then d + 48 else d + 55

-- `nibbles` digits of `value & mask`, the most significant first.
unfoldable pub print_hex : ℕ → ℕ → List ℕ
print_hex zero value = []
print_hex (suc nibbles) value = print_hex nibbles (value / 16) ++ (hex_digit (value % 16) ∷ [])

-- `crc -= byte` on uint8_t.
abbrev pub sub8 : ℕ → ℕ → ℕ
sub8 crc byte = (crc + 256 - byte) % 256

pub print_bytes : List ℕ → List ℕ
print_bytes [] = []
print_bytes (b ∷ bs) = print_hex 2 b ++ print_bytes bs

-- uint8_t crc = -length - ((address >> 8) & 255) - (address & 255) - block_type; crc -= data[i]
pub checksum : ℕ → ℕ → ℕ → List ℕ → ℕ
checksum block_type address length data_bytes =
    foldl sub8 (sub8 (sub8 (sub8 (sub8 0 length) (address / 256 % 256)) (address % 256)) block_type)
      data_bytes

-- The text of one record; `address` is cut to uint16_t by the call.
pub write_hex_record : ℕ → ℕ → List ℕ → List ℕ
write_hex_record block_type address bytes =
    let adr = address % 2 ^ 16 in
    b':'
    ∷ (print_hex 2 (length bytes)
        ++ (print_hex 4 adr
            ++ (print_hex 2 block_type
                ++ (print_bytes bytes
                    ++ (print_hex 2 (checksum block_type adr (length bytes) bytes)
                        ++ (newline ∷ []))))))

pub record HexOut : Type 0 where
  pub address : ℕ
  pub bytes : List ℕ
  pub file : List ℕ

-- OpenHex on a file that could be opened: an empty buffer and an empty file. hexAddress is kept.
pub open_hex : ℕ → HexOut
open_hex old_address = record { address = old_address; bytes = []; file = [] }

pub flush_hex_buffer : HexOut → HexOut
flush_hex_buffer h =
    if length h.bytes == 0
    then h
    else record h { bytes = []; file = h.file ++ write_hex_record 0 h.address h.bytes }

-- `if (hexAddress + hexCnt != CurAddress) FlushHexBuffer();`
pub follow_address : ℕ → HexOut → HexOut
follow_address cur_address h =
    if h.address + length h.bytes == cur_address then h else flush_hex_buffer h

-- `if (0 == hexCnt) hexAddress = CurAddress; hexBytes[hexCnt++] = mc;`
pub put_byte : ℕ → ℕ → HexOut → HexOut
put_byte cur_address mc h = record h {
  address = if length h.bytes == 0 then cur_address else h.address;
  bytes = h.bytes ++ (mc ∷ []);
}

pub emit_to_hex : ℕ → ℕ → HexOut → HexOut
emit_to_hex cur_address mc h =
    let h' = put_byte cur_address mc (follow_address cur_address h) in
    if hex_record_max == length h'.bytes then flush_hex_buffer h' else h'

-- The machine code bytes of a run, each with its CurAddress.
pub emit_all : List (ℕ × ℕ) → HexOut → HexOut
emit_all [] h = h
emit_all ((adr, mc) ∷ rest) h = emit_all rest (emit_to_hex adr mc h)

-- The bytes of the start address, the most significant first.
abbrev pub start_bytes : ℕ → List ℕ
start_bytes start =
    start / 2 ^ 24 % 256 ∷ start / 2 ^ 16 % 256 ∷ start / 2 ^ 8 % 256 ∷ start % 256 ∷ []

-- The start address record of CloseHex, if `0 <= start`.
pub start_record : ℤ → List ℕ
start_record (pos start) = write_hex_record 3 0 (start_bytes start)
start_record (negsuc n) = []

-- The finished file.
pub close_hex : ℤ → HexOut → List ℕ
close_hex start h = (flush_hex_buffer h).file ++ (start_record start ++ write_hex_record 1 0 [])
