-- ===== src/Tape.antt =====
-- The output buffer and the TAPOUT blocks of sjasm/sjio.cpp: WriteDest, CloseTapFile, OpenTapFile and
-- the buffering part of EmitByteNoListing.
pub mod Reader
pub mod Block
pub mod File
mod Examples
use sjasmplus.Common.{
  ℕ, zero, suc, ◌+◌, ◌-◌, ◌/◌, ◌%◌, ◌^◌, Bool, true, false, Option, none, some, List, [], ◌∷◌, ◌++◌,
  if◌then◌else◌, ltb, ◌==◌, bit_xor, length, take, drop,
}

abbrev pub dest_buf_len : ℕ
dest_buf_len = 8192

-- An open TAPOUT file with tape_seek, tape_parity and tape_length; `content` is what stands in it.
pub record Tape : Type 0 where
  pub content : List ℕ
  pub seek : ℕ
  pub parity : ℕ
  pub block_length : ℕ

-- WriteBuffer with WBLength, the file of `--raw` or OUTPUT if one is open, FP_tapout, destlen, the TAPOUT
-- files that were closed (the last one first), and how often a block exceeded the maximal size.
pub record Output : Type 0 where
  pub buffer : List ℕ
  pub raw : Option (List ℕ)
  pub tape : Option Tape
  pub dest_length : ℕ
  pub closed : List (List ℕ)
  pub exceeded : ℕ

-- fwrite after fseek to `at`: bytes that stand in the file are replaced.
abbrev pub write_at : ℕ → List ℕ → List ℕ → List ℕ
write_at at bytes content = take at content ++ (bytes ++ drop (at + length bytes) content)

-- `tape_parity ^= byte` over the bytes of a write.
unfoldable pub xor_all : ℕ → List ℕ → ℕ
xor_all parity [] = parity
xor_all parity (b ∷ bytes) = xor_all (bit_xor parity b) bytes

-- The part of CloseTapFile behind its WriteDest: parity behind the data, then the length in front.
unfoldable pub finish_tap : Output → Output
finish_tap o = elim o.tape [
  | none ↦ o
  | some t ↦ record o {
    tape = none;
    dest_length = 0;
    closed =
        write_at t.seek (t.block_length % 256 ∷ t.block_length / 2 ^ 8 % 256 ∷ [])
          (t.content ++ (t.parity % 256 ∷ []))
        ∷ o.closed;
  }
]

abbrev pub append_tape : List ℕ → Tape → Tape
append_tape bytes t = record t {
  content = t.content ++ bytes;
  parity = xor_all t.parity bytes;
  block_length = t.block_length + length bytes;
}

-- A write of the buffer to the tape; what is behind 65535 bytes of a block is dropped.
unfoldable pub write_tape : Tape → Output → Output
write_tape t o =
    if ltb 65535 (t.block_length + length o.buffer)
    then record (finish_tap (record o {
      buffer = [];
      tape = some (append_tape (take (65535 - t.block_length) o.buffer) t);
    })) { exceeded = suc o.exceeded }
    else record o { buffer = []; tape = some (append_tape o.buffer t) }

abbrev pub write_raw : List ℕ → Option (List ℕ) → Option (List ℕ)
write_raw bytes none = none
write_raw bytes (some content) = some (content ++ bytes)

unfoldable pub write_full : Output → Output
write_full o =
    let o' = record o {
      dest_length = o.dest_length + length o.buffer;
      raw = write_raw o.buffer o.raw;
    } in
    elim o.tape [ none ↦ record o' { buffer = [] } | some t ↦ write_tape t o' ]

unfoldable pub write_dest : Output → Output
write_dest o = if length o.buffer == 0 then o else write_full o

unfoldable pub close_tap_file : Output → Output
close_tap_file o = finish_tap (write_dest o)

-- `on_disk` is the file that is opened, `none` if that fails.
unfoldable pub open_tap_file : Option (List ℕ) → ℕ → Output → Output
open_tap_file on_disk flag o =
    let o' = close_tap_file o in
    elim on_disk [
      | none ↦ o'
      | some content ↦ record o' {
        tape = some (record {
          content = content ++ (0 ∷ 0 ∷ flag % 256 ∷ []);
          seek = length content;
          parity = flag;
          block_length = 2;
        });
        dest_length = 0;
      }
    ]

-- A byte of the last pass.
unfoldable pub write_byte : Output → ℕ → Output
write_byte o byte =
    let o' = record o { buffer = o.buffer ++ (byte ∷ []) } in
    if length o'.buffer == dest_buf_len then write_dest o' else o'

unfoldable pub write_bytes : Output → List ℕ → Output
write_bytes o [] = o
write_bytes o (b ∷ bytes) = write_bytes (write_byte o b) bytes
