-- ===== src/Z80.antt =====
-- The instruction encoder of sjasm/z80.cpp: registers, conditions, and the state that it reads and changes.
pub mod Registers
pub mod Operands
pub mod Addresses
pub mod Alu
pub mod Bits
pub mod Decoder
pub mod Printed
mod Fuel
mod Examples
use sjasmplus.Common.{ℕ, ◌+◌, ◌-◌, ◌*◌, ◌^◌, Bool, List, [], ◌∷◌, ◌++◌, Option}
use sjasmplus.Reader.Outcome.{Message}
use sjasmplus.Expression.{State}

-- Z80Reg.
pub data Z80Reg : Type 0 where
  reg_b reg_c reg_d reg_e reg_h reg_l mem_hl reg_a reg_i reg_r reg_f reg_bc reg_de reg_hl reg_sp
        reg_af mem_hl_i mem_hl_d reg_ix reg_iy mem_ix mem_iy reg_ixh reg_ixl reg_iyh reg_iyl
        reg_unk :
      Z80Reg

-- The values of the enumeration; -1 is a 32-bit pattern.
abbrev pub reg_value : Z80Reg → ℕ
reg_value reg_b = 0
reg_value reg_c = 1
reg_value reg_d = 2
reg_value reg_e = 3
reg_value reg_h = 4
reg_value reg_l = 5
reg_value mem_hl = 6
reg_value reg_a = 7
reg_value reg_i = 8
reg_value reg_r = 9
reg_value reg_f = 10
reg_value reg_bc = 0x10
reg_value reg_de = 0x20
reg_value reg_hl = 0x30
reg_value reg_sp = 0x40
reg_value reg_af = 0x50
reg_value mem_hl_i = 0x22
reg_value mem_hl_d = 0x32
reg_value reg_ix = 0xdd
reg_value reg_iy = 0xfd
reg_value mem_ix = 0xdd + 6 * 2 ^ 8
reg_value mem_iy = 0xfd + 6 * 2 ^ 8
reg_value reg_ixh = 0xdd + 4 * 2 ^ 8
reg_value reg_ixl = 0xdd + 5 * 2 ^ 8
reg_value reg_iyh = 0xfd + 4 * 2 ^ 8
reg_value reg_iyl = 0xfd + 5 * 2 ^ 8
reg_value reg_unk = 2 ^ 32 - 1

-- Z80Cond, with the values that opcodes are computed from.
pub data Z80Cond : Type 0 where
  cond_nz cond_z cond_nc cond_c cond_po cond_pe cond_p cond_m cond_unk : Z80Cond

abbrev pub cond_value : Z80Cond → ℕ
cond_value cond_nz = 0x00
cond_value cond_z = 0x08
cond_value cond_nc = 0x10
cond_value cond_c = 0x18
cond_value cond_po = 0x20
cond_value cond_pe = 0x28
cond_value cond_p = 0x30
cond_value cond_m = 0x38
cond_value cond_unk = 0x39

-- The options that the encoder reads; `plain_comma` is isMultiArgPlainComma.
pub record Cpu : Type 0 where
  pub is_i8080 : Bool
  pub is_lr35902 : Bool
  pub case_insensitive : Bool
  pub m_is_memory : Bool
  pub memory_brackets : ℕ
  pub plain_comma : Bool

-- What the encoder reports.
pub data Z80Message : Type 0 where
  in_expression : List Message → Z80Message
  operand_expected cannot_access_memory illegal_destination square_brackets_expected : Z80Message
  offset_out_of_range byte_truncated word_truncated : ℕ → Z80Message

-- The state: `text` is the line from `lp` on, and `state` holds what expressions read, with the
-- relocation. `last_displacement` is the length of the text from lastDisplacementParsedP on.
pub record Line : Type 0 where
  pub text : List ℕ
  pub state : State
  pub last_displacement : Option ℕ
  pub last_ixy_d : ℕ
  pub reports : List Z80Message

abbrev pub at_text : List ℕ → Line → Line
at_text p l = record l { text = p }

abbrev pub report : Z80Message → Line → Line
report m l = record l { reports = l.reports ++ (m ∷ []) }
