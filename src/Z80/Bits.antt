-- ===== src/Z80/Bits.antt =====
-- The instructions of sjasm/z80.cpp with the prefix CB, and INC and DEC: the bytes of one argument.
use sjasmplus.Common.{
  ℕ, ◌+◌, ◌*◌, ◌%◌, ◌^◌, Bool, true, false, not, ◌||◌, List, [], ◌∷◌, if◌then◌else◌, leb, ◌==◌,
}
use sjasmplus.Reader.Words.{comma}
use sjasmplus.Z80.{
  Z80Reg, reg_b, reg_c, reg_d, reg_e, reg_h, reg_l, mem_hl, reg_a, reg_bc, reg_de, reg_hl, reg_sp,
  reg_ix, reg_iy, mem_ix, mem_iy, reg_ixh, reg_ixl, reg_iyh, reg_iyl, reg_value, Cpu,
  illegal_destination, Line, at_text, report,
}
use sjasmplus.Z80.Operands.{get_byte_no_mem}
use sjasmplus.Z80.Registers.{get_register}
use sjasmplus.Z80.Alu.{Encoded, no_code}

-- The registers that an instruction names in three bits, without (HL).
abbrev pub is_plain_register : Z80Reg → Bool
is_plain_register reg_b = true
is_plain_register reg_c = true
is_plain_register reg_d = true
is_plain_register reg_e = true
is_plain_register reg_h = true
is_plain_register reg_l = true
is_plain_register reg_a = true
is_plain_register r = false

abbrev pub is_index_memory : Z80Reg → Bool
is_index_memory mem_ix = true
is_index_memory mem_iy = true
is_index_memory r = false

abbrev pub is_mem_hl : Z80Reg → Bool
is_mem_hl mem_hl = true
is_mem_hl r = false

-- What OpCode_CbFamily returns: the register, `reg_a` where the argument is finished, and the code.
pub record CbResult : Type 0 where
  pub register : Z80Reg
  pub encoded : Encoded

abbrev pub index_bytes : ℕ → Z80Reg → ℕ → List ℕ
index_bytes last r d = reg_value r % 2 ^ 8 ∷ 0xcb ∷ d ∷ last ∷ []

-- The destination register behind the comma.
abbrev pub with_destination : ℕ → Z80Reg → ℕ → Z80Reg × Line → Encoded
with_destination opcode r d (dst, l) =
    if is_plain_register dst
    then record { bytes = index_bytes (opcode + reg_value dst) r d; line = l }
    else record { bytes = index_bytes (opcode + 6) r d; line = report illegal_destination l }

abbrev pub indexed_bits : Cpu → ℕ → Bool → Z80Reg → Line → Encoded
indexed_bits cpu opcode can_have_dst r l =
    let n = comma l.text in
    let d = l.last_ixy_d in
    if not can_have_dst
    then record { bytes = index_bytes (opcode + 6) r d; line = l }
    else if n.oper == 0
    then record { bytes = index_bytes (opcode + 6) r d; line = at_text n.rest l }
    else with_destination opcode r d (get_register cpu (at_text n.rest l))

abbrev pub bits_of : Cpu → ℕ → Bool → Z80Reg × Line → CbResult
bits_of cpu opcode can_have_dst (r, l) =
    if is_plain_register r || is_mem_hl r
    then record {
      register = reg_a;
      encoded = record { bytes = 0xcb ∷ (opcode + reg_value r) ∷ []; line = l };
    }
    else if is_index_memory r
    then record { register = reg_a; encoded = indexed_bits cpu opcode can_have_dst r l }
    else record { register = r; encoded = no_code l }

-- OpCode_CbFamily.
unfoldable pub opcode_cb_family : Cpu → ℕ → Bool → Line → CbResult
opcode_cb_family cpu opcode can_have_dst l = bits_of cpu opcode can_have_dst (get_register cpu l)

-- `bit, argument` of BIT, RES and SET, whose opcodes start at `base`.
abbrev pub numbered_bit : Cpu → ℕ → Bool → ℕ × Line → Encoded
numbered_bit cpu base can_have_dst (bit, l) =
    let n = comma l.text in
    let l' = at_text n.rest l in
    if n.oper == 0
    then no_code l'
    else if leb bit 7
    then (opcode_cb_family cpu (8 * bit + base) can_have_dst l').encoded
    else no_code l'

unfoldable pub opcode_bit : Cpu → Line → Encoded
opcode_bit cpu l = numbered_bit cpu 0x40 false (get_byte_no_mem cpu false l)

unfoldable pub opcode_res : Cpu → Line → Encoded
opcode_res cpu l = numbered_bit cpu 0x80 true (get_byte_no_mem cpu false l)

unfoldable pub opcode_set : Cpu → Line → Encoded
opcode_set cpu l = numbered_bit cpu 0xc0 true (get_byte_no_mem cpu false l)

unfoldable pub opcode_rlc : Cpu → Line → Encoded
opcode_rlc cpu l = (opcode_cb_family cpu 0x00 true l).encoded

unfoldable pub opcode_rrc : Cpu → Line → Encoded
opcode_rrc cpu l = (opcode_cb_family cpu 0x08 true l).encoded

-- OpCode_DecInc on a register: the bytes, with the displacement of (IX+d) and (IY+d).
abbrev pub dec_inc_bytes : ℕ → ℕ → ℕ → Z80Reg → List ℕ
dec_inc_bytes base8 base16 d mem_ix = 0xdd ∷ (base8 + 8 * 6) ∷ d ∷ []
dec_inc_bytes base8 base16 d mem_iy = 0xfd ∷ (base8 + 8 * 6) ∷ d ∷ []
dec_inc_bytes base8 base16 d reg_ixh = 0xdd ∷ (base8 + 8 * 4) ∷ []
dec_inc_bytes base8 base16 d reg_ixl = 0xdd ∷ (base8 + 8 * 5) ∷ []
dec_inc_bytes base8 base16 d reg_iyh = 0xfd ∷ (base8 + 8 * 4) ∷ []
dec_inc_bytes base8 base16 d reg_iyl = 0xfd ∷ (base8 + 8 * 5) ∷ []
dec_inc_bytes base8 base16 d reg_b = (base8 + 8 * 0) ∷ []
dec_inc_bytes base8 base16 d reg_c = (base8 + 8 * 1) ∷ []
dec_inc_bytes base8 base16 d reg_d = (base8 + 8 * 2) ∷ []
dec_inc_bytes base8 base16 d reg_e = (base8 + 8 * 3) ∷ []
dec_inc_bytes base8 base16 d reg_h = (base8 + 8 * 4) ∷ []
dec_inc_bytes base8 base16 d reg_l = (base8 + 8 * 5) ∷ []
dec_inc_bytes base8 base16 d mem_hl = (base8 + 8 * 6) ∷ []
dec_inc_bytes base8 base16 d reg_a = (base8 + 8 * 7) ∷ []
dec_inc_bytes base8 base16 d reg_ix = 0xdd ∷ (base16 + 0x20) ∷ []
dec_inc_bytes base8 base16 d reg_iy = 0xfd ∷ (base16 + 0x20) ∷ []
dec_inc_bytes base8 base16 d reg_bc = (base16 + 0x00) ∷ []
dec_inc_bytes base8 base16 d reg_de = (base16 + 0x10) ∷ []
dec_inc_bytes base8 base16 d reg_hl = (base16 + 0x20) ∷ []
dec_inc_bytes base8 base16 d reg_sp = (base16 + 0x30) ∷ []
dec_inc_bytes base8 base16 d r = []

abbrev pub dec_inc_of : ℕ → ℕ → Z80Reg × Line → Encoded
dec_inc_of base8 base16 (r, l) = record {
  bytes = dec_inc_bytes base8 base16 l.last_ixy_d r;
  line = l;
}

unfoldable pub opcode_dec_inc : Cpu → ℕ → ℕ → Line → Encoded
opcode_dec_inc cpu base8 base16 l = dec_inc_of base8 base16 (get_register cpu l)

unfoldable pub opcode_dec : Cpu → Line → Encoded
opcode_dec cpu = opcode_dec_inc cpu 0x05 0x0b

unfoldable pub opcode_inc : Cpu → Line → Encoded
opcode_inc cpu = opcode_dec_inc cpu 0x04 0x03
