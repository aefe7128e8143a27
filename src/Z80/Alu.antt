-- ===== src/Z80/Alu.antt =====
-- Instructions of sjasm/z80.cpp with one 8-bit operand: the bytes of one argument, as the loops over the
-- arguments of a line emit them. No bytes are an illegal instruction.
use sjasmplus.Common.{
  ℕ, ◌+◌, ◌/◌, ◌%◌, ◌^◌, Bool, true, false, not, some, List, [], ◌∷◌, if◌then◌else◌, ◌==◌,
}
use sjasmplus.Reader.Words.{comma, non_ma_comma}
use sjasmplus.Relocation.{high, resolve_relocation_affected}
use sjasmplus.Expression.{State}
use sjasmplus.Expression.Parse.{is_inside_relocate}
use sjasmplus.Z80.{
  Z80Reg, reg_b, reg_c, reg_d, reg_e, reg_h, reg_l, mem_hl, reg_a, reg_i, reg_r, reg_f, reg_bc,
  reg_de, reg_hl, reg_sp, reg_af, mem_hl_i, mem_hl_d, reg_ix, reg_iy, mem_ix, mem_iy, reg_ixh,
  reg_ixl, reg_iyh, reg_iyl, reg_unk, reg_value, Cpu, Line, at_text,
}
use sjasmplus.Z80.Operands.{get_byte_no_mem}
use sjasmplus.Z80.Registers.{get_register}

-- The bytes of the array `e` before its end marker, and the line.
pub record Encoded : Type 0 where
  pub bytes : List ℕ
  pub line : Line

-- The address of the instruction for the relocation.
abbrev pub instruction_address : State → ℕ
instruction_address s = if is_inside_relocate s.pseudo_org then s.adrdisp else s.cur_address

-- `resolveRelocationAndSmartSmc(offset, Relocation::HIGH)` without the smart SMC labels.
abbrev pub resolve_high : ℕ → Line → Line
resolve_high offset l = record l {
  state = record l.state {
    relocation =
        resolve_relocation_affected (some offset) high (instruction_address l.state)
          l.state.relocation;
  };
}

-- A register with an index prefix: the prefix, the opcode with the inner register, and the displacement.
abbrev pub prefixed : ℕ → Z80Reg → List ℕ → List ℕ
prefixed opcode r displacement = reg_value r % 2 ^ 8 ∷ (opcode + reg_value r / 2 ^ 8) ∷ displacement

abbrev pub immediate : ℕ → ℕ × Line → Encoded
immediate opcode (v, l) = record { bytes = (opcode + 0x46) ∷ v ∷ []; line = resolve_high 1 l }

-- The machine code of an argument of an ALU instruction.
unfoldable pub alu_argument : Cpu → ℕ → Z80Reg × Line → Encoded
alu_argument cpu opcode (reg_ixh, l) = record { bytes = prefixed opcode reg_ixh []; line = l }
alu_argument cpu opcode (reg_ixl, l) = record { bytes = prefixed opcode reg_ixl []; line = l }
alu_argument cpu opcode (reg_iyh, l) = record { bytes = prefixed opcode reg_iyh []; line = l }
alu_argument cpu opcode (reg_iyl, l) = record { bytes = prefixed opcode reg_iyl []; line = l }
alu_argument cpu opcode (mem_ix, l) = record {
  bytes = prefixed opcode mem_ix (l.last_ixy_d ∷ []);
  line = l;
}
alu_argument cpu opcode (mem_iy, l) = record {
  bytes = prefixed opcode mem_iy (l.last_ixy_d ∷ []);
  line = l;
}
alu_argument cpu opcode (reg_b, l) = record { bytes = (opcode + 0) ∷ []; line = l }
alu_argument cpu opcode (reg_c, l) = record { bytes = (opcode + 1) ∷ []; line = l }
alu_argument cpu opcode (reg_d, l) = record { bytes = (opcode + 2) ∷ []; line = l }
alu_argument cpu opcode (reg_e, l) = record { bytes = (opcode + 3) ∷ []; line = l }
alu_argument cpu opcode (reg_h, l) = record { bytes = (opcode + 4) ∷ []; line = l }
alu_argument cpu opcode (reg_l, l) = record { bytes = (opcode + 5) ∷ []; line = l }
alu_argument cpu opcode (mem_hl, l) = record { bytes = (opcode + 6) ∷ []; line = l }
alu_argument cpu opcode (reg_a, l) = record { bytes = (opcode + 7) ∷ []; line = l }
alu_argument cpu opcode (reg_unk, l) = immediate opcode (get_byte_no_mem cpu false l)
alu_argument cpu opcode (r, l) = record { bytes = []; line = l }

-- The result of CommonAluOpcode is false for an argument that the caller reads again.
pub record Alu : Type 0 where
  pub is_done : Bool
  pub encoded : Encoded

abbrev pub done : Encoded → Alu
done e = record { is_done = true; encoded = e }

abbrev pub no_code : Line → Encoded
no_code l = record { bytes = []; line = l }

-- An argument that only some instructions have, from the text `old` on.
abbrev pub maybe_again : Bool → List ℕ → Line → Alu
maybe_again again old l = record {
  is_done = not again;
  encoded = no_code (if again then at_text old l else l);
}

-- `a`, which another argument may follow behind a comma.
unfoldable pub after_a : Cpu → ℕ → Bool → Line → Alu
after_a cpu opcode non_multi_arg_comma l =
    let n = if non_multi_arg_comma then non_ma_comma cpu.plain_comma l.text else comma l.text in
    if n.oper == 0
    then done (alu_argument cpu opcode (reg_a, at_text n.rest l))
    else done (alu_argument cpu opcode (get_register cpu (at_text n.rest l)))

-- The first switch of CommonAluOpcode.
unfoldable pub first_argument : Cpu → ℕ → Bool → Bool → List ℕ → Z80Reg × Line → Alu
first_argument cpu opcode has_non_reg_a non_multi old (reg_bc, l) = maybe_again has_non_reg_a old l
first_argument cpu opcode has_non_reg_a non_multi old (reg_de, l) = maybe_again has_non_reg_a old l
first_argument cpu opcode has_non_reg_a non_multi old (reg_hl, l) = maybe_again has_non_reg_a old l
first_argument cpu opcode has_non_reg_a non_multi old (reg_ix, l) = maybe_again has_non_reg_a old l
first_argument cpu opcode has_non_reg_a non_multi old (reg_iy, l) = maybe_again has_non_reg_a old l
first_argument cpu opcode has_non_reg_a non_multi old (reg_sp, l) = maybe_again cpu.is_lr35902 old l
first_argument cpu opcode has_non_reg_a non_multi old (reg_af, l) = done (no_code l)
first_argument cpu opcode has_non_reg_a non_multi old (reg_i, l) = done (no_code l)
first_argument cpu opcode has_non_reg_a non_multi old (reg_r, l) = done (no_code l)
first_argument cpu opcode has_non_reg_a non_multi old (reg_f, l) = done (no_code l)
first_argument cpu opcode has_non_reg_a non_multi old (mem_hl_i, l) = done (no_code l)
first_argument cpu opcode has_non_reg_a non_multi old (mem_hl_d, l) = done (no_code l)
first_argument cpu opcode has_non_reg_a non_multi old (reg_a, l) = after_a cpu opcode non_multi l
first_argument cpu opcode has_non_reg_a non_multi old (r, l) = done (alu_argument cpu opcode (r, l))

-- CommonAluOpcode.
unfoldable pub common_alu_opcode : Cpu → ℕ → Bool → Bool → Line → Alu
common_alu_opcode cpu opcode has_non_reg_a non_multi l =
    first_argument cpu opcode has_non_reg_a non_multi l.text (get_register cpu l)

-- One argument of AND, XOR, OR and CP.
unfoldable pub simple_alu : Cpu → ℕ → Line → Encoded
simple_alu cpu opcode l = (common_alu_opcode cpu opcode false true l).encoded

unfoldable pub opcode_and : Cpu → Line → Encoded
opcode_and cpu = simple_alu cpu 0xa0

unfoldable pub opcode_xor : Cpu → Line → Encoded
opcode_xor cpu = simple_alu cpu 0xa8

unfoldable pub opcode_or : Cpu → Line → Encoded
opcode_or cpu = simple_alu cpu 0xb0

unfoldable pub opcode_cp : Cpu → Line → Encoded
opcode_cp cpu = simple_alu cpu 0xb8
