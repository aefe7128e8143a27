-- ===== src/Z80/Printed/Alu.antt =====
-- The ALU instructions of sjasm/z80.cpp against the decoder.
use sjasmplus.Common.{
  ℕ, ◌+◌, ◌*◌, ◌/◌, ◌%◌, ◌<◌, ◌≡◌, refl, sym, ap, ◌∙◌, subst, Bool, true, false, ◌||◌, Option, none,
  some, List, [], ◌∷◌, ◌++◌, ◌==◌, arith,
}
use sjasmplus.Reader.Chars.{head, white, skip_blanks}
use sjasmplus.Reader.Words.{islabchar, comma, non_ma_comma}
use sjasmplus.Z80.{
  Z80Reg, reg_b, reg_c, reg_d, reg_e, reg_h, reg_l, mem_hl, reg_a, reg_i, reg_r, reg_f, reg_bc,
  reg_de, reg_hl, reg_sp, reg_af, mem_hl_i, mem_hl_d, reg_ix, reg_iy, mem_ix, mem_iy, reg_ixh,
  reg_ixl, reg_iyh, reg_iyl, reg_unk, Cpu, Line, at_text,
}
use sjasmplus.Z80.Alu.{Alu, alu_argument, done, after_a, first_argument, common_alu_opcode}
use sjasmplus.Z80.Decoder.{Target, plain, half, alu, operation, decode, plain_target}
use sjasmplus.Z80.Printed.{z80_cpu, register_text, has_name, cased, get_register-register_text}

-- The operands in a register or at (hl), with what the machine code says for them.
abbrev pub target_of : Z80Reg → Option Target
target_of reg_b = some (plain 0)
target_of reg_c = some (plain 1)
target_of reg_d = some (plain 2)
target_of reg_e = some (plain 3)
target_of reg_h = some (plain 4)
target_of reg_l = some (plain 5)
target_of mem_hl = some (plain 6)
target_of reg_a = some (plain 7)
target_of reg_ixh = some (half 0xdd 4)
target_of reg_ixl = some (half 0xdd 5)
target_of reg_iyh = some (half 0xfd 4)
target_of reg_iyl = some (half 0xfd 5)
target_of r = none

-- What may follow an operand: no character of a name, no blank and no comma.
pub record EndsOperand (p : List ℕ) : Type 0 where
  pub no_name : islabchar (head p) ≡ false
  pub no_blank : white (head p) ≡ false
  pub no_comma : (head p == b',') ≡ false

pub operation-alu : (y n : ℕ) → y < 8 → n < 8 → operation (0x80 + 8 * y + n) ≡ some (alu y, n)
unfolding operation
operation-alu y n hy hn =
    let x : (0x80 + 8 * y + n) / 64 ≡ 2 = omega (arith, hy, hn) in
    let yf : (0x80 + 8 * y + n) / 8 % 8 ≡ y = omega (arith, hy, hn) in
    let zf : (0x80 + 8 * y + n) % 8 ≡ n = omega (arith, hy, hn) in rw (x, yf, zf) refl

skip_blanks-same : (p : List ℕ) → white (head p) ≡ false → skip_blanks p ≡ p
unfolding skip_blanks
skip_blanks-same [] h = refl
skip_blanks-same (c ∷ p) h = rw h refl

pub target_of-has_name : (r : Z80Reg) (t : Target) → target_of r ≡ some t → has_name r ≡ true
target_of-has_name reg_b t e = refl
target_of-has_name reg_c t e = refl
target_of-has_name reg_d t e = refl
target_of-has_name reg_e t e = refl
target_of-has_name reg_h t e = refl
target_of-has_name reg_l t e = refl
target_of-has_name mem_hl t e = refl
target_of-has_name reg_a t e = refl
target_of-has_name reg_ixh t e = refl
target_of-has_name reg_ixl t e = refl
target_of-has_name reg_iyh t e = refl
target_of-has_name reg_iyl t e = refl
target_of-has_name reg_i t e = refl
target_of-has_name reg_r t e = refl
target_of-has_name reg_f t e = refl
target_of-has_name reg_bc t e = refl
target_of-has_name reg_de t e = refl
target_of-has_name reg_hl t e = refl
target_of-has_name reg_sp t e = refl
target_of-has_name reg_af t e = refl
target_of-has_name reg_ix t e = refl
target_of-has_name reg_iy t e = refl
target_of-has_name mem_hl_i t e = cc e
target_of-has_name mem_hl_d t e = cc e
target_of-has_name mem_ix t e = cc e
target_of-has_name mem_iy t e = cc e
target_of-has_name reg_unk t e = cc e

comma-none : (p : List ℕ) → EndsOperand p → comma p ≡ record { oper = 0; rest = p }
unfolding comma
comma-none p e = rw (comma, skip_blanks-same p e.no_blank, e.no_comma) refl

module _ (m multi : Bool) (y : ℕ) (small : y < 8) (l : Line) where
  -- An argument that is finished, as code for the operation `y` on the target.
  abbrev pub IsCode : List ℕ → Target → Alu → Type 0
  IsCode rest t a =
      (a.is_done ≡ true)
      × (decode a.encoded.bytes ≡ some (alu y, t))
      × (a.encoded.line ≡ at_text rest l)

  plain_code : (n : ℕ) → n < 8 → decode ((0x80 + 8 * y + n) ∷ []) ≡ some (alu y, plain n)
  unfolding decode
  plain_code n h = ap plain_target (operation-alu y n small h)

  half_code :
      (prefix n : ℕ)
      → (prefix == 0xdd || prefix == 0xfd) ≡ true
      → (n == 4 || n == 5) ≡ true
      → n < 8
      → decode (prefix ∷ (0x80 + 8 * y + n) ∷ []) ≡ some (alu y, half prefix n)
  unfolding decode
  half_code prefix n hp hn h = rw (hp, operation-alu y n small h, hn) refl

  coded :
      (rest bytes : List ℕ) {t : Target} (t' : Target)
      → some t' ≡ some t
      → decode bytes ≡ some (alu y, t')
      → IsCode rest t (done (record { bytes = bytes; line = at_text rest l }))
  coded rest bytes t' e h = (refl, h ∙ ap (λ x. some (alu y, x)) (cc e), refl)

  -- The code of an argument that is a register or (hl).
  alu_argument-IsCode :
      (cpu : Cpu) (rest : List ℕ) (r : Z80Reg) (t : Target)
      → target_of r ≡ some t
      → IsCode rest t (done (alu_argument cpu (0x80 + 8 * y) (r, at_text rest l)))
  unfolding alu_argument
  alu_argument-IsCode cpu rest reg_b t e = coded rest _ (plain 0) e (plain_code 0 (omega arith))
  alu_argument-IsCode cpu rest reg_c t e = coded rest _ (plain 1) e (plain_code 1 (omega arith))
  alu_argument-IsCode cpu rest reg_d t e = coded rest _ (plain 2) e (plain_code 2 (omega arith))
  alu_argument-IsCode cpu rest reg_e t e = coded rest _ (plain 3) e (plain_code 3 (omega arith))
  alu_argument-IsCode cpu rest reg_h t e = coded rest _ (plain 4) e (plain_code 4 (omega arith))
  alu_argument-IsCode cpu rest reg_l t e = coded rest _ (plain 5) e (plain_code 5 (omega arith))
  alu_argument-IsCode cpu rest mem_hl t e = coded rest _ (plain 6) e (plain_code 6 (omega arith))
  alu_argument-IsCode cpu rest reg_a t e = coded rest _ (plain 7) e (plain_code 7 (omega arith))
  alu_argument-IsCode cpu rest reg_ixh t e =
      coded rest _ (half 0xdd 4) e (half_code 0xdd 4 refl refl (omega arith))
  alu_argument-IsCode cpu rest reg_ixl t e =
      coded rest _ (half 0xdd 5) e (half_code 0xdd 5 refl refl (omega arith))
  alu_argument-IsCode cpu rest reg_iyh t e =
      coded rest _ (half 0xfd 4) e (half_code 0xfd 4 refl refl (omega arith))
  alu_argument-IsCode cpu rest reg_iyl t e =
      coded rest _ (half 0xfd 5) e (half_code 0xfd 5 refl refl (omega arith))
  alu_argument-IsCode cpu rest reg_i t e = cc e
  alu_argument-IsCode cpu rest reg_r t e = cc e
  alu_argument-IsCode cpu rest reg_f t e = cc e
  alu_argument-IsCode cpu rest reg_bc t e = cc e
  alu_argument-IsCode cpu rest reg_de t e = cc e
  alu_argument-IsCode cpu rest reg_hl t e = cc e
  alu_argument-IsCode cpu rest reg_sp t e = cc e
  alu_argument-IsCode cpu rest reg_af t e = cc e
  alu_argument-IsCode cpu rest mem_hl_i t e = cc e
  alu_argument-IsCode cpu rest mem_hl_d t e = cc e
  alu_argument-IsCode cpu rest reg_ix t e = cc e
  alu_argument-IsCode cpu rest reg_iy t e = cc e
  alu_argument-IsCode cpu rest mem_ix t e = cc e
  alu_argument-IsCode cpu rest mem_iy t e = cc e
  alu_argument-IsCode cpu rest reg_unk t e = cc e

  after_a-alu_argument :
      (non_multi : Bool) (rest : List ℕ)
      → EndsOperand rest
      → after_a (z80_cpu m multi) (0x80 + 8 * y) non_multi (at_text rest l)
        ≡ done (alu_argument (z80_cpu m multi) (0x80 + 8 * y) (reg_a, at_text rest l))
  unfolding after_a non_ma_comma
  after_a-alu_argument non_multi rest e = by_case non_multi multi
    where
      no_need : comma rest ≡ record { oper = 0; rest = rest }
      no_need = comma-none rest e

      by_case :
          (b c : Bool)
          → after_a (z80_cpu m c) (0x80 + 8 * y) b (at_text rest l)
            ≡ done (alu_argument (z80_cpu m c) (0x80 + 8 * y) (reg_a, at_text rest l))
      by_case false c = rw no_need refl
      by_case true false = rw no_need refl
      by_case true true = refl

  first_argument-alu_argument :
      (again non_multi : Bool) (old rest : List ℕ) (r : Z80Reg) (t : Target)
      → target_of r ≡ some t
      → EndsOperand rest
      → first_argument (z80_cpu m multi) (0x80 + 8 * y) again non_multi old (r, at_text rest l)
        ≡ done (alu_argument (z80_cpu m multi) (0x80 + 8 * y) (r, at_text rest l))
  unfolding first_argument
  first_argument-alu_argument again non_multi old rest reg_b t e ends = refl
  first_argument-alu_argument again non_multi old rest reg_c t e ends = refl
  first_argument-alu_argument again non_multi old rest reg_d t e ends = refl
  first_argument-alu_argument again non_multi old rest reg_e t e ends = refl
  first_argument-alu_argument again non_multi old rest reg_h t e ends = refl
  first_argument-alu_argument again non_multi old rest reg_l t e ends = refl
  first_argument-alu_argument again non_multi old rest mem_hl t e ends = refl
  first_argument-alu_argument again non_multi old rest reg_ixh t e ends = refl
  first_argument-alu_argument again non_multi old rest reg_ixl t e ends = refl
  first_argument-alu_argument again non_multi old rest reg_iyh t e ends = refl
  first_argument-alu_argument again non_multi old rest reg_iyl t e ends = refl
  first_argument-alu_argument again non_multi old rest reg_a t e ends =
      after_a-alu_argument non_multi rest ends
  first_argument-alu_argument again non_multi old rest reg_i t e ends = cc e
  first_argument-alu_argument again non_multi old rest reg_r t e ends = cc e
  first_argument-alu_argument again non_multi old rest reg_f t e ends = cc e
  first_argument-alu_argument again non_multi old rest reg_bc t e ends = cc e
  first_argument-alu_argument again non_multi old rest reg_de t e ends = cc e
  first_argument-alu_argument again non_multi old rest reg_hl t e ends = cc e
  first_argument-alu_argument again non_multi old rest reg_sp t e ends = cc e
  first_argument-alu_argument again non_multi old rest reg_af t e ends = cc e
  first_argument-alu_argument again non_multi old rest mem_hl_i t e ends = cc e
  first_argument-alu_argument again non_multi old rest mem_hl_d t e ends = cc e
  first_argument-alu_argument again non_multi old rest reg_ix t e ends = cc e
  first_argument-alu_argument again non_multi old rest reg_iy t e ends = cc e
  first_argument-alu_argument again non_multi old rest mem_ix t e ends = cc e
  first_argument-alu_argument again non_multi old rest mem_iy t e ends = cc e
  first_argument-alu_argument again non_multi old rest reg_unk t e ends = cc e

  -- CommonAluOpcode for the operation `y` reads an 8-bit register or (hl), its name in lower or upper case,
  -- in front of a text that starts with no blank, no comma and no character of a name: it is finished, an
  -- independent decoder reads the bytes as this operation on this operand, and the line changes in nothing
  -- but its pointer. The processor is a Z80, names are case-sensitive and brackets of both kinds allowed.
  pub common_alu_opcode-register_text :
      (again non_multi upper : Bool) (r : Z80Reg) (t : Target) (rest : List ℕ)
      → target_of r ≡ some t
      → EndsOperand rest
      → IsCode rest t (
          common_alu_opcode
            (z80_cpu m multi)
            (0x80 + 8 * y)
            again
            non_multi
            (at_text (cased upper (register_text r) ++ rest) l))
  unfolding common_alu_opcode
  common_alu_opcode-register_text again non_multi upper r t rest e ends =
      let text = cased upper (register_text r) ++ rest in
      let read =
        get_register-register_text m multi rest l ends.no_name r (target_of-has_name r t e) upper in
      subst (IsCode rest t)
        (sym (
          ap (first_argument (z80_cpu m multi) (0x80 + 8 * y) again non_multi text) read
          ∙ first_argument-alu_argument again non_multi text rest r t e ends))
        (alu_argument-IsCode (z80_cpu m multi) rest r t e)
