-- ===== src/Z80/Printed/Steps.antt =====
-- INC and DEC of sjasm/z80.cpp against the decoder.
use sjasmplus.Common.{ℕ, ◌≡◌, refl, sym, subst, Bool, false, some, List, ◌++◌}
use sjasmplus.Reader.Chars.{head}
use sjasmplus.Reader.Words.{islabchar}
use sjasmplus.Z80.{
  Z80Reg, reg_b, reg_c, reg_d, reg_e, reg_h, reg_l, mem_hl, reg_a, reg_i, reg_r, reg_f, reg_bc,
  reg_de, reg_hl, reg_sp, reg_af, mem_hl_i, mem_hl_d, reg_ix, reg_iy, mem_ix, mem_iy, reg_ixh,
  reg_ixl, reg_iyh, reg_iyl, reg_unk, Line, at_text,
}
use sjasmplus.Z80.Alu.{Encoded}
use sjasmplus.Z80.Bits.{dec_inc_of, opcode_dec_inc, opcode_dec, opcode_inc}
use sjasmplus.Z80.Decoder.{Target, Operation, increment, decrement, operation, decode}
use sjasmplus.Z80.Printed.{z80_cpu, register_text, cased, get_register-register_text}
use sjasmplus.Z80.Printed.Alu.{target_of, target_of-has_name}

-- Code for one operation on a target, with the line behind the operand.
abbrev pub Encodes : Operation → Target → Line → Encoded → Type 0
Encodes o t l e = (decode e.bytes ≡ some (o, t)) × (e.line ≡ l)

pub of_target : (P : Target → Type 0) (t u : Target) → some u ≡ some t → P u → P t
of_target P t u e h = let same : u ≡ t = cc e in subst P same h

dec_inc_of-Encodes :
    (l : Line) (r : Z80Reg) (t : Target)
    → target_of r ≡ some t
    → Encodes increment t l (dec_inc_of 0x04 0x03 (r, l))
      × Encodes decrement t l (dec_inc_of 0x05 0x0b (r, l))
unfolding decode operation
dec_inc_of-Encodes l reg_b t e =
    of_target
      (λ t.
        Encodes increment t l (dec_inc_of 0x04 0x03 (reg_b, l))
        × Encodes decrement t l (dec_inc_of 0x05 0x0b (reg_b, l)))
      t _ e ((refl, refl), (refl, refl))
dec_inc_of-Encodes l reg_c t e =
    of_target
      (λ t.
        Encodes increment t l (dec_inc_of 0x04 0x03 (reg_c, l))
        × Encodes decrement t l (dec_inc_of 0x05 0x0b (reg_c, l)))
      t _ e ((refl, refl), (refl, refl))
dec_inc_of-Encodes l reg_d t e =
    of_target
      (λ t.
        Encodes increment t l (dec_inc_of 0x04 0x03 (reg_d, l))
        × Encodes decrement t l (dec_inc_of 0x05 0x0b (reg_d, l)))
      t _ e ((refl, refl), (refl, refl))
dec_inc_of-Encodes l reg_e t e =
    of_target
      (λ t.
        Encodes increment t l (dec_inc_of 0x04 0x03 (reg_e, l))
        × Encodes decrement t l (dec_inc_of 0x05 0x0b (reg_e, l)))
      t _ e ((refl, refl), (refl, refl))
dec_inc_of-Encodes l reg_h t e =
    of_target
      (λ t.
        Encodes increment t l (dec_inc_of 0x04 0x03 (reg_h, l))
        × Encodes decrement t l (dec_inc_of 0x05 0x0b (reg_h, l)))
      t _ e ((refl, refl), (refl, refl))
dec_inc_of-Encodes l reg_l t e =
    of_target
      (λ t.
        Encodes increment t l (dec_inc_of 0x04 0x03 (reg_l, l))
        × Encodes decrement t l (dec_inc_of 0x05 0x0b (reg_l, l)))
      t _ e ((refl, refl), (refl, refl))
dec_inc_of-Encodes l mem_hl t e =
    of_target
      (λ t.
        Encodes increment t l (dec_inc_of 0x04 0x03 (mem_hl, l))
        × Encodes decrement t l (dec_inc_of 0x05 0x0b (mem_hl, l)))
      t _ e ((refl, refl), (refl, refl))
dec_inc_of-Encodes l reg_a t e =
    of_target
      (λ t.
        Encodes increment t l (dec_inc_of 0x04 0x03 (reg_a, l))
        × Encodes decrement t l (dec_inc_of 0x05 0x0b (reg_a, l)))
      t _ e ((refl, refl), (refl, refl))
dec_inc_of-Encodes l reg_ixh t e =
    of_target
      (λ t.
        Encodes increment t l (dec_inc_of 0x04 0x03 (reg_ixh, l))
        × Encodes decrement t l (dec_inc_of 0x05 0x0b (reg_ixh, l)))
      t _ e ((refl, refl), (refl, refl))
dec_inc_of-Encodes l reg_ixl t e =
    of_target
      (λ t.
        Encodes increment t l (dec_inc_of 0x04 0x03 (reg_ixl, l))
        × Encodes decrement t l (dec_inc_of 0x05 0x0b (reg_ixl, l)))
      t _ e ((refl, refl), (refl, refl))
dec_inc_of-Encodes l reg_iyh t e =
    of_target
      (λ t.
        Encodes increment t l (dec_inc_of 0x04 0x03 (reg_iyh, l))
        × Encodes decrement t l (dec_inc_of 0x05 0x0b (reg_iyh, l)))
      t _ e ((refl, refl), (refl, refl))
dec_inc_of-Encodes l reg_iyl t e =
    of_target
      (λ t.
        Encodes increment t l (dec_inc_of 0x04 0x03 (reg_iyl, l))
        × Encodes decrement t l (dec_inc_of 0x05 0x0b (reg_iyl, l)))
      t _ e ((refl, refl), (refl, refl))
dec_inc_of-Encodes l reg_i t e = cc e
dec_inc_of-Encodes l reg_r t e = cc e
dec_inc_of-Encodes l reg_f t e = cc e
dec_inc_of-Encodes l reg_bc t e = cc e
dec_inc_of-Encodes l reg_de t e = cc e
dec_inc_of-Encodes l reg_hl t e = cc e
dec_inc_of-Encodes l reg_sp t e = cc e
dec_inc_of-Encodes l reg_af t e = cc e
dec_inc_of-Encodes l mem_hl_i t e = cc e
dec_inc_of-Encodes l mem_hl_d t e = cc e
dec_inc_of-Encodes l reg_ix t e = cc e
dec_inc_of-Encodes l reg_iy t e = cc e
dec_inc_of-Encodes l mem_ix t e = cc e
dec_inc_of-Encodes l mem_iy t e = cc e
dec_inc_of-Encodes l reg_unk t e = cc e

-- INC and DEC of an 8-bit register or (hl), its name in lower or upper case, in front of a text that starts
-- with no character of a name: an independent decoder reads the bytes as an increment and a decrement of this
-- operand, and the line changes in nothing but its pointer. The processor is a Z80, names are case-sensitive
-- and brackets of both kinds allowed.
pub opcode_inc-register_text :
    (m multi upper : Bool) (r : Z80Reg) (t : Target) (rest : List ℕ) (l : Line)
    → target_of r ≡ some t
    → islabchar (head rest) ≡ false
    → Encodes increment t
        (at_text rest l)
        (opcode_inc (z80_cpu m multi) (at_text (cased upper (register_text r) ++ rest) l))
      × Encodes decrement t
          (at_text rest l)
          (opcode_dec (z80_cpu m multi) (at_text (cased upper (register_text r) ++ rest) l))
unfolding opcode_inc opcode_dec opcode_dec_inc
opcode_inc-register_text m multi upper r t rest l e ends =
    subst
      (λ x.
        Encodes increment t (at_text rest l) (dec_inc_of 0x04 0x03 x)
        × Encodes decrement t (at_text rest l) (dec_inc_of 0x05 0x0b x))
      (sym (get_register-register_text m multi rest l ends r (target_of-has_name r t e) upper))
      (dec_inc_of-Encodes (at_text rest l) r t e)
