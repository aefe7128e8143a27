-- ===== src/Z80/Printed/Bits.antt =====
-- BIT, RES and SET of sjasm/z80.cpp against the decoder.
use sjasmplus.Common.{
  ℕ, ◌+◌, ◌*◌, ◌/◌, ◌%◌, ◌<◌, ◌≡◌, refl, sym, ap, ◌∙◌, subst, Bool, true, false, some, List, [],
  ◌∷◌, ◌++◌, leb, ◌==◌, arith,
}
use sjasmplus.Reader.Chars.{head, skip_blanks}
use sjasmplus.Reader.Words.{
  islabchar, comma, need_char, need, need_pairs, need_or_needa, needa, needa_words, cmphstr,
  match_letters,
}
use sjasmplus.Expression.Operators.{
  mul_oper, add_oper, shift_oper, min_max_oper, cmp_oper, equ_oper, bit_and_oper, bit_xor_oper,
  bit_or_oper, log_and_oper, log_or_oper,
}
use sjasmplus.Expression.Entry.{parse_expression}
use sjasmplus.Expression.Printed.{number, print_at}
use sjasmplus.Expression.Printed.Symbols.{Follows}
use sjasmplus.Z80.{
  Z80Reg, reg_b, reg_c, reg_d, reg_e, reg_h, reg_l, mem_hl, reg_a, reg_i, reg_r, reg_f, reg_bc,
  reg_de, reg_hl, reg_sp, reg_af, mem_hl_i, mem_hl_d, reg_ix, reg_iy, mem_ix, mem_iy, reg_ixh,
  reg_ixl, reg_iyh, reg_iyl, reg_unk, Cpu, Line, at_text,
}
use sjasmplus.Z80.Operands.{byte_of, get_byte, get_byte_no_mem}
use sjasmplus.Z80.Alu.{Encoded}
use sjasmplus.Z80.Bits.{bits_of, opcode_cb_family, numbered_bit, opcode_bit, opcode_res, opcode_set}
use sjasmplus.Z80.Decoder.{
  plain, Operation, test_bit, reset_bit, set_bit, bit_operation, decode, plain_target,
}
use sjasmplus.Z80.Printed.{both_cases, z80_cpu, register_text, cased, get_register-register_text}
use sjasmplus.Z80.Printed.Alu.{target_of, target_of-has_name}
use sjasmplus.Z80.Printed.Immediate.{parse_expression-number, byte_of-parsed}

-- Code for one operation on a register in three bits or (HL), with the text behind the operand.
abbrev pub EncodesBits : Operation → ℕ → List ℕ → Encoded → Type 0
EncodesBits o n rest e = (decode e.bytes ≡ some (o, plain n)) × (e.line.text ≡ rest)

-- The opcodes of one operation, by the operand.
abbrev NamesOperation : ℕ → Operation → Type 0
NamesOperation opcode o = (k : ℕ) → k < 8 → bit_operation (opcode + k) ≡ (o, k)

bit_operation-test : (bit : ℕ) → bit < 8 → NamesOperation (8 * bit + 0x40) (test_bit bit)
unfolding bit_operation
bit_operation-test bit small k h =
    let b = 8 * bit + 0x40 + k in
    let x : b / 64 ≡ 1 = omega (arith, small, h) in
    let y : b / 8 % 8 ≡ bit = omega (arith, small, h) in
    let z : b % 8 ≡ k = omega (arith, small, h) in rw (x, y, z) refl

bit_operation-reset : (bit : ℕ) → bit < 8 → NamesOperation (8 * bit + 0x80) (reset_bit bit)
unfolding bit_operation
bit_operation-reset bit small k h =
    let b = 8 * bit + 0x80 + k in
    let x : b / 64 ≡ 2 = omega (arith, small, h) in
    let y : b / 8 % 8 ≡ bit = omega (arith, small, h) in
    let z : b % 8 ≡ k = omega (arith, small, h) in rw (x, y, z) refl

bit_operation-set : (bit : ℕ) → bit < 8 → NamesOperation (8 * bit + 0xc0) (set_bit bit)
unfolding bit_operation
bit_operation-set bit small k h =
    let b = 8 * bit + 0xc0 + k in
    let x : b / 64 ≡ 3 = omega (arith, small, h) in
    let y : b / 8 % 8 ≡ bit = omega (arith, small, h) in
    let z : b % 8 ≡ k = omega (arith, small, h) in rw (x, y, z) refl

module _ (cpu : Cpu) (opcode : ℕ) (o : Operation) (names : NamesOperation opcode o) where
  plain_bits :
      (n k : ℕ) (l : Line)
      → some (plain k) ≡ some (plain n)
      → k < 8
      → EncodesBits o n l.text (record { bytes = 0xcb ∷ (opcode + k) ∷ []; line = l })
  unfolding decode
  plain_bits n k l e h =
      let same : k ≡ n = cc e in
      (ap (λ x. plain_target (some x)) (names k h) ∙ ap (λ k. some (o, plain k)) same, refl)

  bits_of-EncodesBits :
      (can_have_dst : Bool) (r : Z80Reg) (n : ℕ) (l : Line)
      → target_of r ≡ some (plain n)
      → EncodesBits o n l.text (bits_of cpu opcode can_have_dst (r, l)).encoded
  bits_of-EncodesBits can reg_b n l e = plain_bits n 0 l e (omega arith)
  bits_of-EncodesBits can reg_c n l e = plain_bits n 1 l e (omega arith)
  bits_of-EncodesBits can reg_d n l e = plain_bits n 2 l e (omega arith)
  bits_of-EncodesBits can reg_e n l e = plain_bits n 3 l e (omega arith)
  bits_of-EncodesBits can reg_h n l e = plain_bits n 4 l e (omega arith)
  bits_of-EncodesBits can reg_l n l e = plain_bits n 5 l e (omega arith)
  bits_of-EncodesBits can mem_hl n l e = plain_bits n 6 l e (omega arith)
  bits_of-EncodesBits can reg_a n l e = plain_bits n 7 l e (omega arith)
  bits_of-EncodesBits can reg_ixh n l e = cc e
  bits_of-EncodesBits can reg_ixl n l e = cc e
  bits_of-EncodesBits can reg_iyh n l e = cc e
  bits_of-EncodesBits can reg_iyl n l e = cc e
  bits_of-EncodesBits can reg_i n l e = cc e
  bits_of-EncodesBits can reg_r n l e = cc e
  bits_of-EncodesBits can reg_f n l e = cc e
  bits_of-EncodesBits can reg_bc n l e = cc e
  bits_of-EncodesBits can reg_de n l e = cc e
  bits_of-EncodesBits can reg_hl n l e = cc e
  bits_of-EncodesBits can reg_sp n l e = cc e
  bits_of-EncodesBits can reg_af n l e = cc e
  bits_of-EncodesBits can mem_hl_i n l e = cc e
  bits_of-EncodesBits can mem_hl_d n l e = cc e
  bits_of-EncodesBits can reg_ix n l e = cc e
  bits_of-EncodesBits can reg_iy n l e = cc e
  bits_of-EncodesBits can mem_ix n l e = cc e
  bits_of-EncodesBits can mem_iy n l e = cc e
  bits_of-EncodesBits can reg_unk n l e = cc e

comma_Follows : (p : List ℕ) → Follows 11 (b',' ∷ p)
unfolding mul_oper add_oper shift_oper min_max_oper cmp_oper equ_oper bit_and_oper bit_xor_oper
    bit_or_oper log_and_oper log_or_oper need_char need need_pairs need_or_needa needa needa_words
    cmphstr match_letters skip_blanks
comma_Follows p = record {
  ends_number = (refl, refl, λ e. ground (arith, e));
  no_blank = refl;
  no_dollar = refl;
  stops = (refl, (refl, (refl, (refl, (refl, (refl, (refl, (refl, (refl, (refl, (refl, _)))))))))));
}

-- The name of a register starts with no comma.
operand-no_comma :
    (r : Z80Reg) (n : ℕ) (rest : List ℕ)
    → target_of r ≡ some (plain n)
    → (upper : Bool) → (head (cased upper (register_text r) ++ rest) == b',') ≡ false
operand-no_comma reg_b n rest e =
    both_cases (λ upper. (head (cased upper (register_text reg_b) ++ rest) == b',') ≡ false) refl
      refl
operand-no_comma reg_c n rest e =
    both_cases (λ upper. (head (cased upper (register_text reg_c) ++ rest) == b',') ≡ false) refl
      refl
operand-no_comma reg_d n rest e =
    both_cases (λ upper. (head (cased upper (register_text reg_d) ++ rest) == b',') ≡ false) refl
      refl
operand-no_comma reg_e n rest e =
    both_cases (λ upper. (head (cased upper (register_text reg_e) ++ rest) == b',') ≡ false) refl
      refl
operand-no_comma reg_h n rest e =
    both_cases (λ upper. (head (cased upper (register_text reg_h) ++ rest) == b',') ≡ false) refl
      refl
operand-no_comma reg_l n rest e =
    both_cases (λ upper. (head (cased upper (register_text reg_l) ++ rest) == b',') ≡ false) refl
      refl
operand-no_comma mem_hl n rest e =
    both_cases (λ upper. (head (cased upper (register_text mem_hl) ++ rest) == b',') ≡ false) refl
      refl
operand-no_comma reg_a n rest e =
    both_cases (λ upper. (head (cased upper (register_text reg_a) ++ rest) == b',') ≡ false) refl
      refl
operand-no_comma reg_ixh n rest e = cc e
operand-no_comma reg_ixl n rest e = cc e
operand-no_comma reg_iyh n rest e = cc e
operand-no_comma reg_iyl n rest e = cc e
operand-no_comma reg_i n rest e = cc e
operand-no_comma reg_r n rest e = cc e
operand-no_comma reg_f n rest e = cc e
operand-no_comma reg_bc n rest e = cc e
operand-no_comma reg_de n rest e = cc e
operand-no_comma reg_hl n rest e = cc e
operand-no_comma reg_sp n rest e = cc e
operand-no_comma reg_af n rest e = cc e
operand-no_comma mem_hl_i n rest e = cc e
operand-no_comma mem_hl_d n rest e = cc e
operand-no_comma reg_ix n rest e = cc e
operand-no_comma reg_iy n rest e = cc e
operand-no_comma mem_ix n rest e = cc e
operand-no_comma mem_iy n rest e = cc e
operand-no_comma reg_unk n rest e = cc e

comma-found :
    (p : List ℕ) → (head p == b',') ≡ false → comma (b',' ∷ p) ≡ record { oper = 1; rest = p }
unfolding comma skip_blanks
comma-found p h = rw h refl

module _ (m multi upper : Bool) (r : Z80Reg) (rest : List ℕ)
    (ends : islabchar (head rest) ≡ false) where
  abbrev operand : List ℕ
  operand = cased upper (register_text r) ++ rest

  opcode_cb_family-EncodesBits :
      (opcode n : ℕ) (can_have_dst : Bool) (o : Operation) (l : Line)
      → NamesOperation opcode o
      → target_of r ≡ some (plain n)
      → EncodesBits o n rest
          (opcode_cb_family (z80_cpu m multi) opcode can_have_dst (at_text operand l)).encoded
  unfolding opcode_cb_family
  opcode_cb_family-EncodesBits opcode n can o l names e =
      subst (λ x. EncodesBits o n rest (bits_of (z80_cpu m multi) opcode can x).encoded)
        (sym (
          get_register-register_text m multi rest l ends r (target_of-has_name r (plain n) e)
            upper))
        (bits_of-EncodesBits (z80_cpu m multi) opcode o names can r n (at_text rest l) e)

  numbered_bit-EncodesBits :
      (base bit n : ℕ) (can_have_dst : Bool) (o : Operation) (x : ℕ × Line)
      → bit < 8
      → NamesOperation (8 * bit + base) o
      → target_of r ≡ some (plain n)
      → x.0 ≡ bit
      → x.1.text ≡ b',' ∷ operand
      → EncodesBits o n rest (numbered_bit (z80_cpu m multi) base can_have_dst x)
  numbered_bit-EncodesBits base bit n can o (v, l) small names e is_bit text =
      let found = comma-found operand (operand-no_comma r n rest e upper) in
      let le : leb bit 7 ≡ true = ground (arith, small) in
      let code = opcode_cb_family-EncodesBits (8 * bit + base) n can o l names e in
      subst (λ v. EncodesBits o n rest (numbered_bit (z80_cpu m multi) base can (v, l)))
        (sym is_bit)
        (subst
          (λ p. EncodesBits o n rest (numbered_bit (z80_cpu m multi) base can (bit, at_text p l)))
          (sym text) (rw (found, le) code))

  -- BIT, RES and SET of a bit below 8, printed as a number, and of an 8-bit register without index or (hl), its
  -- name in lower or upper case, behind a comma and in front of a text that starts with no character of
  -- a name: an independent decoder reads the bytes as this operation on this bit and operand, and the
  -- pointer is behind the operand. The processor is a Z80, names are case-sensitive and brackets of both
  -- kinds allowed.
  pub opcode_bit-register_text :
      (bit n : ℕ) (l : Line)
      → bit < 8
      → target_of r ≡ some (plain n)
      → EncodesBits
          (test_bit bit)
          n
          rest
          (opcode_bit (z80_cpu m multi) (at_text (print_at 11 (number bit) ++ (b',' ∷ operand)) l))
        × EncodesBits (reset_bit bit) n rest (
            opcode_res (z80_cpu m multi) (at_text (print_at 11 (number bit) ++ (b',' ∷ operand)) l))
        × EncodesBits (set_bit bit) n rest (
            opcode_set (z80_cpu m multi) (at_text (print_at 11 (number bit) ++ (b',' ∷ operand)) l))
  unfolding opcode_bit opcode_res opcode_set get_byte_no_mem get_byte
  opcode_bit-register_text bit n l small e =
      let text = print_at 11 (number bit) ++ (b',' ∷ operand) in
      let x = byte_of false (at_text text l) (parse_expression l.state text) in
      let read =
        byte_of-parsed (at_text text l) (parse_expression l.state text) bit (b',' ∷ operand) (
          parse_expression-number l.state bit (b',' ∷ operand) (omega (arith, small))
            (comma_Follows operand)) in
      let is_bit : x.0 ≡ bit = read.0 ∙ omega (arith, small) in
      (
        numbered_bit-EncodesBits 0x40 bit n false (test_bit bit) x small
            (bit_operation-test bit small) e is_bit read.1,
        numbered_bit-EncodesBits 0x80 bit n true (reset_bit bit) x small
            (bit_operation-reset bit small) e is_bit read.1,
        numbered_bit-EncodesBits 0xc0 bit n true (set_bit bit) x small (bit_operation-set bit small)
            e is_bit read.1,
      )
