-- ===== src/Z80/Examples.antt =====
-- Instructions of sjasm/z80.cpp at concrete texts.
use sjasmplus.Common.{
  ℕ, ◌+◌, ◌*◌, ◌%◌, ◌^◌, ◌≡◌, refl, Bool, true, false, none, some, List, [], ◌∷◌, ◌++◌, arith,
}
use sjasmplus.Reader.Chars.{skip_blanks}
use sjasmplus.Reader.Words.{
  islabchar, need_char, need, need_pairs, need_or_needa, needa, needa_words, cmphstr, match_letters,
}
use sjasmplus.Reader.Outcome.{failed, Parser}
use sjasmplus.Relocation.{initial}
use sjasmplus.TemporaryLabels.{new_table}
use sjasmplus.Expression.{disp_none}
use sjasmplus.Expression.Operators.{
  mul_oper, add_oper, shift_oper, min_max_oper, cmp_oper, equ_oper, bit_and_oper, bit_xor_oper,
  bit_or_oper, log_and_oper, log_or_oper,
}
use sjasmplus.Expression.Printed.{number, print_at}
use sjasmplus.Expression.Printed.Symbols.{Follows}
use sjasmplus.Z80.{cond_po, byte_truncated, word_truncated, reg_e, reg_ixl, reg_iyh, Line, at_text}
use sjasmplus.Z80.Registers.{get_register_fuel, get_register}
use sjasmplus.Z80.Bits.{opcode_bit, opcode_res, opcode_set, opcode_dec, opcode_inc}
use sjasmplus.Z80.Fuel.{get_register_fuel-get_register}
use sjasmplus.Z80.Alu.{common_alu_opcode}
use sjasmplus.Z80.Decoder.{half, test_bit, reset_bit, set_bit, increment, decrement}
use sjasmplus.Z80.Printed.{z80_cpu, register_text, cased, get_register-register_text}
use sjasmplus.Z80.Printed.Alu.{EndsOperand, IsCode, common_alu_opcode-register_text}
use sjasmplus.Z80.Operands.{getz80cond, get_byte}
use sjasmplus.Z80.Addresses.{get_word}
use sjasmplus.Z80.Printed.Conditions.{condition_text, getz80cond-condition_text}
use sjasmplus.Z80.Printed.Ranges.{IsTruncated, get_byte-number}
use sjasmplus.Z80.Printed.Steps.{Encodes, opcode_inc-register_text}
use sjasmplus.Z80.Printed.Bits.{EncodesBits, opcode_bit-register_text}
use sjasmplus.Z80.Printed.Immediate.{IsByteCode, common_alu_opcode-number}

abbrev unknown_label : Bool → Parser
unknown_label offset p = failed p []

abbrev start_line : Line
start_line = record {
  text = [];
  state = record {
    device = none;
    page_number = 0;
    is_last_pass = true;
    cur_address = 0x8000;
    pseudo_org = disp_none;
    adrdisp = 0;
    disp_page_num = none;
    relocation = initial;
    temporary_labels = new_table;
    synerr = true;
    get_label_value = unknown_label;
    get_label_page = unknown_label;
    get_label_ph_page = unknown_label;
    get_label_ph_value = unknown_label;
    label_exist = unknown_label;
    get_label_size = unknown_label;
    undefined = λ oper left right. 0;
  };
  last_displacement = none;
  last_ixy_d = 0;
  reports = [];
}

abbrev high_hl : List ℕ
high_hl = b'h' ∷ b'i' ∷ b'g' ∷ b'h' ∷ b' ' ∷ b'h' ∷ b'l' ∷ []

-- A remark behind the operand.
abbrev remark : List ℕ
remark = b';' ∷ b'x' ∷ []

remark-EndsOperand : EndsOperand remark
unfolding islabchar
remark-EndsOperand = record { no_name = refl; no_blank = refl; no_comma = refl }

remark-Follows : Follows 11 remark
unfolding mul_oper add_oper shift_oper min_max_oper cmp_oper equ_oper bit_and_oper bit_xor_oper
    bit_or_oper log_and_oper log_or_oper need_char need need_pairs need_or_needa needa needa_words
    cmphstr match_letters skip_blanks
remark-Follows = record {
  ends_number = (refl, refl, λ e. ground (arith, e));
  no_blank = refl;
  no_dollar = refl;
  stops = (refl, (refl, (refl, (refl, (refl, (refl, (refl, (refl, (refl, (refl, (refl, _)))))))))));
}

-- "IXL;x".
get_register-register_text_example :
    get_register
      (z80_cpu false true)
      (at_text (cased true (register_text reg_ixl) ++ remark) start_line)
    ≡ (reg_ixl, at_text remark start_line)
get_register-register_text_example =
    get_register-register_text false true remark start_line remark-EndsOperand.no_name reg_ixl refl
      true

-- `sub iyh`.
common_alu_opcode-register_text_example :
    IsCode false true 2 (omega arith) start_line remark (half 0xfd 4) (
      common_alu_opcode
        (z80_cpu false true)
        (0x80 + 8 * 2)
        false
        true
        (at_text (cased false (register_text reg_iyh) ++ remark) start_line))
common_alu_opcode-register_text_example =
    common_alu_opcode-register_text false true 2 (omega arith) start_line false true false reg_iyh
      (half 0xfd 4) remark refl remark-EndsOperand

-- `xor 0x2A`.
common_alu_opcode-number_example : IsByteCode 5 (0x2a % 2 ^ 8) remark (
    common_alu_opcode
      (z80_cpu false true)
      (0x80 + 8 * 5)
      false
      true
      (at_text (print_at 11 (number 0x2a) ++ remark) start_line))
common_alu_opcode-number_example =
    common_alu_opcode-number false true 5 0x2a false true start_line remark (omega arith)
      (omega arith) remark-Follows

-- `high hl` has a nested call.
get_register_fuel-get_register_example :
    get_register_fuel (z80_cpu false true) 8 (at_text high_hl start_line)
    ≡ some (get_register (z80_cpu false true) (at_text high_hl start_line))
get_register_fuel-get_register_example =
    get_register_fuel-get_register (z80_cpu false true) 8 (at_text high_hl start_line) (omega arith)

-- `inc ixl` and `dec ixl`.
opcode_inc-register_text_example :
    Encodes increment (half 0xdd 5) (at_text remark start_line) (
      opcode_inc
        (z80_cpu false true)
        (at_text (cased false (register_text reg_ixl) ++ remark) start_line))
    × Encodes decrement (half 0xdd 5) (at_text remark start_line) (
        opcode_dec
          (z80_cpu false true)
          (at_text (cased false (register_text reg_ixl) ++ remark) start_line))
opcode_inc-register_text_example =
    opcode_inc-register_text false true false reg_ixl (half 0xdd 5) remark start_line refl
      remark-EndsOperand.no_name

-- `bit 3,E`.
opcode_bit-register_text_example :
    EncodesBits (test_bit 3) 3 remark (
      opcode_bit (z80_cpu false true) (
        at_text
          (print_at 11 (number 3) ++ (b',' ∷ (cased true (register_text reg_e) ++ remark)))
          start_line))
    × EncodesBits (reset_bit 3) 3 remark (
        opcode_res (z80_cpu false true) (
          at_text
            (print_at 11 (number 3) ++ (b',' ∷ (cased true (register_text reg_e) ++ remark)))
            start_line))
    × EncodesBits (set_bit 3) 3 remark (
        opcode_set (z80_cpu false true) (
          at_text
            (print_at 11 (number 3) ++ (b',' ∷ (cased true (register_text reg_e) ++ remark)))
            start_line))
opcode_bit-register_text_example =
    opcode_bit-register_text false true true reg_e remark remark-EndsOperand.no_name 3 3 start_line
      (omega arith) refl

-- `PO`.
getz80cond-condition_text_example :
    getz80cond (z80_cpu false true) (cased true (condition_text cond_po) ++ remark)
    ≡ (cond_po, remark)
getz80cond-condition_text_example =
    getz80cond-condition_text (z80_cpu false true) cond_po true remark refl
      remark-EndsOperand.no_name

-- 0x12345.
get_byte-number_example :
    IsTruncated 8
      (byte_truncated 0x12345)
      0x12345
      remark
      start_line
      (get_byte false (at_text (print_at 11 (number 0x12345) ++ remark) start_line))
    × IsTruncated 16
        (word_truncated 0x12345)
        0x12345
        remark
        start_line
        (get_word (at_text (print_at 11 (number 0x12345) ++ remark) start_line))
get_byte-number_example = get_byte-number 0x12345 remark start_line (omega arith) remark-Follows
