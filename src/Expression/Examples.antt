-- ===== src/Expression/Examples.antt =====
-- Expressions of sjasm/parser.cpp at concrete texts.
use sjasmplus.Common.{
  ℕ, ◌+◌, ◌≡◌, refl, Bool, true, false, none, List, [], ◌∷◌, ◌++◌, length, arith,
}
use sjasmplus.Reader.Chars.{skip_blanks}
use sjasmplus.Reader.Words.{
  need_char, need, need_pairs, need_or_needa, needa, needa_words, cmphstr, match_letters,
}
use sjasmplus.Reader.Outcome.{parsed, failed, division_by_zero, Parser}
use sjasmplus.Reader.Within.{IsWithin}
use sjasmplus.Relocation.{initial, off, regular}
use sjasmplus.TemporaryLabels.{new_table}
use sjasmplus.Expression.{State, disp_none}
use sjasmplus.Expression.Arithmetic.{signed_ltb, negated, flag, magnitude, quotient}
use sjasmplus.Expression.Operators.{
  mul_oper, add_oper, shift_oper, min_max_oper, cmp_oper, equ_oper, bit_and_oper, bit_xor_oper,
  bit_or_oper, log_and_oper, log_or_oper, mul_value, add_value, cmp_value, unary_value,
}
use sjasmplus.Expression.Parse.{current_address}
use sjasmplus.Expression.Entry.{parse_expression_entry, parse_expression}
use sjasmplus.Expression.Primary.{HasLabelReaders}
use sjasmplus.Expression.Termination.{parse_expression_entry-IsWithin}
use sjasmplus.Expression.Printed.{
  Expr, number, here, unary, binary, minus, sum, difference, over, less_equal, print_at, value,
  reports, FitsWords,
}
use sjasmplus.Expression.Printed.Symbols.{Follows}
use sjasmplus.Expression.Printed.Parse.{parse_expression_entry-print_at}
use sjasmplus.Expression.Relocated.{IsRelocating, stays, moves, apart, parse_expression-distance}

-- No label is known.
abbrev no_labels : Bool → Parser
no_labels offset p = failed p []

abbrev plain_state : State
plain_state = record {
  device = none;
  page_number = 0;
  is_last_pass = true;
  cur_address = 0x8000;
  pseudo_org = disp_none;
  adrdisp = 0;
  disp_page_num = none;
  relocation = record initial { type = regular; alternative_offset = 0x272 };
  temporary_labels = new_table;
  synerr = true;
  get_label_value = no_labels;
  get_label_page = no_labels;
  get_label_ph_page = no_labels;
  get_label_ph_value = no_labels;
  label_exist = no_labels;
  get_label_size = no_labels;
  undefined = λ oper left right. 0;
}

-- "1+2*3-(4<<2)" and a comma.
abbrev precedence_text : List ℕ
precedence_text =
    b'1' ∷ b'+' ∷ b'2' ∷ b'*' ∷ b'3' ∷ b'-' ∷ b'(' ∷ b'4' ∷ b'<' ∷ b'<' ∷ b'2' ∷ b')' ∷ b',' ∷ []

no_labels_tails : HasLabelReaders plain_state
no_labels_tails = record {
  value_tail = λ offset p. omega arith;
  page_tail = λ offset p. omega arith;
  ph_page_tail = λ offset p. omega arith;
  ph_value_tail = λ offset p. omega arith;
  exist_tail = λ offset p. omega arith;
  size_tail = λ offset p. omega arith;
}

parse_expression_entry-IsWithin_example :
    IsWithin (length precedence_text) (parse_expression_entry plain_state true precedence_text)
parse_expression_entry-IsWithin_example =
    parse_expression_entry-IsWithin plain_state true precedence_text no_labels_tails

comma_Follows : Follows 11 (b',' ∷ [])
unfolding mul_oper add_oper shift_oper min_max_oper cmp_oper equ_oper bit_and_oper bit_xor_oper
    bit_or_oper log_and_oper log_or_oper need_char need need_pairs need_or_needa needa needa_words
    cmphstr match_letters skip_blanks
comma_Follows = record {
  ends_number = (refl, refl, λ e. ground (arith, e));
  no_blank = refl;
  no_dollar = refl;
  stops = (refl, (refl, (refl, (refl, (refl, (refl, (refl, (refl, (refl, (refl, (refl, _)))))))))));
}

-- 0x10 - 7 / (0x10 <= -$).
abbrev compared : Expr
compared =
    binary difference (number 0x10)
      (binary over (number 7) (binary less_equal (number 0x10) (unary minus here)))

compared_fits : FitsWords compared
compared_fits = (omega arith, (omega arith, (omega arith, _)))

parse_expression_entry-print_at_example :
    parse_expression_entry plain_state false (print_at 11 compared ++ (b',' ∷ []))
    ≡ parsed (value plain_state false compared) (b',' ∷ []) (reports plain_state false compared)
parse_expression_entry-print_at_example =
    parse_expression_entry-print_at plain_state false compared (b',' ∷ []) compared_fits
      comma_Follows

compared_value :
    (value plain_state false compared ≡ 0x10)
    × (reports plain_state false compared ≡ division_by_zero ∷ [])
unfolding value reports mul_value add_value cmp_value unary_value current_address quotient negated
    flag signed_ltb magnitude
compared_value = (refl, refl)

plain_state-IsRelocating : IsRelocating plain_state
plain_state-IsRelocating = record { active = refl; not_inside = refl; address_fits = omega arith }

-- $ + 2, and $ - 2 - $.
abbrev shifted : Expr
shifted = binary sum here (number 2)

abbrev distance : Expr
distance = binary difference (binary difference here (number 2)) here

parse_expression-distance_example :
    parse_expression plain_state (print_at 11 distance ++ (b',' ∷ [])) ≡ (
      parsed (value plain_state false distance) (b',' ∷ []) [],
      record plain_state.relocation { delta_type = off },
    )
parse_expression-distance_example =
    parse_expression-distance plain_state distance (0x272 + 0 + 0) (0 + 0 + 0x272) (b',' ∷ [])
      plain_state-IsRelocating (apart (apart moves (stays 2)) moves) (omega arith) (omega arith)
      ((_, omega arith), _) comma_Follows
