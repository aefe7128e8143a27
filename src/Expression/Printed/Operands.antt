-- ===== src/Expression/Printed/Operands.antt =====
-- Numbers, unary operators and parentheses, as ParseExpUnair of sjasm/parser.cpp reads them.
use sjasmplus.Common.{
  ℕ, zero, suc, ◌^◌, ◌<◌, ◌≡◌, refl, ◌∙◌, ap, Bool, true, false, ◌&&◌, List, [], ◌∷◌, ◌++◌,
  if◌then◌else◌, ◌==◌, arith,
}
use sjasmplus.Hex.{print_hex}
use sjasmplus.Reader.Chars.{is_alnum, head, skip_blanks}
use sjasmplus.Reader.Literal.Prefixed.{IsBreak}
use sjasmplus.Reader.Literal.Printed.{head-print_hex, get_constant-print_hex}
use sjasmplus.Reader.Words.{
  is_label_start, cmphstr, match_letters, ends_word, need, need_pairs, need_or_needa, needa,
  needa_words,
}
use sjasmplus.Reader.Outcome.{parsed, and_then, Parser}
use sjasmplus.Expression.{State}
use sjasmplus.Expression.Operators.{unary_oper, unary_value}
use sjasmplus.Expression.Parse.{
  has_device, is_displaced, current_address, parse_value, close_parenthesis, parse_exp_prim,
  parse_exp_log_or, parse_exp_mul, parse_exp_add, parse_exp_shift, parse_exp_min_max, parse_exp_cmp,
  parse_exp_equ, parse_exp_bit_and, parse_exp_bit_xor, parse_exp_bit_or, parse_exp_log_and,
}
use sjasmplus.Expression.Entry.{unary_operand, unair_body, parse_exp_unair}
use sjasmplus.Expression.Printed.{
  Unary, is_zero, complement, plus, minus, low, high, abs, u16, unary_symbol, unary_code, level,
}

if-and_false {ℓ} : {A : Type ℓ} (b : Bool) (x y : A) → (if b && false then x else y) ≡ y
if-and_false true x y = refl
if-and_false false x y = refl

alnum-append : (p q : List ℕ) → is_alnum (head p) ≡ true → is_alnum (head (p ++ q)) ≡ true
alnum-append [] q h = cc h
alnum-append (c ∷ p) q h = h

-- A number behind its `#`.
parse_value-number :
    (s : State) (offset : Bool) (v : ℕ) (rest : List ℕ)
    → v < 2 ^ 32
    → IsBreak (head rest)
    → parse_value s offset (b'#' ∷ (print_hex 8 v ++ rest)) ≡ parsed v rest []
unfolding parse_value
parse_value-number s offset v rest fits break =
    rw (alnum_digit, get_constant-print_hex 8 v 0 rest (omega arith) (omega arith) fits break) refl
  where
    alnum_digit : is_alnum (head (print_hex 8 v ++ rest)) ≡ true
    alnum_digit = alnum-append (print_hex 8 v) rest (head-print_hex 7 v)

pub unair-number :
    (s : State) (fuel : ℕ) (offset : Bool) (v : ℕ) (rest : List ℕ)
    → v < 2 ^ 32
    → IsBreak (head rest)
    → parse_exp_unair s (suc fuel) offset (b'#' ∷ (print_hex 8 v ++ rest)) ≡ parsed v rest []
unfolding parse_exp_unair unair_body cmphstr match_letters unary_operand unary_oper need_or_needa
    need need_pairs needa parse_exp_prim skip_blanks
unair-number s fuel offset v rest fits break =
    if-and_false (has_device s) _ _ ∙ parse_value-number s offset v rest fits break

-- `$` in front of another character.
parse_value-here :
    (s : State) (offset : Bool) (rest : List ℕ)
    → IsBreak (head rest)
    → (head rest == b'$') ≡ false
    → parse_value s offset (b'$' ∷ rest) ≡ parsed (current_address s offset) rest []
unfolding parse_value is_label_start
parse_value-here s offset rest break alone =
    rw (break.0, alone)
      (if-and_false (is_displaced s.pseudo_org) _ _ ∙ if-and_false (has_device s) _ _)

pub unair-here :
    (s : State) (fuel : ℕ) (offset : Bool) (rest : List ℕ)
    → IsBreak (head rest)
    → (head rest == b'$') ≡ false
    → parse_exp_unair s (suc fuel) offset (b'$' ∷ rest) ≡ parsed (current_address s offset) rest []
unfolding parse_exp_unair unair_body cmphstr match_letters unary_operand unary_oper need_or_needa
    need need_pairs needa parse_exp_prim skip_blanks
unair-here s fuel offset rest break alone =
    if-and_false (has_device s) _ _ ∙ parse_value-here s offset rest break alone

pub unair-blank :
    (s : State) (fuel : ℕ) (offset : Bool) (p : List ℕ)
    → parse_exp_unair s fuel offset (b' ' ∷ p) ≡ parse_exp_unair s fuel offset p
unfolding parse_exp_unair unair_body skip_blanks
unair-blank s zero offset p = refl
unair-blank s (suc fuel) offset p = refl

pub unair-unary :
    (s : State) (fuel : ℕ) (offset : Bool) (u : Unary) (p : List ℕ)
    → parse_exp_unair s (suc fuel) offset (unary_symbol u ++ (b' ' ∷ p))
      ≡ and_then
          (parse_exp_unair s fuel offset (b' ' ∷ p))
          (λ right q. parsed (unary_value s.undefined (unary_code u) right) q [])
unfolding parse_exp_unair unair_body cmphstr match_letters unary_operand unary_oper need_or_needa
    need need_pairs needa needa_words parse_exp_prim skip_blanks ends_word
unair-unary s fuel offset is_zero p = refl
unair-unary s fuel offset complement p = refl
unair-unary s fuel offset plus p = refl
unair-unary s fuel offset minus p = refl
unair-unary s fuel offset low p = refl
unair-unary s fuel offset high p = refl
unair-unary s fuel offset abs p = refl
unair-unary s fuel offset u16 p = refl

pub parse_exp_log_or-level :
    (s : State) (unair : Parser) (p : List ℕ) → parse_exp_log_or s unair p ≡ level s unair 11 p
unfolding parse_exp_log_or parse_exp_log_and parse_exp_bit_or parse_exp_bit_xor parse_exp_bit_and
    parse_exp_equ parse_exp_cmp parse_exp_min_max parse_exp_shift parse_exp_add parse_exp_mul level
parse_exp_log_or-level s unair p = refl

pub unair-parenthesis :
    (s : State) (fuel : ℕ) (offset : Bool) (p : List ℕ)
    → parse_exp_unair s (suc fuel) offset (b'(' ∷ p)
      ≡ close_parenthesis (level s (parse_exp_unair s fuel offset) 11 p)
unfolding parse_exp_unair unair_body cmphstr match_letters unary_operand unary_oper need_or_needa
    need need_pairs needa parse_exp_prim skip_blanks
unair-parenthesis s fuel offset p =
    ap close_parenthesis (parse_exp_log_or-level s (parse_exp_unair s fuel offset) p)
