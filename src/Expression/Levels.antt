-- ===== src/Expression/Levels.antt =====
-- The levels of binary operators end for every text, and leave a tail of it.
use sjasmplus.Common.{ℕ, zero, suc, ◌+◌, ◌<◌, ◌≡◌, refl, true, List, ◌==◌, length, arith, ◌&&◌}
use sjasmplus.Reader.Chars.{head}
use sjasmplus.Reader.Words.{Need, cmphstr}
use sjasmplus.Reader.Outcome.{Message, Outcome, Parser}
use sjasmplus.Reader.Progress.{
  IsStep, if-IsStep, found-IsStep, word-less, starts, need-IsStep, need_char-IsStep,
  need_or_needa-IsStep, length-drop_le,
}
use sjasmplus.Reader.Within.{IsWithin, le-IsWithin, after-IsWithin, and_then-IsWithin, if-IsWithin}
use sjasmplus.Expression.{State}
use sjasmplus.Expression.Operators.{
  Lexer, Combine, third_angle, or_word, mul_oper, add_oper, shift_oper, min_max_oper, cmp_oper,
  equ_oper, bit_and_oper, bit_xor_oper, bit_or_oper, log_and_oper, log_or_oper, unary_oper,
}
use sjasmplus.Expression.Parse.{
  next_round, binary_loop, binary_level, parse_exp_mul, parse_exp_add, parse_exp_shift,
  parse_exp_min_max, parse_exp_cmp, parse_exp_equ, parse_exp_bit_and, parse_exp_bit_xor,
  parse_exp_bit_or, parse_exp_log_and, parse_exp_log_or,
}

abbrev pub IsLexer : Lexer → Type 0
IsLexer oper = (p : List ℕ) → IsStep p (oper p)

-- A parser that ends within every text of less than `size` characters.
abbrev pub EndsBelow : ℕ → Parser → Type 0
EndsBelow size parser = (p : List ℕ) → length p < size → IsWithin (length p) (parser p)

mul_oper-IsLexer : IsLexer mul_oper
unfolding mul_oper
mul_oper-IsLexer p = need_or_needa-IsStep _ _ p refl

third_angle-IsStep : (p : List ℕ) (n : Need) → IsStep p n → IsStep p (third_angle n)
third_angle-IsStep p n s =
    if-IsStep p (n.oper == b'>' + b'>' && head n.rest == b'>') _ _
      (λ h. (
        omega (arith, s.0, length-drop_le 1 n.rest),
        λ k. omega (arith, length-drop_le 1 n.rest, s.1 (ground (arith, h))),
      ))
      (λ h. s)

shift_oper-IsLexer : IsLexer shift_oper
unfolding shift_oper
shift_oper-IsLexer p = third_angle-IsStep p _ (need_or_needa-IsStep _ _ p refl)

or_word-IsStep :
    (word p : List ℕ) (n : Need) → starts word ≡ true → IsStep p n → IsStep p (or_word word n)
or_word-IsStep word p n e s =
    if-IsStep p (n.oper == 0) _ _
      (λ h.
        found-IsStep 1 n p (cmphstr word true n.rest)
          (λ q k. omega (arith, s.0, word-less word true n.rest q e k)) s)
      (λ h. s)

bit_and_oper-IsLexer : IsLexer bit_and_oper
unfolding bit_and_oper
bit_and_oper-IsLexer p = or_word-IsStep _ p _ refl (need-IsStep _ p)

bit_xor_oper-IsLexer : IsLexer bit_xor_oper
unfolding bit_xor_oper
bit_xor_oper-IsLexer p = or_word-IsStep _ p _ refl (need_char-IsStep _ p refl)

bit_or_oper-IsLexer : IsLexer bit_or_oper
unfolding bit_or_oper
bit_or_oper-IsLexer p = or_word-IsStep _ p _ refl (need-IsStep _ p)

pub unary_oper-IsLexer : IsLexer unary_oper
unfolding unary_oper
unary_oper-IsLexer p = need_or_needa-IsStep _ _ p refl

module _ (oper : Lexer) (combine : Combine) (next : Parser) where
  round-IsWithin :
      (again : ℕ → List ℕ → Outcome) (n : ℕ) (c : ℕ × List Message) (q : List ℕ)
      → ((v : ℕ) → IsWithin n (again v q))
      → IsWithin n (next_round again c q)
  round-IsWithin again n (v, ms) q h = after-IsWithin n ms (again v q) (h v)

  binary_loop-IsWithin :
      (size fuel left : ℕ) (p : List ℕ)
      → IsLexer oper
      → EndsBelow size next
      → length p < size
      → length p < fuel
      → IsWithin (length p) (binary_loop oper combine next fuel left p)
  unfolding binary_loop
  binary_loop-IsWithin size zero left p lexer ends below enough = elim enough [ ]
  binary_loop-IsWithin size (suc fuel) left p lexer ends below enough =
      let n = oper p in
      let step = lexer p in
      if-IsWithin (length p) (n.oper == 0) _ _ (λ h. step.0)
        (λ h.
          let shorter = step.1 h in
          let m = length n.rest in
          le-IsWithin m (length p) _ step.0 (
            and_then-IsWithin m (next n.rest) _ (ends n.rest (omega (arith, below, step.0)))
              (λ v q k.
                round-IsWithin (binary_loop oper combine next fuel) m (combine n.oper left v) q
                  (λ w. le-IsWithin (length q) m _ k (
                    binary_loop-IsWithin size fuel w q lexer ends (omega (arith, below, step.0, k))
                      (omega (arith, enough, shorter, k)))))))

  binary_level-EndsBelow :
      (size : ℕ)
      → IsLexer oper
      → EndsBelow size next
      → EndsBelow size (binary_level oper combine next)
  unfolding binary_level
  binary_level-EndsBelow size lexer ends p below =
      and_then-IsWithin (length p) (next p) _ (ends p below) (λ left q k.
        le-IsWithin (length q) (length p) _ k (
          binary_loop-IsWithin size (suc (length q)) left q lexer ends (omega (arith, below, k))
            (omega arith)))

-- The levels end where the parser of unary expressions does.
module _ (s : State) (unair : Parser) (size : ℕ) (ends : EndsBelow size unair) where
  mul : EndsBelow size (parse_exp_mul s unair)
  unfolding parse_exp_mul
  mul = binary_level-EndsBelow mul_oper _ unair size mul_oper-IsLexer ends

  add : EndsBelow size (parse_exp_add s unair)
  unfolding parse_exp_add add_oper
  add = binary_level-EndsBelow add_oper _ _ size (need-IsStep _) mul

  shift : EndsBelow size (parse_exp_shift s unair)
  unfolding parse_exp_shift
  shift = binary_level-EndsBelow shift_oper _ _ size shift_oper-IsLexer add

  min_max : EndsBelow size (parse_exp_min_max s unair)
  unfolding parse_exp_min_max min_max_oper
  min_max = binary_level-EndsBelow min_max_oper _ _ size (need-IsStep _) shift

  cmp : EndsBelow size (parse_exp_cmp s unair)
  unfolding parse_exp_cmp cmp_oper
  cmp = binary_level-EndsBelow cmp_oper _ _ size (need-IsStep _) min_max

  equ : EndsBelow size (parse_exp_equ s unair)
  unfolding parse_exp_equ equ_oper
  equ = binary_level-EndsBelow equ_oper _ _ size (need-IsStep _) cmp

  bit_ands : EndsBelow size (parse_exp_bit_and s unair)
  unfolding parse_exp_bit_and
  bit_ands = binary_level-EndsBelow bit_and_oper _ _ size bit_and_oper-IsLexer equ

  bit_xors : EndsBelow size (parse_exp_bit_xor s unair)
  unfolding parse_exp_bit_xor
  bit_xors = binary_level-EndsBelow bit_xor_oper _ _ size bit_xor_oper-IsLexer bit_ands

  bit_ors : EndsBelow size (parse_exp_bit_or s unair)
  unfolding parse_exp_bit_or
  bit_ors = binary_level-EndsBelow bit_or_oper _ _ size bit_or_oper-IsLexer bit_xors

  log_ands : EndsBelow size (parse_exp_log_and s unair)
  unfolding parse_exp_log_and log_and_oper
  log_ands = binary_level-EndsBelow log_and_oper _ _ size (need-IsStep _) bit_ors

  pub parse_exp_log_or-EndsBelow : EndsBelow size (parse_exp_log_or s unair)
  unfolding parse_exp_log_or log_or_oper
  parse_exp_log_or-EndsBelow = binary_level-EndsBelow log_or_oper _ _ size (need-IsStep _) log_ands
