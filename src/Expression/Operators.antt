-- ===== src/Expression/Operators.antt =====
-- The operators of sjasm/parser.cpp: how each level reads them, and what they compute.
use sjasmplus.Common.{
  ℕ, ◌+◌, ◌-◌, ◌*◌, ◌%◌, ◌^◌, Bool, true, not, ◌&&◌, ◌||◌, none, some, List, [], ◌∷◌, if◌then◌else◌,
  leb, ◌==◌, drop, bit_and, bit_or, bit_xor,
}
use sjasmplus.Reader.Chars.{head}
use sjasmplus.Reader.Words.{Need, cmphstr, need_char, need, need_or_needa}
use sjasmplus.Reader.Outcome.{Message, division_by_zero}
use sjasmplus.Expression.Arithmetic.{
  is_negative, negated, signed_ltb, flag, quotient, remainder, shift_left, shift_right,
  shift_right_unsigned,
}

-- How the loop of a level reads its next operator: 0 is none.
abbrev pub Lexer : Type 0
Lexer = List ℕ → Need

unfoldable pub mul_oper : Lexer
mul_oper =
    need_or_needa (b'*' ∷ b' ' ∷ b'/' ∷ b' ' ∷ b'%' ∷ b' ' ∷ [])
      ((b'm' ∷ b'o' ∷ b'd' ∷ [], b'%') ∷ [])

unfoldable pub add_oper : Lexer
add_oper = need (b'+' ∷ b' ' ∷ b'-' ∷ b' ' ∷ [])

-- `if (oper == '>' + '>' && *p == '>') { ++p; oper += '>'; }`
abbrev pub third_angle : Need → Need
third_angle n =
    if n.oper == b'>' + b'>' && head n.rest == b'>'
    then record { oper = n.oper + b'>'; rest = drop 1 n.rest }
    else n

unfoldable pub shift_oper : Lexer
shift_oper p = third_angle (
    need_or_needa (b'<' ∷ b'<' ∷ b'>' ∷ b'>' ∷ [])
      ((b's' ∷ b'h' ∷ b'l' ∷ [], b'<' + b'<') ∷ (b's' ∷ b'h' ∷ b'r' ∷ [], b'>' + b'>') ∷ []) p)

unfoldable pub min_max_oper : Lexer
min_max_oper = need (b'<' ∷ b'?' ∷ b'>' ∷ b'?' ∷ [])

unfoldable pub cmp_oper : Lexer
cmp_oper = need (b'<' ∷ b'=' ∷ b'>' ∷ b'=' ∷ b'<' ∷ b' ' ∷ b'>' ∷ b' ' ∷ [])

unfoldable pub equ_oper : Lexer
equ_oper = need (b'=' ∷ b'_' ∷ b'=' ∷ b'=' ∷ b'!' ∷ b'=' ∷ [])

-- `need(p, c) || cmphstr(p, word, true)`.
abbrev pub or_word : List ℕ → Need → Need
or_word word n =
    if n.oper == 0
    then elim (cmphstr word true n.rest) [ some q ↦ record { oper = 1; rest = q } | none ↦ n ]
    else n

unfoldable pub bit_and_oper : Lexer
bit_and_oper p = or_word (b'a' ∷ b'n' ∷ b'd' ∷ []) (need (b'&' ∷ b'_' ∷ []) p)

unfoldable pub bit_xor_oper : Lexer
bit_xor_oper p = or_word (b'x' ∷ b'o' ∷ b'r' ∷ []) (need_char b'^' p)

unfoldable pub bit_or_oper : Lexer
bit_or_oper p = or_word (b'o' ∷ b'r' ∷ []) (need (b'|' ∷ b'_' ∷ []) p)

unfoldable pub log_and_oper : Lexer
log_and_oper = need (b'&' ∷ b'&' ∷ [])

unfoldable pub log_or_oper : Lexer
log_or_oper = need (b'|' ∷ b'|' ∷ [])

-- The new left value, and the reports, of the operator `oper` between two values.
abbrev pub Combine : Type 0
Combine = ℕ → ℕ → ℕ → ℕ × List Message

-- -2147483648 / -1 has no result in C++.
abbrev overflows : ℕ → ℕ → Bool
overflows left right = left == 2 ^ 31 && right == 2 ^ 32 - 1

unfoldable pub mul_value : (ℕ → ℕ → ℕ → ℕ) → Combine
mul_value undefined oper left right =
    if oper == b'*'
    then (left * right % 2 ^ 32, [])
    else if right == 0
    then (0, division_by_zero ∷ [])
    else if overflows left right
    then (undefined oper left right, [])
    else if oper == b'/'
    then (quotient left right, [])
    else (remainder left right, [])

unfoldable pub add_value : Combine
add_value oper left right =
    let right' = if oper == b'-' then negated right else right in ((left + right') % 2 ^ 32, [])

-- A shift by 32 or more, or by a negative number, is undefined.
unfoldable pub shift_value : (ℕ → ℕ → ℕ → ℕ) → Combine
shift_value undefined oper left right =
    if leb 32 right
    then (undefined oper left right, [])
    else if oper == b'<' + b'<'
    then (shift_left left right, [])
    else if oper == b'>' + b'>'
    then (shift_right left right, [])
    else (shift_right_unsigned left right, [])

unfoldable pub min_max_value : Combine
min_max_value oper left right =
    if oper == b'<' + b'?'
    then (if signed_ltb left right then left else right, [])
    else (if signed_ltb right left then left else right, [])

unfoldable pub cmp_value : Combine
cmp_value oper left right =
    if oper == b'<'
    then (flag (signed_ltb left right), [])
    else if oper == b'>'
    then (flag (signed_ltb right left), [])
    else if oper == b'<' + b'='
    then (flag (not (signed_ltb right left)), [])
    else (flag (not (signed_ltb left right)), [])

unfoldable pub equ_value : Combine
equ_value oper left right =
    if oper == b'!' + b'=' then (flag (not (left == right)), []) else (flag (left == right), [])

unfoldable pub bit_and_value : Combine
bit_and_value oper left right = (bit_and left right, [])

unfoldable pub bit_xor_value : Combine
bit_xor_value oper left right = (bit_xor left right, [])

unfoldable pub bit_or_value : Combine
bit_or_value oper left right = (bit_or left right, [])

unfoldable pub log_and_value : Combine
log_and_value oper left right = (flag (not (left == 0) && not (right == 0)), [])

unfoldable pub log_or_value : Combine
log_or_value oper left right = (flag (not (left == 0) || not (right == 0)), [])

-- ParseExpUnair's operators and functions.
unfoldable pub unary_oper : Lexer
unary_oper p =
    need_or_needa (b'!' ∷ b' ' ∷ b'~' ∷ b' ' ∷ b'+' ∷ b' ' ∷ b'-' ∷ b' ' ∷ [])
      ((b'n' ∷ b'o' ∷ b't' ∷ [], b'!')
        ∷ (b'l' ∷ b'o' ∷ b'w' ∷ [], b'l')
        ∷ (b'h' ∷ b'i' ∷ b'g' ∷ b'h' ∷ [], b'h')
        ∷ (b'a' ∷ b'b' ∷ b's' ∷ [], b'a')
        ∷ (b'u' ∷ b'1' ∷ b'6' ∷ [], b'u')
        ∷ [])
      p

unfoldable pub unary_value : (ℕ → ℕ → ℕ → ℕ) → ℕ → ℕ → ℕ
unary_value undefined oper right =
    if oper == b'!'
    then flag (right == 0)
    else if oper == b'~'
    then 2 ^ 32 - 1 - right
    else if oper == b'+'
    then right
    else if oper == b'-'
    then (2 ^ 32 - 1 - right + 1) % 2 ^ 32
    else if oper == b'l'
    then right % 2 ^ 8
    else if oper == b'h'
    then shift_right right 8 % 2 ^ 8
    else if oper == b'a'
    then if right == 2 ^ 31
      then undefined oper right 0
      else if is_negative right
      then negated right
      else right
    else right % 2 ^ 16
