-- ===== src/Expression/Printed.antt =====
-- Expressions as trees, printed with the parentheses that the precedences of sjasm/parser.cpp ask for.
pub mod Symbols
pub mod Operands
pub mod Loops
pub mod Parse
use sjasmplus.Common.{
  ℕ, zero, suc, ◌+◌, ◌^◌, ◌<◌, Bool, List, [], ◌∷◌, ◌++◌, if◌then◌else◌, leb, get_or,
}
use sjasmplus.Hex.{print_hex}
use sjasmplus.Reader.Words.{Need}
use sjasmplus.Reader.Outcome.{Message, Parser}
use sjasmplus.Expression.{State}
use sjasmplus.Expression.Operators.{
  Lexer, Combine, mul_oper, add_oper, shift_oper, min_max_oper, cmp_oper, equ_oper, bit_and_oper,
  bit_xor_oper, bit_or_oper, log_and_oper, log_or_oper, mul_value, add_value, shift_value,
  min_max_value, cmp_value, equ_value, bit_and_value, bit_xor_value, bit_or_value, log_and_value,
  log_or_value, unary_value,
}
use sjasmplus.Expression.Parse.{binary_level, current_address}

pub data Unary : Type 0 where
  is_zero complement plus minus low high abs u16 : Unary

pub data Binary : Type 0 where
  times over modulo sum difference left_by right_by unsigned_by smaller larger less greater
        less_equal greater_equal equal unequal ands xors ors both either :
      Binary

pub data Expr : Type 0 where
  number : ℕ → Expr
  here : Expr
  unary : Unary → Expr → Expr
  binary : Binary → Expr → Expr → Expr

abbrev pub unary_symbol : Unary → List ℕ
unary_symbol is_zero = b'!' ∷ []
unary_symbol complement = b'~' ∷ []
unary_symbol plus = b'+' ∷ []
unary_symbol minus = b'-' ∷ []
unary_symbol low = b'l' ∷ b'o' ∷ b'w' ∷ []
unary_symbol high = b'h' ∷ b'i' ∷ b'g' ∷ b'h' ∷ []
unary_symbol abs = b'a' ∷ b'b' ∷ b's' ∷ []
unary_symbol u16 = b'u' ∷ b'1' ∷ b'6' ∷ []

abbrev pub unary_code : Unary → ℕ
unary_code is_zero = b'!'
unary_code complement = b'~'
unary_code plus = b'+'
unary_code minus = b'-'
unary_code low = b'l'
unary_code high = b'h'
unary_code abs = b'a'
unary_code u16 = b'u'

abbrev pub symbol : Binary → List ℕ
symbol times = b'*' ∷ []
symbol over = b'/' ∷ []
symbol modulo = b'%' ∷ []
symbol sum = b'+' ∷ []
symbol difference = b'-' ∷ []
symbol left_by = b'<' ∷ b'<' ∷ []
symbol right_by = b'>' ∷ b'>' ∷ []
symbol unsigned_by = b'>' ∷ b'>' ∷ b'>' ∷ []
symbol smaller = b'<' ∷ b'?' ∷ []
symbol larger = b'>' ∷ b'?' ∷ []
symbol less = b'<' ∷ []
symbol greater = b'>' ∷ []
symbol less_equal = b'<' ∷ b'=' ∷ []
symbol greater_equal = b'>' ∷ b'=' ∷ []
symbol equal = b'=' ∷ b'=' ∷ []
symbol unequal = b'!' ∷ b'=' ∷ []
symbol ands = b'&' ∷ []
symbol xors = b'^' ∷ []
symbol ors = b'|' ∷ []
symbol both = b'&' ∷ b'&' ∷ []
symbol either = b'|' ∷ b'|' ∷ []

-- What the reader of the operator's level returns.
abbrev pub code : Binary → ℕ
code times = b'*'
code over = b'/'
code modulo = b'%'
code sum = b'+'
code difference = b'-'
code left_by = b'<' + b'<'
code right_by = b'>' + b'>'
code unsigned_by = b'>' + b'>' + b'>'
code smaller = b'<' + b'?'
code larger = b'>' + b'?'
code less = b'<'
code greater = b'>'
code less_equal = b'<' + b'='
code greater_equal = b'>' + b'='
code equal = b'=' + b'='
code unequal = b'!' + b'='
code ands = b'&'
code xors = 1
code ors = b'|'
code both = b'&' + b'&'
code either = b'|' + b'|'

-- The tighter the smaller.
abbrev pub precedence : Binary → ℕ
precedence times = 0
precedence over = 0
precedence modulo = 0
precedence sum = 1
precedence difference = 1
precedence left_by = 2
precedence right_by = 2
precedence unsigned_by = 2
precedence smaller = 3
precedence larger = 3
precedence less = 4
precedence greater = 4
precedence less_equal = 4
precedence greater_equal = 4
precedence equal = 5
precedence unequal = 5
precedence ands = 6
precedence xors = 7
precedence ors = 8
precedence both = 9
precedence either = 10

abbrev pub oper_at : ℕ → Lexer
oper_at k =
    get_or {A = Lexer}
      (mul_oper ∷ add_oper ∷ shift_oper ∷ min_max_oper ∷ cmp_oper ∷ equ_oper ∷ bit_and_oper
        ∷ bit_xor_oper ∷ bit_or_oper ∷ log_and_oper ∷ [])
      k log_or_oper

abbrev pub combine_at : State → ℕ → Combine
combine_at s k =
    get_or {A = Combine}
      (mul_value s.undefined
        ∷ add_value
        ∷ shift_value s.undefined
        ∷ min_max_value
        ∷ cmp_value
        ∷ equ_value
        ∷ bit_and_value
        ∷ bit_xor_value
        ∷ bit_or_value
        ∷ log_and_value
        ∷ [])
      k log_or_value

-- The levels up to `k` over a parser of unary expressions.
unfoldable pub level : State → Parser → ℕ → Parser
level s unair zero = unair
level s unair (suc k) = binary_level (oper_at k) (combine_at s k) (level s unair k)

abbrev pub level_of : Expr → ℕ
level_of (number v) = 0
level_of here = 0
level_of (unary u e) = 0
level_of (binary o l r) = suc (precedence o)

abbrev pub enclose : Bool → List ℕ → List ℕ
enclose b p = if b then p else b'(' ∷ (p ++ (b')' ∷ []))

-- The text of an operand where operators of the first `k` levels need no parentheses.
unfoldable pub print_at : ℕ → Expr → List ℕ
print_at k (number v) = b'#' ∷ print_hex 8 v
print_at k here = b'$' ∷ []
print_at k (unary u e) = unary_symbol u ++ (b' ' ∷ print_at 0 e)
print_at k (binary o l r) =
    enclose (leb (suc (precedence o)) k)
      (print_at (suc (precedence o)) l ++ (symbol o ++ (b' ' ∷ print_at (precedence o) r)))

-- The value, and the reports of its divisions; `offset` is areLabelsOffset.
unfoldable pub value : State → Bool → Expr → ℕ
value s offset (number v) = v
value s offset here = current_address s offset
value s offset (unary u e) = unary_value s.undefined (unary_code u) (value s offset e)
value s offset (binary o l r) =
    (combine_at s (precedence o) (code o) (value s offset l) (value s offset r)).0

unfoldable pub reports : State → Bool → Expr → List Message
reports s offset (number v) = []
reports s offset here = []
reports s offset (unary u e) = reports s offset e
reports s offset (binary o l r) =
    reports s offset l
    ++ (reports s offset r
        ++ (combine_at s (precedence o) (code o) (value s offset l) (value s offset r)).1)

-- Every number is an aint.
abbrev pub FitsWords : Expr → Type 0
FitsWords (number v) = v < 2 ^ 32
FitsWords here = Unit {0}
FitsWords (unary u e) = FitsWords e
FitsWords (binary o l r) = FitsWords l × FitsWords r
