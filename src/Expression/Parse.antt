-- ===== src/Expression/Parse.antt =====
-- The functions ParseExp… and ParseExpression… of sjasm/parser.cpp.
use sjasmplus.Common.{
  ℕ, zero, suc, ◌+◌, ◌-◌, ◌%◌, ◌^◌, Bool, true, false, not, ◌&&◌, ◌||◌, Option, none, some, List,
  [], ◌∷◌, ◌++◌, map, if◌then◌else◌, ◌==◌, length, drop,
}
use sjasmplus.Reader.Chars.{is_digit, is_alnum, head, skip_blanks}
use sjasmplus.Reader.Literal.{Constant, get_constant}
use sjasmplus.Reader.CharConst.{get_char_const}
use sjasmplus.Reader.Words.{cmphstr, need_char, is_label_start}
use sjasmplus.Reader.Outcome.{
  Message, literal, parenthesis_expected, brace_expected, outside_of_memory, unreadable_address,
  deprecated_operator, syntax_error, Outcome, parsed, failed, out_of_fuel, after, and_then, Parser,
}
use sjasmplus.Device.Memory.{mem_get_byte, mem_get_word}
use sjasmplus.TemporaryLabels.Read.{get_temporary_label_value}
use sjasmplus.Relocation.{is_active}
use sjasmplus.Expression.{State, DispMode, disp_none, disp_inside_relocate}
use sjasmplus.Expression.Arithmetic.{signed_ltb}
use sjasmplus.Expression.Operators.{
  Lexer, Combine, mul_oper, add_oper, shift_oper, min_max_oper, cmp_oper, equ_oper, bit_and_oper,
  bit_xor_oper, bit_or_oper, log_and_oper, log_or_oper, mul_value, add_value, shift_value,
  min_max_value, cmp_value, equ_value, bit_and_value, bit_xor_value, bit_or_value, log_and_value,
  log_or_value,
}

-- A result with the reports of what was evaluated before, and the next round of a loop.
abbrev pub next_round : (ℕ → List ℕ → Outcome) → ℕ × List Message → List ℕ → Outcome
next_round again (left, ms) p = after ms (again left p)

-- The `while` of a level with left-associative operators, on fuel.
unfoldable pub binary_loop : Lexer → Combine → Parser → ℕ → ℕ → List ℕ → Outcome
binary_loop oper combine next zero left p = out_of_fuel
binary_loop oper combine next (suc fuel) left p =
    let again = binary_loop oper combine next fuel in
    let n = oper p in
    if n.oper == 0
    then parsed left n.rest []
    else and_then (next n.rest) (λ right q. next_round again (combine n.oper left right) q)

-- A level: every round reads an operator, so that the text bounds the rounds.
unfoldable pub binary_level : Lexer → Combine → Parser → Parser
binary_level oper combine next p =
    and_then (next p) (λ left q. binary_loop oper combine next (suc (length q)) left q)

-- The levels from ParseExpLogOr down to ParseExpMul, over a parser of unary expressions.
module _ (s : State) (unair : Parser) where
  unfoldable pub parse_exp_mul : Parser
  parse_exp_mul = binary_level mul_oper (mul_value s.undefined) unair

  unfoldable pub parse_exp_add : Parser
  parse_exp_add = binary_level add_oper add_value parse_exp_mul

  unfoldable pub parse_exp_shift : Parser
  parse_exp_shift = binary_level shift_oper (shift_value s.undefined) parse_exp_add

  unfoldable pub parse_exp_min_max : Parser
  parse_exp_min_max = binary_level min_max_oper min_max_value parse_exp_shift

  unfoldable pub parse_exp_cmp : Parser
  parse_exp_cmp = binary_level cmp_oper cmp_value parse_exp_min_max

  unfoldable pub parse_exp_equ : Parser
  parse_exp_equ = binary_level equ_oper equ_value parse_exp_cmp

  unfoldable pub parse_exp_bit_and : Parser
  parse_exp_bit_and = binary_level bit_and_oper bit_and_value parse_exp_equ

  unfoldable pub parse_exp_bit_xor : Parser
  parse_exp_bit_xor = binary_level bit_xor_oper bit_xor_value parse_exp_bit_and

  unfoldable pub parse_exp_bit_or : Parser
  parse_exp_bit_or = binary_level bit_or_oper bit_or_value parse_exp_bit_xor

  unfoldable pub parse_exp_log_and : Parser
  parse_exp_log_and = binary_level log_and_oper log_and_value parse_exp_bit_or

  unfoldable pub parse_exp_log_or : Parser
  parse_exp_log_or = binary_level log_or_oper log_or_value parse_exp_log_and

-- `if (!need(p, c)) { Error(…); return 0; }` behind an expression, and what follows.
abbrev pub expect : ℕ → List Message → Outcome → (ℕ → List ℕ → Outcome) → Outcome
expect c ms o next =
    and_then o
      (λ v p. let n = need_char c p in if n.oper == 0 then failed n.rest ms else next v n.rest)

abbrev pub of_constant : Constant → Outcome
of_constant c =
    let reports = map literal c.reports in
    if c.parsed then parsed c.val c.op reports else failed c.op reports

abbrev pub has_device : State → Bool
has_device s = elim s.device [ some d ↦ true | none ↦ false ]

-- `MemGetByte(nval)`, with the byte behind it unless `byteOnly`.
abbrev pub memory_value : State → Bool → ℕ → ℕ × List ℕ
memory_value s byte_only address = elim s.device [
  | none ↦ (0, [])
  | some d ↦
      if byte_only
      then mem_get_byte s.is_last_pass address d
      else mem_get_word s.is_last_pass address d
]

abbrev pub after_byte_mark : List ℕ → Option (List ℕ) → List ℕ
after_byte_mark p none = p
after_byte_mark p (some q) = q

abbrev pub has_mark : Option (List ℕ) → Bool
has_mark none = false
has_mark (some q) = true

abbrev pub read_bytes : List ℕ → ℕ × List ℕ → Outcome
read_bytes p (v, unreadable) = parsed v p (map unreadable_address unreadable)

-- The value at an address behind which the closing brace was read.
abbrev pub read_memory : State → Bool → ℕ → List ℕ → Outcome
read_memory s byte_only v p =
    if signed_ltb v 0 || signed_ltb (0xFFFE + (if byte_only then 1 else 0)) v
    then parsed 0 p (outside_of_memory ∷ [])
    else read_bytes p (memory_value s byte_only v)

-- `{address}` behind the brace.
unfoldable pub parse_memory_operand : State → Parser → List ℕ → Outcome
parse_memory_operand s entry p =
    let byte = cmphstr (b'b' ∷ []) false p in
    expect b'}' (brace_expected ∷ []) (entry (after_byte_mark p byte))
      (read_memory s (has_mark byte))

abbrev pub offset_of : State → Bool → ℕ
offset_of s offset = if offset then s.relocation.alternative_offset else 0

abbrev pub is_displaced : DispMode → Bool
is_displaced disp_none = false
is_displaced m = true

abbrev pub is_inside_relocate : DispMode → Bool
is_inside_relocate disp_inside_relocate = true
is_inside_relocate m = false

-- `$`.
unfoldable pub current_address : State → Bool → ℕ
current_address s offset =
    if is_active s.relocation.type && (offset && not (is_inside_relocate s.pseudo_org))
    then (s.cur_address + s.relocation.alternative_offset) % 2 ^ 32
    else s.cur_address

-- `$$` with no label.
unfoldable pub current_page : State → ℕ
current_page s = elim s.disp_page_num [
  | none ↦ s.page_number
  | some page ↦ if is_displaced s.pseudo_org then page else s.page_number
]

abbrev pub dollars : ℕ → List ℕ → Bool
dollars zero p = true
dollars (suc n) p = head p == b'$' && dollars n (drop 1 p)

abbrev pub syntax_report : State → List ℕ → Outcome
syntax_report s p = failed p (if s.synerr then syntax_error ∷ [] else [])

abbrev pub starts_number : List ℕ → Bool
starts_number p =
    is_digit (head p)
    || (head p == b'#' && is_alnum (head (drop 1 p)))
    || (head p == b'$' && is_alnum (head (drop 1 p)))
    || head p == b'%'

-- The branches of ParseExpPrim behind those for `(`, `{` and a temporary label; `offset` is
-- areLabelsOffset.
unfoldable pub parse_value : State → Bool → Parser
parse_value s offset p =
    if starts_number p
    then of_constant (get_constant 0 p)
    else if is_label_start p
    then s.get_label_value offset p
    else if head p == b'?' && is_label_start (drop 1 p)
    then after (deprecated_operator ∷ []) (s.get_label_value offset (drop 1 p))
    else if dollars 4 p && is_label_start (drop 4 p)
    then s.get_label_ph_page offset (drop 4 p)
    else if dollars 3 p && is_label_start (drop 3 p)
    then s.get_label_ph_value offset (drop 3 p)
    else if is_displaced s.pseudo_org && dollars 3 p
    then if head (drop 3 p) == b'$'
      then parsed (if has_device s then s.page_number else 2 ^ 32 - 1) (drop 4 p) []
      else parsed s.adrdisp (drop 3 p) []
    else if has_device s && dollars 2 p
    then if is_label_start (drop 2 p)
      then s.get_label_page offset (drop 2 p)
      else parsed (current_page s) (drop 2 p) []
    else if head p == b'$'
    then parsed (current_address s offset) (drop 1 p) []
    else elim (get_char_const p) [
      | parsed v q ms ↦ parsed v q ms
      | failed q ms ↦ after ms (syntax_report s q)
      | out_of_fuel ↦ out_of_fuel
    ]

-- GetTemporaryLabelValue, and the other branches from where it leaves the pointer.
unfoldable pub parse_numbered : State → Bool → Parser
parse_numbered s offset p =
    elim (get_temporary_label_value (offset_of s offset) s.is_last_pass s.temporary_labels p) [
      | parsed v q ms ↦ parsed v q ms
      | failed q ms ↦ after ms (parse_value s offset q)
      | out_of_fuel ↦ out_of_fuel
    ]

-- `(` and an expression: the closing one is looked for even if the expression failed.
unfoldable pub close_parenthesis : Outcome → Outcome
close_parenthesis (parsed v p ms) =
    let n = need_char b')' p in
    if n.oper == 0 then failed n.rest (ms ++ (parenthesis_expected ∷ [])) else parsed v n.rest ms
close_parenthesis (failed p ms) =
    let n = need_char b')' p in
    if n.oper == 0 then failed n.rest (ms ++ (parenthesis_expected ∷ [])) else failed n.rest ms
close_parenthesis out_of_fuel = out_of_fuel

-- ParseExpPrim; `entry` evaluates with areLabelsOffset as it is, `no_offset_entry` with the flag off.
unfoldable pub parse_exp_prim : State → Bool → Parser → Parser → Parser
parse_exp_prim s offset entry no_offset_entry start =
    let p = skip_blanks start in
    if head p == 0
    then failed p []
    else if head p == b'('
    then close_parenthesis (entry (drop 1 p))
    else if has_device s && head p == b'{'
    then parse_memory_operand s no_offset_entry (drop 1 p)
    else if is_digit (head p)
    then parse_numbered s offset p
    else parse_value s offset p
