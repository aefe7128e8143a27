-- ===== src/Expression/Entry.antt =====
-- ParseExpUnair, ParseExpressionEntry and the functions over them in sjasm/parser.cpp.
use sjasmplus.Common.{
  ℕ, zero, suc, ◌+◌, ◌-◌, ◌*◌, ◌/◌, ◌%◌, ◌^◌, Bool, true, false, not, ◌&&◌, ◌||◌, Option, none,
  some, List, [], ◌∷◌, ◌++◌, if◌then◌else◌, ◌==◌, length, drop, bit_and,
}
use sjasmplus.Reader.Chars.{head, skip_blanks}
use sjasmplus.Reader.Words.{cmphstr, need_char, is_label_start, comma}
use sjasmplus.Reader.Outcome.{
  Message, truncated_to_8bit, relocatable_align, illegal_align, fill_expected, illegal_fill,
  Outcome, parsed, failed, out_of_fuel, after, and_then, or_else, back_to, Parser,
}
use sjasmplus.Relocation.{Relocation, RelocationType, off, regular, high, is_active}
use sjasmplus.Expression.{State}
use sjasmplus.Expression.Arithmetic.{signed_ltb, check8}
use sjasmplus.Expression.Operators.{unary_oper, unary_value}
use sjasmplus.Expression.Parse.{parse_exp_prim, parse_exp_log_or, expect}

-- A function of a label, in parentheses or not, behind its name.
unfoldable pub label_operand : Parser → List ℕ → Outcome
label_operand read p =
    let n = need_char b'(' p in
    if n.oper == 0
    then if is_label_start n.rest then read n.rest else failed n.rest []
    else expect b')' [] (read n.rest) (λ v q. parsed v q [])

-- The check8 warning of a value.
abbrev pub byte_report : ℕ → List Message
byte_report v = if check8 v then [] else truncated_to_8bit v ∷ []

abbrev pub pair_value : ℕ → ℕ → List ℕ → Outcome
pair_value hi lo p = parsed (hi % 2 ^ 8 * 2 ^ 8 + lo % 2 ^ 8) p (byte_report hi ++ byte_report lo)

-- `pair(hi, lo)` behind its name.
unfoldable pub pair_operand : Parser → List ℕ → Outcome
pair_operand entry p =
    let n = need_char b'(' p in
    if n.oper == 0
    then failed n.rest []
    else expect b',' [] (entry n.rest) (λ hi q. expect b')' [] (entry q) (pair_value hi))

-- `if (cmphstr(p, word, true)) { … if (ok) return 1; p = oldP; }` and what follows.
abbrev pub attempt : List ℕ → Parser → List ℕ → Outcome → Outcome
attempt word operand p otherwise = elim (cmphstr word true p) [
  | none ↦ otherwise
  | some q ↦ or_else (operand q) otherwise
]

-- The operators of a unary expression, and ParseExpPrim without one.
unfoldable pub unary_operand : State → Parser → Parser → Parser
unary_operand s unair prim p =
    let n = unary_oper p in
    if n.oper == 0
    then prim n.rest
    else and_then (unair n.rest) (λ right q. parsed (unary_value s.undefined n.oper right) q [])

-- ParseExpUnair over the parsers that it calls.
unfoldable pub unair_body : State → Bool → Parser → Parser → Parser → Parser → Parser
unair_body s offset unair prim no_offset_prim entry start =
    let p = skip_blanks start in
    attempt (b'n' ∷ b'o' ∷ b'r' ∷ b'e' ∷ b'l' ∷ []) no_offset_prim p (
      attempt (b'e' ∷ b'x' ∷ b'i' ∷ b's' ∷ b't' ∷ []) (label_operand (s.label_exist offset)) p (
        attempt (b's' ∷ b'i' ∷ b'z' ∷ b'e' ∷ b'o' ∷ b'f' ∷ [])
          (label_operand (s.get_label_size offset)) p
          (elim (cmphstr (b'p' ∷ b'a' ∷ b'i' ∷ b'r' ∷ []) true p) [
            | some q ↦ back_to p (pair_operand entry q)
            | none ↦ unary_operand s unair prim p
          ])))

-- ParseExpUnair. The Boolean is areLabelsOffset; fuel bounds the nesting of operators and parentheses.
unfoldable pub parse_exp_unair : State → ℕ → Bool → Parser
parse_exp_unair s zero offset p = out_of_fuel
parse_exp_unair s (suc fuel) offset p =
    let unair = parse_exp_unair s fuel offset in
    let entry = parse_exp_log_or s unair in
    let no_offset_entry = parse_exp_log_or s (parse_exp_unair s fuel false) in
    unair_body s offset unair (parse_exp_prim s offset entry no_offset_entry)
      (parse_exp_prim s false no_offset_entry no_offset_entry) entry p

-- ParseExpressionEntry; a failure leaves the value 0.
unfoldable pub parse_expression_entry : State → Bool → Parser
parse_expression_entry s offset p = parse_exp_log_or s (parse_exp_unair s (suc (length p)) offset) p

-- deltaType for the values of the two runs.
unfoldable pub delta_of : RelocationType → ℕ → ℕ → ℕ → RelocationType
delta_of type alternative_offset alternative_val val =
    let delta = (alternative_val + (2 ^ 32 - val)) % 2 ^ 32 in
    if alternative_offset == delta
    then regular
    else elim type [ high ↦ if alternative_offset / 2 ^ 8 == delta then high else off | _ ↦ off ]

-- The comparison at the end of ParseExpression, with the run for the alternative first.
unfoldable pub compare_runs : Outcome → Outcome → Relocation → Relocation
compare_runs (parsed a q ms) (parsed v p ms') r = record r {
  is_result_affected = r.is_result_affected || not (a == v);
  delta_type = delta_of r.type r.alternative_offset a v;
}
compare_runs alternative_run run r = r

abbrev pub reports_of : Outcome → List Message
reports_of (parsed v p ms) = ms
reports_of (failed p ms) = ms
reports_of out_of_fuel = []

-- ParseExpression.
unfoldable pub parse_expression : State → List ℕ → Outcome × Relocation
parse_expression s p =
    let r = s.relocation in
    let run = parse_expression_entry s false p in
    let alternative_run = parse_expression_entry (record s { synerr = false }) true p in
    if is_active r.type
    then (after (reports_of alternative_run) run, compare_runs alternative_run run r)
    else (run, r)

unfoldable pub parse_expression_no_syntax_error : State → List ℕ → Outcome × Relocation
parse_expression_no_syntax_error s = parse_expression (record s { synerr = false })

-- OpenBracket, for the types that it knows, with the pointer behind an opened bracket.
pub data BracketType : Type 0 where
  bt_none bt_round bt_square : BracketType

unfoldable pub open_bracket : ℕ → List ℕ → BracketType × List ℕ
open_bracket memory_brackets p =
    let q = skip_blanks p in
    if memory_brackets == 2 && head q == b'('
    then (bt_none, q)
    else if head q == b'('
    then (bt_round, drop 1 q)
    else if head q == b'['
    then (bt_square, drop 1 q)
    else (bt_none, q)

-- The loop of ParenthesesEnd behind the blanks: `none` is a null pointer.
unfoldable pub matching_end : ℕ → List ℕ → Option (List ℕ)
matching_end depth [] = none
matching_end depth (c ∷ p) =
    let opened = matching_end (suc depth) p in
    let closed = matching_end (depth - 1) p in
    let same = matching_end depth p in
    if c == 0
    then none
    else if c == b'('
    then opened
    else if c == b')'
    then if depth == 1 then some (skip_blanks p) else closed
    else same

unfoldable pub parentheses_end : List ℕ → Option (List ℕ)
parentheses_end p = let q = skip_blanks p in if head q == b'(' then matching_end 0 q else none

-- The results 1, 2 and 0 of ParseExpressionMemAccess, with the pointer and the reports.
pub data Operand : Type 0 where
  value_operand memory_operand : ℕ → List ℕ → List Message → Operand
  no_operand : List ℕ → List Message → Operand

-- Two pointers into one text are equal when as much is left behind them.
abbrev same_pointer : Option (List ℕ) → List ℕ → Bool
same_pointer none p = false
same_pointer (some q) p = length q == length p

abbrev bracketed : BracketType → List ℕ → Outcome → Operand
bracketed bt_none start (parsed v p ms) = value_operand v p ms
bracketed bt_round start (parsed v p ms) =
    if same_pointer (parentheses_end start) p then memory_operand v p ms else value_operand v p ms
bracketed bt_square start (parsed v p ms) =
    let n = need_char b']' p in
    if n.oper == 0 then no_operand n.rest ms else memory_operand v n.rest ms
bracketed bt start (failed p ms) = no_operand p ms
bracketed bt start out_of_fuel = no_operand start []

abbrev operand_start : BracketType → List ℕ → List ℕ → List ℕ
operand_start bt_round p q = skip_blanks p
operand_start bt p q = q

-- ParseExpressionMemAccess.
unfoldable pub parse_expression_mem_access : State → ℕ → List ℕ → Operand × Relocation
parse_expression_mem_access s memory_brackets p =
    let (bt, q) = open_bracket memory_brackets p in
    let start = operand_start bt p q in
    let (o, r) = parse_expression s start in (bracketed bt start o, r)

-- ParseAlignArguments: `none` is the value -1. The pointer is that of the line.
pub record Align : Type 0 where
  pub alignment : Option ℕ
  pub fill : Option ℕ
  pub rest : List ℕ
  pub reports : List Message

abbrev is_power_of_two : ℕ → Bool
is_power_of_two v = bit_and v (v - 1) == 0

unfoldable pub align_fill : ℕ → List ℕ → Outcome → List Message → Align
align_fill alignment p (parsed v q ms) before =
    if signed_ltb v 0 || signed_ltb 255 v
    then record {
      alignment = some alignment;
      fill = none;
      rest = q;
      reports = before ++ ms ++ (illegal_fill ∷ []);
    }
    else record { alignment = some alignment; fill = some v; rest = q; reports = before ++ ms }
align_fill alignment p (failed q ms) before = record {
  alignment = some alignment;
  fill = none;
  rest = q;
  reports = before ++ ms ++ (fill_expected ∷ []);
}
align_fill alignment p out_of_fuel before = record {
  alignment = none;
  fill = none;
  rest = p;
  reports = before;
}

abbrev align_report : State → List Message
align_report s = if is_active s.relocation.type then relocatable_align ∷ [] else []

unfoldable pub align_value : State → Outcome → Align
align_value s (parsed v q ms) =
    let reports = ms ++ align_report s in
    let n = comma q in
    if signed_ltb v 1 || signed_ltb (2 ^ 15) v || not (is_power_of_two v)
    then record {
      alignment = some 0;
      fill = none;
      rest = q;
      reports = reports ++ (illegal_align ∷ []);
    }
    else if n.oper == 0
    then record { alignment = some v; fill = none; rest = n.rest; reports = reports }
    else align_fill v n.rest (parse_expression_entry s false n.rest) reports
align_value s (failed q ms) = record { alignment = none; fill = none; rest = q; reports = ms }
align_value s out_of_fuel = record { alignment = none; fill = none; rest = []; reports = [] }

unfoldable pub parse_align_arguments : State → List ℕ → Align × Relocation
parse_align_arguments s p = let (o, r) = parse_expression s (skip_blanks p) in (align_value s o, r)
