-- ===== src/Expression/Termination.antt =====
-- The evaluator of sjasm/parser.cpp ends for every text: fuel for each character is enough.
use sjasmplus.Common.{
  ℕ, zero, suc, ◌≤◌, ◌<◌, ◌≡◌, refl, Bool, true, false, Option, none, some, List, [], ◌∷◌, ◌==◌,
  length, arith,
}
use sjasmplus.Reader.Chars.{skip_blanks}
use sjasmplus.Reader.Words.{cmphstr, need_char, is_label_start}
use sjasmplus.Reader.Outcome.{Outcome, parsed, or_else, back_to, Parser}
use sjasmplus.Reader.Progress.{length-skip_blanks, need_char-IsStep, starts, word-less}
use sjasmplus.Reader.Within.{
  IsWithin, le-IsWithin, and_then-IsWithin, or_else-IsWithin, back_to-IsWithin, if-IsWithin,
}
use sjasmplus.Expression.{State}
use sjasmplus.Expression.Operators.{unary_oper, unary_value}
use sjasmplus.Expression.Parse.{}
use sjasmplus.Expression.Entry.{
  label_operand, pair_operand, attempt, unary_operand, unair_body, parse_exp_unair,
  parse_expression_entry,
}
use sjasmplus.Expression.Levels.{EndsBelow, unary_oper-IsLexer, parse_exp_log_or-EndsBelow}
use sjasmplus.Expression.Primary.{
  IsTail, HasLabelReaders, expect-IsWithin, pair_operand-EndsBelow, parse_exp_prim-EndsBelow,
}

label_operand-IsWithin :
    (read : Parser) (p : List ℕ)
    → ((q : List ℕ) → IsWithin (length q) (read q))
    → IsWithin (length p) (label_operand read p)
unfolding label_operand
label_operand-IsWithin read p tail =
    let n = length p in
    let m = need_char b'(' p in
    let step = need_char-IsStep b'(' p refl in
    let within = le-IsWithin (length m.rest) n _ step.0 (tail m.rest) in
    if-IsWithin n (m.oper == 0) _ _
      (λ _. if-IsWithin n (is_label_start m.rest) _ _ (λ _. within) (λ _. step.0))
      (λ _.
        expect-IsWithin b')' n [] (read m.rest) (λ v q. parsed v q []) refl within
          (λ v q lt. omega (arith, lt)))

attempt-IsWithin :
    (n : ℕ) (word : List ℕ) (operand : Parser) (p : List ℕ) (otherwise : Outcome)
    → starts word ≡ true
    → ((q : List ℕ) → length q < length p → IsWithin n (operand q))
    → IsWithin n otherwise
    → IsWithin n (attempt word operand p otherwise)
attempt-IsWithin n word operand p otherwise e h k =
    by_word (cmphstr word true p) (λ q. word-less word true p q e)
  where
    by_word :
        (o : Option (List ℕ))
        → ((q : List ℕ) → o ≡ some q → length q < length p)
        → IsWithin n (elim o [ none ↦ otherwise | some q ↦ or_else (operand q) otherwise ])
    by_word none less = k
    by_word (some q) less = or_else-IsWithin n (operand q) otherwise (h q (less q refl)) k

pair-IsWithin :
    (n : ℕ) (operand : Parser) (p : List ℕ) (otherwise : Outcome) (o : Option (List ℕ))
    → length p ≤ n
    → ((q : List ℕ) → o ≡ some q → IsWithin n (operand q))
    → IsWithin n otherwise
    → IsWithin n (elim o [ some q ↦ back_to p (operand q) | none ↦ otherwise ])
pair-IsWithin n operand p otherwise none le h k = k
pair-IsWithin n operand p otherwise (some q) le h k = back_to-IsWithin n p (operand q) le (h q refl)

module _ (s : State) (size : ℕ) (unair prim : Parser) (ends : EndsBelow size unair)
    (prim_ends : EndsBelow (suc size) prim) where
  unary_operand-EndsBelow : EndsBelow (suc size) (unary_operand s unair prim)
  unfolding unary_operand
  unary_operand-EndsBelow p below =
      let n = length p in
      let m = unary_oper p in
      let step = unary_oper-IsLexer p in
      if-IsWithin n (m.oper == 0) _ _
        (λ _.
          le-IsWithin (length m.rest) n _ step.0 (prim_ends m.rest (omega (arith, step.0, below))))
        (λ h.
          and_then-IsWithin n (unair m.rest)
            (λ right q. parsed (unary_value s.undefined m.oper right) q [])
            (le-IsWithin (length m.rest) n _ step.0 (ends m.rest (omega (arith, step.1 h, below))))
            (λ v q le. le))

  unair_body-EndsBelow :
      (readers : HasLabelReaders s) (offset : Bool) (no_offset_prim entry : Parser)
      → EndsBelow (suc size) no_offset_prim
      → EndsBelow size entry
      → EndsBelow (suc size) (unair_body s offset unair prim no_offset_prim entry)
  unfolding unair_body
  unair_body-EndsBelow readers offset no_offset_prim entry no_offset_ends entry_ends start below =
      let n = length start in
      let p = skip_blanks start in
      let shorter = length-skip_blanks start in
      let within : (q : List ℕ) (o : Outcome)
          → length q < length p
          → IsWithin (length q) o
          → IsWithin n o =
        λ q o lt. le-IsWithin (length q) n o (omega (arith, lt, shorter)) in
      let label =
        λ (read : Bool → Parser) (tail : IsTail read) (q : List ℕ) (lt : length q < length p).
          within q (label_operand (read offset) q) lt
            (label_operand-IsWithin (read offset) q (tail offset)) in
      attempt-IsWithin n _ no_offset_prim p _ refl
        (λ q lt. within q _ lt (no_offset_ends q (omega (arith, lt, shorter, below))))
        (attempt-IsWithin n _ (label_operand (s.label_exist offset)) p _ refl
          (label s.label_exist readers.exist_tail)
          (attempt-IsWithin n _ (label_operand (s.get_label_size offset)) p _ refl
            (label s.get_label_size readers.size_tail)
            (pair-IsWithin n (pair_operand entry) p _ _ shorter
              (λ q e.
                let lt = word-less (b'p' ∷ b'a' ∷ b'i' ∷ b'r' ∷ []) true p q refl e in
                within q _ lt (
                  pair_operand-EndsBelow s size entry entry_ends q
                    (omega (arith, lt, shorter, below))))
              (le-IsWithin (length p) n _ shorter
                (unary_operand-EndsBelow p (omega (arith, shorter, below)))))))

parse_exp_unair-EndsBelow :
    (s : State) (readers : HasLabelReaders s) (fuel : ℕ) (offset : Bool)
    → EndsBelow fuel (parse_exp_unair s fuel offset)
unfolding parse_exp_unair
parse_exp_unair-EndsBelow s readers zero offset p below = elim below [ ]
parse_exp_unair-EndsBelow s readers (suc fuel) offset p below =
    let at = λ (offset : Bool). parse_exp_unair-EndsBelow s readers fuel offset in
    let entry = λ (offset : Bool).
      parse_exp_log_or-EndsBelow s (parse_exp_unair s fuel offset) fuel (at offset) in
    let prim = parse_exp_prim-EndsBelow s readers fuel _ _ (entry offset) (entry false) offset in
    let no_offset_prim =
      parse_exp_prim-EndsBelow s readers fuel _ _ (entry false) (entry false) false in
    unair_body-EndsBelow s fuel _ _ (at offset) prim readers offset _ _ no_offset_prim
      (entry offset) p below

-- Fuel for every character of the text is enough for ParseExpressionEntry: it ends with a value or a
-- failure and leaves at most the text that it was given, if the functions of the label table do so.
pub parse_expression_entry-IsWithin :
    (s : State) (offset : Bool) (p : List ℕ)
    → HasLabelReaders s
    → IsWithin (length p) (parse_expression_entry s offset p)
unfolding parse_expression_entry
parse_expression_entry-IsWithin s offset p readers =
    let fuel = suc (length p) in
    parse_exp_log_or-EndsBelow s (parse_exp_unair s fuel offset) fuel
      (parse_exp_unair-EndsBelow s readers fuel offset) p (omega arith)
