-- ===== src/Expression/Primary.antt =====
-- ParseExpPrim of sjasm/parser.cpp ends where the expressions in its brackets do.
use sjasmplus.Common.{
  ℕ, suc, ◌+◌, ◌≤◌, ◌<◌, ◌≡◌, refl, Bool, true, false, ◌&&◌, ◌||◌, Option, none, some, List, [],
  ◌∷◌, if◌then◌else◌, ◌==◌, length, drop, arith,
}
use sjasmplus.Reader.Chars.{is_digit, head, skip_blanks}
use sjasmplus.Reader.CharConst.{get_char_const}
use sjasmplus.Reader.Words.{cmphstr, need_char, is_label_start}
use sjasmplus.Reader.Outcome.{
  Message, deprecated_operator, brace_expected, outside_of_memory, Outcome, parsed, failed,
  out_of_fuel, after, Parser,
}
use sjasmplus.Reader.Progress.{
  length-drop_le, length-skip_blanks, head-less, need_char-IsStep, word-less,
}
use sjasmplus.Reader.Within.{IsWithin, le-IsWithin, after-IsWithin, and_then-IsWithin, if-IsWithin}
use sjasmplus.TemporaryLabels.Read.{get_temporary_label_value}
use sjasmplus.Expression.{State}
use sjasmplus.Expression.Arithmetic.{signed_ltb}
use sjasmplus.Expression.Parse.{
  expect, has_device, memory_value, read_bytes, read_memory, after_byte_mark, has_mark,
  parse_memory_operand, offset_of, is_displaced, dollars, syntax_report, parse_value, starts_number,
  parse_numbered, close_parenthesis, parse_exp_prim,
}
use sjasmplus.Expression.Entry.{pair_value, pair_operand}
use sjasmplus.Expression.Levels.{EndsBelow}
use sjasmplus.Expression.Values.{of_constant-IsWithin, get_char_const-IsWithin}
use sjasmplus.Expression.Numbered.{get_temporary_label_value-IsWithin}

-- A reader of labels that ends and leaves a tail of its text.
abbrev pub IsTail : (Bool → Parser) → Type 0
IsTail read = (offset : Bool) (p : List ℕ) → IsWithin (length p) (read offset p)

-- The functions of the label table are such readers.
pub record HasLabelReaders (s : State) : Type 0 where
  pub value_tail : IsTail s.get_label_value
  pub page_tail : IsTail s.get_label_page
  pub ph_page_tail : IsTail s.get_label_ph_page
  pub ph_value_tail : IsTail s.get_label_ph_value
  pub exist_tail : IsTail s.label_exist
  pub size_tail : IsTail s.get_label_size

module _ (s : State) (readers : HasLabelReaders s) (offset : Bool) where
  tail_at :
      (read : Bool → Parser) (n : ℕ) (p : List ℕ)
      → IsTail read
      → IsWithin (length p) (read offset (drop n p))
  tail_at read n p tail =
      le-IsWithin (length (drop n p)) (length p) _ (length-drop_le n p) (tail offset (drop n p))

  string-IsWithin :
      (n : ℕ) (o : Outcome)
      → IsWithin n o
      → IsWithin n (elim o [
        | parsed v q ms ↦ parsed v q ms
        | failed q ms ↦ after ms (syntax_report s q)
        | out_of_fuel ↦ out_of_fuel
      ])
  string-IsWithin n (parsed v q ms) h = h
  string-IsWithin n (failed q ms) h = h
  string-IsWithin n out_of_fuel h = h

  parse_value-IsWithin : (p : List ℕ) → IsWithin (length p) (parse_value s offset p)
  unfolding parse_value
  parse_value-IsWithin p =
      let n = length p in
      if-IsWithin n (starts_number p) _ _ (λ _. of_constant-IsWithin 0 p)
        (λ _.
          if-IsWithin n (is_label_start p) _ _ (λ _. readers.value_tail offset p)
            (λ _.
              if-IsWithin n (head p == b'?' && is_label_start (drop 1 p)) _ _
                (λ _.
                  after-IsWithin n (deprecated_operator ∷ []) _
                    (tail_at s.get_label_value 1 p readers.value_tail))
                (λ _.
                  if-IsWithin n (dollars 4 p && is_label_start (drop 4 p)) _ _
                    (λ _. tail_at s.get_label_ph_page 4 p readers.ph_page_tail)
                    (λ _.
                      if-IsWithin n (dollars 3 p && is_label_start (drop 3 p)) _ _
                        (λ _. tail_at s.get_label_ph_value 3 p readers.ph_value_tail)
                        (λ _.
                          if-IsWithin n (is_displaced s.pseudo_org && dollars 3 p) _ _
                            (λ _.
                              if-IsWithin n (head (drop 3 p) == b'$') _ _ (λ _. length-drop_le 4 p)
                                (λ _. length-drop_le 3 p))
                            (λ _.
                              if-IsWithin n (has_device s && dollars 2 p) _ _
                                (λ _.
                                  if-IsWithin n (is_label_start (drop 2 p)) _ _
                                    (λ _. tail_at s.get_label_page 2 p readers.page_tail)
                                    (λ _. length-drop_le 2 p))
                                (λ _.
                                  if-IsWithin n (head p == b'$') _ _ (λ _. length-drop_le 1 p)
                                    (λ _.
                                      string-IsWithin n (get_char_const p)
                                        (get_char_const-IsWithin p)))))))))

  parse_numbered-IsWithin : (p : List ℕ) → IsWithin (length p) (parse_numbered s offset p)
  unfolding parse_numbered
  parse_numbered-IsWithin p =
      by_label (get_temporary_label_value (offset_of s offset) s.is_last_pass s.temporary_labels p)
        (get_temporary_label_value-IsWithin _ _ _ p)
    where
      by_label :
          (o : Outcome)
          → IsWithin (length p) o
          → IsWithin (length p) (elim o [
            | parsed v q ms ↦ parsed v q ms
            | failed q ms ↦ after ms (parse_value s offset q)
            | out_of_fuel ↦ out_of_fuel
          ])
      by_label (parsed v q ms) h = h
      by_label (failed q ms) h =
          after-IsWithin (length p) ms _
            (le-IsWithin (length q) (length p) _ h (parse_value-IsWithin q))
      by_label out_of_fuel h = h

close_parenthesis-IsWithin : (n : ℕ) (o : Outcome) → IsWithin n o → IsWithin n (close_parenthesis o)
unfolding close_parenthesis
close_parenthesis-IsWithin n (parsed v p ms) h =
    let m = need_char b')' p in
    let step = need_char-IsStep b')' p refl in
    if-IsWithin n (m.oper == 0) _ _ (λ _. omega (arith, h, step.0)) (λ _. omega (arith, h, step.0))
close_parenthesis-IsWithin n (failed p ms) h =
    let m = need_char b')' p in
    let step = need_char-IsStep b')' p refl in
    if-IsWithin n (m.oper == 0) _ _ (λ _. omega (arith, h, step.0)) (λ _. omega (arith, h, step.0))
close_parenthesis-IsWithin n out_of_fuel h = h

-- The expected character, then what follows, which gets less text than was left.
pub expect-IsWithin :
    (c n : ℕ) (ms : List Message) (o : Outcome) (next : ℕ → List ℕ → Outcome)
    → (c == 0) ≡ false
    → IsWithin n o
    → ((v : ℕ) (p : List ℕ) → length p < n → IsWithin n (next v p))
    → IsWithin n (expect c ms o next)
expect-IsWithin c n ms o next e h k = and_then-IsWithin n o _ h (λ v p lt.
    let m = need_char c p in
    let step = need_char-IsStep c p e in
    if-IsWithin n (m.oper == 0) _ _ (λ _. omega (arith, lt, step.0))
      (λ g. k v m.rest (omega (arith, lt, step.1 g))))

length-byte_mark :
    (p : List ℕ) (o : Option (List ℕ))
    → ((q : List ℕ) → o ≡ some q → length q < length p)
    → length (after_byte_mark p o) ≤ length p
length-byte_mark p none h = omega arith
length-byte_mark p (some q) h = omega (arith, h q refl)

module _ (s : State) (size : ℕ) (entry : Parser) (ends : EndsBelow size entry) where
  parse_memory_operand-EndsBelow : EndsBelow size (parse_memory_operand s entry)
  unfolding parse_memory_operand
  parse_memory_operand-EndsBelow p below =
      let n = length p in
      let byte = cmphstr (b'b' ∷ []) false p in
      let q = after_byte_mark p byte in
      let shorter = length-byte_mark p byte (λ q e. word-less (b'b' ∷ []) false p q refl e) in
      expect-IsWithin b'}' n (brace_expected ∷ []) (entry q) (read_memory s (has_mark byte)) refl
        (le-IsWithin (length q) n _ shorter (ends q (omega (arith, shorter, below))))
        (λ v r lt.
          if-IsWithin n (signed_ltb v 0 || signed_ltb (0xFFFE + (if has_mark byte then 1 else 0)) v)
            (parsed 0 r (outside_of_memory ∷ [])) (read_bytes r (memory_value s (has_mark byte) v))
            (λ _. omega (arith, lt)) (λ _. omega (arith, lt)))

  pub pair_operand-EndsBelow : EndsBelow size (pair_operand entry)
  unfolding pair_operand
  pair_operand-EndsBelow p below =
      let n = length p in
      let m = need_char b'(' p in
      let step = need_char-IsStep b'(' p refl in
      let within : (q : List ℕ) → length q ≤ n → IsWithin n (entry q) =
        λ q le. le-IsWithin (length q) n _ le (ends q (omega (arith, le, below))) in
      if-IsWithin n (m.oper == 0) _ _ (λ _. step.0)
        (λ _.
          expect-IsWithin b',' n [] (entry m.rest)
            (λ hi q. expect b')' [] (entry q) (pair_value hi)) refl (within m.rest step.0)
            (λ hi q lt.
              expect-IsWithin b')' n [] (entry q) (pair_value hi) refl
                (within q (omega (arith, lt))) (λ lo r lt'. omega (arith, lt'))))

module _ (s : State) (readers : HasLabelReaders s) (size : ℕ) (entry no_offset_entry : Parser)
    (ends : EndsBelow size entry) (no_offset_ends : EndsBelow size no_offset_entry) where
  pub parse_exp_prim-EndsBelow :
      (offset : Bool) → EndsBelow (suc size) (parse_exp_prim s offset entry no_offset_entry)
  unfolding parse_exp_prim
  parse_exp_prim-EndsBelow offset start below =
      let n = length start in
      let p = skip_blanks start in
      let shorter = length-skip_blanks start in
      let inside : (c : ℕ) → (head p == c) ≡ true → (c == 0) ≡ false → length (drop 1 p) < n =
        λ c h e. omega (arith, head-less p c h e, shorter) in
      let within : (o : Outcome) → IsWithin (length p) o → IsWithin n o =
        λ o h. le-IsWithin (length p) n o shorter h in
      if-IsWithin n (head p == 0) _ _ (λ _. shorter)
        (λ _.
          if-IsWithin n (head p == b'(') _ _
            (λ h.
              let lt = inside b'(' h refl in
              close_parenthesis-IsWithin n _ (
                le-IsWithin (length (drop 1 p)) n _ (omega (arith, lt))
                  (ends (drop 1 p) (omega (arith, lt, below)))))
            (λ _.
              if-IsWithin n (has_device s && head p == b'{') _ _
                (λ h.
                  let lt = inside b'{' (ground (arith, h)) refl in
                  le-IsWithin (length (drop 1 p)) n _ (omega (arith, lt)) (
                    parse_memory_operand-EndsBelow s size no_offset_entry no_offset_ends (drop 1 p)
                      (omega (arith, lt, below))))
                (λ _.
                  if-IsWithin n (is_digit (head p)) _ _
                    (λ _. within _ (parse_numbered-IsWithin s readers offset p))
                    (λ _. within _ (parse_value-IsWithin s readers offset p)))))
