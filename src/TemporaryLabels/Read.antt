-- ===== src/TemporaryLabels/Read.antt =====
-- A temporary label in an expression or behind a jump: GetTemporaryLabelValue of sjasm/tables.cpp.
use sjasmplus.Common.{
  ℕ, suc, ◌+◌, ◌%◌, ◌^◌, Bool, true, false, not, ◌&&◌, Option, none, some, List, [], ◌∷◌,
  if◌then◌else◌, ◌==◌, drop, bit_or,
}
use sjasmplus.Reader.Chars.{is_digit, head, skip_blanks}
use sjasmplus.Reader.Literal.{NumericError, get_numeric_value_int_based}
use sjasmplus.Reader.Words.{islabchar}
use sjasmplus.Reader.Outcome.{missing_label, Outcome, parsed, failed}
use sjasmplus.TemporaryLabels.{TemporaryLabel, Table, seek_forward, seek_back}
use sjasmplus.Relocation.{Relocation, off, regular}

-- The text is no temporary label, with the pointer that is left; or the label that it names, if the
-- table has it.
pub data Reading : Type 0 where
  no_label : List ℕ → Reading
  label : Option TemporaryLabel → List ℕ → Reading

unfoldable pub count_digits : List ℕ → ℕ
count_digits [] = 0
count_digits (c ∷ p) = let rest = count_digits p in if is_digit c then suc rest else 0

abbrev pub by_number : Option NumericError → List ℕ → Reading → Reading
by_number none p r = r
by_number (some e) p r = no_label p

-- The text of digits from `number` on, whose value is read; a number that overflows leaves the pointer
-- behind the digits.
abbrev pub find_label : ℕ → ℕ → Table → List ℕ → Reading
find_label type size t number =
    let s = get_numeric_value_int_based 10 size number in
    let q = if head s.rest == b'_' then drop 1 s.rest else s.rest in
    by_number s.last_err s.rest
      (label (if type == b'b' then seek_back s.val t else seek_forward s.val t) (drop 1 q))

-- The pointer is at the digits, and `size` of them follow.
abbrev pub suffixed_label : Bool → ℕ → Table → List ℕ → List ℕ → Reading
suffixed_label require_underscore size t op number =
    let p = drop size number in
    let has_underscore = head p == b'_' in
    let q = if has_underscore then drop 1 p else p in
    let type = bit_or (head q) 0x20 in
    if require_underscore && not has_underscore
    then no_label op
    else if not (type == b'b') && not (type == b'f')
    then no_label op
    else if islabchar (head (drop 1 q))
    then no_label op
    else find_label type size t number

unfoldable pub read_temporary_label : Bool → Table → List ℕ → Reading
read_temporary_label require_underscore t op =
    let p = skip_blanks op in
    if is_digit (head p)
    then suffixed_label require_underscore (count_digits p) t op p
    else no_label op

abbrev pub missing : Bool → List ℕ → Outcome
missing is_last_pass p = parsed 0 p (if is_last_pass then missing_label ∷ [] else [])

-- `offset` is Relocation::alternative_offset where areLabelsOffset is set, else 0.
abbrev pub temporary_value : ℕ → Bool → Reading → Outcome
temporary_value offset is_last_pass (no_label p) = failed p []
temporary_value offset is_last_pass (label none p) = missing is_last_pass p
temporary_value offset is_last_pass (label (some l) p) =
    parsed (if l.is_relocatable then (l.value + offset) % 2 ^ 32 else l.value) p []

-- With requireUnderscore.
unfoldable pub get_temporary_label_value : ℕ → Bool → Table → List ℕ → Outcome
get_temporary_label_value offset is_last_pass t op =
    temporary_value offset is_last_pass (read_temporary_label true t op)

-- Without: the relocation of a jump's only operand is that of the label.
unfoldable pub get_jump_label : Bool → Table → Relocation → List ℕ → Outcome × Relocation
get_jump_label is_last_pass t r op = elim (read_temporary_label false t op) [
  | no_label p ↦ (failed p [], r)
  | label none p ↦ (missing is_last_pass p, r)
  | label (some l) p ↦ (
    parsed l.value p [],
    record r {
      is_result_affected = l.is_relocatable;
      delta_type = if l.is_relocatable then regular else off;
    },
  )
]
