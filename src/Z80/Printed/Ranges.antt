-- ===== src/Z80/Printed/Ranges.antt =====
-- The range checks of byte and word operands of sjasm/z80.cpp.
use sjasmplus.Common.{
  ℕ, ◌-◌, ◌%◌, ◌^◌, ◌<◌, ◌≡◌, refl, sym, subst, Bool, true, false, ◌||◌, List, [], ◌∷◌, ◌++◌,
  if◌then◌else◌, leb, arith,
}
use sjasmplus.Reader.Outcome.{Outcome, parsed}
use sjasmplus.Relocation.{Relocation}
use sjasmplus.Expression.Arithmetic.{check8, check16, signed_ltb, negated}
use sjasmplus.Expression.Entry.{parse_expression}
use sjasmplus.Expression.Printed.{number, print_at}
use sjasmplus.Expression.Printed.Symbols.{Follows}
use sjasmplus.Z80.{Z80Message, in_expression, byte_truncated, word_truncated, Line, at_text, report}
use sjasmplus.Z80.Operands.{after_operand, byte_of, get_byte}
use sjasmplus.Z80.Addresses.{word_of, get_word}
use sjasmplus.Z80.Printed.Immediate.{parse_expression-number}

-- The 32-bit pattern of an integer from -2^k to 2^k - 1.
abbrev pub is_in_range : ℕ → ℕ → Bool
is_in_range k v = leb v (2 ^ k - 1) || leb (2 ^ 32 - 2 ^ k) v

check8-is_in_range : (v : ℕ) → v < 2 ^ 32 → check8 v ≡ is_in_range 8 v
unfolding check8 signed_ltb negated
check8-is_in_range v h = ground (arith, h)

check16-is_in_range : (v : ℕ) → v < 2 ^ 32 → check16 v ≡ is_in_range 16 v
unfolding check16 signed_ltb negated
check16-is_in_range v h = ground (arith, h)

-- A value below 2^k of a number, the rest of the text, and the report of a number out of range.
abbrev pub IsTruncated : ℕ → Z80Message → ℕ → List ℕ → Line → ℕ × Line → Type 0
IsTruncated k m v rest l x =
    (x.0 ≡ v % 2 ^ k)
    × (x.1.text ≡ rest)
    × (x.1.reports ≡ (
        if is_in_range k v
        then l.reports ++ (in_expression [] ∷ [])
        else (l.reports ++ (in_expression [] ∷ [])) ++ (m ∷ [])))

if-reports :
    (b c : Bool) (x y : Line) (a d : List Z80Message) (p : List ℕ)
    → b ≡ c
    → x.text ≡ p
    → y.text ≡ p
    → x.reports ≡ a
    → y.reports ≡ d
    → ((if b then x else y).text ≡ p) × ((if b then x else y).reports ≡ (if c then a else d))
if-reports true true x y a d p e t u h k = (t, h)
if-reports false false x y a d p e t u h k = (u, k)
if-reports true false x y a d p e t u h k = cc e
if-reports false true x y a d p e t u h k = cc e

byte_of-IsTruncated :
    (l : Line) (x : Outcome × Relocation) (v : ℕ) (rest : List ℕ)
    → v < 2 ^ 32
    → x.0 ≡ parsed v rest []
    → IsTruncated 8 (byte_truncated v) v rest l (byte_of false l x)
byte_of-IsTruncated l (o, r) v rest fits h =
    let here = after_operand l r rest [] in
    let old = l.reports ++ (in_expression [] ∷ []) in
    let both =
      if-reports (check8 v) (is_in_range 8 v) here (report (byte_truncated v) here) old
        (old ++ (byte_truncated v ∷ [])) rest (check8-is_in_range v fits) refl refl refl refl in
    subst (λ o. IsTruncated 8 (byte_truncated v) v rest l (byte_of false l (o, r))) (sym h)
      (refl, both.0, both.1)

word_of-IsTruncated :
    (l : Line) (x : Outcome × Relocation) (v : ℕ) (rest : List ℕ)
    → v < 2 ^ 32
    → x.0 ≡ parsed v rest []
    → IsTruncated 16 (word_truncated v) v rest l (word_of l x)
word_of-IsTruncated l (o, r) v rest fits h =
    let here = after_operand l r rest [] in
    let old = l.reports ++ (in_expression [] ∷ []) in
    let both =
      if-reports (check16 v) (is_in_range 16 v) here (report (word_truncated v) here) old
        (old ++ (word_truncated v ∷ [])) rest (check16-is_in_range v fits) refl refl refl refl in
    subst (λ o. IsTruncated 16 (word_truncated v) v rest l (word_of l (o, r))) (sym h)
      (refl, both.0, both.1)

-- GetByte and GetWord of a number of 32 bits, in front of a character that ends it, is no blank and no `$` and
-- starts no operator: the value is its low byte and its low word, the pointer is behind the number, and a
-- truncation is reported exactly when the number is not the pattern of an integer from -2^8 to 2^8 - 1, and
-- from -2^16 to 2^16 - 1.
pub get_byte-number :
    (v : ℕ) (rest : List ℕ) (l : Line)
    → v < 2 ^ 32
    → Follows 11 rest
    → IsTruncated 8
        (byte_truncated v)
        v
        rest
        l
        (get_byte false (at_text (print_at 11 (number v) ++ rest) l))
      × IsTruncated 16
          (word_truncated v)
          v
          rest
          l
          (get_word (at_text (print_at 11 (number v) ++ rest) l))
unfolding get_byte get_word
get_byte-number v rest l fits f =
    let text = print_at 11 (number v) ++ rest in
    let here = at_text text l in
    let x = parse_expression l.state text in
    let read = parse_expression-number l.state v rest fits f in
    (byte_of-IsTruncated here x v rest fits read, word_of-IsTruncated here x v rest fits read)
