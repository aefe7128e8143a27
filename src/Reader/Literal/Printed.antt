-- ===== src/Reader/Literal/Printed.antt =====
-- What PrintHex of sjasm/sjio.cpp prints, read by GetConstant of sjasm/reader.cpp.
use sjasmplus.Common.{
  ℕ, zero, suc, ◌/◌, ◌%◌, ◌^◌, ◌≤◌, ◌<◌, ◌≡◌, refl, true, List, [], ◌∷◌, ◌++◌, lt→ltb, ◌∙◌, length,
  length-append, arith,
}
use sjasmplus.Hex.{hex_digit, print_hex}
use sjasmplus.Reader.Chars.{is_alnum, head, getval, getval-alnum}
use sjasmplus.Reader.Literal.{get_constant}
use sjasmplus.Reader.Literal.Value.{
  Spells, done, numeral, numeral-nil, numeral-append, Spells-append,
}
use sjasmplus.Reader.Literal.Prefixed.{hash, IsBreak, alnum_no_separator, get_constant-prefix_text}
use native.Mathlib.Nat.{pow-suc, mod-eq_of_lt, le_trans, pow-le-pow_right}

hex_digit-alnum : (d : ℕ) → d < 16 → is_alnum (hex_digit d) ≡ true
unfolding hex_digit
hex_digit-alnum d h = ground arith

getval-hex_digit : (d : ℕ) → d < 16 → getval (hex_digit d) ≡ d
unfolding hex_digit
getval-hex_digit d h = ground (arith, getval-alnum (hex_digit d) (hex_digit-alnum d h))

print_hex-Spells :
    (n v : ℕ) → v < 16 ^ n → (ds : List ℕ) × Spells 16 (print_hex n v) ds × (numeral 16 ds ≡ v)
unfolding print_hex
print_hex-Spells zero v h = ([], done, omega (arith, numeral-nil 16))
print_hex-Spells (suc n) v h =
    let low : v % 16 < 16 = omega arith in
    let (ds, sp, e) = print_hex-Spells n (v / 16) (omega (arith, pow-suc 16 n)) in
    let digit = getval-hex_digit (v % 16) low in
    (
      ds ++ (getval (hex_digit (v % 16)) ∷ []),
      Spells-append 16 (hex_digit (v % 16)) (hex_digit-alnum (v % 16) low) (rw digit low) sp,
      omega (arith, numeral-append 16 ds (getval (hex_digit (v % 16))), e, digit),
    )

length-print_hex : (n v : ℕ) → length (print_hex n v) ≡ n
unfolding print_hex
length-print_hex zero v = refl
length-print_hex (suc n) v = omega (
  arith,
  length-append (print_hex n (v / 16)) (hex_digit (v % 16) ∷ []),
  length-print_hex n (v / 16),
)

pub head-print_hex : (n v : ℕ) → is_alnum (head (print_hex (suc n) v)) ≡ true
unfolding print_hex
head-print_hex zero v = hex_digit-alnum (v % 16) (omega arith)
head-print_hex (suc n) v =
    head-append (print_hex (suc n) (v / 16)) (hex_digit (v % 16)) (head-print_hex n (v / 16))
  where
    head-append :
        (p : List ℕ) (c : ℕ) → is_alnum (head p) ≡ true → is_alnum (head (p ++ (c ∷ []))) ≡ true
    head-append [] c h = cc
    head-append (x ∷ p) c h = h

below_word : (n v : ℕ) → n ≤ 8 → v < 16 ^ n → v < 2 ^ 32
below_word n v h lt = le_trans lt (pow-le-pow_right {n = 16} (omega arith) h)

-- A value of 1 to 8 nibbles that PrintHex prints is read back by GetConstant after a `#`, up to a
-- character that ends the literal, with no report.
pub get_constant-print_hex :
    (nibbles v old_val : ℕ) (rest : List ℕ)
    → 0 < nibbles
    → nibbles ≤ 8
    → v < 16 ^ nibbles
    → IsBreak (head rest)
    → get_constant old_val (b'#' ∷ (print_hex nibbles v ++ rest))
      ≡ record { parsed = true; val = v; op = rest; reports = [] }
get_constant-print_hex zero v old_val rest pos small fits break = elim pos [ ]
get_constant-print_hex (suc n) v old_val rest pos small fits break =
    let (ds, sp, e) = print_hex-Spells (suc n) v fits in
    let low : v < 2 ^ 32 = below_word (suc n) v small fits in
    let plain = alnum_no_separator (head (print_hex (suc n) v)) (head-print_hex n v) in
    get_constant-prefix_text hash old_val (print_hex (suc n) v) ds rest sp
      (omega (arith, length-print_hex (suc n) v)) plain break
    ∙ rw (e, lt→ltb v (2 ^ 32) low, mod-eq_of_lt low)
