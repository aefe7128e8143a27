-- ===== src/Reader/Literal/Examples.antt =====
-- Literals of the assembler's documentation, and theorems about literals at concrete inputs.
use Prim.Native.String.{String}
use Prim.Native.Char.{code}
use sjasmplus.Common.{
  ℕ, ◌%◌, ◌^◌, ◌≤◌, ◌<◌, ◌≡◌, ◌≢◌, ◌⊎◌, inr, refl, true, none, some, List, [], ◌∷◌, ◌++◌, ltb,
  if◌then◌else◌, arith,
}
use sjasmplus.Hex.{print_hex}
use sjasmplus.Reader.Literal.Value.{
  Spells, done, plain, grouped, numeral, get_numeric_value_two_based_exact,
  get_numeric_value_int_based_sound, get_numeric_value_int_based_misses,
}
use sjasmplus.Reader.Literal.Prefixed.{zero_x, prefix_text, get_constant-prefix_text}
use sjasmplus.Reader.Literal.Printed.{get_constant-print_hex}
use sjasmplus.Reader.Chars.{getval}
use sjasmplus.Reader.Literal.{
  scan_digits, scan_number, get_numeric_value_two_based, get_numeric_value_int_based, literal_size,
  suffix_format, format, scan_format, skip_decimal_part, finish_constant, get_constant, error,
  overflow, non_zero_decimal,
}

abbrev codes : String → List ℕ
codes String.[] = []
codes (String.◌∷◌ c s) = code c ∷ codes s

-- Everything that a literal computes with.
whole_literal : ℕ
unfolding get_constant finish_constant skip_decimal_part scan_format format suffix_format
    literal_size get_numeric_value_int_based get_numeric_value_two_based scan_number scan_digits
    getval
whole_literal = 0

hexadecimal :
    get_constant 0 (codes "0b800h,")
    ≡ record { parsed = true; val = 0xB800; op = codes ","; reports = [] }
unfolding whole_literal
hexadecimal = refl

ticks : (get_constant 0 (codes "%1010'0101")).val ≡ 0xA5
unfolding whole_literal
ticks = refl

fraction :
    get_constant 0 (codes "12.50 ")
    ≡ record { parsed = true; val = 12; op = codes " "; reports = non_zero_decimal ∷ [] }
unfolding whole_literal
fraction = refl

-- Ten nines do not fit 32 bits, and no overflow is reported.
ten_nines :
    get_constant 0 (codes "9999999999")
    ≡ record { parsed = true; val = 1410065407; op = []; reports = [] }
unfolding whole_literal
ten_nines = refl

abbrev octets : List ℕ
octets = codes "1'0"

octets-Spells : (b : ℕ) → 1 < b → Spells b octets (getval b'1' ∷ getval b'0' ∷ [])
unfolding getval
octets-Spells b h = plain b'1' refl h (grouped 39 b'0' refl refl (omega arith) done)

get_numeric_value_two_based_exact_example :
    get_numeric_value_two_based 4 3 (codes "1'0,") ≡ record {
      val = numeral 16 (getval b'1' ∷ getval b'0' ∷ []) % 2 ^ 32;
      last_err =
          if ltb (numeral 16 (getval b'1' ∷ getval b'0' ∷ [])) (2 ^ 32)
          then none
          else some overflow;
      rest = codes ",";
    }
get_numeric_value_two_based_exact_example =
    get_numeric_value_two_based_exact 4 octets (getval b'1' ∷ getval b'0' ∷ []) (codes ",")
      (inr (inr refl)) (octets-Spells 16 (omega arith)) (omega arith)

get_numeric_value_int_based_sound_example :
    let t = numeral 10 (getval b'1' ∷ getval b'0' ∷ []) in
    let s = get_numeric_value_int_based 10 3 (codes "1'0,") in
    (s.val ≡ t % 2 ^ 32)
    × (s.rest ≡ codes ",")
    × ((s.last_err ≡ none) ⊎ (s.last_err ≡ some overflow) × (2 ^ 32 ≤ t))
get_numeric_value_int_based_sound_example =
    get_numeric_value_int_based_sound octets (getval b'1' ∷ getval b'0' ∷ []) (codes ",")
      (octets-Spells 10 (omega arith)) (omega arith)

abbrev nine : ℕ
nine = getval b'9'

abbrev nine_nines : List ℕ
nine_nines = codes "999999999"

abbrev nine_digits : List ℕ
nine_digits = nine ∷ nine ∷ nine ∷ nine ∷ nine ∷ nine ∷ nine ∷ nine ∷ nine ∷ []

nine_nines-Spells : Spells 10 nine_nines nine_digits
unfolding getval
nine_nines-Spells = more (more (more (more (more (more (more (more (more done))))))))
  where
    more : {p ds : List ℕ} → Spells 10 p ds → Spells 10 (b'9' ∷ p) (nine ∷ ds)
    more sp = plain b'9' refl (omega arith) sp

get_numeric_value_int_based_misses_example :
    let s = get_numeric_value_int_based 10 10 (codes "9999999999,") in
    (s.last_err ≡ none) × (s.val ≢ numeral 10 (nine_digits ++ (nine ∷ [])))
get_numeric_value_int_based_misses_example =
    get_numeric_value_int_based_misses nine_nines nine_digits (codes ",") b'9' nine_nines-Spells
      refl (unfold getval in omega arith) (unfold numeral getval in omega arith)
      (unfold numeral getval in omega arith) (unfold numeral getval in omega arith)

get_constant-prefix_text_example :
    get_constant 7 (prefix_text zero_x ++ (octets ++ codes ",")) ≡ record {
      parsed = true;
      val = numeral 16 (getval b'1' ∷ getval b'0' ∷ []) % 2 ^ 32;
      op = codes ",";
      reports =
          if ltb (numeral 16 (getval b'1' ∷ getval b'0' ∷ [])) (2 ^ 32)
          then []
          else error overflow ∷ [];
    }
get_constant-prefix_text_example =
    get_constant-prefix_text zero_x 7 octets (getval b'1' ∷ getval b'0' ∷ []) (codes ",")
      (octets-Spells 16 (omega arith)) (omega arith) refl (refl, refl, (λ e. omega arith))

get_constant-print_hex_example :
    get_constant 7 (b'#' ∷ (print_hex 4 0xC0DE ++ codes " ;"))
    ≡ record { parsed = true; val = 0xC0DE; op = codes " ;"; reports = [] }
get_constant-print_hex_example =
    get_constant-print_hex 4 0xC0DE 7 (codes " ;") (omega arith) (omega arith) (omega arith)
      (refl, refl, (λ e. omega arith))
