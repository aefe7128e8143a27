-- ===== src/Reader/Chars.antt =====
-- The character classes of ctype.h in the "C" locale, and the small readers of sjasm/reader.cpp.
use sjasmplus.Common.{
  ℕ, ◌+◌, ◌-◌, ◌≡◌, refl, Bool, true, ◌&&◌, ◌||◌, List, [], ◌∷◌, if◌then◌else◌, ltb, leb, bit_or,
  arith,
}
use sjasmplus.Common.Bits.{agree_at_all, agree_at}

abbrev pub is_digit : ℕ → Bool
is_digit c = leb b'0' c && leb c b'9'

abbrev pub is_upper : ℕ → Bool
is_upper c = leb b'A' c && leb c b'Z'

abbrev pub is_lower : ℕ → Bool
is_lower c = leb b'a' c && leb c b'z'

abbrev pub is_alpha : ℕ → Bool
is_alpha c = is_upper c || is_lower c

abbrev pub is_alnum : ℕ → Bool
is_alnum c = is_digit c || is_alpha c

abbrev pub to_upper : ℕ → ℕ
to_upper c = if is_lower c then c - 32 else c

-- The character at the pointer; the text ends with a zero.
abbrev pub head : List ℕ → ℕ
head [] = 0
head (c ∷ cs) = c

-- `White(c)`: c && (c&255) <= ' '.
abbrev pub white : ℕ → Bool
white c = leb 1 c && leb c 32

-- `SkipBlanks(p)`: the pointer behind the blanks.
unfoldable pub skip_blanks : List ℕ → List ℕ
skip_blanks [] = []
skip_blanks (c ∷ cs) = if white c then skip_blanks cs else c ∷ cs

-- `getval(p)` of a digit or letter.
unfoldable pub getval : ℕ → ℕ
getval c = if leb c b'9' then c - b'0' else bit_or c 0x20 - b'a' + 10

-- `c | 0x20` makes a letter lower case and leaves a digit alone.
pub bit_or-alnum : (c : ℕ) → is_alnum c ≡ true → bit_or c 0x20 ≡ (if is_upper c then c + 32 else c)
bit_or-alnum c h = ground (arith, agree_at (λ c. bit_or c 0x20) lower 128 table c)
  where
    lower : ℕ → ℕ
    lower c = if ltb c 32 then c + 32 else if ltb c 64 then c else if ltb c 96 then c + 32 else c

    table : agree_at_all (λ c. bit_or c 0x20) lower 128 ≡ true
    table = unfold agree_at_all in refl

pub getval-alnum :
    (c : ℕ)
    → is_alnum c ≡ true
    → getval c ≡ (if is_digit c then c - 48 else if is_upper c then c - 55 else c - 87)
unfolding getval
getval-alnum c h = ground (arith, bit_or-alnum c h)
