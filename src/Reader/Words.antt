-- ===== src/Reader/Words.antt =====
-- The small readers of sjasm/reader.cpp: words, operators, commas, brackets and names, and its checks of
-- a value's range. The pointer is the text that is left.
use sjasmplus.Common.{
  ℕ, ◌+◌, Bool, true, not, ◌&&◌, ◌||◌, Option, none, some, List, [], ◌∷◌, if◌then◌else◌, ◌==◌, drop,
}
use sjasmplus.Reader.Chars.{is_upper, is_alpha, is_alnum, to_upper, head, white, skip_blanks}

-- A result that may be zero, and the pointer.
pub record Need : Type 0 where
  pub oper : ℕ
  pub rest : List ℕ

-- Two more texts that end a word: `//` and `/*`.
abbrev starts_comment : List ℕ → Bool
starts_comment p = head p == b'/' && (head (drop 1 p) == b'/' || head (drop 1 p) == b'*')

-- The character after a word keeps the match valid.
unfoldable pub ends_word : Bool → List ℕ → Bool
ends_word allow_parenthesis p =
    head p == 0
    || white (head p)
    || head p == b';'
    || starts_comment p
    || (allow_parenthesis && head p == b'(')

-- The characters from the first letter on, through `toupper` or as they are.
unfoldable pub match_letters : (ℕ → ℕ) → Bool → List ℕ → List ℕ → Option (List ℕ)
match_letters form allow_parenthesis [] p = if ends_word allow_parenthesis p then some p else none
match_letters form allow_parenthesis (c ∷ word) p =
    let rest = match_letters form allow_parenthesis word (drop 1 p) in
    if head p == form c then rest else none

-- cmphstr: `none` is 0, with the pointer where it was.
unfoldable pub cmphstr : List ℕ → Bool → List ℕ → Option (List ℕ)
cmphstr [] allow_parenthesis p = if ends_word allow_parenthesis p then some p else none
cmphstr (c ∷ word) allow_parenthesis p =
    let rest = cmphstr word allow_parenthesis (drop 1 p) in
    if is_alpha c
    then if is_upper (head p)
      then match_letters to_upper allow_parenthesis (c ∷ word) p
      else match_letters (λ c. c) allow_parenthesis (c ∷ word) p
    else if head p == c
    then rest
    else none

-- need(p, c) of a character.
unfoldable pub need_char : ℕ → List ℕ → Need
need_char c p =
    let q = skip_blanks p in
    if head q == c then record { oper = 1; rest = drop 1 q } else record { oper = 0; rest = q }

-- The loop of need(p, c) over the pairs of a string: a space is no second character, `_` stands for any
-- other character than the first one.
unfoldable pub need_pairs : List ℕ → List ℕ → Need
need_pairs [] p = record { oper = 0; rest = p }
need_pairs (c ∷ []) p = record { oper = 0; rest = p }
need_pairs (c ∷ d ∷ pairs) p =
    let more = need_pairs pairs p in
    if not (head p == c)
    then more
    else if d == b' '
    then record { oper = c; rest = drop 1 p }
    else if d == b'_' && not (head (drop 1 p) == c)
    then record { oper = c; rest = drop 1 p }
    else if head (drop 1 p) == d
    then record { oper = c + d; rest = drop 2 p }
    else more

unfoldable pub need : List ℕ → List ℕ → Need
need pairs p = need_pairs pairs (skip_blanks p)

-- The words of needa with their results, up to the first null.
unfoldable pub needa_words : List (List ℕ × ℕ) → List ℕ → Need
needa_words [] p = record { oper = 0; rest = p }
needa_words ((word, r) ∷ words) p =
    let more = needa_words words p in
    elim (cmphstr word true p) [ some q ↦ record { oper = r; rest = q } | none ↦ more ]

-- needa with allowParenthesisEnd.
unfoldable pub needa : List (List ℕ × ℕ) → List ℕ → Need
needa words p = if is_alpha (head p) then needa_words words p else record { oper = 0; rest = p }

-- `(r = need(p, pairs)) || (r = needa(p, words…))`.
unfoldable pub need_or_needa : List ℕ → List (List ℕ × ℕ) → List ℕ → Need
need_or_needa pairs words p = let n = need pairs p in if n.oper == 0 then needa words n.rest else n

-- isLabelStart without and with its modifiers.
abbrev pub is_name_start : List ℕ → Bool
is_name_start p = is_alpha (head p) || head p == b'_'

unfoldable pub is_label_start : List ℕ → Bool
is_label_start p =
    if head p == b'.' || head p == b'@' then is_name_start (drop 1 p) else is_name_start p

unfoldable pub islabchar : ℕ → Bool
islabchar c =
    is_alnum c || c == b'_' || c == b'.' || c == b'?' || c == b'!' || c == b'#' || c == b'@'

-- The characters of a name, and the pointer behind them.
unfoldable pub take_name : List ℕ → List ℕ × List ℕ
take_name [] = ([], [])
take_name (c ∷ p) =
    let (name, rest) = take_name p in if islabchar c then (c ∷ name, rest) else ([], c ∷ p)

-- GetID: `none` is a null pointer. The pointer is behind the blanks in any case.
unfoldable pub get_id : List ℕ → Option (List ℕ) × List ℕ
get_id p =
    let q = skip_blanks p in
    let (name, rest) = take_name q in
    if is_name_start q || head q == b'.' then (some name, rest) else (none, q)

-- anyComma, comma, doubleComma, nonMaComma and relaxedMaComma. `plain` is isMultiArgPlainComma of the
-- syntax options; the result is 1 or 0.
unfoldable pub any_comma : List ℕ → Need
any_comma = need_char b','

unfoldable pub comma : List ℕ → Need
comma p =
    let q = skip_blanks p in
    if not (head q == b',') || head (drop 1 q) == b','
    then record { oper = 0; rest = q }
    else record { oper = 1; rest = drop 1 q }

unfoldable pub double_comma : List ℕ → Need
double_comma p =
    let q = skip_blanks p in
    if not (head q == b',') || not (head (drop 1 q) == b',')
    then record { oper = 0; rest = q }
    else record { oper = 1; rest = drop 2 q }

unfoldable pub non_ma_comma : Bool → List ℕ → Need
non_ma_comma plain p = if plain then record { oper = 0; rest = p } else comma p

unfoldable pub relaxed_ma_comma : Bool → List ℕ → Need
relaxed_ma_comma plain p =
    let q = skip_blanks p in
    if not (head q == b',')
    then record { oper = 0; rest = q }
    else if head (drop 1 q) == b','
    then if plain then record { oper = 0; rest = q } else record { oper = 1; rest = drop 2 q }
    else record { oper = 1; rest = drop 1 q }
