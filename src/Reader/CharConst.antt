-- ===== src/Reader/CharConst.antt =====
-- String literals as values: GetCharConst of sjasm/reader.cpp and what it calls.
use sjasmplus.Common.{
  ℕ, zero, suc, ◌+◌, ◌-◌, ◌*◌, ◌%◌, ◌^◌, Bool, not, ◌&&◌, ◌||◌, Option, none, some, List, [], ◌∷◌,
  ◌++◌, if◌then◌else◌, ltb, leb, ◌==◌, length, drop, bit_or,
}
use sjasmplus.Reader.Chars.{head, skip_blanks}
use sjasmplus.Reader.Words.{need}
use sjasmplus.Reader.Outcome.{
  Message, unknown_escape, unclosed_string, nothing_to_patch, empty_segment, string_expected,
  empty_string, long_string, Outcome, parsed, failed, out_of_fuel,
}

-- A character of a literal, the pointer behind it and the warnings.
pub record Character : Type 0 where
  pub val : ℕ
  pub rest : List ℕ
  pub reports : List Message

-- The switch over the character behind a backslash.
unfoldable pub escape : ℕ → Option ℕ
escape c =
    if c == b'\\' || c == b'\'' || c == b'"' || c == b'?'
    then some c
    else if c == b'0'
    then some 0
    else if c == b'n' || c == b'N'
    then some 10
    else if c == b't' || c == b'T'
    then some 9
    else if c == b'v' || c == b'V'
    then some 11
    else if c == b'b' || c == b'B'
    then some 8
    else if c == b'r' || c == b'R'
    then some 13
    else if c == b'f' || c == b'F'
    then some 12
    else if c == b'a' || c == b'A'
    then some 7
    else if c == b'e' || c == b'E'
    then some 27
    else if c == b'd' || c == b'D'
    then some 127
    else none

abbrev pub escaped : List ℕ → Option ℕ → Character
escaped p (some v) = record { val = v; rest = drop 1 p; reports = [] }
escaped p none = record { val = b'\\'; rest = p; reports = unknown_escape ∷ [] }

-- GetCharConstInDoubleQuotes; `none` is 0.
unfoldable pub get_char_const_in_double_quotes : List ℕ → Option Character
get_char_const_in_double_quotes p =
    if head p == b'"' || head p == 0
    then none
    else if not (head p == b'\\')
    then some (record { val = head p; rest = drop 1 p; reports = [] })
    else some (escaped (drop 1 p) (escape (head (drop 1 p))))

-- GetCharConstInApostrophes.
unfoldable pub get_char_const_in_apostrophes : List ℕ → Option Character
get_char_const_in_apostrophes p =
    if head p == b'\'' && head (drop 1 p) == b'\''
    then some (record { val = b'\''; rest = drop 2 p; reports = [] })
    else if head p == b'\'' || head p == 0
    then none
    else some (record { val = head p; rest = drop 1 p; reports = [] })

-- The bytes of a literal, the pointer and the reports.
pub record Bytes : Type 0 where
  pub bytes : List ℕ
  pub rest : List ℕ
  pub reports : List Message

abbrev pub next_char : Bool → List ℕ → Option Character
next_char quotes p =
    if quotes then get_char_const_in_double_quotes p else get_char_const_in_apostrophes p

-- One round of the loop over the characters of a literal, `more` being the rounds behind it.
abbrev pub read_next : (List ℕ → Bytes) → ℕ → List ℕ → Option Character → Bytes
read_next more add p none = record { bytes = []; rest = p; reports = [] }
read_next more add p (some c) = record {
  bytes = (c.val + add) % 2 ^ 8 ∷ (more c.rest).bytes;
  rest = (more c.rest).rest;
  reports = c.reports ++ (more c.rest).reports;
}

-- The loop, with room for `room` more characters.
unfoldable pub read_chars : Bool → ℕ → ℕ → List ℕ → Bytes
read_chars quotes add zero p = record { bytes = []; rest = p; reports = [] }
read_chars quotes add (suc room) p =
    read_next (read_chars quotes add room) add p (next_char quotes p)

-- `e[ei - 1] |= 0x80`.
unfoldable pub patch_last : List ℕ → List ℕ
patch_last [] = []
patch_last (b ∷ []) = bit_or b 0x80 ∷ []
patch_last (b ∷ c ∷ e) = b ∷ patch_last (c ∷ e)

-- The results -2, -1, 0, and 1 or 2, with what is in the buffer.
pub data StringResult : Type 0 where
  buffer_full : Bytes → StringResult
  string_error : Bytes → StringResult
  no_string : StringResult
  string : Bool → Bytes → StringResult
  string_out_of_fuel : StringResult

abbrev pub is_quote : ℕ → Bool
is_quote c = c == b'"' || c == b'\''

-- The end of a round, behind the suffix of a literal before which `start` bytes stood in the buffer.
unfoldable pub finish_string :
    (List ℕ → List ℕ → List Message → StringResult)
    → Bool
    → ℕ
    → List Message
    → List ℕ
    → List ℕ
    → StringResult
finish_string again quotes start ms e p =
    let ms' = if start == length e then ms ++ (empty_segment ∷ []) else ms in
    let n = need (b'.' ∷ b'.' ∷ []) p in
    let q = skip_blanks n.rest in
    let more = again e q ms' in
    if not (n.oper == b'.' + b'.')
    then string quotes (record { bytes = e; rest = n.rest; reports = ms' })
    else if not (is_quote (head q))
    then string_error (record { bytes = e; rest = q; reports = ms' ++ (string_expected ∷ []) })
    else more

-- The rounds of the loop over the literals that `..` joins; `e` is the buffer before the round.
unfoldable pub read_strings : ℕ → ℕ → ℕ → List ℕ → List ℕ → List Message → StringResult
read_strings zero max_ei add e p ms = string_out_of_fuel
read_strings (suc fuel) max_ei add e p ms =
    let quotes = head p == b'"' in
    let again = read_strings fuel max_ei add in
    let s = read_chars quotes add (max_ei - length e) (drop 1 p) in
    let e1 = e ++ s.bytes in
    let ms1 = ms ++ s.reports in
    let q = drop 1 s.rest in
    let finish = finish_string again quotes (length e) ms1 in
    if not (head s.rest == (if quotes then b'"' else b'\''))
    then if head s.rest == 0
      then string_error
          (record { bytes = e1; rest = s.rest; reports = ms1 ++ (unclosed_string ∷ []) })
      else buffer_full (record { bytes = e1; rest = s.rest; reports = ms1 })
    else if head q == b'Z'
    then if leb max_ei (length e1)
      then buffer_full (record { bytes = e1; rest = q; reports = ms1 })
      else finish (e1 ++ (0 ∷ [])) (drop 1 q)
    else if head q == b'C'
    then if length e == length e1
      then string_error
          (record { bytes = e1; rest = drop 1 q; reports = ms1 ++ (nothing_to_patch ∷ []) })
      else finish (patch_last e1) (drop 1 q)
    else finish e1 q

-- GetCharConstAsString into an empty buffer.
unfoldable pub get_char_const_as_string : ℕ → ℕ → List ℕ → StringResult
get_char_const_as_string max_ei add p =
    if is_quote (head p) then read_strings (suc (length p)) max_ei add [] p [] else no_string

-- `val = (val << 8) + (255&buffer[ii])` over the bytes.
unfoldable pub string_value : ℕ → List ℕ → ℕ
string_value val [] = val
string_value val (b ∷ bytes) = string_value ((val * 2 ^ 8 + b % 2 ^ 8) % 2 ^ 32) bytes

abbrev size_warning : ℕ → List Message
size_warning size =
    if size == 0 then empty_string ∷ [] else if ltb 4 size then long_string ∷ [] else []

abbrev pub value_of_string : List ℕ → StringResult → Outcome
value_of_string p (buffer_full b) = failed b.rest b.reports
value_of_string p (string_error b) = failed b.rest b.reports
value_of_string p no_string = failed p []
value_of_string p (string quotes b) =
    parsed (string_value 0 b.bytes) b.rest (b.reports ++ size_warning (length b.bytes))
value_of_string p string_out_of_fuel = out_of_fuel

-- GetCharConst.
unfoldable pub get_char_const : List ℕ → Outcome
get_char_const p = value_of_string p (get_char_const_as_string 128 0 p)
