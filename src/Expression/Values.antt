-- ===== src/Expression/Values.antt =====
-- The readers of number and string literals leave a tail of the text.
use sjasmplus.Common.{
  ℕ, zero, suc, ◌+◌, ◌-◌, ◌≤◌, ◌<◌, ◌≡◌, refl, Bool, true, false, not, ◌&&◌, ◌||◌, Option, none,
  some, List, [], ◌∷◌, ◌++◌, if◌then◌else◌, ◌==◌, leb, length, drop, arith,
}
use sjasmplus.Reader.Chars.{head, skip_blanks}
use sjasmplus.Reader.Literal.{
  Constant, Format, Scan, Report, is_separator, is_fatal, literal_size, scan_format,
  skip_decimal_part, finish_constant, get_constant,
}
use sjasmplus.Reader.Words.{need}
use sjasmplus.Reader.Outcome.{Message}
use sjasmplus.Reader.Progress.{length-drop_le, length-skip_blanks, head-less, need-IsStep}
use sjasmplus.Reader.Within.{IsWithin, if-IsWithin}
use sjasmplus.Reader.CharConst.{
  Character, Bytes, StringResult, buffer_full, string_error, no_string, string, string_out_of_fuel,
  escape, escaped, value_of_string, next_char, read_next, get_char_const_in_double_quotes,
  get_char_const_in_apostrophes, read_chars, patch_last, is_quote, finish_string, read_strings,
  get_char_const_as_string, get_char_const,
}
use sjasmplus.TemporaryLabels.Read.{}
use sjasmplus.Expression.Parse.{of_constant}

abbrev LeavesAtMost : ℕ → Constant → Type 0
LeavesAtMost n c = length c.op ≤ n

if-LeavesAtMost :
    (n : ℕ) (b : Bool) (x y : Constant)
    → LeavesAtMost n x
    → LeavesAtMost n y
    → LeavesAtMost n (if b then x else y)
if-LeavesAtMost n true x y h k = h
if-LeavesAtMost n false x y h k = k

skip_decimal_part-LeavesAtMost :
    (f : Format) (v : ℕ) (ms : List Report) (op q : List ℕ) (n : ℕ)
    → length op ≤ n
    → length q ≤ n
    → LeavesAtMost n (skip_decimal_part f v ms op q)
unfolding skip_decimal_part
skip_decimal_part-LeavesAtMost f v ms op q n h k =
    let size = suc (literal_size (drop 2 q)) in
    let e : length (drop (suc size) q) ≤ n = omega (arith, k, length-drop_le (suc size) q) in
    if-LeavesAtMost n (is_fatal (scan_format f size (drop 1 q)).last_err) _ _ h e

finish_constant-LeavesAtMost :
    (old : ℕ) (op q : List ℕ) (f : Format) (first last : ℕ) (s : Scan) (n : ℕ)
    → length op ≤ n
    → length q ≤ n
    → LeavesAtMost n (finish_constant old op q f first last s)
unfolding finish_constant
finish_constant-LeavesAtMost old op q f first last s n h k =
    if-LeavesAtMost n (is_separator first || is_separator last) _ _ h (
      if-LeavesAtMost n (is_fatal s.last_err) _ _ h
        (if-LeavesAtMost n _ _ _ (skip_decimal_part-LeavesAtMost f s.val _ op q n h k) k))

get_constant-LeavesAtMost : (old : ℕ) (p : List ℕ) → LeavesAtMost (length p) (get_constant old p)
unfolding get_constant
get_constant-LeavesAtMost old p =
    finish_constant-LeavesAtMost old p (drop _ p) _ _ _ _ (length p) (omega arith)
      (length-drop_le _ p)

pub of_constant-IsWithin :
    (old : ℕ) (p : List ℕ) → IsWithin (length p) (of_constant (get_constant old p))
of_constant-IsWithin old p =
    let h = get_constant-LeavesAtMost old p in
    if-IsWithin (length p) (get_constant old p).parsed _ _ (λ _. h) (λ _. h)

abbrev CharLeaves : ℕ → Option Character → Type 0
CharLeaves n none = 0 ≤ n
CharLeaves n (some c) = length c.rest ≤ n

if-CharLeaves :
    (n : ℕ) (b : Bool) (x y : Option Character)
    → CharLeaves n x
    → CharLeaves n y
    → CharLeaves n (if b then x else y)
if-CharLeaves n true x y h k = h
if-CharLeaves n false x y h k = k

escaped-CharLeaves :
    (p : List ℕ) (o : Option ℕ) (n : ℕ) → length p ≤ n → CharLeaves n (some (escaped p o))
escaped-CharLeaves p none n h = h
escaped-CharLeaves p (some v) n h = omega (arith, h, length-drop_le 1 p)

double_quotes-CharLeaves : (p : List ℕ) → CharLeaves (length p) (get_char_const_in_double_quotes p)
unfolding get_char_const_in_double_quotes
double_quotes-CharLeaves p =
    if-CharLeaves (length p) (head p == b'"' || head p == 0) _ _ (omega arith) (
      if-CharLeaves (length p) (not (head p == b'\\')) _ _ (length-drop_le 1 p)
        (escaped-CharLeaves (drop 1 p) (escape (head (drop 1 p))) (length p) (length-drop_le 1 p)))

apostrophes-CharLeaves : (p : List ℕ) → CharLeaves (length p) (get_char_const_in_apostrophes p)
unfolding get_char_const_in_apostrophes
apostrophes-CharLeaves p =
    if-CharLeaves (length p) (head p == b'\'' && head (drop 1 p) == b'\'') _ _ (length-drop_le 2 p)
      (if-CharLeaves (length p) (head p == b'\'' || head p == 0) _ _ (omega arith)
        (length-drop_le 1 p))

length-read_next :
    (more : List ℕ → Bytes) (add : ℕ) (p : List ℕ) (o : Option Character)
    → ((q : List ℕ) → length (more q).rest ≤ length q)
    → CharLeaves (length p) o
    → length (read_next more add p o).rest ≤ length p
length-read_next more add p none h k = omega arith
length-read_next more add p (some c) h k = omega (arith, h c.rest, k)

length-read_chars :
    (quotes : Bool) (add room : ℕ) (p : List ℕ)
    → length (read_chars quotes add room p).rest ≤ length p
unfolding read_chars
length-read_chars quotes add zero p = omega arith
length-read_chars quotes add (suc room) p =
    length-read_next (read_chars quotes add room) add p (next_char quotes p)
      (length-read_chars quotes add room)
      (if-CharLeaves (length p) quotes _ _ (double_quotes-CharLeaves p) (apostrophes-CharLeaves p))

-- A result that is not out of fuel leaves at most `n` characters.
abbrev StringLeaves : ℕ → StringResult → Type 0
StringLeaves n (buffer_full b) = length b.rest ≤ n
StringLeaves n (string_error b) = length b.rest ≤ n
StringLeaves n no_string = 0 ≤ n
StringLeaves n (string quotes b) = length b.rest ≤ n
StringLeaves n string_out_of_fuel = n < n

if-StringLeaves :
    (n : ℕ) (b : Bool) (x y : StringResult)
    → (b ≡ true → StringLeaves n x)
    → (b ≡ false → StringLeaves n y)
    → StringLeaves n (if b then x else y)
if-StringLeaves n true x y h k = h refl
if-StringLeaves n false x y h k = k refl

finish_string-StringLeaves :
    (again : List ℕ → List ℕ → List Message → StringResult) (quotes : Bool) (start n : ℕ)
    (ms : List Message) (e p : List ℕ)
    → length p ≤ n
    → ((q : List ℕ) (ms : List Message) → length q ≤ length p → StringLeaves n (again e q ms))
    → StringLeaves n (finish_string again quotes start ms e p)
unfolding finish_string
finish_string-StringLeaves again quotes start n ms e p h k =
    let m = need (b'.' ∷ b'.' ∷ []) p in
    let step = need-IsStep (b'.' ∷ b'.' ∷ []) p in
    let q = skip_blanks m.rest in
    let shorter : length q ≤ length p = omega (arith, step.0, length-skip_blanks m.rest) in
    if-StringLeaves n (not (m.oper == b'.' + b'.')) _ _ (λ _. omega (arith, h, step.0))
      (λ _.
        if-StringLeaves n (not (is_quote (head q))) _ _ (λ _. omega (arith, h, shorter))
          (λ _. k q _ shorter))

read_strings-StringLeaves :
    (fuel max_ei add n : ℕ) (e p : List ℕ) (ms : List Message)
    → length p < fuel
    → length p ≤ n
    → StringLeaves n (read_strings fuel max_ei add e p ms)
unfolding read_strings
read_strings-StringLeaves zero max_ei add n e p ms enough h = elim enough [ ]
read_strings-StringLeaves (suc fuel) max_ei add n e p ms enough h =
    let quotes = head p == b'"' in
    let room = max_ei - length e in
    let s = read_chars quotes add room (drop 1 p) in
    let shorter : length s.rest ≤ length p =
      omega (arith, length-read_chars quotes add room (drop 1 p), length-drop_le 1 p) in
    let q = drop 1 s.rest in
    let close = if quotes then b'"' else b'\'' in
    let tail : length q ≤ length p = omega (arith, shorter, length-drop_le 1 s.rest) in
    let next : length (drop 1 q) ≤ length p = omega (arith, tail, length-drop_le 1 q) in
    let finished =
      finish_string-StringLeaves (read_strings fuel max_ei add) quotes (length e) n
        (ms ++ s.reports) in
    let again = λ (e' r : List ℕ) (ms' : List Message) (lt : length r < length p).
      read_strings-StringLeaves fuel max_ei add n e' r ms' (omega (arith, enough, lt))
        (omega (arith, lt, h)) in
    if-StringLeaves n (not (head s.rest == close)) _ _
      (λ _.
        if-StringLeaves n (head s.rest == 0) _ _ (λ _. omega (arith, shorter, h))
          (λ _. omega (arith, shorter, h)))
      (λ closed.
        let less : length q < length s.rest =
          head-less s.rest close (ground (arith, closed)) (ground arith) in
        let e1 = e ++ s.bytes in
        if-StringLeaves n (head q == b'Z') _ _
          (λ _.
            if-StringLeaves n (leb max_ei (length e1)) _ _ (λ _. omega (arith, tail, h))
              (λ _. finished (e1 ++ (0 ∷ [])) (drop 1 q) (omega (arith, next, h)) (λ r ms' k.
                again (e1 ++ (0 ∷ [])) r ms'
                  (omega (arith, k, less, shorter, length-drop_le 1 q)))))
          (λ _.
            if-StringLeaves n (head q == b'C') _ _
              (λ _.
                if-StringLeaves n (length e == length e1) _ _ (λ _. omega (arith, next, h))
                  (λ _. finished (patch_last e1) (drop 1 q) (omega (arith, next, h)) (λ r ms' k.
                    again (patch_last e1) r ms'
                      (omega (arith, k, less, shorter, length-drop_le 1 q)))))
              (λ _.
                finished e1 q (omega (arith, tail, h))
                  (λ r ms' k. again e1 r ms' (omega (arith, k, less, shorter))))))

value_of_string-IsWithin :
    (n : ℕ) (p : List ℕ) (o : StringResult)
    → length p ≤ n
    → StringLeaves n o
    → IsWithin n (value_of_string p o)
value_of_string-IsWithin n p (buffer_full b) h k = k
value_of_string-IsWithin n p (string_error b) h k = k
value_of_string-IsWithin n p no_string h k = h
value_of_string-IsWithin n p (string quotes b) h k = k
value_of_string-IsWithin n p string_out_of_fuel h k = k

pub get_char_const-IsWithin : (p : List ℕ) → IsWithin (length p) (get_char_const p)
unfolding get_char_const get_char_const_as_string
get_char_const-IsWithin p = value_of_string-IsWithin (length p) p _ (omega arith) (
    if-StringLeaves (length p) (is_quote (head p)) _ _
      (λ _.
        read_strings-StringLeaves (suc (length p)) 128 0 (length p) [] p [] (omega arith)
          (omega arith))
      (λ _. omega arith))
