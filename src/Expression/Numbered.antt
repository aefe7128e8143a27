-- ===== src/Expression/Numbered.antt =====
-- The readers of decimal numbers and temporary labels leave a tail of the text.
use sjasmplus.Common.{
  ℕ, zero, suc, ◌≤◌, Bool, true, false, not, ◌&&◌, Option, none, some, List, [], ◌∷◌, if◌then◌else◌,
  ◌==◌, leb, length, drop, arith, bit_or,
}
use sjasmplus.Reader.Chars.{is_digit, is_alnum, head, skip_blanks, getval}
use sjasmplus.Reader.Literal.{
  overflow, Scan, Step, is_separator, NumericError, scan_digits, scan_number, int_based_step,
  get_numeric_value_int_based,
}
use sjasmplus.Reader.Words.{islabchar}
use sjasmplus.Reader.Progress.{length-drop_le, length-skip_blanks}
use sjasmplus.Reader.Within.{IsWithin}
use sjasmplus.Reader.CharConst.{}
use sjasmplus.TemporaryLabels.{Table}
use sjasmplus.TemporaryLabels.Read.{
  Reading, no_label, label, find_label, by_number, suffixed_label, temporary_value, count_digits,
  read_temporary_label, get_temporary_label_value,
}

if-rest :
    (n : ℕ) (b : Bool) (x y : Scan)
    → length x.rest ≤ n
    → length y.rest ≤ n
    → length (if b then x else y).rest ≤ n
if-rest n true x y h k = h
if-rest n false x y h k = k

length-scan_digits :
    (base : ℕ) (step : Step) (size : ℕ) (p : List ℕ) (val : ℕ) (err : Option NumericError)
    → length (scan_digits base step size p val err).rest ≤ length p
unfolding scan_digits
length-scan_digits base step zero p val err = omega arith
length-scan_digits base step (suc size) [] val err = omega arith
length-scan_digits base step (suc size) (c ∷ p) val err =
    let n = suc (length p) in
    let next = step val (getval c) in
    let err' : Option NumericError = if next.1 then some overflow else err in
    if-rest n (is_separator c && is_alnum (head p)) _ _
      (omega (arith, length-scan_digits base step size p val err))
      (if-rest n (not (is_alnum c)) _ _ (omega arith) (
        if-rest n (leb base (getval c)) _ _ (omega arith)
          (omega (arith, length-scan_digits base step size p next.0 err'))))

length-int_based :
    (base size : ℕ) (p : List ℕ) → length (get_numeric_value_int_based base size p).rest ≤ length p
unfolding get_numeric_value_int_based scan_number
length-int_based base size p =
    if-rest (length p) (size == 0) _ _ (omega arith)
      (length-scan_digits base (int_based_step base) size p 0 none)

abbrev ReadingLeaves : ℕ → Reading → Type 0
ReadingLeaves n (no_label p) = length p ≤ n
ReadingLeaves n (label o p) = length p ≤ n

if-ReadingLeaves :
    (n : ℕ) (b : Bool) (x y : Reading)
    → ReadingLeaves n x
    → ReadingLeaves n y
    → ReadingLeaves n (if b then x else y)
if-ReadingLeaves n true x y h k = h
if-ReadingLeaves n false x y h k = k

find_label-ReadingLeaves :
    (type size : ℕ) (t : Table) (p : List ℕ) → ReadingLeaves (length p) (find_label type size t p)
find_label-ReadingLeaves type size t p =
    let s = get_numeric_value_int_based 10 size p in
    let h = length-int_based 10 size p in
    let q = if head s.rest == b'_' then drop 1 s.rest else s.rest in
    let k : length q ≤ length s.rest = by_underscore (head s.rest == b'_') s.rest in
    by_error s.last_err s.rest (label _ (drop 1 q)) h (omega (arith, length-drop_le 1 q, k, h))
  where
    by_underscore : (b : Bool) (r : List ℕ) → length (if b then drop 1 r else r) ≤ length r
    by_underscore true r = length-drop_le 1 r
    by_underscore false r = omega arith

    by_error :
        (o : Option NumericError) (r : List ℕ) (l : Reading)
        → length r ≤ length p
        → ReadingLeaves (length p) l
        → ReadingLeaves (length p) (by_number o r l)
    by_error none r l h k = k
    by_error (some e) r l h k = h

suffixed_label-ReadingLeaves :
    (require : Bool) (size : ℕ) (t : Table) (op p : List ℕ)
    → length p ≤ length op
    → ReadingLeaves (length op) (suffixed_label require size t op p)
suffixed_label-ReadingLeaves require size t op p h =
    let here : length op ≤ length op = omega arith in
    let r = drop size p in
    let mark = head r == b'_' in
    let q = if mark then drop 1 r else r in
    let type = bit_or (head q) 0x20 in
    if-ReadingLeaves (length op) (require && not mark) _ _ here (
      if-ReadingLeaves (length op) (not (type == b'b') && not (type == b'f')) _ _ here (
        if-ReadingLeaves (length op) (islabchar (head (drop 1 q))) _ _ here
          (le-reading (find_label type size t p) (find_label-ReadingLeaves type size t p))))
  where
    le-reading : (o : Reading) → ReadingLeaves (length p) o → ReadingLeaves (length op) o
    le-reading (no_label p) k = omega (arith, h, k)
    le-reading (label l p) k = omega (arith, h, k)

read_temporary_label-ReadingLeaves :
    (require : Bool) (t : Table) (op : List ℕ)
    → ReadingLeaves (length op) (read_temporary_label require t op)
unfolding read_temporary_label
read_temporary_label-ReadingLeaves require t op =
    let here : length op ≤ length op = omega arith in
    let p = skip_blanks op in
    if-ReadingLeaves (length op) (is_digit (head p)) _ _
      (suffixed_label-ReadingLeaves require (count_digits p) t op p (length-skip_blanks op)) here

pub get_temporary_label_value-IsWithin :
    (offset : ℕ) (is_last_pass : Bool) (t : Table) (p : List ℕ)
    → IsWithin (length p) (get_temporary_label_value offset is_last_pass t p)
unfolding get_temporary_label_value
get_temporary_label_value-IsWithin offset is_last_pass t p =
    by_reading (read_temporary_label true t p) (read_temporary_label-ReadingLeaves true t p)
  where
    by_reading :
        (o : Reading)
        → ReadingLeaves (length p) o
        → IsWithin (length p) (temporary_value offset is_last_pass o)
    by_reading (no_label q) h = h
    by_reading (label none q) h = h
    by_reading (label (some l) q) h = h
