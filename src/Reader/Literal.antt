-- ===== src/Reader/Literal.antt =====
-- sjasm/reader.cpp, number literals: GetNumericValue_TwoBased, GetNumericValue_IntBased and
-- GetConstant. A value of the type `aint` is its 32-bit pattern.
pub mod Value
pub mod Prefixed
pub mod Printed
mod Examples
use sjasmplus.Common.{
  ℕ, zero, suc, ◌+◌, ◌-◌, ◌*◌, ◌/◌, ◌%◌, ◌^◌, ◌≡◌, refl, Bool, true, false, not, ◌&&◌, ◌||◌, Option,
  none, some, List, [], ◌∷◌, ◌++◌, if◌then◌else◌, ltb, leb, ◌==◌, length, get_or, take, drop,
  bit_or,
}
use sjasmplus.Reader.Chars.{is_digit, is_alnum, head, getval}

-- The values of getNumericValueLastErr.
pub data NumericError : Type 0 where
  syntax digit no_digit overflow : NumericError

-- The value, getNumericValueLastErr (null is `none`) and the pointer after a scan.
pub record Scan : Type 0 where
  pub val : ℕ
  pub last_err : Option NumericError
  pub rest : List ℕ

abbrev pub is_separator : ℕ → Bool
is_separator c = c == 39 || c == b'_'

-- One digit: the new value, and whether an overflow is noticed.
abbrev pub Step : Type 0
Step = ℕ → ℕ → ℕ × Bool

-- `if (val & overflowMask) …; val = (val<<shiftBase) + digit;`
abbrev pub two_based_step : ℕ → Step
two_based_step shift_base val d =
    ((val * 2 ^ shift_base + d) % 2 ^ 32, not (val / 2 ^ (32 - shift_base) == 0))

-- `val = (val * base) + digit; if (val < oval) …` on uint32_t.
abbrev pub int_based_step : ℕ → Step
int_based_step base val d = let next = (val * base + d) % 2 ^ 32 in (next, ltb next val)

-- The loop over the characters before `pend`, `size` of them.
unfoldable pub scan_digits : ℕ → Step → ℕ → List ℕ → ℕ → Option NumericError → Scan
scan_digits base step zero p val err = record { val = val; last_err = err; rest = p }
scan_digits base step (suc size) [] val err = record {
  val = val;
  last_err = some no_digit;
  rest = [];
}
scan_digits base step (suc size) (c ∷ p) val err =
    let skip = scan_digits base step size p val err in
    let (next, over) = step val (getval c) in
    let more = scan_digits base step size p next (if over then some overflow else err) in
    if is_separator c && is_alnum (head p)
    then skip
    else if not (is_alnum c)
    then record { val = val; last_err = some no_digit; rest = p }
    else if leb base (getval c)
    then record { val = val; last_err = some digit; rest = p }
    else more

-- Both functions refuse an empty literal.
unfoldable pub scan_number : ℕ → Step → ℕ → List ℕ → Scan
scan_number base step size p =
    if size == 0
    then record { val = 0; last_err = some syntax; rest = p }
    else scan_digits base step size p 0 none

-- The base is 2 ^ shift_base, for shift_base from 1 to 5.
unfoldable pub get_numeric_value_two_based : ℕ → ℕ → List ℕ → Scan
get_numeric_value_two_based shift_base = scan_number (2 ^ shift_base) (two_based_step shift_base)

unfoldable pub get_numeric_value_int_based : ℕ → ℕ → List ℕ → Scan
get_numeric_value_int_based base = scan_number base (int_based_step base)

-- What GetConstant reports: an error of the scan, or a decimal part that is thrown away.
pub data Report : Type 0 where
  error : NumericError → Report
  zero_decimal non_zero_decimal : Report

pub record Constant : Type 0 where
  pub parsed : Bool
  pub val : ℕ
  pub op : List ℕ
  pub reports : List Report

-- The characters of a literal: letters, digits, and a separator before one of these.
unfoldable pub literal_size : List ℕ → ℕ
literal_size [] = 0
literal_size (c ∷ p) =
    let rest = literal_size p in
    if is_alnum c || (is_separator c && is_alnum (head p)) then suc rest else 0

-- `shiftBase` (0 is decimal), the length of the prefix and of the suffix.
pub record Format : Type 0 where
  pub shift_base : ℕ
  pub prefix : ℕ
  pub suffix : ℕ

unfoldable pub suffix_format : ℕ → Format
suffix_format last =
    let c = bit_or last 0x20 in
    if c == b'h'
    then record { shift_base = 4; prefix = 0; suffix = 1 }
    else if c == b'q'
    then record { shift_base = 3; prefix = 0; suffix = 1 }
    else if c == b'o'
    then record { shift_base = 3; prefix = 0; suffix = 1 }
    else if c == b'b'
    then record { shift_base = 1; prefix = 0; suffix = 1 }
    else if c == b'd'
    then record { shift_base = 0; prefix = 0; suffix = 1 }
    else record { shift_base = 0; prefix = 0; suffix = 0 }

-- The format by the first characters, or by the last one.
unfoldable pub format : List ℕ → ℕ → Format
format op last =
    let c = head op in
    let d = bit_or (head (drop 1 op)) 0x20 in
    if c == b'#' || c == b'$'
    then record { shift_base = 4; prefix = 1; suffix = 0 }
    else if c == b'0' && d == b'x'
    then record { shift_base = 4; prefix = 2; suffix = 0 }
    else if c == b'0' && (d == b'b' && not (bit_or last 0x20 == b'h'))
    then record { shift_base = 1; prefix = 2; suffix = 0 }
    else if c == b'0' && d == b'q'
    then record { shift_base = 3; prefix = 2; suffix = 0 }
    else if c == b'%'
    then record { shift_base = 1; prefix = 1; suffix = 0 }
    else suffix_format last

unfoldable pub scan_format : Format → ℕ → List ℕ → Scan
scan_format f size p =
    if f.shift_base == 0
    then get_numeric_value_int_based 10 size p
    else get_numeric_value_two_based f.shift_base size p

-- GetNumericValue_ProcessLastError: an overflow is reported and the value kept.
abbrev pub is_fatal : Option NumericError → Bool
is_fatal none = false
is_fatal (some overflow) = false
is_fatal (some e) = true

abbrev pub error_report : Option NumericError → List Report
error_report none = []
error_report (some e) = error e ∷ []

abbrev pub is_overflow : Option NumericError → Bool
is_overflow (some overflow) = true
is_overflow e = false

-- The part behind a decimal point, which is scanned and thrown away.
unfoldable pub skip_decimal_part : Format → ℕ → List Report → List ℕ → List ℕ → Constant
skip_decimal_part f val reports op hard_end =
    let size = suc (literal_size (drop 2 hard_end)) in
    let s = scan_format f size (drop 1 hard_end) in
    if is_fatal s.last_err
    then record { parsed = false; val = val; op = op; reports = reports ++ error_report s.last_err }
    else record {
      parsed = true;
      val = val;
      op = drop (suc size) hard_end;
      reports =
          reports
          ++ ((if is_overflow s.last_err || not (s.val == 0)
                then non_zero_decimal
                else zero_decimal)
              ∷ []);
    }

-- `if ('#' == *pend || '$' == *pend || '%' == *pend) ++pend;`
abbrev pub sign_size : ℕ → ℕ
sign_size c = if c == b'#' || (c == b'$' || c == b'%') then 1 else 0

-- What follows from the format, the first and the last character of the digits and their scan;
-- `old_val` is what `val` holds before the call.
unfoldable pub finish_constant : ℕ → List ℕ → List ℕ → Format → ℕ → ℕ → Scan → Constant
finish_constant old_val op hard_end f first last s =
    if is_separator first || is_separator last
    then record { parsed = false; val = old_val; op = op; reports = error no_digit ∷ [] }
    else if is_fatal s.last_err
    then record { parsed = false; val = s.val; op = op; reports = error_report s.last_err }
    else if f.suffix == 0 && (head hard_end == b'.' && is_alnum (head (drop 1 hard_end)))
    then skip_decimal_part f s.val (error_report s.last_err) op hard_end
    else record { parsed = true; val = s.val; op = hard_end; reports = error_report s.last_err }

unfoldable pub get_constant : ℕ → List ℕ → Constant
get_constant old_val op =
    let pre = sign_size (head op) in
    let pend = pre + literal_size (drop pre op) in
    let f = format op (get_or op (pend - 1) 0) in
    let digits = drop f.prefix op in
    finish_constant old_val op (drop pend op) f (head digits) (get_or op (pend - f.suffix - 1) 0)
      (scan_format f (pend - f.suffix - f.prefix) digits)
