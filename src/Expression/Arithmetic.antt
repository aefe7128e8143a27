-- ===== src/Expression/Arithmetic.antt =====
-- The C operators on `aint` values, which are 32-bit patterns.
use sjasmplus.Common.{
  ℕ, ◌-◌, ◌*◌, ◌/◌, ◌%◌, ◌^◌, Bool, true, false, not, ◌||◌, if◌then◌else◌, ltb, leb,
}

abbrev pub is_negative : ℕ → Bool
is_negative v = leb (2 ^ 31) v

-- `-v`.
unfoldable pub negated : ℕ → ℕ
negated v = (2 ^ 32 - v) % 2 ^ 32

-- `a < b` of signed values.
unfoldable pub signed_ltb : ℕ → ℕ → Bool
signed_ltb a b =
    if is_negative a
    then if is_negative b then ltb a b else true
    else if is_negative b
    then false
    else ltb a b

-- `-b` of a test.
unfoldable pub flag : Bool → ℕ
flag true = 2 ^ 32 - 1
flag false = 0

unfoldable pub magnitude : ℕ → ℕ
magnitude v = if is_negative v then negated v else v

abbrev pub same_sign : ℕ → ℕ → Bool
same_sign a b = if is_negative a then is_negative b else not (is_negative b)

-- `a / b` towards zero, `b` not zero.
unfoldable pub quotient : ℕ → ℕ → ℕ
quotient a b = let q = magnitude a / magnitude b in if same_sign a b then q % 2 ^ 32 else negated q

-- `a % b`, with the sign of `a`.
unfoldable pub remainder : ℕ → ℕ → ℕ
remainder a b = let r = magnitude a % magnitude b in if is_negative a then negated r else r

unfoldable pub shift_left : ℕ → ℕ → ℕ
shift_left a n = a * 2 ^ n % 2 ^ 32

-- `a >> n` of a signed value.
unfoldable pub shift_right : ℕ → ℕ → ℕ
shift_right a n = if is_negative a then 2 ^ 32 - 1 - (2 ^ 32 - 1 - a) / 2 ^ n else a / 2 ^ n

unfoldable pub shift_right_unsigned : ℕ → ℕ → ℕ
shift_right_unsigned a n = a / 2 ^ n

-- check8, check8o, check16, check16u and check24: whether the value is in range.
unfoldable pub check8 : ℕ → Bool
check8 val = not (signed_ltb val (negated 256) || signed_ltb 255 val)

unfoldable pub check8o : ℕ → Bool
check8o val = not (signed_ltb val (negated 128) || signed_ltb 127 val)

unfoldable pub check16 : ℕ → Bool
check16 val = not (signed_ltb val (negated 65536) || signed_ltb 65535 val)

unfoldable pub check16u : ℕ → Bool
check16u val = not (signed_ltb val 0 || signed_ltb 65535 val)

unfoldable pub check24 : ℕ → Bool
check24 val = not (signed_ltb val (negated 16777216) || signed_ltb 16777215 val)
