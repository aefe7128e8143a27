-- ===== src/Z80/Printed/Immediate.antt =====
-- The ALU instructions of sjasm/z80.cpp with a number, against the decoder.
use sjasmplus.Common.{
  ℕ, ◌+◌, ◌*◌, ◌/◌, ◌%◌, ◌^◌, ◌<◌, ◌≡◌, refl, sym, ap, ◌∙◌, subst, Bool, true, false, ◌||◌, some,
  List, [], ◌∷◌, ◌++◌, if◌then◌else◌, ◌==◌, arith,
}
use sjasmplus.Reader.Chars.{skip_blanks}
use sjasmplus.Reader.Words.{cmphstr, match_letters}
use sjasmplus.Reader.Outcome.{Outcome, parsed, after}
use sjasmplus.Relocation.{Relocation, is_active}
use sjasmplus.Expression.{State}
use sjasmplus.Expression.Arithmetic.{check8}
use sjasmplus.Expression.Entry.{parse_expression_entry, parse_expression, reports_of, compare_runs}
use sjasmplus.Expression.Printed.{number, print_at, value, reports}
use sjasmplus.Expression.Printed.Symbols.{Follows}
use sjasmplus.Expression.Printed.Parse.{parse_expression_entry-print_at}
use sjasmplus.Z80.{reg_unk, Line, at_text}
use sjasmplus.Z80.Operands.{byte_of, get_byte, get_byte_no_mem}
use sjasmplus.Z80.Registers.{
  r8, find_long_name, find_name, long_names, get_long_register, get_register_body,
  get_register_fuel, get_register,
}
use sjasmplus.Z80.Alu.{Alu, immediate, alu_argument, done, first_argument, common_alu_opcode}
use sjasmplus.Z80.Decoder.{byte, alu, decode}
use sjasmplus.Z80.Printed.{z80_cpu}

abbrev number_text : ℕ → List ℕ → List ℕ
number_text v rest = print_at 11 (number v) ++ rest

if-first :
    (b : Bool) (x y : Outcome × Relocation) (o : Outcome)
    → x.0 ≡ o
    → y.0 ≡ o
    → (if b then x else y).0 ≡ o
if-first true x y o h k = h
if-first false x y o h k = k

-- A number has its value in and out of a relocation block.
pub parse_expression-number :
    (s : State) (v : ℕ) (rest : List ℕ)
    → v < 2 ^ 32
    → Follows 11 rest
    → (parse_expression s (number_text v rest)).0 ≡ parsed v rest []
unfolding parse_expression value reports
parse_expression-number s v rest fits f =
    let r = s.relocation in
    let run = parse_expression_entry s false (number_text v rest) in
    let other = parse_expression_entry (record s { synerr = false }) true (number_text v rest) in
    let read : run ≡ parsed v rest [] =
      parse_expression_entry-print_at s false (number v) rest fits f in
    let other_read : other ≡ parsed v rest [] =
      parse_expression_entry-print_at (record s { synerr = false }) true (number v) rest fits f in
    if-first (is_active r.type) (after (reports_of other) run, compare_runs other run r) (run, r) _
      (ap (λ o. after (reports_of o) run) other_read ∙ ap (after []) read) read

-- A number is no register.
get_register-number :
    (m plain : Bool) (v : ℕ) (rest : List ℕ) (l : Line)
    → get_register (z80_cpu m plain) (at_text (number_text v rest) l)
      ≡ (reg_unk, at_text (number_text v rest) l)
unfolding get_register get_register_fuel get_register_body r8 skip_blanks cmphstr match_letters
    get_long_register find_long_name find_name long_names print_at
get_register-number m plain v rest l = refl

if-text :
    (b : Bool) (x y : Line) (p : List ℕ) → x.text ≡ p → y.text ≡ p → (if b then x else y).text ≡ p
if-text true x y p h k = h
if-text false x y p h k = k

-- An unsigned byte operand that is a value.
pub byte_of-parsed :
    (l : Line) (x : Outcome × Relocation) (v : ℕ) (rest : List ℕ)
    → x.0 ≡ parsed v rest []
    → ((byte_of false l x).0 ≡ v % 2 ^ 8) × ((byte_of false l x).1.text ≡ rest)
byte_of-parsed l (o, r) v rest h =
    subst (λ o. ((byte_of false l (o, r)).0 ≡ v % 2 ^ 8) × ((byte_of false l (o, r)).1.text ≡ rest))
      (sym h) (refl, if-text (check8 v) _ _ rest refl refl)

immediate_code : (y v : ℕ) → y < 8 → decode ((0x80 + 8 * y + 0x46) ∷ v ∷ []) ≡ some (alu y, byte v)
unfolding decode
immediate_code y v h =
    let b = 0x80 + 8 * y + 0x46 in
    let ix : (b == 0xdd || b == 0xfd) ≡ false = ground (arith, h) in
    let cb : (b == 0xcb) ≡ false = ground (arith, h) in
    let x : b / 64 ≡ 3 = omega (arith, h) in
    let yf : b / 8 % 8 ≡ y = omega (arith, h) in
    let zf : b % 8 ≡ 6 = omega (arith, h) in rw (ix, cb, x, zf, yf) refl

-- An argument that is finished, as code for the operation `y` on a byte, with the text that is left.
abbrev pub IsByteCode : ℕ → ℕ → List ℕ → Alu → Type 0
IsByteCode y v rest a =
    (a.is_done ≡ true)
    × (decode a.encoded.bytes ≡ some (alu y, byte v))
    × (a.encoded.line.text ≡ rest)

immediate-IsByteCode :
    (y v : ℕ) (rest : List ℕ) (x : ℕ × Line)
    → y < 8
    → x.0 ≡ v
    → x.1.text ≡ rest
    → IsByteCode y v rest (done (immediate (0x80 + 8 * y) x))
immediate-IsByteCode y v rest (w, l) small h k =
    (refl, immediate_code y w small ∙ ap (λ w. some (alu y, byte w)) h, k)

-- CommonAluOpcode for the operation `y` reads a number of 32 bits, in front of a character that ends it, is no
-- blank and no `$` and starts no operator: it is finished, an independent decoder reads the bytes as this
-- operation on the low byte of the number, and the pointer is behind the number. The processor is a Z80
-- and brackets of both kinds are allowed.
pub common_alu_opcode-number :
    (m multi : Bool) (y v : ℕ) (again non_multi : Bool) (l : Line) (rest : List ℕ)
    → y < 8
    → v < 2 ^ 32
    → Follows 11 rest
    → IsByteCode y (v % 2 ^ 8) rest (
        common_alu_opcode
          (z80_cpu m multi)
          (0x80 + 8 * y)
          again
          non_multi
          (at_text (print_at 11 (number v) ++ rest) l))
unfolding common_alu_opcode first_argument alu_argument get_byte_no_mem get_byte
common_alu_opcode-number m multi y v again non_multi l rest small fits f =
    let here = at_text (number_text v rest) l in
    let x = parse_expression l.state (number_text v rest) in
    let read = byte_of-parsed here x v rest (parse_expression-number l.state v rest fits f) in
    subst (IsByteCode y (v % 2 ^ 8) rest)
      (sym (
        ap (first_argument (z80_cpu m multi) (0x80 + 8 * y) again non_multi (number_text v rest))
          (get_register-number m multi v rest l)))
      (immediate-IsByteCode y (v % 2 ^ 8) rest (byte_of false here x) small read.0 read.1)
