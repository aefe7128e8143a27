-- ===== src/Z80/Operands.antt =====
-- The readers of operands in sjasm/z80.cpp: conditions, bytes and displacements.
use sjasmplus.Common.{
  ℕ, ◌%◌, ◌^◌, Bool, true, false, not, ◌||◌, Option, none, some, List, [], ◌∷◌, ◌++◌, if◌then◌else◌,
  ◌==◌, length, drop, bit_and, bit_or, bit_xor,
}
use sjasmplus.Reader.Chars.{head, skip_blanks}
use sjasmplus.Reader.Words.{islabchar}
use sjasmplus.Reader.Outcome.{Message, Outcome, parsed, failed, out_of_fuel}
use sjasmplus.Relocation.{Relocation, check_and_warn}
use sjasmplus.Expression.Arithmetic.{check8, check8o}
use sjasmplus.Expression.Entry.{
  parse_expression, parse_expression_mem_access, Operand, value_operand, memory_operand, no_operand,
}
use sjasmplus.Z80.{
  Z80Cond, cond_nz, cond_z, cond_nc, cond_c, cond_po, cond_pe, cond_p, cond_m, cond_unk, Cpu,
  in_expression, operand_expected, cannot_access_memory, offset_out_of_range, byte_truncated, Line,
  report,
}

-- getz80cond_Z80 on a single letter.
unfoldable pub short_condition : ℕ → Z80Cond
short_condition c =
    if c == b'z'
    then cond_z
    else if c == b'c'
    then cond_c
    else if c == b'p'
    then cond_p
    else if c == b'm'
    then cond_m
    else if c == b's'
    then cond_m
    else cond_unk

unfoldable pub long_condition : ℕ → ℕ → Z80Cond
long_condition c d =
    if c == b'n'
    then if d == b'z'
      then cond_nz
      else if d == b'c'
      then cond_nc
      else if d == b's'
      then cond_p
      else cond_unk
    else if c == b'p'
    then if d == b'o' then cond_po else if d == b'e' then cond_pe else cond_unk
    else cond_unk

-- The pointer moves behind a condition that is one.
abbrev pub taken : Z80Cond → List ℕ → List ℕ → Z80Cond × List ℕ
taken cond_unk p q = (cond_unk, p)
taken c p q = (c, q)

-- getz80cond_Z80; the pointer is behind the blanks in any case.
unfoldable pub getz80cond_z80 : List ℕ → Z80Cond × List ℕ
getz80cond_z80 start =
    let p = skip_blanks start in
    let c = head p in
    let d = head (drop 1 p) in
    if c == 0
    then (cond_unk, p)
    else if not (islabchar d)
    then taken (short_condition (bit_or c 0x20)) p (drop 1 p)
    else if not (bit_and (bit_xor c d) 0x20 == 0)
    then (cond_unk, p)
    else if islabchar (head (drop 2 p))
    then (cond_unk, p)
    else taken (long_condition (bit_or c 0x20) (bit_or d 0x20)) p (drop 2 p)

-- The LR35902 has four conditions.
abbrev pub restricted : List ℕ → Z80Cond × List ℕ → Z80Cond × List ℕ
restricted start (cond_nz, q) = (cond_nz, q)
restricted start (cond_z, q) = (cond_z, q)
restricted start (cond_nc, q) = (cond_nc, q)
restricted start (cond_c, q) = (cond_c, q)
restricted start (c, q) = (cond_unk, start)

unfoldable pub getz80cond : Cpu → List ℕ → Z80Cond × List ℕ
getz80cond cpu p = if cpu.is_lr35902 then restricted p (getz80cond_z80 p) else getz80cond_z80 p

-- The line behind an operand, with its reports.
abbrev pub after_operand : Line → Relocation → List ℕ → List Message → Line
after_operand l r p ms = record l {
  text = p;
  state = record l.state { relocation = r };
  reports = l.reports ++ (in_expression ms ∷ []);
}

-- check8o or check8 of an operand.
abbrev pub byte_check : Bool → ℕ → Line → Line
byte_check signed v l =
    if signed
    then if check8o v then l else report (offset_out_of_range v) l
    else if check8 v
    then l
    else report (byte_truncated v) l

abbrev pub byte_of : Bool → Line → Outcome × Relocation → ℕ × Line
byte_of signed l (parsed v p ms, r) = (v % 2 ^ 8, byte_check signed v (after_operand l r p ms))
byte_of signed l (failed p ms, r) = (0, report operand_expected (after_operand l r p ms))
byte_of signed l (out_of_fuel, r) = (0, l)

-- GetByte.
unfoldable pub get_byte : Bool → Line → ℕ × Line
get_byte signed l = byte_of signed l (parse_expression l.state l.text)

abbrev pub byte_no_mem : Bool → Line → Operand × Relocation → ℕ × Line
byte_no_mem signed l (value_operand v p ms, r) =
    (v % 2 ^ 8, byte_check signed v (after_operand l r p ms))
byte_no_mem signed l (memory_operand v p ms, r) =
    (0, report cannot_access_memory (after_operand l r p ms))
byte_no_mem signed l (no_operand p ms, r) = (0, report operand_expected (after_operand l r p ms))

-- GetByteNoMem.
unfoldable pub get_byte_no_mem : Cpu → Bool → Line → ℕ × Line
get_byte_no_mem cpu signed l =
    if cpu.memory_brackets == 0
    then get_byte signed l
    else byte_no_mem signed l (parse_expression_mem_access l.state cpu.memory_brackets l.text)

abbrev pub seen_before : Option ℕ → ℕ → Bool
seen_before none n = false
seen_before (some m) n = m == n

-- `Relocation::checkAndWarn()`, or clearing isResultAffected the second time.
abbrev pub displacement_relocation : Bool → Relocation → Relocation
displacement_relocation seen r =
    if seen then record r { is_result_affected = false } else (check_and_warn false r).0

abbrev pub displacement_of : Bool → Line → Outcome × Relocation → ℕ × Line
displacement_of seen l (parsed v p ms, r) =
    (v % 2 ^ 8, byte_check true v (after_operand l (displacement_relocation seen r) p ms))
displacement_of seen l (failed p ms, r) = (0, report operand_expected (after_operand l r p ms))
displacement_of seen l (out_of_fuel, r) = (0, l)

-- z80GetIDxoffset.
unfoldable pub z80_get_idx_offset : Line → ℕ × Line
z80_get_idx_offset l =
    let pp = skip_blanks l.text in
    let seen = seen_before l.last_displacement (length pp) in
    let l' = record l { last_displacement = some (length pp) } in
    if head pp == b')' || head pp == b']'
    then (0, l')
    else displacement_of seen l' (parse_expression l.state l.text)
