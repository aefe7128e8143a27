-- ===== src/Z80/Registers.antt =====
-- Register names: GetRegister of sjasm/z80.cpp.
use sjasmplus.Common.{
  ℕ, zero, suc, ◌+◌, Bool, false, not, ◌&&◌, ◌||◌, Option, none, some, List, [], ◌∷◌, if◌then◌else◌,
  leb, ◌==◌, length, drop, map, bit_or,
}
use sjasmplus.Reader.Chars.{is_upper, to_upper, head, skip_blanks}
use sjasmplus.Reader.Words.{islabchar, cmphstr}
use sjasmplus.Z80.{
  Z80Reg, reg_b, reg_c, reg_d, reg_e, reg_h, reg_l, mem_hl, reg_a, reg_i, reg_r, reg_f, reg_bc,
  reg_de, reg_hl, reg_sp, reg_af, mem_hl_i, mem_hl_d, reg_ix, reg_iy, mem_ix, mem_iy, reg_ixh,
  reg_ixl, reg_iyh, reg_iyl, reg_unk, Cpu, Line, at_text,
}
use sjasmplus.Z80.Operands.{z80_get_idx_offset}

abbrev pub non_z80 : Cpu → Bool
non_z80 cpu = cpu.is_i8080 || cpu.is_lr35902

-- GetRegister_r16High and GetRegister_r16Low.
unfoldable pub get_register_r16_high : Z80Reg → Z80Reg
get_register_r16_high reg_bc = reg_b
get_register_r16_high reg_de = reg_d
get_register_r16_high reg_hl = reg_h
get_register_r16_high reg_af = reg_a
get_register_r16_high reg_ix = reg_ixh
get_register_r16_high reg_iy = reg_iyh
get_register_r16_high r = reg_unk

unfoldable pub get_register_r16_low : Z80Reg → Z80Reg
get_register_r16_low reg_bc = reg_c
get_register_r16_low reg_de = reg_e
get_register_r16_low reg_hl = reg_l
get_register_r16_low reg_af = reg_f
get_register_r16_low reg_ix = reg_ixl
get_register_r16_low reg_iy = reg_iyl
get_register_r16_low r = reg_unk

-- The table r8 for a lower-case letter from `a` to `r`, with the adjustments to the options.
unfoldable pub r8 : Cpu → ℕ → Z80Reg
r8 cpu c =
    if c == b'a'
    then reg_a
    else if c == b'b'
    then reg_b
    else if c == b'c'
    then reg_c
    else if c == b'd'
    then reg_d
    else if c == b'e'
    then reg_e
    else if c == b'f'
    then reg_f
    else if c == b'h'
    then reg_h
    else if c == b'l'
    then reg_l
    else if c == b'm'
    then if cpu.m_is_memory then mem_hl else reg_unk
    else if c == b'i'
    then if non_z80 cpu then reg_unk else reg_i
    else if c == b'r'
    then if non_z80 cpu then reg_unk else reg_r
    else reg_unk

-- One expected letter: with --syntax=i both are compared in lower case.
abbrev pub same_letter : Cpu → ℕ → ℕ → Bool
same_letter cpu expect c =
    if cpu.case_insensitive then bit_or expect 0x20 == bit_or c 0x20 else expect == c

-- GetRegister_pair and GetRegister_3letter, for the letters behind the first one of a name.
unfoldable pub get_letters : Cpu → List ℕ → List ℕ → Option (List ℕ)
get_letters cpu [] p = if islabchar (head p) then none else some p
get_letters cpu (expect ∷ letters) p =
    let rest = get_letters cpu letters (drop 1 p) in
    if same_letter cpu expect (head p) then rest else none

-- The first name whose letters follow, with its register.
unfoldable pub find_name :
    Cpu → (ℕ → ℕ) → List (List ℕ × Z80Reg) → List ℕ → Option (Z80Reg × List ℕ)
find_name cpu form [] p = none
find_name cpu form ((letters, r) ∷ names) p =
    let more = find_name cpu form names p in
    elim (get_letters cpu (map form letters) p) [ some q ↦ some (r, q) | none ↦ more ]

-- The names by their first letter in lower case, without it.
unfoldable pub long_names : Cpu → ℕ → List (List ℕ × Z80Reg)
long_names cpu c =
    let indexed = λ (names : List (List ℕ × Z80Reg)). if non_z80 cpu then [] else names in
    if c == b'a'
    then (b'f' ∷ [], reg_af) ∷ []
    else if c == b'b'
    then (b'c' ∷ [], reg_bc) ∷ []
    else if c == b'd'
    then (b'e' ∷ [], reg_de) ∷ []
    else if c == b'h'
    then (b'l' ∷ [], reg_hl) ∷ indexed ((b'x' ∷ [], reg_ixh) ∷ (b'y' ∷ [], reg_iyh) ∷ [])
    else if c == b'i'
    then indexed (
        (b'x' ∷ [], reg_ix)
        ∷ (b'y' ∷ [], reg_iy)
        ∷ (b'x' ∷ b'h' ∷ [], reg_ixh)
        ∷ (b'x' ∷ b'l' ∷ [], reg_ixl)
        ∷ (b'y' ∷ b'h' ∷ [], reg_iyh)
        ∷ (b'y' ∷ b'l' ∷ [], reg_iyl)
        ∷ [])
    else if c == b'x'
    then indexed ((b'h' ∷ [], reg_ixh) ∷ (b'l' ∷ [], reg_ixl) ∷ [])
    else if c == b'y'
    then indexed ((b'h' ∷ [], reg_iyh) ∷ (b'l' ∷ [], reg_iyl) ∷ [])
    else if c == b'l'
    then indexed ((b'x' ∷ [], reg_ixl) ∷ (b'y' ∷ [], reg_iyl) ∷ [])
    else if c == b's'
    then (b'p' ∷ [], reg_sp) ∷ []
    else []

-- `case 'a':` and `case 'A':` of the switch: the case of the first letter is that of the others.
unfoldable pub find_long_name : Cpu → List ℕ → Option (Z80Reg × List ℕ)
find_long_name cpu p =
    if is_upper (head p)
    then find_name cpu to_upper (long_names cpu (head p + 32)) (drop 1 p)
    else find_name cpu (λ c. c) (long_names cpu (head p)) (drop 1 p)

-- `memClose`: 0 is none.
abbrev pub mem_close : Cpu → ℕ → ℕ
mem_close cpu c =
    if c == b'('
    then if cpu.memory_brackets == 2 then 0 else b')'
    else if c == b'['
    then b']'
    else 0

-- `hl+` and `hl-` of the LR35902.
abbrev pub stepped : Cpu → Z80Reg × Line → Z80Reg × Line
stepped cpu (reg_hl, l) =
    if cpu.is_lr35902 && head l.text == b'+'
    then (mem_hl_i, at_text (drop 1 l.text) l)
    else if cpu.is_lr35902 && head l.text == b'-'
    then (mem_hl_d, at_text (drop 1 l.text) l)
    else (reg_hl, l)
stepped cpu (r, l) = (r, l)

-- The displacement of IX and IY, kept in GetRegister_lastIxyD.
abbrev pub keep_displacement : ℕ × Line → Line
keep_displacement (d, l) = record l { last_ixy_d = d }

abbrev pub displaced : Z80Reg × Line → Line
displaced (reg_ix, l) = keep_displacement (z80_get_idx_offset l)
displaced (reg_iy, l) = keep_displacement (z80_get_idx_offset l)
displaced (r, l) = l

abbrev pub memory_of : Z80Reg → Z80Reg
memory_of reg_hl = mem_hl
memory_of reg_ix = mem_ix
memory_of reg_iy = mem_iy
memory_of mem_hl_i = mem_hl_i
memory_of mem_hl_d = mem_hl_d
memory_of r = reg_unk

-- A register that is none sets the pointer back.
abbrev pub or_back : List ℕ → Z80Reg × Line → Z80Reg × Line
or_back start (reg_unk, l) = (reg_unk, at_text start l)
or_back start (r, l) = (r, l)

-- The closing bracket behind a register and its displacement.
unfoldable pub close_memory : ℕ → List ℕ → Z80Reg × Line → Z80Reg × Line
close_memory close start (r, l) =
    let l' = displaced (r, l) in
    let p = skip_blanks l'.text in
    if head p == close
    then or_back start (memory_of r, at_text (drop 1 p) l')
    else (reg_unk, at_text start l')

-- `high` and `low` of a register pair: only an unknown register sets the pointer back.
abbrev pub part_of : (Z80Reg → Z80Reg) → List ℕ → Z80Reg × Line → Z80Reg × Line
part_of part start (reg_unk, l) = (reg_unk, at_text start l)
part_of part start (r, l) = (part r, l)

-- What is done with the result of a nested call; `none` is no behaviour of the code.
abbrev pub with_inner :
    (Z80Reg × Line → Z80Reg × Line) → Option (Z80Reg × Line) → Option (Z80Reg × Line)
with_inner f none = none
with_inner f (some x) = some (f x)

-- Names of two letters and more, and registers in brackets, read by `inner`.
unfoldable pub get_long_register :
    Cpu → (Line → Option (Z80Reg × Line)) → List ℕ → Line → Option (Z80Reg × Line)
get_long_register cpu inner start l =
    let p = l.text in
    let close = mem_close cpu (head p) in
    elim (find_long_name cpu p) [
      | some (r, q) ↦ some (r, at_text q l)
      | none ↦
          if close == 0
          then some (reg_unk, at_text start l)
          else with_inner (λ x. close_memory close start (stepped cpu x))
              (inner (at_text (drop 1 p) l))
    ]

-- GetRegister behind the blanks, `start` being the pointer before them.
unfoldable pub get_register_body :
    Cpu → (Line → Option (Z80Reg × Line)) → List ℕ → Line → Option (Z80Reg × Line)
get_register_body cpu inner start l =
    let p = l.text in
    let c = bit_or (head p) 0x20 in
    if leb b'a' c && leb c b'r' && not (islabchar (head (drop 1 p)))
    then some (or_back start (r8 cpu c, at_text (drop 1 p) l))
    else elim (cmphstr (b'h' ∷ b'i' ∷ b'g' ∷ b'h' ∷ []) false p) [
      | some q ↦ with_inner (part_of get_register_r16_high start) (inner (at_text q l))
      | none ↦ elim (cmphstr (b'l' ∷ b'o' ∷ b'w' ∷ []) false p) [
        | some q ↦ with_inner (part_of get_register_r16_low start) (inner (at_text q l))
        | none ↦ get_long_register cpu inner start l
      ]
    ]

-- GetRegister on fuel, which bounds the nesting of brackets and words; `none` is out of fuel.
unfoldable pub get_register_fuel : Cpu → ℕ → Line → Option (Z80Reg × Line)
get_register_fuel cpu zero l = none
get_register_fuel cpu (suc fuel) l =
    get_register_body cpu (get_register_fuel cpu fuel) l.text (at_text (skip_blanks l.text) l)

abbrev pub result_of : Line → Option (Z80Reg × Line) → Z80Reg × Line
result_of l none = (reg_unk, l)
result_of l (some x) = x

-- Each nested call is behind a bracket or a word, so that the fuel is enough.
unfoldable pub get_register : Cpu → Line → Z80Reg × Line
get_register cpu l = result_of l (get_register_fuel cpu (suc (length l.text)) l)
