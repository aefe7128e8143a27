-- ===== src/Z80/Printed.antt =====
-- Operands as texts, and how GetRegister of sjasm/z80.cpp reads them.
pub mod Alu
pub mod Immediate
pub mod Ranges
pub mod Conditions
pub mod Steps
pub mod Bits
use sjasmplus.Common.{
  ℕ, zero, suc, ◌+◌, ◌≡◌, refl, Bool, true, false, not, ◌&&◌, ◌||◌, List, [], ◌∷◌, ◌++◌, map, ◌==◌,
  ==-self, none, some,
}
use sjasmplus.Reader.Chars.{is_alpha, to_upper, head, skip_blanks}
use sjasmplus.Reader.Words.{islabchar, cmphstr, match_letters, ends_word}
use sjasmplus.Z80.{
  Z80Reg, reg_b, reg_c, reg_d, reg_e, reg_h, reg_l, mem_hl, reg_a, reg_i, reg_r, reg_f, reg_bc,
  reg_de, reg_hl, reg_sp, reg_af, reg_ix, reg_iy, reg_ixh, reg_ixl, reg_iyh, reg_iyl, mem_hl_i,
  mem_hl_d, mem_ix, mem_iy, reg_unk, Cpu, Line, at_text,
}
use sjasmplus.Z80.Registers.{
  r8, find_long_name, find_name, get_letters, long_names, close_memory, get_long_register,
  get_register_body, get_register_fuel, get_register,
}

-- A Z80 with case-sensitive names and both kinds of brackets.
abbrev pub z80_cpu : Bool → Bool → Cpu
z80_cpu m_is_memory plain_comma = record {
  is_i8080 = false;
  is_lr35902 = false;
  case_insensitive = false;
  m_is_memory = m_is_memory;
  memory_brackets = 0;
  plain_comma = plain_comma;
}

-- The registers with a name, and (hl).
abbrev pub register_text : Z80Reg → List ℕ
register_text reg_b = b'b' ∷ []
register_text reg_c = b'c' ∷ []
register_text reg_d = b'd' ∷ []
register_text reg_e = b'e' ∷ []
register_text reg_h = b'h' ∷ []
register_text reg_l = b'l' ∷ []
register_text reg_a = b'a' ∷ []
register_text reg_i = b'i' ∷ []
register_text reg_r = b'r' ∷ []
register_text reg_f = b'f' ∷ []
register_text reg_bc = b'b' ∷ b'c' ∷ []
register_text reg_de = b'd' ∷ b'e' ∷ []
register_text reg_hl = b'h' ∷ b'l' ∷ []
register_text reg_sp = b's' ∷ b'p' ∷ []
register_text reg_af = b'a' ∷ b'f' ∷ []
register_text reg_ix = b'i' ∷ b'x' ∷ []
register_text reg_iy = b'i' ∷ b'y' ∷ []
register_text reg_ixh = b'i' ∷ b'x' ∷ b'h' ∷ []
register_text reg_ixl = b'i' ∷ b'x' ∷ b'l' ∷ []
register_text reg_iyh = b'i' ∷ b'y' ∷ b'h' ∷ []
register_text reg_iyl = b'i' ∷ b'y' ∷ b'l' ∷ []
register_text mem_hl = b'(' ∷ b'h' ∷ b'l' ∷ b')' ∷ []
register_text r = []

abbrev pub has_name : Z80Reg → Bool
has_name r = elim (register_text r) [ [] ↦ false | _ ↦ true ]

abbrev has_long_name : Z80Reg → Bool
has_long_name reg_bc = true
has_long_name reg_de = true
has_long_name reg_hl = true
has_long_name reg_sp = true
has_long_name reg_af = true
has_long_name reg_ix = true
has_long_name reg_iy = true
has_long_name reg_ixh = true
has_long_name reg_ixl = true
has_long_name reg_iyh = true
has_long_name reg_iyl = true
has_long_name r = false

-- The name in lower or in upper case.
abbrev pub cased : Bool → List ℕ → List ℕ
cased true text = map to_upper text
cased false text = text

pub both_cases : (P : Bool → Type 0) → P true → P false → (b : Bool) → P b
both_cases P t f true = t
both_cases P t f false = f

module _ (m plain : Bool) where
  letters-differ :
      (c d : ℕ) (letters p : List ℕ)
      → (c == d) ≡ false
      → get_letters (z80_cpu m plain) (c ∷ letters) (d ∷ p) ≡ none
  unfolding get_letters
  letters-differ c d letters p h = rw h refl

  letters-longer :
      (c d : ℕ) (p : List ℕ)
      → islabchar d ≡ true
      → get_letters (z80_cpu m plain) (c ∷ []) (c ∷ d ∷ p) ≡ none
  unfolding get_letters
  letters-longer c d p h = rw (==-self c, h) refl

module _ (m plain : Bool) (rest : List ℕ) (l : Line) (e : islabchar (head rest) ≡ false) where
  abbrev IsRead : Z80Reg → Bool → Type 0
  IsRead r upper =
      get_register (z80_cpu m plain) (at_text (cased upper (register_text r) ++ rest) l)
      ≡ (r, at_text rest l)

  two_differ :
      (c d x : ℕ)
      → (d == x) ≡ false
      → get_letters (z80_cpu m plain) (c ∷ d ∷ []) (c ∷ x ∷ rest) ≡ none
  unfolding get_letters
  two_differ c d x h = rw (==-self c, h) refl

  one_letter : (c : ℕ) → get_letters (z80_cpu m plain) (c ∷ []) (c ∷ rest) ≡ some rest
  unfolding get_letters
  one_letter c = rw (==-self c, e) refl

  two_letters : (c d : ℕ) → get_letters (z80_cpu m plain) (c ∷ d ∷ []) (c ∷ d ∷ rest) ≡ some rest
  unfolding get_letters
  two_letters c d = rw (==-self c, ==-self d, e) refl

  get_register-mem_hl : (upper : Bool) → IsRead mem_hl upper
  unfolding get_register get_register_fuel get_register_body r8 skip_blanks cmphstr match_letters
      get_long_register find_long_name find_name long_names get_letters close_memory islabchar
  get_register-mem_hl = both_cases (IsRead mem_hl) refl refl

  get_register-pair : (r : Z80Reg) → has_long_name r ≡ true → (upper : Bool) → IsRead r upper
  unfolding get_register get_register_fuel get_register_body r8 skip_blanks cmphstr match_letters
      get_long_register find_long_name find_name long_names islabchar
  get_register-pair reg_bc h =
      both_cases (IsRead reg_bc)
        (rw (get_register, get_long_register, find_long_name, find_name, one_letter b'C') refl)
        (rw (get_register, get_long_register, find_long_name, find_name, one_letter b'c') refl)
  get_register-pair reg_de h =
      both_cases (IsRead reg_de)
        (rw (get_register, get_long_register, find_long_name, find_name, one_letter b'E') refl)
        (rw (get_register, get_long_register, find_long_name, find_name, one_letter b'e') refl)
  get_register-pair reg_hl h =
      both_cases (IsRead reg_hl)
        (rw (get_register, get_long_register, find_long_name, find_name, one_letter b'L') refl)
        (rw (get_register, get_long_register, find_long_name, find_name, one_letter b'l') refl)
  get_register-pair reg_sp h =
      both_cases (IsRead reg_sp)
        (rw (get_register, get_long_register, find_long_name, find_name, one_letter b'P') refl)
        (rw (get_register, get_long_register, find_long_name, find_name, one_letter b'p') refl)
  get_register-pair reg_af h =
      both_cases (IsRead reg_af)
        (rw (get_register, get_long_register, find_long_name, find_name, one_letter b'F') refl)
        (rw (get_register, get_long_register, find_long_name, find_name, one_letter b'f') refl)
  get_register-pair reg_ix h =
      both_cases (IsRead reg_ix)
        (rw (get_register, get_long_register, find_long_name, find_name, one_letter b'X') refl)
        (rw (get_register, get_long_register, find_long_name, find_name, one_letter b'x') refl)
  get_register-pair reg_iy h =
      both_cases (IsRead reg_iy)
        (rw
          (
            get_register,
            get_long_register,
            find_long_name,
            find_name,
            letters-differ m plain b'X' b'Y' [] rest refl,
            one_letter b'Y',
          )
          refl)
        (rw
          (
            get_register,
            get_long_register,
            find_long_name,
            find_name,
            letters-differ m plain b'x' b'y' [] rest refl,
            one_letter b'y',
          )
          refl)
  get_register-pair reg_ixh h =
      both_cases (IsRead reg_ixh)
        (rw
          (
            get_register,
            get_long_register,
            find_long_name,
            find_name,
            letters-longer m plain b'X' b'H' rest refl,
            letters-differ m plain b'Y' b'X' [] (b'H' ∷ rest) refl,
            two_letters b'X' b'H',
          )
          refl)
        (rw
          (
            get_register,
            get_long_register,
            find_long_name,
            find_name,
            letters-longer m plain b'x' b'h' rest refl,
            letters-differ m plain b'y' b'x' [] (b'h' ∷ rest) refl,
            two_letters b'x' b'h',
          )
          refl)
  get_register-pair reg_ixl h =
      both_cases (IsRead reg_ixl)
        (rw
          (
            get_register,
            get_long_register,
            find_long_name,
            find_name,
            letters-longer m plain b'X' b'L' rest refl,
            letters-differ m plain b'Y' b'X' [] (b'L' ∷ rest) refl,
            two_differ b'X' b'H' b'L' refl,
            two_letters b'X' b'L',
          )
          refl)
        (rw
          (
            get_register,
            get_long_register,
            find_long_name,
            find_name,
            letters-longer m plain b'x' b'l' rest refl,
            letters-differ m plain b'y' b'x' [] (b'l' ∷ rest) refl,
            two_differ b'x' b'h' b'l' refl,
            two_letters b'x' b'l',
          )
          refl)
  get_register-pair reg_iyh h =
      both_cases (IsRead reg_iyh)
        (rw
          (
            get_register,
            get_long_register,
            find_long_name,
            find_name,
            letters-differ m plain b'X' b'Y' [] (b'H' ∷ rest) refl,
            letters-longer m plain b'Y' b'H' rest refl,
            letters-differ m plain b'X' b'Y' (b'H' ∷ []) (b'H' ∷ rest) refl,
            letters-differ m plain b'X' b'Y' (b'L' ∷ []) (b'H' ∷ rest) refl,
            two_letters b'Y' b'H',
          )
          refl)
        (rw
          (
            get_register,
            get_long_register,
            find_long_name,
            find_name,
            letters-differ m plain b'x' b'y' [] (b'h' ∷ rest) refl,
            letters-longer m plain b'y' b'h' rest refl,
            letters-differ m plain b'x' b'y' (b'h' ∷ []) (b'h' ∷ rest) refl,
            letters-differ m plain b'x' b'y' (b'l' ∷ []) (b'h' ∷ rest) refl,
            two_letters b'y' b'h',
          )
          refl)
  get_register-pair reg_iyl h =
      both_cases (IsRead reg_iyl)
        (rw
          (
            get_register,
            get_long_register,
            find_long_name,
            find_name,
            letters-differ m plain b'X' b'Y' [] (b'L' ∷ rest) refl,
            letters-longer m plain b'Y' b'L' rest refl,
            letters-differ m plain b'X' b'Y' (b'H' ∷ []) (b'L' ∷ rest) refl,
            letters-differ m plain b'X' b'Y' (b'L' ∷ []) (b'L' ∷ rest) refl,
            two_differ b'Y' b'H' b'L' refl,
            two_letters b'Y' b'L',
          )
          refl)
        (rw
          (
            get_register,
            get_long_register,
            find_long_name,
            find_name,
            letters-differ m plain b'x' b'y' [] (b'l' ∷ rest) refl,
            letters-longer m plain b'y' b'l' rest refl,
            letters-differ m plain b'x' b'y' (b'h' ∷ []) (b'l' ∷ rest) refl,
            letters-differ m plain b'x' b'y' (b'l' ∷ []) (b'l' ∷ rest) refl,
            two_differ b'y' b'h' b'l' refl,
            two_letters b'y' b'l',
          )
          refl)
  get_register-pair reg_b h = cc h
  get_register-pair reg_c h = cc h
  get_register-pair reg_d h = cc h
  get_register-pair reg_e h = cc h
  get_register-pair reg_h h = cc h
  get_register-pair reg_l h = cc h
  get_register-pair mem_hl h = cc h
  get_register-pair reg_a h = cc h
  get_register-pair reg_i h = cc h
  get_register-pair reg_r h = cc h
  get_register-pair reg_f h = cc h
  get_register-pair mem_hl_i h = cc h
  get_register-pair mem_hl_d h = cc h
  get_register-pair mem_ix h = cc h
  get_register-pair mem_iy h = cc h
  get_register-pair reg_unk h = cc h

  -- GetRegister reads the name of every register, in lower or upper case, up to a character that no name
  -- has. The processor is a Z80, names are case-sensitive and brackets of both kinds allowed.
  pub get_register-register_text :
      (r : Z80Reg) → has_name r ≡ true → (upper : Bool) → IsRead r upper
  unfolding get_register get_register_fuel get_register_body r8 skip_blanks cmphstr match_letters
      get_long_register find_long_name find_name long_names get_letters
  get_register-register_text reg_b h = both_cases (IsRead reg_b) (rw e refl) (rw e refl)
  get_register-register_text reg_c h = both_cases (IsRead reg_c) (rw e refl) (rw e refl)
  get_register-register_text reg_d h = both_cases (IsRead reg_d) (rw e refl) (rw e refl)
  get_register-register_text reg_e h = both_cases (IsRead reg_e) (rw e refl) (rw e refl)
  get_register-register_text reg_h h = both_cases (IsRead reg_h) (rw e refl) (rw e refl)
  get_register-register_text reg_l h = both_cases (IsRead reg_l) (rw e refl) (rw e refl)
  get_register-register_text reg_a h = both_cases (IsRead reg_a) (rw e refl) (rw e refl)
  get_register-register_text reg_i h = both_cases (IsRead reg_i) (rw e refl) (rw e refl)
  get_register-register_text reg_r h = both_cases (IsRead reg_r) (rw e refl) (rw e refl)
  get_register-register_text reg_f h = both_cases (IsRead reg_f) (rw e refl) (rw e refl)
  get_register-register_text reg_bc h = get_register-pair reg_bc refl
  get_register-register_text reg_de h = get_register-pair reg_de refl
  get_register-register_text reg_hl h = get_register-pair reg_hl refl
  get_register-register_text reg_sp h = get_register-pair reg_sp refl
  get_register-register_text reg_af h = get_register-pair reg_af refl
  get_register-register_text reg_ix h = get_register-pair reg_ix refl
  get_register-register_text reg_iy h = get_register-pair reg_iy refl
  get_register-register_text reg_ixh h = get_register-pair reg_ixh refl
  get_register-register_text reg_ixl h = get_register-pair reg_ixl refl
  get_register-register_text reg_iyh h = get_register-pair reg_iyh refl
  get_register-register_text reg_iyl h = get_register-pair reg_iyl refl
  get_register-register_text mem_hl h = get_register-mem_hl
  get_register-register_text mem_hl_i h = cc h
  get_register-register_text mem_hl_d h = cc h
  get_register-register_text mem_ix h = cc h
  get_register-register_text mem_iy h = cc h
  get_register-register_text reg_unk h = cc h
