-- ===== src/Z80/Printed/Conditions.antt =====
-- The texts of conditions, and how getz80cond of sjasm/z80.cpp reads them.
use sjasmplus.Common.{
  ℕ, ◌≡◌, refl, ap, ◌∙◌, Bool, true, false, not, List, [], ◌∷◌, ◌++◌, if◌then◌else◌,
}
use sjasmplus.Reader.Chars.{head, skip_blanks}
use sjasmplus.Reader.Words.{islabchar}
use sjasmplus.Z80.{
  Z80Cond, cond_nz, cond_z, cond_nc, cond_c, cond_po, cond_pe, cond_p, cond_m, cond_unk, Cpu,
}
use sjasmplus.Z80.Operands.{short_condition, long_condition, getz80cond_z80, restricted, getz80cond}
use sjasmplus.Z80.Printed.{both_cases, cased}

abbrev pub condition_text : Z80Cond → List ℕ
condition_text cond_nz = b'n' ∷ b'z' ∷ []
condition_text cond_z = b'z' ∷ []
condition_text cond_nc = b'n' ∷ b'c' ∷ []
condition_text cond_c = b'c' ∷ []
condition_text cond_po = b'p' ∷ b'o' ∷ []
condition_text cond_pe = b'p' ∷ b'e' ∷ []
condition_text cond_p = b'p' ∷ []
condition_text cond_m = b'm' ∷ []
condition_text cond_unk = []

-- The LR35902 has the first four.
abbrev pub has_condition : Bool → Z80Cond → Bool
has_condition lr35902 cond_nz = true
has_condition lr35902 cond_z = true
has_condition lr35902 cond_nc = true
has_condition lr35902 cond_c = true
has_condition lr35902 cond_unk = false
has_condition lr35902 c = not lr35902

module _ (rest : List ℕ) (e : islabchar (head rest) ≡ false) where
  abbrev IsTaken : Z80Cond → Bool → Type 0
  IsTaken c upper = getz80cond_z80 (cased upper (condition_text c) ++ rest) ≡ (c, rest)

  getz80cond_z80-condition_text :
      (c : Z80Cond) → has_condition false c ≡ true → (upper : Bool) → IsTaken c upper
  unfolding getz80cond_z80 skip_blanks short_condition long_condition islabchar
  getz80cond_z80-condition_text cond_nz h = both_cases (IsTaken cond_nz) (rw e refl) (rw e refl)
  getz80cond_z80-condition_text cond_z h = both_cases (IsTaken cond_z) (rw e refl) (rw e refl)
  getz80cond_z80-condition_text cond_nc h = both_cases (IsTaken cond_nc) (rw e refl) (rw e refl)
  getz80cond_z80-condition_text cond_c h = both_cases (IsTaken cond_c) (rw e refl) (rw e refl)
  getz80cond_z80-condition_text cond_po h = both_cases (IsTaken cond_po) (rw e refl) (rw e refl)
  getz80cond_z80-condition_text cond_pe h = both_cases (IsTaken cond_pe) (rw e refl) (rw e refl)
  getz80cond_z80-condition_text cond_p h = both_cases (IsTaken cond_p) (rw e refl) (rw e refl)
  getz80cond_z80-condition_text cond_m h = both_cases (IsTaken cond_m) (rw e refl) (rw e refl)
  getz80cond_z80-condition_text cond_unk h = cc h

restricted-allowed :
    (start rest : List ℕ) (c : Z80Cond)
    → has_condition true c ≡ true
    → restricted start (c, rest) ≡ (c, rest)
restricted-allowed start rest cond_nz h = refl
restricted-allowed start rest cond_z h = refl
restricted-allowed start rest cond_nc h = refl
restricted-allowed start rest cond_c h = refl
restricted-allowed start rest cond_po h = cc h
restricted-allowed start rest cond_pe h = cc h
restricted-allowed start rest cond_p h = cc h
restricted-allowed start rest cond_m h = cc h
restricted-allowed start rest cond_unk h = cc h

has_condition-z80 :
    (c : Z80Cond) (b : Bool) → has_condition b c ≡ true → has_condition false c ≡ true
has_condition-z80 cond_nz b h = refl
has_condition-z80 cond_z b h = refl
has_condition-z80 cond_nc b h = refl
has_condition-z80 cond_c b h = refl
has_condition-z80 cond_po b h = refl
has_condition-z80 cond_pe b h = refl
has_condition-z80 cond_p b h = refl
has_condition-z80 cond_m b h = refl
has_condition-z80 cond_unk b h = h

if-restricted :
    (b : Bool) (start rest : List ℕ) (c : Z80Cond)
    → has_condition b c ≡ true
    → (if b then restricted start (c, rest) else (c, rest)) ≡ (c, rest)
if-restricted true start rest c h = restricted-allowed start rest c h
if-restricted false start rest c h = refl

-- getz80cond reads the text of every condition that the processor has, in lower or upper case, in front of a
-- text that starts with no character of a name.
pub getz80cond-condition_text :
    (cpu : Cpu) (c : Z80Cond) (upper : Bool) (rest : List ℕ)
    → has_condition cpu.is_lr35902 c ≡ true
    → islabchar (head rest) ≡ false
    → getz80cond cpu (cased upper (condition_text c) ++ rest) ≡ (c, rest)
unfolding getz80cond
getz80cond-condition_text cpu c upper rest h e =
    let text = cased upper (condition_text c) ++ rest in
    ap (λ x. if cpu.is_lr35902 then restricted text x else x)
      (getz80cond_z80-condition_text rest e c (has_condition-z80 c cpu.is_lr35902 h) upper)
    ∙ if-restricted cpu.is_lr35902 text rest c h
