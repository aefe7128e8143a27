-- ===== src/Z80/Fuel.antt =====
-- The fuel of GetRegister in sjasm/z80.cpp.
use sjasmplus.Common.{
  ℕ, zero, suc, ◌<◌, ◌≡◌, refl, sym, ap, ◌∙◌, Bool, true, false, not, ◌&&◌, Option, none, some,
  List, [], ◌∷◌, if◌then◌else◌, leb, ◌==◌, length, drop, bit_or, arith,
}
use sjasmplus.Reader.Chars.{head, skip_blanks}
use sjasmplus.Reader.Words.{islabchar, cmphstr}
use sjasmplus.Reader.Progress.{length-skip_blanks, word-less}
use sjasmplus.Z80.{Z80Reg, reg_unk, Cpu, Line, at_text}
use sjasmplus.Z80.Registers.{
  r8, find_long_name, mem_close, close_memory, get_long_register, get_register_body,
  get_register_fuel, get_register, with_inner, result_of, stepped, part_of, or_back,
  get_register_r16_high, get_register_r16_low,
}

abbrev Reading : Type 0
Reading = Option (Z80Reg × Line)

-- Two readers that agree on lines with less text than `p`.
abbrev AgreeBelow : (Line → Reading) → (Line → Reading) → List ℕ → Type 0
AgreeBelow f g p = (l : Line) → length l.text < length p → f l ≡ g l

-- A result, and not the end of the fuel.
abbrev Ends : Reading → Type 0
Ends o = (x : Z80Reg × Line) × (o ≡ some x)

abbrev EndsBelow : (Line → Reading) → List ℕ → Type 0
EndsBelow f p = (l : Line) → length l.text < length p → Ends (f l)

if-same :
    {A : Type 0}
    → (b : Bool) (x y z : A) → (b ≡ false → y ≡ z)
    → (if b then x else y) ≡ (if b then x else z)
if-same true x y z h = refl
if-same false x y z h = h refl

choice-same :
    {A B : Type 0}
    → (o : Option A) (f g : A → B) (x y : B) → ((a : A) → o ≡ some a → f a ≡ g a)
    → (o ≡ none → x ≡ y)
    → elim o [ some a ↦ f a | none ↦ x ] ≡ elim o [ some a ↦ g a | none ↦ y ]
choice-same none f g x y h k = k refl
choice-same (some a) f g x y h k = h a refl

if-Ends : (b : Bool) (x y : Reading) → Ends x → (b ≡ false → Ends y) → Ends (if b then x else y)
if-Ends true x y h k = h
if-Ends false x y h k = k refl

choice-Ends :
    {A : Type 0}
    → (o : Option A) (f : A → Reading) (x : Reading) → ((a : A) → o ≡ some a → Ends (f a))
    → Ends x
    → Ends (elim o [ some a ↦ f a | none ↦ x ])
choice-Ends none f x h k = k
choice-Ends (some a) f x h k = h a refl

with_inner-Ends : (f : Z80Reg × Line → Z80Reg × Line) (o : Reading) → Ends o → Ends (with_inner f o)
with_inner-Ends f o (x, e) = (f x, ap (with_inner f) e)

-- An opening bracket is a character.
drop-less :
    (cpu : Cpu) (p : List ℕ) → (mem_close cpu (head p) == 0) ≡ false → length (drop 1 p) < length p
drop-less cpu [] h = cc h
drop-less cpu (c ∷ p) h = omega arith

get_long_register-same :
    (cpu : Cpu) (f g : Line → Reading) (start : List ℕ) (l : Line)
    → AgreeBelow f g l.text
    → get_long_register cpu f start l ≡ get_long_register cpu g start l
unfolding get_long_register
get_long_register-same cpu f g start l agree =
    let close = mem_close cpu (head l.text) in
    let behind = at_text (drop 1 l.text) l in
    let inner = with_inner (λ x. close_memory close start (stepped cpu x)) in
    choice-same (find_long_name cpu l.text) (λ a. some (a.0, at_text a.1 l))
      (λ a. some (a.0, at_text a.1 l)) _ _ (λ a e. refl)
      (λ e.
        if-same (close == 0) (some (reg_unk, at_text start l)) (inner (f behind)) (inner (g behind))
          (λ h. ap inner (agree behind (drop-less cpu l.text h))))

get_long_register-Ends :
    (cpu : Cpu) (f : Line → Reading) (start : List ℕ) (l : Line)
    → EndsBelow f l.text
    → Ends (get_long_register cpu f start l)
unfolding get_long_register
get_long_register-Ends cpu f start l ends =
    let close = mem_close cpu (head l.text) in
    let behind = at_text (drop 1 l.text) l in
    let step = λ (x : Z80Reg × Line). close_memory close start (stepped cpu x) in
    choice-Ends (find_long_name cpu l.text) (λ a. some (a.0, at_text a.1 l)) _ (λ a e. (_, refl))
      (if-Ends (close == 0) (some (reg_unk, at_text start l)) (with_inner step (f behind)) (_, refl)
        (λ h. with_inner-Ends step (f behind) (ends behind (drop-less cpu l.text h))))

abbrev word_high : List ℕ
word_high = b'h' ∷ b'i' ∷ b'g' ∷ b'h' ∷ []

abbrev word_low : List ℕ
word_low = b'l' ∷ b'o' ∷ b'w' ∷ []

get_register_body-same :
    (cpu : Cpu) (f g : Line → Reading) (start : List ℕ) (l : Line)
    → AgreeBelow f g l.text
    → get_register_body cpu f start l ≡ get_register_body cpu g start l
unfolding get_register_body
get_register_body-same cpu f g start l agree =
    let p = l.text in
    let c = bit_or (head p) 0x20 in
    let high = with_inner (part_of get_register_r16_high start) in
    let low = with_inner (part_of get_register_r16_low start) in
    if-same (leb b'a' c && leb c b'r' && not (islabchar (head (drop 1 p))))
      (some (or_back start (r8 cpu c, at_text (drop 1 p) l))) _ _
      (λ h.
        choice-same (cmphstr word_high false p) (λ q. high (f (at_text q l)))
          (λ q. high (g (at_text q l))) _ _
          (λ q e. ap high (agree (at_text q l) (word-less word_high false p q refl e)))
          (λ e.
            choice-same (cmphstr word_low false p) (λ q. low (f (at_text q l)))
              (λ q. low (g (at_text q l))) _ _
              (λ q e. ap low (agree (at_text q l) (word-less word_low false p q refl e)))
              (λ e. get_long_register-same cpu f g start l agree)))

get_register_body-Ends :
    (cpu : Cpu) (f : Line → Reading) (start : List ℕ) (l : Line)
    → EndsBelow f l.text
    → Ends (get_register_body cpu f start l)
unfolding get_register_body
get_register_body-Ends cpu f start l ends =
    let p = l.text in
    let c = bit_or (head p) 0x20 in
    let high = part_of get_register_r16_high start in
    let low = part_of get_register_r16_low start in
    if-Ends (leb b'a' c && leb c b'r' && not (islabchar (head (drop 1 p))))
      (some (or_back start (r8 cpu c, at_text (drop 1 p) l))) _ (_, refl)
      (λ h.
        choice-Ends (cmphstr word_high false p) (λ q. with_inner high (f (at_text q l))) _
          (λ q e.
            with_inner-Ends high _ (ends (at_text q l) (word-less word_high false p q refl e)))
          (choice-Ends (cmphstr word_low false p) (λ q. with_inner low (f (at_text q l))) _
            (λ q e.
              with_inner-Ends low _ (ends (at_text q l) (word-less word_low false p q refl e)))
            (get_long_register-Ends cpu f start l ends)))

get_register_fuel-same :
    (cpu : Cpu) (m n : ℕ) (l : Line)
    → length l.text < m
    → length l.text < n
    → get_register_fuel cpu m l ≡ get_register_fuel cpu n l
unfolding get_register_fuel
get_register_fuel-same cpu zero n l h k = elim h [ ]
get_register_fuel-same cpu (suc m) zero l h k = elim k [ ]
get_register_fuel-same cpu (suc m) (suc n) l h k =
    get_register_body-same cpu (get_register_fuel cpu m) (get_register_fuel cpu n) l.text
      (at_text (skip_blanks l.text) l)
      (λ l' less.
        get_register_fuel-same cpu m n l' (omega (arith, h, less, length-skip_blanks l.text))
          (omega (arith, k, less, length-skip_blanks l.text)))

get_register_fuel-Ends :
    (cpu : Cpu) (n : ℕ) (l : Line) → length l.text < n → Ends (get_register_fuel cpu n l)
unfolding get_register_fuel
get_register_fuel-Ends cpu zero l h = elim h [ ]
get_register_fuel-Ends cpu (suc n) l h =
    get_register_body-Ends cpu (get_register_fuel cpu n) l.text (at_text (skip_blanks l.text) l)
      (λ l' less.
        get_register_fuel-Ends cpu n l' (omega (arith, h, less, length-skip_blanks l.text)))

result_of-Ends : (l : Line) (o : Reading) → Ends o → o ≡ some (result_of l o)
result_of-Ends l o (x, e) = e ∙ ap (λ o. some (result_of l o)) (sym e)

-- More fuel than characters of the text never runs out: GetRegister ends with a result, which is the same
-- for every such fuel.
pub get_register_fuel-get_register :
    (cpu : Cpu) (fuel : ℕ) (l : Line)
    → length l.text < fuel
    → get_register_fuel cpu fuel l ≡ some (get_register cpu l)
unfolding get_register
get_register_fuel-get_register cpu fuel l h =
    let enough = suc (length l.text) in
    get_register_fuel-same cpu fuel enough l h (omega arith)
    ∙ result_of-Ends l (get_register_fuel cpu enough l)
        (get_register_fuel-Ends cpu enough l (omega arith))
