-- ===== src/Reader/Literal/Value.antt =====
-- The value that the two scans of sjasm/reader.cpp give to a numeral, and when they report an
-- overflow.
use sjasmplus.Common.{
  ℕ, suc, ◌+◌, ◌*◌, ◌%◌, ◌^◌, ◌≤◌, ◌<◌, ◌≡◌, ◌≢◌, refl, ◌∙◌, ◌⊎◌, inl, inr, true, false, Option,
  none, some, List, [], ◌∷◌, ◌++◌, if◌then◌else◌, ltb, ◌==◌, length, length-append, All, arith,
}
use sjasmplus.Reader.Chars.{is_alnum, getval}
use sjasmplus.Reader.Literal.{
  NumericError, overflow, Scan, is_separator, Step, two_based_step, int_based_step, scan_digits,
  scan_number, get_numeric_value_two_based, get_numeric_value_int_based,
}
use mathlib.Core.List.{foldl}

-- The texts of the digits `ds`: letters and digits below the base, each with at most one separator
-- before it.
pub data Spells (base : ℕ) : List ℕ → List ℕ → Type 0 where
  done : Spells base [] []
  plain :
      (c : ℕ) {p ds : List ℕ}
      → is_alnum c ≡ true
      → getval c < base
      → Spells base p ds
      → Spells base (c ∷ p) (getval c ∷ ds)
  grouped :
      (s c : ℕ) {p ds : List ℕ}
      → is_separator s ≡ true
      → is_alnum c ≡ true
      → getval c < base
      → Spells base p ds
      → Spells base (s ∷ c ∷ p) (getval c ∷ ds)

-- The number that a list of digits denotes.
unfoldable pub numeral : ℕ → List ℕ → ℕ
numeral base ds = foldl (λ t d. t * base + d) 0 ds

pub numeral-nil : (base : ℕ) → numeral base [] ≡ 0
unfolding numeral
numeral-nil base = refl

-- The loop's state after the digits.
steps : Step → List ℕ → ℕ → Option NumericError → ℕ × Option NumericError
steps step [] val err = (val, err)
steps step (d ∷ ds) val err =
    let (next, over) = step val d in steps step ds next (if over then some overflow else err)

scan_digits-plain :
    (base : ℕ) (step : Step) (size c : ℕ) (p : List ℕ) (val : ℕ) (err : Option NumericError)
    → is_alnum c ≡ true
    → getval c < base
    → scan_digits base step (suc size) (c ∷ p) val err
      ≡ scan_digits base step size p
          (step val (getval c)).0
          (if (step val (getval c)).1 then some overflow else err)
unfolding scan_digits
scan_digits-plain base step size c p val err h lt = ground arith

scan_digits-separator :
    (base : ℕ) (step : Step) (size s c : ℕ) (p : List ℕ) (val : ℕ) (err : Option NumericError)
    → is_separator s ≡ true
    → is_alnum c ≡ true
    → scan_digits base step (suc size) (s ∷ c ∷ p) val err
      ≡ scan_digits base step size (c ∷ p) val err
unfolding scan_digits
scan_digits-separator base step size s c p val err hs hc = rw (hs, hc)

scan_digits-zero :
    (base : ℕ) (step : Step) (rest : List ℕ) (val : ℕ) (err : Option NumericError)
    → scan_digits base step 0 rest val err ≡ record { val = val; last_err = err; rest = rest }
unfolding scan_digits
scan_digits-zero base step rest val err = refl

scan_digits-Spells :
    (base : ℕ) (step : Step) {p ds : List ℕ} (rest : List ℕ) (val : ℕ) (err : Option NumericError)
    → Spells base p ds
    → let final = steps step ds val err in
      scan_digits base step (length p) (p ++ rest) val err
      ≡ record { val = final.0; last_err = final.1; rest = rest }
unfolding steps
scan_digits-Spells base step rest val err done = scan_digits-zero base step rest val err
scan_digits-Spells base step rest val err (plain c {p = p} h lt sp) =
    scan_digits-plain base step (length p) c (p ++ rest) val err h lt
    ∙ scan_digits-Spells base step rest _ _ sp
scan_digits-Spells base step rest val err (grouped s c {p = p} hs h lt sp) =
    scan_digits-separator base step (suc (length p)) s c (p ++ rest) val err hs h
    ∙ scan_digits-plain base step (length p) c (p ++ rest) val err h lt
    ∙ scan_digits-Spells base step rest _ _ sp

-- The pattern of a number and the error of a scan that has read it: an overflow is known exactly.
abbrev Exact : ℕ → ℕ → Option NumericError → Type 0
Exact t val err = (val ≡ t % 2 ^ 32) × (err ≡ (if ltb t (2 ^ 32) then none else some overflow))

-- The bases that GetConstant scans by shifts: binary, octal and hexadecimal.
abbrev pub IsShift : ℕ → Type 0
IsShift s = (s ≡ 1) ⊎ (s ≡ 3) ⊎ (s ≡ 4)

abbrev ExactStep : ℕ → Step → Type 0
ExactStep base step =
    (t d val : ℕ) (err : Option NumericError)
    → d < base
    → Exact t val err
    → Exact (t * base + d) (step val d).0 (if (step val d).1 then some overflow else err)

binary_step : ExactStep (2 ^ 1) (two_based_step 1)
binary_step t d val err h e = (omega arith, ground arith)

octal_step : ExactStep (2 ^ 3) (two_based_step 3)
octal_step t d val err h e = (omega arith, ground arith)

hexadecimal_step : ExactStep (2 ^ 4) (two_based_step 4)
hexadecimal_step t d val err h e = (omega arith, ground arith)

two_based_step-ExactStep : (s : ℕ) → IsShift s → ExactStep (2 ^ s) (two_based_step s)
two_based_step-ExactStep s (inl e) = rw e binary_step
two_based_step-ExactStep s (inr (inl e)) = rw e octal_step
two_based_step-ExactStep s (inr (inr e)) = rw e hexadecimal_step

steps-Exact :
    (base : ℕ) (step : Step) (ds : List ℕ) (t val : ℕ) (err : Option NumericError)
    → ExactStep base step
    → All (λ d. d < base) ds
    → Exact t val err
    → Exact (foldl (λ t d. t * base + d) t ds) (steps step ds val err).0 (steps step ds val err).1
unfolding steps
steps-Exact base step [] t val err es hs e = e
steps-Exact base step (d ∷ ds) t val err es (h, hs) e =
    steps-Exact base step ds (t * base + d) _ _ es hs (es t d val err h e)

Spells-lt : (base : ℕ) {p ds : List ℕ} → Spells base p ds → All (λ d. d < base) ds
Spells-lt base done = tt
Spells-lt base (plain c h lt sp) = (lt, Spells-lt base sp)
Spells-lt base (grouped s c hs h lt sp) = (lt, Spells-lt base sp)

-- A binary, octal or hexadecimal numeral of at least one digit, separators included, is read whole:
-- the value is the number modulo 2 ^ 32, and an overflow is reported exactly if it does not fit 32
-- bits.
pub get_numeric_value_two_based_exact :
    (s : ℕ) (p ds rest : List ℕ)
    → IsShift s
    → Spells (2 ^ s) p ds
    → 0 < length p
    → let t = numeral (2 ^ s) ds in
      get_numeric_value_two_based s (length p) (p ++ rest) ≡ record {
        val = t % 2 ^ 32;
        last_err = if ltb t (2 ^ 32) then none else some overflow;
        rest = rest;
      }
unfolding get_numeric_value_two_based scan_number numeral
get_numeric_value_two_based_exact s p ds rest hs sp pos =
    let (v, e) =
      steps-Exact (2 ^ s) (two_based_step s) ds 0 0 none (two_based_step-ExactStep s hs)
        (Spells-lt (2 ^ s) sp) (refl, refl) in
    ground (arith, scan_digits-Spells (2 ^ s) (two_based_step s) rest 0 none sp, v, e)

-- What the test for an overflow in the decimal scan guarantees: the value is right modulo 2 ^ 32,
-- and an overflow that is reported has happened.
abbrev Sound : ℕ → ℕ → Option NumericError → Type 0
Sound t val err = (val ≡ t % 2 ^ 32) × ((err ≡ none) ⊎ (err ≡ some overflow) × (2 ^ 32 ≤ t))

decimal_step-Sound :
    (t d val : ℕ) (err : Option NumericError)
    → d < 10
    → Sound t val err
    → let (next, over) = int_based_step 10 val d in
      Sound (t * 10 + d) next (if over then some overflow else err)
decimal_step-Sound t d val err h (hv, inl he) = (omega arith, ground arith)
decimal_step-Sound t d val err h (hv, inr (he, big)) = (omega arith, ground arith)

steps-Sound :
    (ds : List ℕ) (t val : ℕ) (err : Option NumericError)
    → All (λ d. d < 10) ds
    → Sound t val err
    → let final = steps (int_based_step 10) ds val err in
      Sound (foldl (λ t d. t * 10 + d) t ds) final.0 final.1
unfolding steps
steps-Sound [] t val err hs e = e
steps-Sound (d ∷ ds) t val err (h, hs) e =
    steps-Sound ds (t * 10 + d) _ _ hs (decimal_step-Sound t d val err h e)

-- A decimal numeral of at least one digit is read whole. The value is the number modulo 2 ^ 32; the
-- only error is an overflow, and only numbers that do not fit 32 bits get it.
pub get_numeric_value_int_based_sound :
    (p ds rest : List ℕ)
    → Spells 10 p ds
    → 0 < length p
    → let t = numeral 10 ds in
      let s = get_numeric_value_int_based 10 (length p) (p ++ rest) in
      (s.val ≡ t % 2 ^ 32)
      × (s.rest ≡ rest)
      × ((s.last_err ≡ none) ⊎ (s.last_err ≡ some overflow) × (2 ^ 32 ≤ t))
unfolding get_numeric_value_int_based scan_number numeral
get_numeric_value_int_based_sound p ds rest sp pos =
    let scanned = scan_digits-Spells 10 (int_based_step 10) rest 0 none sp in
    let (v, e) = steps-Sound ds 0 0 none (Spells-lt 10 sp) (refl, inl refl) in
    let some_digits : (length p == 0) ≡ false = ground arith in
    rw (some_digits, scanned) (v, refl, e)

steps-append :
    (step : Step) (ds : List ℕ) (d val : ℕ) (err : Option NumericError)
    → steps step (ds ++ (d ∷ [])) val err ≡ (
        let (v, e) = steps step ds val err in
        let (next, over) = step v d in (next, if over then some overflow else e))
unfolding steps
steps-append step [] d val err = refl
steps-append step (x ∷ ds) d val err = steps-append step ds d _ _

foldl-append :
    (base t : ℕ) (ds : List ℕ) (d : ℕ)
    → foldl (λ t d. t * base + d) t (ds ++ (d ∷ [])) ≡ foldl (λ t d. t * base + d) t ds * base + d
foldl-append base t [] d = refl
foldl-append base t (x ∷ ds) d = foldl-append base (t * base + x) ds d

pub numeral-append :
    (base : ℕ) (ds : List ℕ) (d : ℕ) → numeral base (ds ++ (d ∷ [])) ≡ numeral base ds * base + d
unfolding numeral
numeral-append base ds d = foldl-append base 0 ds d

pub Spells-append :
    (base c : ℕ) {p ds : List ℕ}
    → is_alnum c ≡ true
    → getval c < base
    → Spells base p ds
    → Spells base (p ++ (c ∷ [])) (ds ++ (getval c ∷ []))
Spells-append base c h lt done = plain c h lt done
Spells-append base c h lt (plain b hb lb sp) = plain b hb lb (Spells-append base c h lt sp)
Spells-append base c h lt (grouped s b hs hb lb sp) =
    grouped s b hs hb lb (Spells-append base c h lt sp)

steps-within :
    (ds : List ℕ)
    → numeral 10 ds < 2 ^ 32
    → let final = steps (int_based_step 10) ds 0 none in
      Sound (foldl (λ t d. t * 10 + d) 0 ds) final.0 final.1
      → (final.0 ≡ numeral 10 ds) × (final.1 ≡ none)
unfolding numeral
steps-within ds h (hv, he) = (omega arith, ground arith)

-- The decimal scan misses every overflow whose wrapped value is not below the value before the last
-- digit: a numeral `p` that fits 32 bits, with one more digit that makes it too large, is accepted
-- without an error and with a value that is not the number's.
pub get_numeric_value_int_based_misses :
    (p ds rest : List ℕ) (c : ℕ)
    → Spells 10 p ds
    → is_alnum c ≡ true
    → getval c < 10
    → numeral 10 ds < 2 ^ 32
    → 2 ^ 32 ≤ numeral 10 ds * 10 + getval c
    → numeral 10 ds ≤ (numeral 10 ds * 10 + getval c) % 2 ^ 32
    → let s = get_numeric_value_int_based 10 (suc (length p)) ((p ++ (c ∷ [])) ++ rest) in
      (s.last_err ≡ none) × (s.val ≢ numeral 10 (ds ++ (getval c ∷ [])))
unfolding get_numeric_value_int_based scan_number
get_numeric_value_int_based_misses p ds rest c sp hc lt fits big wrapped =
    let sp' = Spells-append 10 c hc lt sp in
    let scanned = scan_digits-Spells 10 (int_based_step 10) rest 0 none sp' in
    let size : length (p ++ (c ∷ [])) ≡ suc (length p) = omega (arith, length-append p (c ∷ [])) in
    let before = steps-Sound ds 0 0 none (Spells-lt 10 sp) (refl, inl refl) in
    let prefix = steps-within ds fits before in
    let read = nonempty (rw size at scanned) in
    rw (read, steps-append (int_based_step 10) ds, prefix.0, prefix.1)
      (ground arith, λ e. omega (arith, e, numeral-append 10 ds (getval c)))
  where
    nonempty :
        {s : Scan}
        → scan_digits 10 (int_based_step 10) (suc (length p)) ((p ++ (c ∷ [])) ++ rest) 0 none ≡ s
        → get_numeric_value_int_based 10 (suc (length p)) ((p ++ (c ∷ [])) ++ rest) ≡ s
    nonempty e = ground arith
