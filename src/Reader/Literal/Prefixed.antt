-- ===== src/Reader/Literal/Prefixed.antt =====
-- GetConstant of sjasm/reader.cpp on numerals with a prefix.
use sjasmplus.Common.{
  ℕ, ◌+◌, ◌-◌, ◌%◌, ◌^◌, ◌<◌, ◌≡◌, ◌≢◌, refl, sym, ap, inl, inr, true, false, none, some, List, [],
  ◌∷◌, ◌++◌, if◌then◌else◌, ltb, ◌==◌, length, length-append, get_or, drop, arith, append_assoc,
}
use sjasmplus.Reader.Chars.{is_alnum, head}
use sjasmplus.Reader.Literal.{
  overflow, error, is_separator, Format, sign_size, literal_size, format, scan_format,
  finish_constant, get_constant,
}
use sjasmplus.Reader.Literal.Value.{
  Spells, done, plain, grouped, numeral, IsShift, get_numeric_value_two_based_exact,
}

-- The prefixes `#`, `$`, `0x`, `0q` and `%`.
pub data Prefix : Type 0 where
  hash dollar zero_x zero_q percent : Prefix

abbrev pub prefix_text : Prefix → List ℕ
prefix_text hash = b'#' ∷ []
prefix_text dollar = b'$' ∷ []
prefix_text zero_x = b'0' ∷ b'x' ∷ []
prefix_text zero_q = b'0' ∷ b'q' ∷ []
prefix_text percent = b'%' ∷ []

abbrev pub prefix_shift : Prefix → ℕ
prefix_shift hash = 4
prefix_shift dollar = 4
prefix_shift zero_x = 4
prefix_shift zero_q = 3
prefix_shift percent = 1

-- A character that ends a literal and starts no decimal part.
abbrev pub IsBreak : ℕ → Type 0
IsBreak c = (is_alnum c ≡ false) × (is_separator c ≡ false) × (c ≢ b'.')

abbrev StartsPlain : List ℕ → Type 0
StartsPlain p = is_separator (head p) ≡ false

drop-length : (xs ys : List ℕ) → drop (length xs) (xs ++ ys) ≡ ys
drop-length [] ys = refl
drop-length (x ∷ xs) ys = drop-length xs ys

literal_size-IsBreak : (rest : List ℕ) → IsBreak (head rest) → literal_size rest ≡ 0
unfolding literal_size
literal_size-IsBreak [] h = refl
literal_size-IsBreak (c ∷ rest) (ha, hs, hd) = rw (ha, hs)

literal_size-Spells :
    (base : ℕ) {p ds : List ℕ} (rest : List ℕ)
    → Spells base p ds
    → IsBreak (head rest)
    → literal_size (p ++ rest) ≡ length p
unfolding literal_size
literal_size-Spells base rest done h = literal_size-IsBreak rest h
literal_size-Spells base rest (plain c hc lt sp) h = rw (hc, literal_size-Spells base rest sp h)
literal_size-Spells base rest (grouped s c hs hc lt sp) h =
    rw (hs, hc, literal_size-Spells base rest sp h) (ground arith)

-- The last character of a numeral is a digit.
Spells-last :
    (base : ℕ) {p ds : List ℕ}
    → Spells base p ds
    → 0 < length p
    → (q : List ℕ) × (c : ℕ) × (p ≡ q ++ (c ∷ [])) × (is_alnum c ≡ true)
Spells-last base done h = elim h [ ]
Spells-last base (plain c hc lt done) h = ([], c, refl, hc)
Spells-last base (plain c hc lt (plain d hd ld sp)) h =
    let (q, e, eq, he) = Spells-last base (plain d hd ld sp) (omega arith) in
    (c ∷ q, e, ap (λ l. c ∷ l) eq, he)
Spells-last base (plain c hc lt (grouped s d hs hd ld sp)) h =
    let (q, e, eq, he) = Spells-last base (grouped s d hs hd ld sp) (omega arith) in
    (c ∷ q, e, ap (λ l. c ∷ l) eq, he)
Spells-last base (grouped s c hs hc lt done) h = (s ∷ [], c, refl, hc)
Spells-last base (grouped s c hs hc lt (plain d hd ld sp)) h =
    let (q, e, eq, he) = Spells-last base (plain d hd ld sp) (omega arith) in
    (s ∷ c ∷ q, e, ap (λ l. s ∷ c ∷ l) eq, he)
Spells-last base (grouped s c hs hc lt (grouped r d hr hd ld sp)) h =
    let (q, e, eq, he) = Spells-last base (grouped r d hr hd ld sp) (omega arith) in
    (s ∷ c ∷ q, e, ap (λ l. s ∷ c ∷ l) eq, he)

get_or-append : (xs ys : List ℕ) (c d : ℕ) → get_or (xs ++ (c ∷ ys)) (length xs) d ≡ c
get_or-append [] ys c d = refl
get_or-append (x ∷ xs) ys c d = get_or-append xs ys c d

pub alnum_no_separator : (c : ℕ) → is_alnum c ≡ true → is_separator c ≡ false
alnum_no_separator c h = ground arith

last-Spells :
    (base : ℕ) (pre : List ℕ) {p ds : List ℕ} (rest : List ℕ)
    → Spells base p ds
    → 0 < length p
    → is_separator (get_or (pre ++ (p ++ rest)) (length pre + length p - 1) 0) ≡ false
last-Spells base pre {p = p} rest sp h =
    let (q, c, eq, hc) = Spells-last base sp h in
    let index : length pre + length p - 1 ≡ length (pre ++ q) =
      omega (arith, ap length eq, length-append q (c ∷ []), length-append pre q) in
    let same : get_or (pre ++ (p ++ rest)) (length pre + length p - 1) 0 ≡ c =
      rw (index, eq, append_assoc q (c ∷ []) rest, ← append_assoc pre q (c ∷ rest))
        (get_or-append (pre ++ q) rest c 0) in
    rw same (alnum_no_separator c hc)

head-IsBreak : (rest : List ℕ) → IsBreak (head rest) → (head rest == b'.') ≡ false
head-IsBreak rest h = ground arith

-- With a prefix the format is decided, whatever follows.
format-prefix_text :
    (x : Prefix) (p : List ℕ) (last : ℕ)
    → format (prefix_text x ++ p) last
      ≡ record { shift_base = prefix_shift x; prefix = length (prefix_text x); suffix = 0 }
unfolding format
format-prefix_text hash p last = refl
format-prefix_text dollar p last = refl
format-prefix_text zero_x p last = refl
format-prefix_text zero_q p last = refl
format-prefix_text percent p last = refl

-- The numeral ends where it is broken off, counted from the start of the prefix.
prefix_size :
    (x : Prefix) (base : ℕ) {p ds : List ℕ} (rest : List ℕ)
    → Spells base p ds
    → IsBreak (head rest)
    → let op = prefix_text x ++ (p ++ rest) in
      let pre = sign_size (head op) in
      pre + literal_size (drop pre op) ≡ length (prefix_text x) + length p
unfolding literal_size
prefix_size hash base rest sp h = omega (arith, literal_size-Spells base rest sp h)
prefix_size dollar base rest sp h = omega (arith, literal_size-Spells base rest sp h)
prefix_size zero_x base rest sp h = omega (arith, literal_size-Spells base rest sp h)
prefix_size zero_q base rest sp h = omega (arith, literal_size-Spells base rest sp h)
prefix_size percent base rest sp h = omega (arith, literal_size-Spells base rest sp h)

prefix_shift-IsShift : (x : Prefix) → IsShift (prefix_shift x)
prefix_shift-IsShift hash = inr (inr refl)
prefix_shift-IsShift dollar = inr (inr refl)
prefix_shift-IsShift zero_x = inr (inr refl)
prefix_shift-IsShift zero_q = inr (inl refl)
prefix_shift-IsShift percent = inl refl

first-append : (p rest : List ℕ) → 0 < length p → head (p ++ rest) ≡ head p
first-append [] rest h = elim h [ ]
first-append (c ∷ p) rest h = refl

scan_format-prefix_text :
    (x : Prefix) {p ds : List ℕ} (rest : List ℕ)
    → Spells (2 ^ prefix_shift x) p ds
    → 0 < length p
    → let t = numeral (2 ^ prefix_shift x) ds in
      scan_format
        (record { shift_base = prefix_shift x; prefix = length (prefix_text x); suffix = 0 })
        (length p)
        (p ++ rest)
      ≡ record {
        val = t % 2 ^ 32;
        last_err = if ltb t (2 ^ 32) then none else some overflow;
        rest = rest;
      }
unfolding scan_format
scan_format-prefix_text x rest sp h =
    rw (shifted x) (get_numeric_value_two_based_exact _ _ _ rest (prefix_shift-IsShift x) sp h)
  where
    shifted : (x : Prefix) → (prefix_shift x == 0) ≡ false
    shifted hash = refl
    shifted dollar = refl
    shifted zero_x = refl
    shifted zero_q = refl
    shifted percent = refl

finish_constant_plain :
    (old_val t : ℕ) (op rest : List ℕ) (f : Format) (first last : ℕ)
    → is_separator first ≡ false
    → is_separator last ≡ false
    → (head rest == b'.') ≡ false
    → finish_constant old_val op rest f first last (record {
      val = t % 2 ^ 32;
      last_err = if ltb t (2 ^ 32) then none else some overflow;
      rest = rest;
    })
      ≡ record {
        parsed = true;
        val = t % 2 ^ 32;
        op = rest;
        reports = if ltb t (2 ^ 32) then [] else error overflow ∷ [];
      }
unfolding finish_constant
finish_constant_plain old_val t op rest f first last hf hl hr = ground arith

-- GetConstant reads a prefix (`#`, `$`, `0x`, `0q` or `%`) and a numeral of its base, which does not
-- start with a separator, up to a character that ends it. The value is the number modulo 2 ^ 32, the
-- pointer stands behind the numeral, and the one report is that of an overflow, exactly if the number
-- does not fit 32 bits.
pub get_constant-prefix_text :
    (x : Prefix) (old_val : ℕ) (p ds rest : List ℕ)
    → Spells (2 ^ prefix_shift x) p ds
    → 0 < length p
    → is_separator (head p) ≡ false
    → IsBreak (head rest)
    → let t = numeral (2 ^ prefix_shift x) ds in
      get_constant old_val (prefix_text x ++ (p ++ rest)) ≡ record {
        parsed = true;
        val = t % 2 ^ 32;
        op = rest;
        reports = if ltb t (2 ^ 32) then [] else error overflow ∷ [];
      }
unfolding get_constant
get_constant-prefix_text x old_val p ds rest sp pos first break =
    let whole : prefix_text x ++ (p ++ rest) ≡ (prefix_text x ++ p) ++ rest =
      sym (append_assoc (prefix_text x) p rest) in
    let hard_end : drop (length (prefix_text x) + length p) (prefix_text x ++ (p ++ rest)) ≡ rest =
      rw (whole, ← length-append (prefix_text x) p) (drop-length (prefix_text x ++ p) rest) in
    let size : length (prefix_text x) + length p - 0 - length (prefix_text x) ≡ length p =
      omega arith in
    let end : length (prefix_text x) + length p - 0 ≡ length (prefix_text x) + length p =
      omega arith in
    rw
      (
        prefix_size x (2 ^ prefix_shift x) rest sp break,
        format-prefix_text x (p ++ rest) _,
        size,
        end,
        hard_end,
        drop-length (prefix_text x) (p ++ rest),
        scan_format-prefix_text x rest sp pos,
      )
      (finish_constant_plain old_val (numeral (2 ^ prefix_shift x) ds) _ rest _ _ _
        (rw (first-append p rest pos) first)
        (last-Spells (2 ^ prefix_shift x) (prefix_text x) rest sp pos) (head-IsBreak rest break))
