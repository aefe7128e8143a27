-- ===== src/Reader/Progress.antt =====
-- Every reader of sjasm/reader.cpp leaves a tail of the text, a shorter one where it finds an operator.
use sjasmplus.Common.{
  ℕ, zero, suc, ◌+◌, ◌-◌, ◌≤◌, ◌<◌, ◌≡◌, refl, Bool, true, false, not, ◌&&◌, Option, none, some,
  List, [], ◌∷◌, if◌then◌else◌, ◌==◌, length, drop, arith,
}
use sjasmplus.Reader.Chars.{is_alpha, is_upper, to_upper, head, skip_blanks}
use sjasmplus.Reader.Words.{
  Need, ends_word, match_letters, cmphstr, need_char, need_pairs, need, needa_words, needa,
  need_or_needa,
}

pub length-drop_le : (n : ℕ) (p : List ℕ) → length (drop n p) ≤ length p
length-drop_le zero p = omega arith
length-drop_le (suc n) [] = omega arith
length-drop_le (suc n) (c ∷ p) = omega (arith, length-drop_le n p)

length-drop : (n : ℕ) (p : List ℕ) → length (drop n p) ≡ length p - n
length-drop zero p = omega arith
length-drop (suc n) [] = omega arith
length-drop (suc n) (c ∷ p) = omega (arith, length-drop n p)

pub length-skip_blanks : (p : List ℕ) → length (skip_blanks p) ≤ length p
unfolding skip_blanks
length-skip_blanks [] = omega arith
length-skip_blanks (c ∷ p) = ground (arith, length-skip_blanks p)

pub head-less :
    (p : List ℕ) (c : ℕ) → (head p == c) ≡ true → (c == 0) ≡ false → length (drop 1 p) < length p
head-less [] c h e = ground arith
head-less (x ∷ p) c h e = omega arith

-- A result leaves at most the text that was given, and less of it unless it is zero.
abbrev pub IsStep : List ℕ → Need → Type 0
IsStep p n = (length n.rest ≤ length p) × ((n.oper == 0) ≡ false → length n.rest < length p)

pub if-IsStep :
    (p : List ℕ) (b : Bool) (x y : Need)
    → (b ≡ true → IsStep p x)
    → (b ≡ false → IsStep p y)
    → IsStep p (if b then x else y)
if-IsStep p true x y h k = h refl
if-IsStep p false x y h k = k refl

pub drop-IsStep :
    (p : List ℕ) (c d n : ℕ)
    → (head p == c) ≡ true
    → (c == 0) ≡ (d == 0)
    → 0 < n
    → IsStep p (record { oper = d; rest = drop n p })
drop-IsStep [] c d n h e lt = (length-drop_le n [], λ k. ground arith)
drop-IsStep (x ∷ p) c d zero h e lt = elim lt [ ]
drop-IsStep (x ∷ p) c d (suc n) h e lt =
    (omega (arith, length-drop_le n p), λ k. omega (arith, length-drop_le n p))

two-IsStep :
    (p : List ℕ) (c d : ℕ)
    → (head p == c) ≡ true
    → (head (drop 1 p) == d) ≡ true
    → IsStep p (record { oper = c + d; rest = drop 2 p })
two-IsStep [] c d h e = (omega arith, λ k. ground arith)
two-IsStep (x ∷ p) c d h e =
    (omega (arith, length-drop_le 1 p), λ k. omega (arith, length-drop_le 1 p))

-- No operator, where at most the text is left.
pub none-IsStep : (p q : List ℕ) → length q ≤ length p → IsStep p (record { oper = 0; rest = q })
none-IsStep p q h = (h, λ k. ground arith)

pub le-IsStep : (p q : List ℕ) (n : Need) → length q ≤ length p → IsStep q n → IsStep p n
le-IsStep p q n h s = (omega (arith, h, s.0), λ k. omega (arith, h, s.1 k))

pub need_char-IsStep : (c : ℕ) (p : List ℕ) → (c == 0) ≡ false → IsStep p (need_char c p)
unfolding need_char
need_char-IsStep c p e =
    let q = skip_blanks p in
    le-IsStep p q _ (length-skip_blanks p) (
      if-IsStep q (head q == c) _ _ (λ h. drop-IsStep q c 1 1 h e (omega arith))
        (λ h. none-IsStep q q (omega arith)))

need_pairs-IsStep : (pairs p : List ℕ) → IsStep p (need_pairs pairs p)
unfolding need_pairs
need_pairs-IsStep [] p = none-IsStep p p (omega arith)
need_pairs-IsStep (c ∷ []) p = none-IsStep p p (omega arith)
need_pairs-IsStep (c ∷ d ∷ pairs) p =
    let more = need_pairs-IsStep pairs p in
    if-IsStep p (not (head p == c)) _ _ (λ h. more)
      (λ h.
        let same : (head p == c) ≡ true = ground (arith, h) in
        let one = drop-IsStep p c c 1 same refl (omega arith) in
        if-IsStep p (d == b' ') _ _ (λ h1. one)
          (λ h1.
            if-IsStep p (d == b'_' && not (head (drop 1 p) == c)) _ _ (λ h2. one)
              (λ h2.
                if-IsStep p (head (drop 1 p) == d) _ _ (λ h3. two-IsStep p c d same h3)
                  (λ h3. more))))

pub need-IsStep : (pairs p : List ℕ) → IsStep p (need pairs p)
unfolding need
need-IsStep pairs p =
    le-IsStep p (skip_blanks p) _ (length-skip_blanks p) (need_pairs-IsStep pairs (skip_blanks p))

if-some :
    (b : Bool) (o : Option (List ℕ)) (q : List ℕ) → (if b then o else none) ≡ some q → o ≡ some q
if-some true o q h = h
if-some false o q h = cc

match_letters-length :
    (form : ℕ → ℕ) (allow : Bool) (word p q : List ℕ)
    → match_letters form allow word p ≡ some q
    → length q ≤ length p - length word
unfolding match_letters
match_letters-length form allow [] p q h =
    let e : p ≡ q = cc (if-some (ends_word allow p) (some p) q h) in rw e (omega arith)
match_letters-length form allow (c ∷ word) p q h = omega (
  arith,
  length-drop 1 p,
  match_letters-length form allow word (drop 1 p) q
      (if-some (head p == form c) (match_letters form allow word (drop 1 p)) q h),
)

-- What holds of each result holds of the one that is chosen.
choice-some :
    (P : Type 0) (a b o : Option (List ℕ)) (letter upper same : Bool) (q : List ℕ)
    → (a ≡ some q → P)
    → (b ≡ some q → P)
    → (o ≡ some q → P)
    → (if letter then if upper then a else b else if same then o else none) ≡ some q
    → P
choice-some P a b o true true same q ha hb ho h = ha h
choice-some P a b o true false same q ha hb ho h = hb h
choice-some P a b o false upper same q ha hb ho h = ho (if-some same o q h)

cmphstr-length :
    (word : List ℕ) (allow : Bool) (p q : List ℕ)
    → cmphstr word allow p ≡ some q
    → length q ≤ length p - length word
unfolding cmphstr
cmphstr-length [] allow p q h =
    let e : p ≡ q = cc (if-some (ends_word allow p) (some p) q h) in rw e (omega arith)
cmphstr-length (c ∷ word) allow p q h =
    choice-some _ _ _ _ (is_alpha c) (is_upper (head p)) (head p == c) q
      (match_letters-length to_upper allow (c ∷ word) p q)
      (match_letters-length (λ d. d) allow (c ∷ word) p q)
      (λ e. omega (arith, length-drop 1 p, cmphstr-length word allow (drop 1 p) q e)) h

cmphstr-nil :
    (c : ℕ) (word : List ℕ) (allow : Bool) → (c == 0) ≡ false → cmphstr (c ∷ word) allow [] ≡ none
unfolding cmphstr match_letters
cmphstr-nil c word allow e = ground arith

-- A word that starts with a character is found in front of a shorter text.
pub cmphstr-less :
    (c : ℕ) (word : List ℕ) (allow : Bool) (p q : List ℕ)
    → (c == 0) ≡ false
    → cmphstr (c ∷ word) allow p ≡ some q
    → length q < length p
cmphstr-less c word allow [] q e h = cc (cmphstr-nil c word allow e, h)
cmphstr-less c word allow (x ∷ p) q e h = omega (arith, cmphstr-length (c ∷ word) allow (x ∷ p) q h)

abbrev pub starts : List ℕ → Bool
starts [] = false
starts (c ∷ word) = not (c == 0)

abbrev pub all_start : List (List ℕ × ℕ) → Bool
all_start [] = true
all_start ((word, r) ∷ words) = starts word && all_start words

pub word-less :
    (word : List ℕ) (allow : Bool) (p q : List ℕ)
    → starts word ≡ true
    → cmphstr word allow p ≡ some q
    → length q < length p
word-less [] allow p q e h = cc e
word-less (c ∷ word) allow p q e h = cmphstr-less c word allow p q (ground (arith, e)) h

-- A word that was found, or what is read instead.
pub found-IsStep :
    (r : ℕ) (more : Need) (p : List ℕ) (o : Option (List ℕ))
    → ((q : List ℕ) → o ≡ some q → length q < length p)
    → IsStep p more
    → IsStep p (elim o [ some q ↦ record { oper = r; rest = q } | none ↦ more ])
found-IsStep r more p none h s = s
found-IsStep r more p (some q) h s = let lt = h q refl in (omega (arith, lt), λ k. lt)

needa_words-IsStep :
    (words : List (List ℕ × ℕ)) (p : List ℕ)
    → all_start words ≡ true
    → IsStep p (needa_words words p)
unfolding needa_words
needa_words-IsStep [] p e = none-IsStep p p (omega arith)
needa_words-IsStep ((word, r) ∷ words) p e =
    found-IsStep r (needa_words words p) p (cmphstr word true p)
      (λ q. word-less word true p q (ground (arith, e)))
      (needa_words-IsStep words p (ground (arith, e)))

pub need_or_needa-IsStep :
    (pairs : List ℕ) (words : List (List ℕ × ℕ)) (p : List ℕ)
    → all_start words ≡ true
    → IsStep p (need_or_needa pairs words p)
unfolding need_or_needa needa
need_or_needa-IsStep pairs words p e =
    let n = need pairs p in
    let first = need-IsStep pairs p in
    if-IsStep p (n.oper == 0) _ _
      (λ h. le-IsStep p n.rest _ first.0 (
        if-IsStep n.rest (is_alpha (head n.rest)) _ _ (λ k. needa_words-IsStep words n.rest e)
          (λ k. none-IsStep n.rest n.rest (omega arith))))
      (λ h. first)
