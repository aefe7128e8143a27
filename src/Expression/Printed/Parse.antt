-- ===== src/Expression/Printed/Parse.antt =====
-- The evaluator of sjasm/parser.cpp on printed expressions.
use sjasmplus.Common.{
  ℕ, zero, suc, ◌+◌, ◌-◌, ◌^◌, ◌≤◌, ◌<◌, ◌≡◌, refl, ap, ◌∙◌, subst, Bool, true, false, List, [],
  ◌∷◌, ◌++◌, leb, ◌==◌, length, length-append, arith, append_assoc, append-nil,
}
use sjasmplus.Reader.Chars.{skip_blanks}
use sjasmplus.Reader.Words.{need_char}
use sjasmplus.Reader.Outcome.{Message, parsed, after, and_then}
use sjasmplus.Expression.{State}
use sjasmplus.Expression.Parse.{current_address, close_parenthesis, binary_level}
use sjasmplus.Expression.Entry.{parse_exp_unair, parse_expression_entry}
use sjasmplus.Expression.Printed.{
  Unary, Binary, times, over, modulo, sum, difference, left_by, right_by, unsigned_by, smaller,
  larger, less, greater, less_equal, greater_equal, equal, unequal, ands, xors, ors, both, either,
  Expr, number, here, unary, binary, unary_symbol, symbol, precedence, level, enclose, print_at,
  value, reports, FitsWords,
}
use sjasmplus.Expression.Printed.Symbols.{Follows, Follows-le, symbol-Follows, parenthesis-Follows}
use sjasmplus.Expression.Printed.Operands.{
  unair-number, unair-here, unair-blank, unair-unary, unair-parenthesis, parse_exp_log_or-level,
}
use sjasmplus.Expression.Printed.Loops.{after-after, loop_at, loop-stop, level-le, loop-operand}

precedence-le : (o : Binary) → suc (precedence o) ≤ 11
precedence-le times = omega arith
precedence-le over = omega arith
precedence-le modulo = omega arith
precedence-le sum = omega arith
precedence-le difference = omega arith
precedence-le left_by = omega arith
precedence-le right_by = omega arith
precedence-le unsigned_by = omega arith
precedence-le smaller = omega arith
precedence-le larger = omega arith
precedence-le less = omega arith
precedence-le greater = omega arith
precedence-le less_equal = omega arith
precedence-le greater_equal = omega arith
precedence-le equal = omega arith
precedence-le unequal = omega arith
precedence-le ands = omega arith
precedence-le xors = omega arith
precedence-le ors = omega arith
precedence-le both = omega arith
precedence-le either = omega arith

module _ (s : State) (offset : Bool) where
  -- The level `k` reads the text `p` of `e`, up to what may follow it.
  abbrev ReadsAt : ℕ → Expr → List ℕ → Type 0
  ReadsAt k e p =
      (fuel : ℕ) (rest : List ℕ)
      → length p < fuel
      → Follows k rest
      → level s (parse_exp_unair s fuel offset) k (p ++ rest)
        ≡ parsed (value s offset e) rest (reports s offset e)

  -- The loop of level `j` on the text `p` of `e`: after `rounds` rounds it has the value of `e` and looks
  -- at what follows, which may be another operator of its level.
  abbrev Rounds : ℕ → Expr → List ℕ → ℕ → List ℕ → Type 0
  Rounds j e p fuel rest =
      (first : ℕ) × (q : List ℕ) × (ms : List Message) × (rounds : ℕ) × (level s
          (parse_exp_unair s fuel offset) j (p ++ rest)
        ≡ parsed first q ms)
      × (rounds + length rest ≤ length q)
      × ((g : ℕ)
          → after ms (loop_at s fuel offset j (g + rounds) first q)
            ≡ after (reports s offset e) (loop_at s fuel offset j g (value s offset e) rest))

  abbrev RoundsAt : ℕ → Expr → List ℕ → Type 0
  RoundsAt j e p =
      (fuel : ℕ) (rest : List ℕ) → length p < fuel → Follows j rest → Rounds j e p fuel rest

  Rounds-leaf : (j : ℕ) (e : Expr) (p : List ℕ) → ReadsAt j e p → RoundsAt j e p
  Rounds-leaf j e p reads fuel rest enough f = (
    value s offset e,
    rest,
    reports s offset e,
    0,
    reads fuel rest enough f,
    omega arith,
    λ g.
        ap (λ i. after (reports s offset e) (loop_at s fuel offset j i (value s offset e) rest))
          (omega arith),
  )

  -- What a loop reads, the level reads, if no operator of the level follows.
  ReadsAt-rounds : (j : ℕ) (e : Expr) (p : List ℕ) → RoundsAt j e p → ReadsAt (suc j) e p
  unfolding level binary_level
  ReadsAt-rounds j e p rounds fuel rest enough f =
      let (first, q, ms, n, read, le, run) =
        rounds fuel rest enough (Follows-le j (suc j) rest (omega arith) f) in
      ap (λ o. and_then o (λ left r. loop_at s fuel offset j (suc (length r)) left r)) read
      ∙ ap (λ i. after ms (loop_at s fuel offset j i first q)) (rest_of_fuel n (length q) le)
      ∙ run (suc (length q - n))
      ∙ ap (after (reports s offset e))
          (loop-stop s fuel offset j (length q - n) (value s offset e) rest f.stops.0)
      ∙ ap (parsed (value s offset e) rest) (append-nil (reports s offset e))
    where
      rest_of_fuel : (n l : ℕ) → n + length rest ≤ l → suc l ≡ suc (l - n) + n
      rest_of_fuel n l h = omega (arith, h)

  ReadsAt-number : (k v : ℕ) → v < 2 ^ 32 → ReadsAt k (number v) (print_at k (number v))
  unfolding print_at value reports level
  ReadsAt-number k v fits zero rest enough f = elim enough [ ]
  ReadsAt-number k v fits (suc fuel) rest enough f =
      level-le s (suc fuel) offset 0 k _ rest v [] (omega arith) f
        (unair-number s fuel offset v rest fits f.ends_number)

  ReadsAt-here : (k : ℕ) → ReadsAt k here (print_at k here)
  unfolding print_at value reports level
  ReadsAt-here k zero rest enough f = elim enough [ ]
  ReadsAt-here k (suc fuel) rest enough f =
      level-le s (suc fuel) offset 0 k _ rest (current_address s offset) [] (omega arith) f
        (unair-here s fuel offset rest f.ends_number f.no_dollar)

  ReadsAt-unary :
      (k : ℕ) (u : Unary) (e : Expr)
      → ReadsAt 0 e (print_at 0 e)
      → ReadsAt k (unary u e) (print_at k (unary u e))
  unfolding print_at value reports level
  ReadsAt-unary k u e reads zero rest enough f = elim enough [ ]
  ReadsAt-unary k u e reads (suc fuel) rest enough f =
      let p = print_at 0 e in
      level-le s (suc fuel) offset 0 k _ rest (value s offset (unary u e)) (reports s offset e)
        (omega arith) f
        (ap (parse_exp_unair s (suc fuel) offset) (append_assoc (unary_symbol u) (b' ' ∷ p) rest)
          ∙ unair-unary s fuel offset u (p ++ rest)
          ∙ rw
              (
                unair-blank s fuel offset (p ++ rest),
                reads fuel rest (omega (arith, enough, length-append (unary_symbol u) (b' ' ∷ p)))
                    (Follows-le 0 k rest (omega arith) f),
                append-nil (reports s offset e),
              )
              refl)

  -- The text of a binary expression without parentheses.
  abbrev body : Binary → Expr → Expr → List ℕ
  body o l r = print_at (suc (precedence o)) l ++ (symbol o ++ (b' ' ∷ print_at (precedence o) r))

  Rounds-binary :
      (o : Binary) (l r : Expr)
      → RoundsAt (precedence o) l (print_at (suc (precedence o)) l)
      → ReadsAt (precedence o) r (print_at (precedence o) r)
      → RoundsAt (precedence o) (binary o l r) (body o l r)
  unfolding value reports
  Rounds-binary o l r left_rounds right_reads fuel rest enough f =
      let j = precedence o in
      let pl = print_at (suc j) l in
      let pr = print_at j r in
      let next = symbol o ++ (b' ' ∷ (pr ++ rest)) in
      let sizes : length (body o l r) ≡ length pl + (length (symbol o) + suc (length pr)) =
        omega (
          arith,
          length-append pl (symbol o ++ (b' ' ∷ pr)),
          length-append (symbol o) (b' ' ∷ pr),
        ) in
      let (first, q, ms, n, read, le, run) =
        left_rounds fuel next (omega (arith, enough, sizes)) (symbol-Follows o (pr ++ rest)) in
      let next_size : length next ≡ length (symbol o) + suc (length pr + length rest) =
        omega (arith, length-append (symbol o) (b' ' ∷ (pr ++ rest)), length-append pr rest) in
      let text : body o l r ++ rest ≡ pl ++ next =
        append_assoc pl (symbol o ++ (b' ' ∷ pr)) rest
        ∙ ap (λ t. pl ++ t) (append_assoc (symbol o) (b' ' ∷ pr) rest) in
      let right = right_reads fuel rest (omega (arith, enough, sizes)) f in
      (
        first,
        q,
        ms,
        suc n,
        ap (level s (parse_exp_unair s fuel offset) j) text ∙ read,
        omega (arith, le, next_size),
        λ g.
            ap (λ i. after ms (loop_at s fuel offset j i first q)) (omega arith)
            ∙ run (suc g)
            ∙ ap (after (reports s offset l)) (
                loop-operand s fuel offset o g (value s offset l) (value s offset r)
                  (reports s offset r) (pr ++ rest) rest right)
            ∙ after-after (reports s offset l) _ _,
      )

  -- Parentheses make an operand of the tightest level.
  ReadsAt-enclosed :
      (k j : ℕ) (e : Expr) (p : List ℕ) → j ≤ 11 → ReadsAt j e p → ReadsAt k e (enclose false p)
  unfolding level close_parenthesis need_char skip_blanks
  ReadsAt-enclosed k j e p le reads zero rest enough f = elim enough [ ]
  ReadsAt-enclosed k j e p le reads (suc fuel) rest enough f =
      let u = parse_exp_unair s fuel offset in
      let end = parenthesis-Follows rest in
      let size : length p < fuel = omega (arith, enough, length-append p (b')' ∷ [])) in
      let inside =
        level-le s fuel offset j 11 (p ++ (b')' ∷ rest)) (b')' ∷ rest) (value s offset e)
          (reports s offset e) le end
          (reads fuel (b')' ∷ rest) size (Follows-le j 11 (b')' ∷ rest) le end)) in
      level-le s (suc fuel) offset 0 k ((b'(' ∷ (p ++ (b')' ∷ []))) ++ rest) rest (value s offset e)
        (reports s offset e) (omega arith) f
        (unair-parenthesis s fuel offset ((p ++ (b')' ∷ [])) ++ rest)
          ∙ ap (λ t. close_parenthesis (level s u 11 t)) (append_assoc p (b')' ∷ []) rest)
          ∙ ap close_parenthesis inside)

  ReadsAt-binary :
      (k : ℕ) (o : Binary) (l r : Expr)
      → RoundsAt (precedence o) (binary o l r) (body o l r)
      → ReadsAt k (binary o l r) (print_at k (binary o l r))
  unfolding print_at
  ReadsAt-binary k o l r rounds = by_case (leb (suc (precedence o)) k) refl
    where
      e : Expr
      e = binary o l r

      j : ℕ
      j = suc (precedence o)

      plain : ReadsAt j e (body o l r)
      plain = ReadsAt-rounds (precedence o) e (body o l r) rounds

      by_case : (b : Bool) → leb j k ≡ b → ReadsAt k e (enclose b (body o l r))
      by_case false h = ReadsAt-enclosed k j e (body o l r) (precedence-le o) plain
      by_case true h = λ fuel rest enough f.
          let le : j ≤ k = ground (arith, h) in
          level-le s fuel offset j k (body o l r ++ rest) rest (value s offset e)
            (reports s offset e) le f (plain fuel rest enough (Follows-le j k rest le f))

  RoundsAt-binary :
      (k : ℕ) (o : Binary) (l r : Expr)
      → RoundsAt (precedence o) (binary o l r) (body o l r)
      → RoundsAt k (binary o l r) (print_at (suc k) (binary o l r))
  unfolding print_at
  RoundsAt-binary k o l r rounds = by_case (precedence o == k) refl
    where
      e : Expr
      e = binary o l r

      j : ℕ
      j = precedence o

      by_case :
          (b : Bool) → (j == k) ≡ b → RoundsAt k e (enclose (leb (suc j) (suc k)) (body o l r))
      by_case true h =
          subst (λ i. RoundsAt i e (enclose (leb (suc j) (suc i)) (body o l r))) {x = j} {y = k}
            (ground (arith, h))
            (subst (λ b. RoundsAt j e (enclose b (body o l r))) {x = true} {y = leb (suc j) (suc j)}
              (ground arith) rounds)
      by_case false h =
          subst (λ b. RoundsAt k e (enclose b (body o l r))) {x = leb (suc j) k}
            {y = leb (suc j) (suc k)} (ground (arith, h))
            (Rounds-leaf k e (enclose (leb (suc j) k) (body o l r)) (ReadsAt-binary k o l r rounds))

  -- Every expression is read at every level, and by the loop of every level.
  record Parses (e : Expr) : Type 0 where
    reads_at : (k : ℕ) → ReadsAt k e (print_at k e)
    rounds_at : (k : ℕ) → RoundsAt k e (print_at (suc k) e)

  parses : (e : Expr) → FitsWords e → Parses e
  unfolding print_at
  parses (number v) fits = record {
    reads_at = λ k. ReadsAt-number k v fits;
    rounds_at = λ k. Rounds-leaf k (number v) (print_at k (number v)) (ReadsAt-number k v fits);
  }
  parses here fits = record {
    reads_at = ReadsAt-here;
    rounds_at = λ k. Rounds-leaf k here (print_at k here) (ReadsAt-here k);
  }
  parses (unary u e) fits =
      let inner = parses e fits in
      let reads = λ (k : ℕ). ReadsAt-unary k u e (inner.reads_at 0) in
      record {
        reads_at = reads;
        rounds_at = λ k. Rounds-leaf k (unary u e) (print_at k (unary u e)) (reads k);
      }
  parses (binary o l r) (fits_l, fits_r) =
      let left = parses l fits_l in
      let right = parses r fits_r in
      let rounds =
        Rounds-binary o l r (left.rounds_at (precedence o)) (right.reads_at (precedence o)) in
      record {
        reads_at = λ k. ReadsAt-binary k o l r rounds;
        rounds_at = λ k. RoundsAt-binary k o l r rounds;
      }

-- ParseExpressionEntry reads a printed expression, in front of a character that ends a number, is no blank
-- and no `$` and starts no operator, as its value: operators of one precedence are taken from left to right,
-- tighter ones first, and the reports are those of the divisions by zero in the order of evaluation. Every
-- number of the expression has 32 bits.
pub parse_expression_entry-print_at :
    (s : State) (offset : Bool) (e : Expr) (rest : List ℕ)
    → FitsWords e
    → Follows 11 rest
    → parse_expression_entry s offset (print_at 11 e ++ rest)
      ≡ parsed (value s offset e) rest (reports s offset e)
unfolding parse_expression_entry
parse_expression_entry-print_at s offset e rest fits f =
    let p = print_at 11 e in
    let fuel = suc (length (p ++ rest)) in
    parse_exp_log_or-level s (parse_exp_unair s fuel offset) (p ++ rest)
    ∙ (parses s offset e fits).reads_at 11 fuel rest (omega (arith, length-append p rest)) f
