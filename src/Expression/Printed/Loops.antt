-- ===== src/Expression/Printed/Loops.antt =====
-- The loops over binary operators in sjasm/parser.cpp, on operands that are read in full.
use sjasmplus.Common.{
  ℕ, zero, suc, ◌≤◌, ◌<◌, ◌≡◌, refl, sym, ap, ◌∙◌, subst, Bool, true, false, List, [], ◌∷◌, ◌++◌,
  leb, ◌==◌, length, arith, append_assoc, append-nil,
}
use sjasmplus.Reader.Outcome.{Message, Outcome, parsed, failed, out_of_fuel, after, and_then}
use sjasmplus.Expression.{State}
use sjasmplus.Expression.Parse.{next_round, binary_loop, binary_level}
use sjasmplus.Expression.Entry.{parse_exp_unair}
use sjasmplus.Expression.Printed.{
  Binary, times, over, modulo, sum, difference, left_by, right_by, unsigned_by, smaller, larger,
  less, greater, less_equal, greater_equal, equal, unequal, ands, xors, ors, both, either, symbol,
  code, precedence, oper_at, combine_at, level,
}
use sjasmplus.Expression.Printed.Symbols.{Follows, Follows-le, oper_at-symbol}
use sjasmplus.Expression.Printed.Operands.{unair-blank}

pub after-after :
    (ms later : List Message) (o : Outcome) → after ms (after later o) ≡ after (ms ++ later) o
after-after ms later (parsed v p end) = ap (parsed v p) (sym (append_assoc ms later end))
after-after ms later (failed p end) = ap (failed p) (sym (append_assoc ms later end))
after-after ms later out_of_fuel = refl

pub le-induction :
    (P : ℕ → Type 0) (j k : ℕ) → j ≤ k → P j → ((i : ℕ) → i < k → P i → P (suc i)) → P k
le-induction P j zero le h step = subst P {x = j} {y = 0} (omega (arith, le)) h
le-induction P j (suc k) le h step =
    by_case (leb j k) refl
      (λ lt. step k (omega arith) (le-induction P j k lt h (λ i b. step i (omega (arith, b)))))
  where
    by_case : (b : Bool) → leb j k ≡ b → (j ≤ k → P (suc k)) → P (suc k)
    by_case true e fewer = fewer (ground (arith, e))
    by_case false e fewer = subst P {x = j} {y = suc k} (ground (arith, e, le)) h

-- The loop of level `j` over the operators of the levels below it.
abbrev pub loop_at : State → ℕ → Bool → ℕ → ℕ → ℕ → List ℕ → Outcome
loop_at s fuel offset j =
    binary_loop (oper_at j) (combine_at s j) (level s (parse_exp_unair s fuel offset) j)

module _ (s : State) (fuel : ℕ) (offset : Bool) where
  pub level-blank :
      (k : ℕ) (p : List ℕ)
      → level s (parse_exp_unair s fuel offset) k (b' ' ∷ p)
        ≡ level s (parse_exp_unair s fuel offset) k p
  unfolding level binary_level
  level-blank zero p = unair-blank s fuel offset p
  level-blank (suc k) p =
      ap (λ o. and_then o (λ left q. loop_at s fuel offset k (suc (length q)) left q))
        (level-blank k p)

  pub loop-stop :
      (k g v : ℕ) (p : List ℕ)
      → oper_at k p ≡ record { oper = 0; rest = p }
      → loop_at s fuel offset k (suc g) v p ≡ parsed v p []
  unfolding binary_loop
  loop-stop k g v p e = rw e refl

  pub level-up :
      (k : ℕ) (p rest : List ℕ) (v : ℕ) (ms : List Message)
      → oper_at k rest ≡ record { oper = 0; rest = rest }
      → level s (parse_exp_unair s fuel offset) k p ≡ parsed v rest ms
      → level s (parse_exp_unair s fuel offset) (suc k) p ≡ parsed v rest ms
  unfolding level binary_level
  level-up k p rest v ms stop e = rw (e, loop-stop k (length rest) v rest stop, append-nil ms) refl

  -- A value that a tight level reads is that of every level whose operators do not follow.
  pub level-le :
      (j k : ℕ) (p rest : List ℕ) (v : ℕ) (ms : List Message)
      → j ≤ k
      → Follows k rest
      → level s (parse_exp_unair s fuel offset) j p ≡ parsed v rest ms
      → level s (parse_exp_unair s fuel offset) k p ≡ parsed v rest ms
  level-le j k p rest v ms le f e =
      le-induction (λ i. level s (parse_exp_unair s fuel offset) i p ≡ parsed v rest ms) j k le e
        (λ i lt h. level-up i p rest v ms (Follows-le (suc i) k rest lt f).stops.0 h)

  pub loop-symbol :
      (o : Binary) (g v : ℕ) (p : List ℕ)
      → loop_at s fuel offset (precedence o) (suc g) v (symbol o ++ (b' ' ∷ p))
        ≡ and_then (level s (parse_exp_unair s fuel offset) (precedence o) p) (λ right q.
          next_round
            (loop_at s fuel offset (precedence o) g)
            (combine_at s (precedence o) (code o) v right)
            q)
  unfolding binary_loop
  loop-symbol o g v p = rw (oper_at-symbol o p, code-nonzero o, level-blank (precedence o) p) refl
    where
      code-nonzero : (o : Binary) → (code o == 0) ≡ false
      code-nonzero times = refl
      code-nonzero over = refl
      code-nonzero modulo = refl
      code-nonzero sum = refl
      code-nonzero difference = refl
      code-nonzero left_by = refl
      code-nonzero right_by = refl
      code-nonzero unsigned_by = refl
      code-nonzero smaller = refl
      code-nonzero larger = refl
      code-nonzero less = refl
      code-nonzero greater = refl
      code-nonzero less_equal = refl
      code-nonzero greater_equal = refl
      code-nonzero equal = refl
      code-nonzero unequal = refl
      code-nonzero ands = refl
      code-nonzero xors = refl
      code-nonzero ors = refl
      code-nonzero both = refl
      code-nonzero either = refl

  -- A round of the loop, on an operand that is read as a value.
  pub loop-operand :
      (o : Binary) (g v w : ℕ) (ms : List Message) (p rest : List ℕ)
      → level s (parse_exp_unair s fuel offset) (precedence o) p ≡ parsed w rest ms
      → loop_at s fuel offset (precedence o) (suc g) v (symbol o ++ (b' ' ∷ p))
        ≡ after (ms ++ (combine_at s (precedence o) (code o) v w).1) (
            loop_at s fuel offset
              (precedence o)
              g
              (combine_at s (precedence o) (code o) v w).0
              rest)
  loop-operand o g v w ms p rest e =
      let again = loop_at s fuel offset (precedence o) g in
      let c = combine_at s (precedence o) (code o) v w in
      loop-symbol o g v p
      ∙ ap
          (λ x.
            and_then x
              (λ right q. next_round again (combine_at s (precedence o) (code o) v right) q))
          e
      ∙ after-after ms c.1 (again c.0 rest)
