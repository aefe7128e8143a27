-- ===== src/Expression/Printed/Symbols.antt =====
-- The operators' symbols, as the readers of sjasm/parser.cpp take them.
use sjasmplus.Common.{
  ℕ, zero, suc, ◌≤◌, ◌≡◌, refl, subst, Bool, true, false, leb, ◌==◌, arith, List, ◌∷◌, ◌++◌,
}
use sjasmplus.Reader.Chars.{white, head, skip_blanks}
use sjasmplus.Reader.Literal.Prefixed.{IsBreak}
use sjasmplus.Reader.Words.{
  cmphstr, match_letters, need_char, need, need_pairs, need_or_needa, needa, needa_words,
}
use sjasmplus.Expression.Operators.{
  mul_oper, add_oper, shift_oper, min_max_oper, cmp_oper, equ_oper, bit_and_oper, bit_xor_oper,
  bit_or_oper, log_and_oper, log_or_oper,
}
use sjasmplus.Expression.Printed.{
  Binary, times, over, modulo, sum, difference, left_by, right_by, unsigned_by, smaller, larger,
  less, greater, less_equal, greater_equal, equal, unequal, ands, xors, ors, both, either, symbol,
  code, precedence, oper_at,
}

-- None of the first `k` levels finds an operator.
abbrev pub StopsBelow : ℕ → List ℕ → Type 0
StopsBelow zero p = Unit
StopsBelow (suc k) p = (oper_at k p ≡ record { oper = 0; rest = p }) × StopsBelow k p

pub oper_at-symbol :
    (o : Binary) (p : List ℕ)
    → oper_at (precedence o) (symbol o ++ (b' ' ∷ p)) ≡ record { oper = code o; rest = b' ' ∷ p }
unfolding mul_oper add_oper shift_oper min_max_oper cmp_oper equ_oper bit_and_oper bit_xor_oper
    bit_or_oper log_and_oper log_or_oper need_char need need_pairs need_or_needa skip_blanks
oper_at-symbol times p = refl
oper_at-symbol over p = refl
oper_at-symbol modulo p = refl
oper_at-symbol sum p = refl
oper_at-symbol difference p = refl
oper_at-symbol left_by p = refl
oper_at-symbol right_by p = refl
oper_at-symbol unsigned_by p = refl
oper_at-symbol smaller p = refl
oper_at-symbol larger p = refl
oper_at-symbol less p = refl
oper_at-symbol greater p = refl
oper_at-symbol less_equal p = refl
oper_at-symbol greater_equal p = refl
oper_at-symbol equal p = refl
oper_at-symbol unequal p = refl
oper_at-symbol ands p = refl
oper_at-symbol xors p = refl
oper_at-symbol ors p = refl
oper_at-symbol both p = refl
oper_at-symbol either p = refl

-- No tighter level takes a part of the symbol.
pub symbol-StopsBelow :
    (o : Binary) (p : List ℕ) → StopsBelow (precedence o) (symbol o ++ (b' ' ∷ p))
unfolding mul_oper add_oper shift_oper min_max_oper cmp_oper equ_oper bit_and_oper bit_xor_oper
    bit_or_oper log_and_oper log_or_oper need_char need need_pairs need_or_needa needa needa_words
    cmphstr match_letters skip_blanks
symbol-StopsBelow times p = _
symbol-StopsBelow over p = _
symbol-StopsBelow modulo p = _
symbol-StopsBelow sum p = (refl, _)
symbol-StopsBelow difference p = (refl, _)
symbol-StopsBelow left_by p = (refl, (refl, _))
symbol-StopsBelow right_by p = (refl, (refl, _))
symbol-StopsBelow unsigned_by p = (refl, (refl, _))
symbol-StopsBelow smaller p = (refl, (refl, (refl, _)))
symbol-StopsBelow larger p = (refl, (refl, (refl, _)))
symbol-StopsBelow less p = (refl, (refl, (refl, (refl, _))))
symbol-StopsBelow greater p = (refl, (refl, (refl, (refl, _))))
symbol-StopsBelow less_equal p = (refl, (refl, (refl, (refl, _))))
symbol-StopsBelow greater_equal p = (refl, (refl, (refl, (refl, _))))
symbol-StopsBelow equal p = (refl, (refl, (refl, (refl, (refl, _)))))
symbol-StopsBelow unequal p = (refl, (refl, (refl, (refl, (refl, _)))))
symbol-StopsBelow ands p = (refl, (refl, (refl, (refl, (refl, (refl, _))))))
symbol-StopsBelow xors p = (refl, (refl, (refl, (refl, (refl, (refl, (refl, _)))))))
symbol-StopsBelow ors p = (refl, (refl, (refl, (refl, (refl, (refl, (refl, (refl, _))))))))
symbol-StopsBelow both p = (refl, (refl, (refl, (refl, (refl, (refl, (refl, (refl, (refl, _)))))))))
symbol-StopsBelow either p =
    (refl, (refl, (refl, (refl, (refl, (refl, (refl, (refl, (refl, (refl, _))))))))))

pub parenthesis-StopsBelow : (p : List ℕ) → StopsBelow 11 (b')' ∷ p)
unfolding mul_oper add_oper shift_oper min_max_oper cmp_oper equ_oper bit_and_oper bit_xor_oper
    bit_or_oper log_and_oper log_or_oper need_char need need_pairs need_or_needa needa needa_words
    cmphstr match_letters skip_blanks
parenthesis-StopsBelow p =
    (refl, (refl, (refl, (refl, (refl, (refl, (refl, (refl, (refl, (refl, (refl, _)))))))))))

-- What may follow an operand whose operators of the first `k` levels stand in no parentheses: a character
-- that ends a number and is no blank and no `$`, and no operator of these levels.
pub record Follows (k : ℕ) (p : List ℕ) : Type 0 where
  pub ends_number : IsBreak (head p)
  pub no_blank : white (head p) ≡ false
  pub no_dollar : (head p == b'$') ≡ false
  pub stops : StopsBelow k p

pub StopsBelow-le : (j k : ℕ) (p : List ℕ) → j ≤ k → StopsBelow k p → StopsBelow j p
StopsBelow-le zero k p le h = _
StopsBelow-le (suc j) zero p le h = elim le [ ]
StopsBelow-le (suc j) (suc k) p le h =
    by_case (leb (suc j) k) refl (λ lt. StopsBelow-le (suc j) k p lt h.1)
  where
    by_case :
        (b : Bool) → leb (suc j) k ≡ b → (suc j ≤ k → StopsBelow (suc j) p) → StopsBelow (suc j) p
    by_case true e fewer = fewer (ground (arith, e))
    by_case false e fewer =
        subst (λ i. StopsBelow i p) {x = suc k} {y = suc j} (ground (arith, e)) h

pub Follows-le : (j k : ℕ) (p : List ℕ) → j ≤ k → Follows k p → Follows j p
Follows-le j k p le f = record {
  ends_number = f.ends_number;
  no_blank = f.no_blank;
  no_dollar = f.no_dollar;
  stops = StopsBelow-le j k p le f.stops;
}

pub symbol-Follows : (o : Binary) (p : List ℕ) → Follows (precedence o) (symbol o ++ (b' ' ∷ p))
symbol-Follows o p = record {
  ends_number = symbol-IsBreak o p;
  no_blank = (symbol-plain o p).0;
  no_dollar = (symbol-plain o p).1;
  stops = symbol-StopsBelow o p;
}
  where
    symbol-IsBreak : (o : Binary) (p : List ℕ) → IsBreak (head (symbol o ++ (b' ' ∷ p)))
    symbol-IsBreak times p = (refl, refl, λ e. ground (arith, e))
    symbol-IsBreak over p = (refl, refl, λ e. ground (arith, e))
    symbol-IsBreak modulo p = (refl, refl, λ e. ground (arith, e))
    symbol-IsBreak sum p = (refl, refl, λ e. ground (arith, e))
    symbol-IsBreak difference p = (refl, refl, λ e. ground (arith, e))
    symbol-IsBreak left_by p = (refl, refl, λ e. ground (arith, e))
    symbol-IsBreak right_by p = (refl, refl, λ e. ground (arith, e))
    symbol-IsBreak unsigned_by p = (refl, refl, λ e. ground (arith, e))
    symbol-IsBreak smaller p = (refl, refl, λ e. ground (arith, e))
    symbol-IsBreak larger p = (refl, refl, λ e. ground (arith, e))
    symbol-IsBreak less p = (refl, refl, λ e. ground (arith, e))
    symbol-IsBreak greater p = (refl, refl, λ e. ground (arith, e))
    symbol-IsBreak less_equal p = (refl, refl, λ e. ground (arith, e))
    symbol-IsBreak greater_equal p = (refl, refl, λ e. ground (arith, e))
    symbol-IsBreak equal p = (refl, refl, λ e. ground (arith, e))
    symbol-IsBreak unequal p = (refl, refl, λ e. ground (arith, e))
    symbol-IsBreak ands p = (refl, refl, λ e. ground (arith, e))
    symbol-IsBreak xors p = (refl, refl, λ e. ground (arith, e))
    symbol-IsBreak ors p = (refl, refl, λ e. ground (arith, e))
    symbol-IsBreak both p = (refl, refl, λ e. ground (arith, e))
    symbol-IsBreak either p = (refl, refl, λ e. ground (arith, e))

    symbol-plain :
        (o : Binary) (p : List ℕ)
        → (white (head (symbol o ++ (b' ' ∷ p))) ≡ false)
          × ((head (symbol o ++ (b' ' ∷ p)) == b'$') ≡ false)
    symbol-plain times p = (refl, refl)
    symbol-plain over p = (refl, refl)
    symbol-plain modulo p = (refl, refl)
    symbol-plain sum p = (refl, refl)
    symbol-plain difference p = (refl, refl)
    symbol-plain left_by p = (refl, refl)
    symbol-plain right_by p = (refl, refl)
    symbol-plain unsigned_by p = (refl, refl)
    symbol-plain smaller p = (refl, refl)
    symbol-plain larger p = (refl, refl)
    symbol-plain less p = (refl, refl)
    symbol-plain greater p = (refl, refl)
    symbol-plain less_equal p = (refl, refl)
    symbol-plain greater_equal p = (refl, refl)
    symbol-plain equal p = (refl, refl)
    symbol-plain unequal p = (refl, refl)
    symbol-plain ands p = (refl, refl)
    symbol-plain xors p = (refl, refl)
    symbol-plain ors p = (refl, refl)
    symbol-plain both p = (refl, refl)
    symbol-plain either p = (refl, refl)

pub parenthesis-Follows : (p : List ℕ) → Follows 11 (b')' ∷ p)
parenthesis-Follows p = record {
  ends_number = (refl, refl, λ e. ground (arith, e));
  no_blank = refl;
  no_dollar = refl;
  stops = parenthesis-StopsBelow p;
}
