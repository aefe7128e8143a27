-- ===== src/Expression/Relocated.antt =====
-- ParseExpression of sjasm/parser.cpp in a relocation block: which sums and differences of the current
-- address are relocated.
use sjasmplus.Common.{
  ℕ, ◌+◌, ◌%◌, ◌^◌, ◌≤◌, ◌<◌, ◌≡◌, refl, ap, ◌∙◌, Bool, true, false, not, ◌||◌, List, [], ◌++◌,
  ◌==◌, arith,
}
use sjasmplus.Relocation.{Relocation, RelocationType, off, regular, high, is_active}
use sjasmplus.Reader.Outcome.{parsed}
use sjasmplus.Expression.{State}
use sjasmplus.Expression.Arithmetic.{negated}
use sjasmplus.Expression.Operators.{add_value, unary_value}
use sjasmplus.Expression.Parse.{is_inside_relocate, current_address}
use sjasmplus.Expression.Entry.{parse_expression, compare_runs, delta_of}
use sjasmplus.Expression.Printed.{
  Expr, number, here, unary, binary, plus, minus, sum, difference, print_at, value, reports,
  FitsWords,
}
use sjasmplus.Expression.Printed.Symbols.{Follows}
use sjasmplus.Expression.Printed.Parse.{parse_expression_entry-print_at}

-- When the current address moves by `offset`, the expression gains `added` and loses `subtracted`.
pub data Moves (offset : ℕ) : Expr → ℕ → ℕ → Type 0 where
  stays : (v : ℕ) → Moves offset (number v) 0 0
  moves : Moves offset here offset 0
  positive : {e : Expr} {p q : ℕ} → Moves offset e p q → Moves offset (unary plus e) p q
  negative : {e : Expr} {p q : ℕ} → Moves offset e p q → Moves offset (unary minus e) q p
  together :
      {e d : Expr} {p q p' q' : ℕ}
      → Moves offset e p q
      → Moves offset d p' q'
      → Moves offset (binary sum e d) (p + p') (q + q')
  apart :
      {e d : Expr} {p q p' q' : ℕ}
      → Moves offset e p q
      → Moves offset d p' q'
      → Moves offset (binary difference e d) (p + q') (q + p')

-- A relocation block, where `$` is relocated.
pub record IsRelocating (s : State) : Type 0 where
  pub active : is_active s.relocation.type ≡ true
  pub not_inside : is_inside_relocate s.pseudo_org ≡ false
  pub address_fits : s.cur_address < 2 ^ 32

abbrev pub quiet : State → State
quiet s = record s { synerr = false }

value-word :
    (s : State) (b : Bool) (offset : ℕ) (e : Expr) (p q : ℕ)
    → s.cur_address < 2 ^ 32
    → FitsWords e
    → Moves offset e p q
    → value s b e < 2 ^ 32
unfolding value current_address unary_value add_value
value-word s b offset _ _ _ h fits (stays v) = fits
value-word s b offset _ _ _ h fits moves = ground (arith, h)
value-word s b offset _ _ _ h fits (positive m) = value-word s b offset _ _ _ h fits m
value-word s b offset _ _ _ h fits (negative m) = omega arith
value-word s b offset _ _ _ h fits (together m n) = omega arith
value-word s b offset _ _ _ h fits (apart m n) = omega arith

reports-Moves :
    (s : State) (b : Bool) (offset : ℕ) (e : Expr) (p q : ℕ)
    → Moves offset e p q
    → reports s b e ≡ []
unfolding reports add_value
reports-Moves s b offset _ _ _ (stays v) = refl
reports-Moves s b offset _ _ _ moves = refl
reports-Moves s b offset _ _ _ (positive m) = reports-Moves s b offset _ _ _ m
reports-Moves s b offset _ _ _ (negative m) = reports-Moves s b offset _ _ _ m
reports-Moves s b offset _ _ _ (together m n) =
    rw (reports-Moves s b offset _ _ _ m, reports-Moves s b offset _ _ _ n) refl
reports-Moves s b offset _ _ _ (apart m n) =
    rw (reports-Moves s b offset _ _ _ m, reports-Moves s b offset _ _ _ n) refl

value-Moves :
    (s : State) (e : Expr) (p q : ℕ)
    → IsRelocating s
    → Moves s.relocation.alternative_offset e p q
    → FitsWords e
    → (value (quiet s) true e + q) % 2 ^ 32 ≡ (value s false e + p) % 2 ^ 32
unfolding value current_address unary_value add_value negated
value-Moves s _ _ _ r (stays v) fits = refl
value-Moves s _ _ _ r moves fits = rw (r.active, r.not_inside) (omega arith)
value-Moves s _ _ _ r (positive m) fits = value-Moves s _ _ _ r m fits
value-Moves s _ _ _ r (negative {e = e} {p = p} {q = q} m) fits = omega (
  arith,
  value-Moves s e p q r m fits,
  value-word s false _ e p q r.address_fits fits m,
  value-word (quiet s) true _ e p q r.address_fits fits m,
)
value-Moves s _ _ _ r (together m n) (fits, fits') =
    omega (arith, value-Moves s _ _ _ r m fits, value-Moves s _ _ _ r n fits')
value-Moves s _ _ _ r (apart {d = d} {p' = p'} {q' = q'} m n) (fits, fits') = omega (
  arith,
  value-Moves s _ _ _ r m fits,
  value-Moves s _ _ _ r n fits',
  value-word s false _ d p' q' r.address_fits fits' n,
  value-word (quiet s) true _ d p' q' r.address_fits fits' n,
)

-- Both runs read the expression.
parse_expression-runs :
    (s : State) (e : Expr) (p q : ℕ) (rest : List ℕ)
    → IsRelocating s
    → Moves s.relocation.alternative_offset e p q
    → FitsWords e
    → Follows 11 rest
    → parse_expression s (print_at 11 e ++ rest) ≡ (
      parsed (value s false e) rest [],
      compare_runs
          (parsed (value (quiet s) true e) rest [])
          (parsed (value s false e) rest [])
          s.relocation,
    )
unfolding parse_expression
parse_expression-runs s e p q rest r m fits f =
    rw
      (
        r.active,
        parse_expression_entry-print_at s false e rest fits f,
        parse_expression_entry-print_at (quiet s) true e rest fits f,
        reports-Moves s false _ e p q m,
        reports-Moves (quiet s) true _ e p q m,
      )
      refl

delta_of-off :
    (type : RelocationType) (offset v : ℕ)
    → v < 2 ^ 32
    → 2 ^ 8 ≤ offset
    → delta_of type offset v v ≡ off
unfolding delta_of
delta_of-off off offset v h le = ground arith
delta_of-off regular offset v h le = ground arith
delta_of-off high offset v h le = ground arith

abbrev marked : Relocation → Bool → RelocationType → Relocation
marked r affected delta = record r { is_result_affected = affected; delta_type = delta }

compare_runs-marked :
    (r : Relocation) (a v : ℕ) (rest : List ℕ) (affected : Bool) (delta : RelocationType)
    → (r.is_result_affected || not (a == v)) ≡ affected
    → delta_of r.type r.alternative_offset a v ≡ delta
    → compare_runs (parsed a rest []) (parsed v rest []) r ≡ marked r affected delta
unfolding compare_runs
compare_runs-marked r a v rest affected delta h k = λ i. marked r (h i) (k i)

-- In a relocation block an expression that gains as much as it loses when the current address moves, as
-- the difference of two addresses, is read as its value and marked as no more affected than before, with
-- the relocation type off. It is a sum or difference of words and of the current address; the alternative
-- offset is at least 256.
pub parse_expression-distance :
    (s : State) (e : Expr) (p q : ℕ) (rest : List ℕ)
    → IsRelocating s
    → Moves s.relocation.alternative_offset e p q
    → p ≡ q
    → 2 ^ 8 ≤ s.relocation.alternative_offset
    → FitsWords e
    → Follows 11 rest
    → parse_expression s (print_at 11 e ++ rest)
      ≡ (parsed (value s false e) rest [], record s.relocation { delta_type = off })
parse_expression-distance s e p q rest r m eq large fits f =
    let o = s.relocation.alternative_offset in
    let a = value (quiet s) true e in
    let v = value s false e in
    let small : v < 2 ^ 32 = value-word s false o e p q r.address_fits fits m in
    let small' : a < 2 ^ 32 = value-word (quiet s) true o e p q r.address_fits fits m in
    let same : a ≡ v = omega (arith, value-Moves s e p q r m fits, eq, small, small') in
    parse_expression-runs s e p q rest r m fits f
    ∙ ap (λ t. (parsed v rest [], t))
        (compare_runs-marked s.relocation a v rest s.relocation.is_result_affected off
          (unchanged s.relocation.is_result_affected a v same)
          (ap (λ x. delta_of s.relocation.type o x v) same
            ∙ delta_of-off s.relocation.type o v small large))
  where
    unchanged : (b : Bool) (a v : ℕ) → a ≡ v → (b || not (a == v)) ≡ b
    unchanged true a v h = refl
    unchanged false a v h = ground (arith, h)
