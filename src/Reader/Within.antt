-- ===== src/Reader/Within.antt =====
-- Outcomes that leave a tail of the text, and are never out of fuel.
use sjasmplus.Common.{ℕ, ◌≤◌, ◌<◌, ◌≡◌, refl, Bool, true, false, List, if◌then◌else◌, length, arith}
use sjasmplus.Reader.Outcome.{
  Message, Outcome, parsed, failed, out_of_fuel, after, and_then, or_else, back_to,
}

-- At most `n` characters are left.
abbrev pub IsWithin : ℕ → Outcome → Type 0
IsWithin n (parsed v p ms) = length p ≤ n
IsWithin n (failed p ms) = length p ≤ n
IsWithin n out_of_fuel = n < n

pub le-IsWithin : (m n : ℕ) (o : Outcome) → m ≤ n → IsWithin m o → IsWithin n o
le-IsWithin m n (parsed v p ms) h w = omega (arith, w)
le-IsWithin m n (failed p ms) h w = omega (arith, w)
le-IsWithin m n out_of_fuel h w = omega (arith, w)

pub after-IsWithin :
    (n : ℕ) (ms : List Message) (o : Outcome) → IsWithin n o → IsWithin n (after ms o)
after-IsWithin n ms (parsed v p later) w = w
after-IsWithin n ms (failed p later) w = w
after-IsWithin n ms out_of_fuel w = w

pub and_then-IsWithin :
    (n : ℕ) (o : Outcome) (next : ℕ → List ℕ → Outcome)
    → IsWithin n o
    → ((v : ℕ) (p : List ℕ) → length p ≤ n → IsWithin n (next v p))
    → IsWithin n (and_then o next)
and_then-IsWithin n (parsed v p ms) next w h = after-IsWithin n ms (next v p) (h v p w)
and_then-IsWithin n (failed p ms) next w h = w
and_then-IsWithin n out_of_fuel next w h = w

pub or_else-IsWithin :
    (n : ℕ) (o next : Outcome) → IsWithin n o → IsWithin n next → IsWithin n (or_else o next)
or_else-IsWithin n (parsed v p ms) next w h = w
or_else-IsWithin n (failed p ms) next w h = after-IsWithin n ms next h
or_else-IsWithin n out_of_fuel next w h = w

pub back_to-IsWithin :
    (n : ℕ) (p : List ℕ) (o : Outcome) → length p ≤ n → IsWithin n o → IsWithin n (back_to p o)
back_to-IsWithin n p (parsed v q ms) h w = w
back_to-IsWithin n p (failed q ms) h w = h
back_to-IsWithin n p out_of_fuel h w = w

pub if-IsWithin :
    (n : ℕ) (b : Bool) (x y : Outcome)
    → (b ≡ true → IsWithin n x)
    → (b ≡ false → IsWithin n y)
    → IsWithin n (if b then x else y)
if-IsWithin n true x y h k = h refl
if-IsWithin n false x y h k = k refl
