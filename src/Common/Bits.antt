-- ===== src/Common/Bits.antt =====
-- Equations between bit operations on small numbers, each checked at every value of its range.
use Prim.Native.Nat.{
  ℕ, zero, suc, ◌+◌, ◌-◌, ◌*◌, ◌/◌, ◌%◌, ◌^◌, ◌≤◌, ◌<◌, min, bit_and, digits, bit_and-bitwise,
}
use native.Mathlib.Nat.{
  le_refl, zero-mod, pow-suc, one-le-pow, mod-lt, mod-eq_of_lt, div-add-mod',
  mul-add-mod_self_right,
}
use mathlib.Core.Path.{◌≡◌, sym, ap, ◌∙◌}
use mathlib.Core.Bool.{Bool, true, false}
use native.Mathlib.Omega.{arith}
use sjasmplus.Common.Tests.{◌==◌, if◌then◌else◌}

unfoldable pub agree_at_all : (ℕ → ℕ) → (ℕ → ℕ) → ℕ → Bool
agree_at_all f g zero = true
agree_at_all f g (suc range) = if f range == g range then agree_at_all f g range else false

pub agree_at :
    (f g : ℕ → ℕ) (range : ℕ) → agree_at_all f g range ≡ true → (v : ℕ) → v < range → f v ≡ g v
unfolding agree_at_all
agree_at f g zero checked v h = elim h [ ]
agree_at f g (suc range) checked v h = ground (arith, agree_at f g range (ground arith) v)

double_mod : (x m : ℕ) → 0 < m → x / 2 % m * 2 + x % 2 ≡ x % (m * 2)
double_mod x m h =
    sym (ap (λ v. v % (m * 2)) whole ∙ mul-add-mod_self_right q (m * 2) r ∙ mod-eq_of_lt small)
  where
    q : ℕ
    q = x / 2 / m

    r : ℕ
    r = x / 2 % m * 2 + x % 2

    small : r < m * 2
    small = omega (arith, mod-lt (x / 2) h)

    whole : x ≡ q * (m * 2) + r
    whole = omega (arith, div-add-mod' (x / 2) m, ap (λ (v : ℕ). v * 2) (div-add-mod' (x / 2) m))

-- A mask of `k` ones keeps the remainder modulo 2 ^ k.
mask_digits : (n a k : ℕ) → a ≤ n → digits (λ b. zero) min n a (2 ^ k - 1) ≡ a % 2 ^ k
mask_digits zero zero k h = sym (zero-mod (2 ^ k))
mask_digits zero (suc a) k h = elim h [ ]
mask_digits (suc n) zero k h = sym (zero-mod (2 ^ k))
mask_digits (suc n) (suc a) zero h = omega (arith, mask_digits n (suc a / 2) 0 (omega arith))
mask_digits (suc n) (suc a) (suc k) h =
    let ones : 0 < 2 ^ k = one-le-pow k 2 (omega arith) in
    let half = mask_digits n (suc a / 2) k (omega arith) in
    let power = pow-suc 2 k in
    rw (power_half, half) (rw power (omega (arith, double_mod (suc a) (2 ^ k) ones)))
  where
    power_half : (2 ^ suc k - 1) / 2 ≡ 2 ^ k - 1
    power_half = omega (arith, pow-suc 2 k, one-le-pow k 2 (omega arith))

pub bit_and_mask : (a k : ℕ) → bit_and a (2 ^ k - 1) ≡ a % 2 ^ k
bit_and_mask a k = bit_and-bitwise a (2 ^ k - 1) ∙ mask_digits a a k (le_refl a)
