-- ===== src/Prelude/Bits.antt =====
-- `&` with a mask of low bits is a remainder, at every width.
use Prim.Native.Nat.{
  ℕ, zero, suc, ◌+◌, ◌-◌, ◌*◌, ◌/◌, ◌%◌, ◌^◌, ◌≤◌, ◌<◌, min, bit_and, digits, bit_and-bitwise,
}
use mathlib.Core.Path.{◌≡◌, refl, sym, ap, ◌∙◌}
use native.Mathlib.Nat.{pow-suc, one-le-pow}
use native.Mathlib.Omega.{arith}

-- The common digits of two numbers, looked for in `rounds` rounds.
abbrev common : ℕ → ℕ → ℕ → ℕ
common rounds x y = digits (λ _. 0) min rounds x y

-- One round more than enough changes nothing.
common_round : (rounds x y : ℕ) → x ≤ rounds → common (suc rounds) x y ≡ common rounds x y
common_round zero zero y enough = refl
common_round zero (suc x) y enough = absurd (omega arith)
common_round (suc rounds) zero y enough = refl
common_round (suc rounds) (suc x) y enough =
    ap (λ (t : ℕ). t * 2 + min (suc x % 2) (y % 2))
      (common_round rounds (suc x / 2) (y / 2) (omega arith))

common_rounds : (more rounds x y : ℕ) → x ≤ rounds → common (more + rounds) x y ≡ common rounds x y
common_rounds zero rounds x y enough = let same : 0 + rounds ≡ rounds = omega arith in rw same
common_rounds (suc more) rounds x y enough =
    let next : suc more + rounds ≡ suc (more + rounds) = omega arith in
    rw next (common_round (more + rounds) x y (omega arith) ∙ common_rounds more rounds x y enough)

-- `&` goes digit by digit.
pub bit_and_step : (x y : ℕ) → bit_and x y ≡ bit_and (x / 2) (y / 2) * 2 + min (x % 2) (y % 2)
bit_and_step zero y = omega (arith, bit_and-bitwise 0 y, bit_and-bitwise 0 (y / 2))
bit_and_step (suc x) y =
    let half : x ≡ x - suc x / 2 + suc x / 2 = omega arith in
    bit_and-bitwise (suc x) y
    ∙ ap (λ (t : ℕ). t * 2 + min (suc x % 2) (y % 2))
        (ap (λ n. common n (suc x / 2) (y / 2)) half
          ∙ common_rounds (x - suc x / 2) (suc x / 2) (suc x / 2) (y / 2) (omega arith)
          ∙ sym (bit_and-bitwise (suc x / 2) (y / 2)))

twice_pow : (q k : ℕ) → q * 2 ^ suc k ≡ 2 * (q * 2 ^ k)
twice_pow q k = omega (arith, ap (λ (t : ℕ). q * t) (pow-suc 2 k))

-- A mask of `k` ones leaves the lowest `k` digits, `r`, of a number.
low_digits :
    (n a k q r : ℕ)
    → a ≡ q * 2 ^ k + r
    → r < 2 ^ k
    → a ≤ n
    → digits (λ b. zero) min n a (2 ^ k - 1) ≡ r
low_digits zero zero k q r e small le = omega arith
low_digits (suc n) zero k q r e small le = omega arith
low_digits zero (suc a) k q r e small le = absurd (omega arith)
low_digits (suc n) (suc a) zero q r e small le = omega (
  arith,
  low_digits n (suc a / 2) zero (suc a / 2) zero (omega arith) (omega arith) (omega arith),
)
low_digits (suc n) (suc a) (suc k) q r e small le = ground (
  arith,
  twice_pow q k,
  pow-suc 2 k,
  low_digits n (suc a / 2) k q (r / 2) (omega (arith, twice_pow q k)) (omega (arith, pow-suc 2 k))
      (omega arith),
)

-- `a & (2^k - 1)` is `a % 2^k`.
pub bit_and_mask : (k a : ℕ) → bit_and a (2 ^ k - 1) ≡ a % 2 ^ k
bit_and_mask k a =
    bit_and-bitwise a (2 ^ k - 1)
    ∙ ground (arith, one-le-pow k 2, low_digits a a k (a / 2 ^ k) (a % 2 ^ k))
