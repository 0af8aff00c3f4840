-- ===== src/Prelude/Flags.antt =====
-- `|` with the flags 1 and 4, which are then both set.
use Prim.Native.Nat.{
  ℕ, zero, suc, ◌+◌, ◌-◌, ◌*◌, ◌/◌, ◌%◌, ◌≤◌, max, bit_and, bit_or, digits, bit_or-bitwise,
}
use mathlib.Core.Path.{◌≡◌, refl, sym, ap, ◌∙◌}
use native.Mathlib.Omega.{arith}
use middleware_development_d.Prelude.Bits.{bit_and_step, bit_and_mask}

-- The digits of either number, looked for in `rounds` rounds.
abbrev either : ℕ → ℕ → ℕ → ℕ
either rounds x y = digits (λ b. b) max rounds x y

either_round : (rounds x y : ℕ) → x ≤ rounds → either (suc rounds) x y ≡ either rounds x y
either_round zero zero y enough = refl
either_round zero (suc x) y enough = absurd (omega arith)
either_round (suc rounds) zero y enough = refl
either_round (suc rounds) (suc x) y enough =
    ap (λ (t : ℕ). t * 2 + max (suc x % 2) (y % 2))
      (either_round rounds (suc x / 2) (y / 2) (omega arith))

either_rounds : (more rounds x y : ℕ) → x ≤ rounds → either (more + rounds) x y ≡ either rounds x y
either_rounds zero rounds x y enough = let same : 0 + rounds ≡ rounds = omega arith in rw same
either_rounds (suc more) rounds x y enough =
    let next : suc more + rounds ≡ suc (more + rounds) = omega arith in
    rw next (either_round (more + rounds) x y (omega arith) ∙ either_rounds more rounds x y enough)

-- `|` goes digit by digit.
bit_or_step : (x y : ℕ) → bit_or x y ≡ bit_or (x / 2) (y / 2) * 2 + max (x % 2) (y % 2)
bit_or_step zero y = omega (arith, bit_or-bitwise 0 y, bit_or-bitwise 0 (y / 2))
bit_or_step (suc x) y =
    let half : x ≡ x - suc x / 2 + suc x / 2 = omega arith in
    bit_or-bitwise (suc x) y
    ∙ ap (λ (t : ℕ). t * 2 + max (suc x % 2) (y % 2))
        (ap (λ n. either n (suc x / 2) (y / 2)) half
          ∙ either_rounds (x - suc x / 2) (suc x / 2) (suc x / 2) (y / 2) (omega arith)
          ∙ sym (bit_or-bitwise (suc x / 2) (y / 2)))

pub bit_and_one : (x : ℕ) → bit_and x 1 ≡ x % 2
bit_and_one x = bit_and_mask 1 x

pub bit_and_four : (x : ℕ) → bit_and x 4 ≡ (x / 4) % 2 * 4
bit_and_four x = omega (arith, bit_and_step x 4, bit_and_step (x / 2) 2, bit_and_one (x / 2 / 2))

pub bit_or_five : (x : ℕ) → (bit_or x 5 % 2 ≡ 1) × (bit_or x 5 / 4 % 2 ≡ 1)
bit_or_five x =
    let low = bit_or_step x 5 in
    let middle = bit_or_step (x / 2) 2 in
    let high = bit_or_step (x / 2 / 2) 1 in (omega (arith, low), omega (arith, low, middle, high))
