-- ===== src/Prelude/Words.antt =====
-- `unsigned int`: 32 bits that wrap round, and the sizes 2^k that divide that range.
use Prim.Native.Nat.{ℕ, zero, suc, ◌+◌, ◌-◌, ◌%◌, ◌^◌, ◌≤◌, ◌∣◌, bit_and}
use mathlib.Core.Path.{◌≡◌, refl}
use native.Mathlib.Nat.{
  mod-lt, dvd_refl, dvd-mul_right_of_dvd, mod-mod_of_dvd, pow-le-pow_right, pow-suc, mod-add-mod,
  mod-eq_of_lt, mod-eq-sub-mod,
}
use native.Mathlib.Omega.{arith}
use middleware_development_d.Prelude.Tests.{ltb, if◌then◌else◌}
use middleware_development_d.Prelude.Bits.{bit_and_mask}

abbrev pub u32 : ℕ → ℕ
u32 n = n % 4294967296

abbrev pub add32 : ℕ → ℕ → ℕ
add32 a b = u32 (a + b)

abbrev pub sub32 : ℕ → ℕ → ℕ
sub32 a b = u32 (a + 4294967296 - b)

two-pow-dvd : (k d n : ℕ) → n ≡ d + k → 2 ^ k ∣ 2 ^ n
two-pow-dvd k zero n e = let same : n ≡ k = omega arith in rw same (dvd_refl (2 ^ k))
two-pow-dvd k (suc d) n e =
    let next : n ≡ suc (d + k) = omega arith in
    rw (next, pow-suc 2 (d + k)) (dvd-mul_right_of_dvd (2 ^ k) (two-pow-dvd k d (d + k) refl) 2)

-- What the ring buffer needs of its size.
pub record IsSize (s : ℕ) : Type 0 where
  pub lower : 2 ≤ s
  pub upper : s ≤ 2147483648
  pub mask : (x : ℕ) → bit_and x (s - 1) ≡ x % s
  pub wrap : (x : ℕ) → u32 x % s ≡ x % s

two-pow-lower : (k : ℕ) → 1 ≤ k → 2 ^ 1 ≤ 2 ^ k
two-pow-lower k h = pow-le-pow_right (omega arith) h

two-pow-upper : (k : ℕ) → k ≤ 31 → 2 ^ k ≤ 2 ^ 31
two-pow-upper k h = pow-le-pow_right (omega arith) h

-- The powers of two from 2 to 2^31 are such sizes.
pub two_pow-IsSize : (k : ℕ) → 1 ≤ k → k ≤ 31 → IsSize (2 ^ k)
two_pow-IsSize k lo hi = record {
  lower = two-pow-lower k lo;
  upper = two-pow-upper k hi;
  mask = bit_and_mask k;
  wrap = λ x. mod-mod_of_dvd (2 ^ k) x (two-pow-dvd k (32 - k) 32 (omega arith));
}

-- The index reached from `x` in `i` steps round a buffer of size `s`, without a remainder of a sum.
pub step-mod :
    (x i s : ℕ)
    → 1 ≤ s
    → i ≤ s
    → (x + i) % s ≡ (if ltb (x % s + i) s then x % s + i else x % s + i - s)
step-mod x i s h k = ground (
  arith,
  mod-lt x {m = s} h,
  mod-add-mod x s i,
  mod-eq_of_lt {n = x % s + i} {m = s},
  mod-eq-sub-mod {n = x % s + i} {m = s},
  mod-eq_of_lt {n = x % s + i - s} {m = s},
)
