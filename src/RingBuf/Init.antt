-- ===== src/RingBuf/Init.antt =====
-- `is_power_of_two`, `roundup_power_of_two` and `rb_init`: which sizes make a valid ring.
use native.Mathlib.Nat.{pow-suc, pow-le-pow_right}
use native.Mathlib.Decide.{dec_le, ℕ_discrete}
use middleware_development_d.Prelude.{
  ℕ, zero, suc, ◌+◌, ◌-◌, ◌*◌, ◌/◌, ◌%◌, ◌^◌, ◌≤◌, ◌<◌, ◌≡◌, ◌≢◌, refl, ap, ◌∙◌, max, bit_and, true,
  false, List, [], arith, length, ◌==◌, Bool-cases, lt→ltb, inl, inr, ok, fault, Returns, returns,
  Returns-eq_ok, IsSize, two_pow-IsSize,
}
use middleware_development_d.Prelude.Bits.{bit_and_step}
use middleware_development_d.RingBuf.{is_power_of_two, shift_count, roundup_power_of_two, rb_init}
use middleware_development_d.RingBuf.Inv.{IsValid, contents}

bit_and_self_fuel : (f a : ℕ) → a ≤ f → bit_and a a ≡ a
bit_and_self_fuel f zero h = refl
bit_and_self_fuel zero (suc a) h = absurd (omega arith)
bit_and_self_fuel (suc f) (suc a) h =
    omega (arith, bit_and_step (suc a) (suc a), bit_and_self_fuel f (suc a / 2) (omega arith))

-- A number that shares no bit with its predecessor is a power of two.
two_pow_of_bit_and :
    (f num : ℕ) → num ≤ f → 1 ≤ num → bit_and num (num - 1) ≡ 0 → (k : ℕ) × (num ≡ 2 ^ k)
two_pow_of_bit_and zero num h pos e = absurd (omega arith)
two_pow_of_bit_and (suc f) num h pos e = elim (Bool-cases (num % 2 == 0)) [
  | inl even ↦
      let lower : (num - 1) / 2 ≡ num / 2 - 1 = ground arith in
      let half : (k : ℕ) × (num / 2 ≡ 2 ^ k) =
        two_pow_of_bit_and f (num / 2) (ground arith) (ground arith)
          (ground (arith, bit_and_step num (num - 1), ap (λ t. bit_and (num / 2) t) lower)) in
      (suc half.0, ground (arith, half.1, pow-suc 2 half.0))
  | inr odd ↦
      let lower : (num - 1) / 2 ≡ num / 2 = ground arith in
      (
        0,
        ground (
          arith,
          bit_and_step num (num - 1),
          bit_and_self_fuel num (num / 2),
          ap (λ t. bit_and (num / 2) t) lower,
        ),
      )
]

-- What `shift_count` counts: the bits of `num`.
shift_count-bits :
    (f num i : ℕ)
    → num < 2 ^ f
    → (b : ℕ) × (shift_count (suc f) num i ≡ ok (i + b)) × (num < 2 ^ b) × (2 ^ b ≤ max 1 (2 * num))
unfolding shift_count
shift_count-bits zero num i h = (0, ground arith, omega arith, omega arith)
shift_count-bits (suc f) num i h = elim (Bool-cases (num == 0)) [
  | inl done ↦ (0, ground arith, ground arith, omega arith)
  | inr more ↦
      let rest = shift_count-bits f (num / 2) (i + 1) (omega (arith, pow-suc 2 f)) in
      (
        suc rest.0,
        rw more (rest.1 ∙ ap (λ t. ok t) (omega arith)),
        omega (arith, rest, pow-suc 2 rest.0),
        ground (arith, rest, pow-suc 2 rest.0),
      )
]

two_pow_range : (k : ℕ) → 2 ≤ 2 ^ k → 2 ^ k < 4294967296 → (1 ≤ k) × (k ≤ 31)
two_pow_range k lo hi = (
  elim (dec_le 1 k) [
    | yes p ↦ p
    | no p ↦ let e : k ≡ 0 = omega arith in absurd (omega (arith, ap (λ (t : ℕ). 2 ^ t) e))
  ],
  elim (dec_le k 31) [
    | yes p ↦ p
    | no p ↦
        absurd
          (omega (arith, pow-le-pow_right {n = 2} (omega arith) {i = 32} {j = k} (omega arith)))
  ],
)

two_pow_shape : (num k : ℕ) → num ≡ 2 ^ k → 2 ≤ num → num < 4294967296 → IsSize num
two_pow_shape num k e lo hi =
    let range = two_pow_range k (omega arith) (omega arith) in
    rw e (two_pow-IsSize k range.0 range.1)

-- Sizes up to 2^31 come out as powers of two.
Rounded : ℕ → ℕ → Type 0
Rounded sz size = IsSize size × (sz ≤ size) × (size ≤ max 2 (2 * sz))

bits_round_up :
    {num b : ℕ}
    → num < 2147483648
    → num ≢ 0
    → num < 2 ^ b
    → 2 ^ b ≤ max 1 (2 * num)
    → (b < 32) × Rounded num (2 ^ b)
unfolding Rounded
bits_round_up {num} {b} h nz up low =
    let range = two_pow_range b (omega arith) (omega arith) in
    (omega (arith, range), (two_pow-IsSize b range.0 range.1, omega arith, omega arith))

bits-le_of_big : {num b : ℕ} → 2147483648 ≤ num → num < 2 ^ b → 32 ≤ b
bits-le_of_big {num} {b} h up = elim (dec_le 32 b) [
  | yes p ↦ p
  | no p ↦
      absurd (omega (arith, pow-le-pow_right {n = 2} (omega arith) {i = b} {j = 31} (omega arith)))
]

roundup_power_of_two-Rounded :
    (num : ℕ) → num < 2147483648 → Returns (Rounded num) (roundup_power_of_two num)
unfolding roundup_power_of_two Rounded
roundup_power_of_two-Rounded num h = elim (Bool-cases (num == 0)) [
  | inl e ↦
      rw e (returns (two_pow-IsSize 1 (omega arith) (omega arith), ground arith, ground arith))
  | inr ne ↦
      let bits = shift_count-bits 32 num 0 (omega arith) in
      let (below, rounded) = bits_round_up {b = bits.0} h (ground arith) bits.2 bits.3 in
      let start : 0 + bits.0 ≡ bits.0 = omega arith in
      rw (ne, bits.1, start, lt→ltb bits.0 32 below) (returns rounded)
]

roundup_power_of_two-fault :
    (num : ℕ) → 2147483648 ≤ num → num < 4294967296 → roundup_power_of_two num ≡ fault
unfolding roundup_power_of_two
roundup_power_of_two-fault num h fits =
    let bits = shift_count-bits 32 num 0 (omega arith) in
    ground (arith, bits, bits-le_of_big {b = bits.0} h bits.2)

-- A power of two is taken as it is.
is_power_of_two-IsSize : (num : ℕ) → num < 4294967296 → is_power_of_two num ≡ true → IsSize num
unfolding is_power_of_two
is_power_of_two-IsSize num h e =
    let power = two_pow_of_bit_and num num (omega arith) (ground arith) (ground arith) in
    two_pow_shape num power.0 power.1 (ground arith) h

fresh-IsValid :
    (malloc : ℕ → List ℕ)
    → ((n : ℕ) → length (malloc n) ≡ n)
    → {size : ℕ} → IsSize size
    → IsValid (record { buf = malloc size; size = size; write_pos = 0; read_pos = 0 })
fresh-IsValid malloc allocated {size} shape = record {
  shape = shape;
  block = allocated size;
  write_fits = omega arith;
  read_fits = omega arith;
  fill_fits = omega arith;
}

-- 2^31 itself is a power of two.
below_of_other : (sz : ℕ) → sz ≤ 2147483648 → is_power_of_two sz ≡ false → sz < 2147483648
unfolding is_power_of_two
below_of_other sz h other = elim (ℕ_discrete sz 2147483648) [
  | yes e ↦ cc (rw e at other)
  | no ne ↦ omega arith
]

module _ (malloc : ℕ → List ℕ) (allocated : (n : ℕ) → length (malloc n) ≡ n) where
  -- For a requested size up to 2^31, if `malloc` succeeds, `rb_init` makes a valid and empty ring
  -- with at least the requested size, and at most twice that (2 for a request of 0).
  pub rb_init-IsValid :
      (sz : ℕ)
      → sz ≤ 2147483648
      → Returns
          (λ r. IsValid r × (contents r ≡ []) × (sz ≤ r.size) × (r.size ≤ max 2 (2 * sz)))
          (rb_init malloc sz)
  unfolding rb_init Rounded
  rb_init-IsValid sz h = elim (Bool-cases (is_power_of_two sz)) [
    | inl power ↦
        let shape = is_power_of_two-IsSize sz (omega arith) power in
        rw power (returns (fresh-IsValid malloc allocated shape, refl, omega arith, omega arith))
    | inr other ↦
        let (size, e, rounded) =
          Returns-eq_ok (roundup_power_of_two-Rounded sz (below_of_other sz h other)) in
        rw (other, e)
          (returns (fresh-IsValid malloc allocated rounded.0, refl, rounded.1, rounded.2))
  ]

-- For a requested size above 2^31 and below 2^32 `rb_init` shifts 1 by 32, which is undefined.
pub rb_init-fault :
    (malloc : ℕ → List ℕ) (sz : ℕ) → 2147483648 < sz → sz < 4294967296 → rb_init malloc sz ≡ fault
unfolding rb_init
rb_init-fault malloc sz h fits = elim (Bool-cases (is_power_of_two sz)) [
  | inl power ↦ absurd (omega (arith, (is_power_of_two-IsSize sz fits power).upper))
  | inr other ↦ rw (other, roundup_power_of_two-fault sz (omega arith) fits)
]
