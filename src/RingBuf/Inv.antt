-- ===== src/RingBuf/Inv.antt =====
-- The representation invariant of `ringbuffer_t`, and the queue of bytes that a ring stands for.
use middleware_development_d.Prelude.{
  ℕ, ◌+◌, ◌-◌, ◌%◌, ◌≤◌, ◌<◌, ◌≡◌, sym, ap, ◌∙◌, List, [], arith, length, get_or, tabulate,
  length-tabulate, ltb, if◌then◌else◌, u32, sub32, IsSize, step-mod,
}
use middleware_development_d.RingBuf.{RingBuffer, rb_len, rb_remain, index}

-- The number of bytes held.
abbrev pub fill : RingBuffer → ℕ
fill r = sub32 r.write_pos r.read_pos

pub record IsValid (r : RingBuffer) : Type 0 where
  pub shape : IsSize r.size
  pub block : length r.buf ≡ r.size
  pub write_fits : r.write_pos < 4294967296
  pub read_fits : r.read_pos < 4294967296
  pub fill_fits : fill r ≤ r.size

-- The byte `i` places behind the oldest one.
abbrev pub byte_at : RingBuffer → ℕ → ℕ
byte_at r i = get_or r.buf ((r.read_pos + i) % r.size) 0

-- The bytes held, oldest first.
abbrev pub contents : RingBuffer → List ℕ
contents r = tabulate (byte_at r) (fill r)

module _ {r : RingBuffer} (v : IsValid r) where
  pub index_lem : (x : ℕ) → index r x ≡ x % r.size
  index_lem x =
      let e : sub32 r.size 1 ≡ r.size - 1 = omega (arith, v.shape.lower, v.shape.upper) in
      rw e (v.shape.mask x)

  -- Where the `i`th byte lies.
  pub place :
      (i : ℕ)
      → i ≤ r.size
      → (r.read_pos + i) % r.size ≡ (
          if ltb (r.read_pos % r.size + i) r.size
          then r.read_pos % r.size + i
          else r.read_pos % r.size + i - r.size)
  place i h = step-mod r.read_pos i r.size (omega (arith, v.shape.lower)) h

  -- The next write goes where the byte after the last would lie.
  pub write_place : r.write_pos % r.size ≡ (r.read_pos + fill r) % r.size
  write_place =
      let e : u32 (r.read_pos + fill r) ≡ r.write_pos = omega arith in
      sym (ap (λ t. t % r.size) e) ∙ v.shape.wrap (r.read_pos + fill r)

  pub rb_remain_lem : rb_remain r ≡ r.size - fill r
  unfolding rb_remain
  rb_remain_lem = omega (arith, v.shape.upper)

-- On a valid ring `rb_len` and `rb_remain` together make up the size, whatever wrapped on the way.
pub rb_remain-add-rb_len : {r : RingBuffer} → IsValid r → rb_remain r + rb_len r ≡ r.size
unfolding rb_len rb_remain
rb_remain-add-rb_len v = omega (arith, v.shape.upper)

pub length-contents : (r : RingBuffer) → length (contents r) ≡ fill r
length-contents r = length-tabulate (byte_at r) (fill r)

pub contents_empty : (r : RingBuffer) → fill r ≡ 0 → contents r ≡ []
contents_empty r e = ap (λ n. tabulate (byte_at r) n) e
