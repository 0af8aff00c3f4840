-- ===== src/RingBuf/Consume.antt =====
-- Taking bytes off the front: what `r->read_pos += n` does to the queue.
use native.Mathlib.Nat.{mod-add-mod}
use middleware_development_d.Prelude.{
  ℕ, ◌+◌, ◌-◌, ◌%◌, ◌≤◌, ◌<◌, ◌≡◌, arith, ap, sym, ◌∙◌, drop, length-drop, get_or, get_or-drop,
  get_or-tabulate, tabulate-eq, u32, add32,
}
use middleware_development_d.RingBuf.{RingBuffer}
use middleware_development_d.RingBuf.Inv.{IsValid, fill, byte_at, contents, length-contents}

abbrev pub consume : ℕ → RingBuffer → RingBuffer
consume n r = record r { read_pos = add32 r.read_pos n }

module _ {r : RingBuffer} (n : ℕ) (v : IsValid r) (held : n ≤ fill r) where
  pub fill-consume : fill (consume n r) ≡ fill r - n
  fill-consume = omega (arith, v.shape.upper, v.write_fits, v.read_fits, v.fill_fits)

  pub consume-IsValid : IsValid (consume n r)
  consume-IsValid = record {
    shape = v.shape;
    block = v.block;
    write_fits = v.write_fits;
    read_fits = omega arith;
    fill_fits = omega (arith, fill-consume, v.fill_fits);
  }

  same_place : (i : ℕ) → (add32 r.read_pos n + i) % r.size ≡ (r.read_pos + (n + i)) % r.size
  same_place i =
      sym (mod-add-mod (u32 (r.read_pos + n)) r.size i)
      ∙ ap (λ t. (t + i) % r.size) (v.shape.wrap (r.read_pos + n))
      ∙ mod-add-mod (r.read_pos + n) r.size i
      ∙ ap (λ t. t % r.size) (omega arith)

  pub contents-consume : contents (consume n r) ≡ drop n (contents r)
  contents-consume =
      tabulate-eq 0 (byte_at (consume n r)) (fill (consume n r)) (drop n (contents r))
        (omega (arith, fill-consume, length-contents r, length-drop n (contents r)))
        λ i h.
          ap (λ k. get_or r.buf k 0) (same_place i)
          ∙ sym (
              get_or-drop 0 n (contents r) i
              ∙ get_or-tabulate 0 (byte_at r) (fill r) (n + i) (omega (arith, fill-consume)))

-- Taking more than is held wraps the length round.
pub fill-consume_past :
    {r : RingBuffer} (n : ℕ)
    → IsValid r
    → fill r < n
    → n ≤ r.size
    → fill (consume n r) ≡ 4294967296 - (n - fill r)
fill-consume_past n v past inside = omega (arith, v.shape.upper, v.write_fits, v.read_fits)

pub not-IsValid_of_past :
    {r : RingBuffer} (n : ℕ)
    → IsValid r
    → 0 < fill r
    → fill r < n
    → n ≤ r.size
    → ¬ IsValid (consume n r)
not-IsValid_of_past {r} n v some past inside w =
    omega (arith, fill-consume_past n v past inside, w.fill_fits, v.shape.upper)
