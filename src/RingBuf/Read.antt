-- ===== src/RingBuf/Read.antt =====
-- `rb_read` takes the oldest bytes off the queue.
use native.Mathlib.Decide.{dec_lt}
use native.Mathlib.Nat.{mod-lt}
use middleware_development_d.Queue
use middleware_development_d.Prelude.{
  ℕ, ◌+◌, ◌-◌, ◌%◌, ◌≤◌, ◌<◌, ◌≡◌, refl, ap, sym, ◌∙◌, min, List, arith, length, get_or, take, drop,
  take-nil, drop-nil, take-min, drop-min, length-take, length-drop, get_or-take, get_or-drop,
  eq_of_get_or, get_or-tabulate, copied, memcpy-eq_some, length-copied, get_or-copied, ok, Returns,
  returns,
}
use middleware_development_d.RingBuf.{RingBuffer, rb_read}
use middleware_development_d.RingBuf.Inv.{
  IsValid, fill, byte_at, contents, index_lem, place, length-contents, contents_empty,
}
use middleware_development_d.RingBuf.Consume.{consume, consume-IsValid, contents-consume}

-- On an empty ring `rb_read` returns 0 and touches nothing.
rb_read-empty :
    {r : RingBuffer} (out : List ℕ) (want : ℕ)
    → IsValid r
    → fill r ≡ 0
    → rb_read r out want ≡ ok (0, r, out)
unfolding rb_read
rb_read-empty out want v h = ground arith

module _ (r : RingBuffer) (out : List ℕ) (n : ℕ) where
  abbrev first : ℕ
  first = min n (r.size - r.read_pos % r.size)

  abbrev front : List ℕ
  front = copied out 0 r.buf (r.read_pos % r.size) first

  abbrev filled : List ℕ
  filled = copied front first r.buf 0 (n - first)

module _ {r : RingBuffer} (out : List ℕ) (n : ℕ) (v : IsValid r) (held : n ≤ fill r)
    (room : n ≤ length out) where
  in_block : r.read_pos % r.size < r.size
  in_block = mod-lt r.read_pos (omega (arith, v.shape.lower))

  first_fits :
      (r.read_pos % r.size + first r out n ≤ length r.buf) × (n - first r out n ≤ length r.buf)
  first_fits = omega (arith, in_block, v.block, v.fill_fits)

  length-filled : length (filled r out n) ≡ length out
  length-filled = ground (
    arith,
    first_fits,
    length-copied out 0 r.buf (r.read_pos % r.size) (first r out n),
    length-copied (front r out n) (first r out n) r.buf 0 (n - first r out n),
  )

  get_or-filled_new : (i : ℕ) → i < n → get_or (filled r out n) i 0 ≡ byte_at r i
  get_or-filled_new i h = ground (
    arith,
    in_block,
    first_fits,
    v.fill_fits,
    place v i,
    length-copied out 0 r.buf (r.read_pos % r.size) (first r out n),
    get_or-copied 0 out 0 r.buf (r.read_pos % r.size) (first r out n) i,
    get_or-copied 0 (front r out n) (first r out n) r.buf 0 (n - first r out n) i,
  )

  get_or-filled_old : (i : ℕ) → n ≤ i → get_or (filled r out n) i 0 ≡ get_or out i 0
  get_or-filled_old i h = ground (
    arith,
    first_fits,
    length-copied out 0 r.buf (r.read_pos % r.size) (first r out n),
    get_or-copied 0 out 0 r.buf (r.read_pos % r.size) (first r out n) i,
    get_or-copied 0 (front r out n) (first r out n) r.buf 0 (n - first r out n) i,
  )

  take-filled : take n (filled r out n) ≡ take n (contents r)
  take-filled =
      eq_of_get_or 0 (take n (filled r out n)) (take n (contents r))
        (omega (
          arith,
          length-take n (filled r out n),
          length-filled,
          length-take n (contents r),
          length-contents r,
        ))
        λ i h.
          let below : i < n = omega (arith, length-take n (filled r out n)) in
          get_or-take 0 n (filled r out n) i below
          ∙ get_or-filled_new i below
          ∙ sym (
              get_or-take 0 n (contents r) i below
              ∙ get_or-tabulate 0 (byte_at r) (fill r) i (omega arith))

  drop-filled : drop n (filled r out n) ≡ drop n out
  drop-filled =
      eq_of_get_or 0 (drop n (filled r out n)) (drop n out)
        (omega (arith, length-drop n (filled r out n), length-filled, length-drop n out))
        λ i h.
          get_or-drop 0 n (filled r out n) i
          ∙ get_or-filled_old (n + i) (omega arith)
          ∙ sym (get_or-drop 0 n out i)

rb_read-filled :
    {r : RingBuffer} (out : List ℕ) (want : ℕ) (v : IsValid r)
    → 0 < fill r
    → min want (fill r) ≤ length out
    → rb_read r out want
      ≡ ok (min want (fill r), consume (min want (fill r)) r, filled r out (min want (fill r)))
unfolding rb_read
rb_read-filled {r} out want v busy_h room = ground (
  arith,
  index_lem v r.read_pos,
  v.shape,
  in_block out (min want (fill r)) v (omega arith) room,
  first_fits out (min want (fill r)) v (omega arith) room,
  memcpy-eq_some out 0 r.buf (r.read_pos % r.size) (first r out (min want (fill r))),
  length-copied out 0 r.buf (r.read_pos % r.size) (first r out (min want (fill r))),
  memcpy-eq_some (front r out (min want (fill r))) (first r out (min want (fill r))) r.buf 0
      (min want (fill r) - first r out (min want (fill r))),
)

-- On a valid ring `rb_read` does to the bytes held what `Queue.read` does: it returns how many it took, at most
-- `want`, puts the oldest bytes at the start of the caller's object in order, leaves the rest of
-- that object alone, and keeps the ring valid, if the object has room for them.
pub rb_read-refines :
    {r : RingBuffer} (out : List ℕ) (want : ℕ)
    → IsValid r
    → min want (fill r) ≤ length out
    → Returns
        (λ (n, r', out').
          IsValid r'
          × ((n, take n out', contents r') ≡ Queue.read (contents r) want)
          × (drop n out' ≡ drop n out))
        (rb_read r out want)
unfolding Queue.read
rb_read-refines {r} out want v room = elim (dec_lt 0 (fill r)) [
  | yes busy_h ↦
      let n : ℕ = min want (fill r) in
      let held : n ≤ fill r = omega arith in
      rw (rb_read-filled out want v busy_h room) (
        returns (
          consume-IsValid n v held,
          rw (contents-consume n v held, take-filled out n v held room)
              (ap (λ m. (m, take m (contents r), drop m (contents r)))
                  (ap (λ m. min want m) (sym (length-contents r)))
                ∙ λ i. (
                  min want (length (contents r)),
                  take-min want (contents r) i,
                  drop-min want (contents r) i,
                )),
          drop-filled out n v held room,
        ))
  | no idle_h ↦
      let empty : fill r ≡ 0 = omega arith in
      rw (rb_read-empty out want v empty, contents_empty r empty)
        (returns (v, ground (arith, take-nil {A = ℕ} want, drop-nil {A = ℕ} want), refl))
]
