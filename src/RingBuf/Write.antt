-- ===== src/RingBuf/Write.antt =====
-- `rb_write` appends to the queue, or refuses.
use native.Mathlib.Decide.{dec_lt}
use native.Mathlib.Nat.{mod-lt}
use middleware_development_d.Queue
use middleware_development_d.Prelude.{
  ℕ, ◌+◌, ◌-◌, ◌%◌, ◌≤◌, ◌<◌, ◌≡◌, min, List, ◌++◌, arith, length, get_or, take, length-take,
  take-length, refl, ap, ◌∙◌, get_or-take, length-append, get_or-append, length-tabulate,
  get_or-tabulate, tabulate-eq, copied, memcpy-eq_some, length-copied, get_or-copied, add32, ok,
  Returns, returns,
}
use middleware_development_d.RingBuf.{RingBuffer, rb_write}
use middleware_development_d.RingBuf.Inv.{
  IsValid, fill, byte_at, contents, index_lem, place, write_place, rb_remain_lem, length-contents,
}

-- Without room for all of it, `rb_write` copies nothing and says so.
pub rb_write-full :
    {r : RingBuffer} (src : List ℕ) (sz : ℕ)
    → IsValid r
    → r.size - fill r < sz
    → rb_write r src sz ≡ ok (0, r)
unfolding rb_write
rb_write-full {r} src sz v h = ground (arith, rb_remain_lem v)

module _ (r : RingBuffer) (src : List ℕ) (sz : ℕ) where
  -- What fits before the end of the block.
  abbrev first : ℕ
  first = min sz (r.size - r.write_pos % r.size)

  abbrev block : List ℕ
  block = copied (copied r.buf (r.write_pos % r.size) src 0 first) 0 src first (sz - first)

  abbrev pub written : RingBuffer
  written = record r { buf = block; write_pos = add32 r.write_pos sz }

module _ {r : RingBuffer} (src : List ℕ) (sz : ℕ) (v : IsValid r) (given : sz ≤ length src)
    (room : sz + fill r ≤ r.size) where
  in_block : r.write_pos % r.size < r.size
  in_block = mod-lt r.write_pos (omega (arith, v.shape.lower))

  first_fits :
      (r.write_pos % r.size + first r src sz ≤ length r.buf) × (sz - first r src sz ≤ length r.buf)
  first_fits = omega (arith, in_block, v.block)

  pub rb_write-written : rb_write r src sz ≡ ok (sz, written r src sz)
  unfolding rb_write
  rb_write-written = ground (
    arith,
    rb_remain_lem v,
    index_lem v r.write_pos,
    in_block,
    v.shape,
    memcpy-eq_some r.buf (r.write_pos % r.size) src 0 (first r src sz),
    length-copied r.buf (r.write_pos % r.size) src 0 (first r src sz),
    memcpy-eq_some (copied r.buf (r.write_pos % r.size) src 0 (first r src sz)) 0 src
        (first r src sz) (sz - first r src sz),
  )

  fill-written : fill (written r src sz) ≡ fill r + sz
  fill-written = omega (arith, v.shape.upper, v.write_fits, v.read_fits)

  length-block : length (block r src sz) ≡ r.size
  length-block = ground (
    arith,
    first_fits,
    v.block,
    length-copied r.buf (r.write_pos % r.size) src 0 (first r src sz),
    length-copied (copied r.buf (r.write_pos % r.size) src 0 (first r src sz)) 0 src
        (first r src sz) (sz - first r src sz),
  )

  written-IsValid : IsValid (written r src sz)
  written-IsValid = record {
    shape = v.shape;
    block = length-block;
    write_fits = omega arith;
    read_fits = v.read_fits;
    fill_fits = omega (arith, fill-written);
  }

  byte_at-written_old : (i : ℕ) → i < fill r → byte_at (written r src sz) i ≡ byte_at r i
  byte_at-written_old i h = ground (
    arith,
    in_block,
    place v i,
    place v (fill r),
    write_place v,
    length-copied r.buf (r.write_pos % r.size) src 0 (first r src sz),
    get_or-copied 0 r.buf (r.write_pos % r.size) src 0 (first r src sz) ((r.read_pos + i) % r.size),
    get_or-copied 0 (copied r.buf (r.write_pos % r.size) src 0 (first r src sz)) 0 src
        (first r src sz) (sz - first r src sz) ((r.read_pos + i) % r.size),
    mod-lt (r.read_pos + i) {m = r.size},
    mod-lt r.read_pos {m = r.size},
  )

  byte_at-written_new : (i : ℕ) → i < sz → byte_at (written r src sz) (fill r + i) ≡ get_or src i 0
  byte_at-written_new i h = ground (
    arith,
    in_block,
    place v (fill r + i),
    place v (fill r),
    write_place v,
    length-copied r.buf (r.write_pos % r.size) src 0 (first r src sz),
    get_or-copied 0 r.buf (r.write_pos % r.size) src 0 (first r src sz)
        ((r.read_pos + (fill r + i)) % r.size),
    get_or-copied 0 (copied r.buf (r.write_pos % r.size) src 0 (first r src sz)) 0 src
        (first r src sz) (sz - first r src sz) ((r.read_pos + (fill r + i)) % r.size),
    mod-lt r.read_pos {m = r.size},
  )

  -- Byte `i` of the new queue.
  get_or-written :
      (i : ℕ)
      → i < fill r + sz
      → byte_at (written r src sz) i ≡ get_or (contents r ++ take sz src) i 0
  get_or-written i h = ground (
    arith,
    get_or-append 0 (contents r) (take sz src) i,
    length-tabulate (byte_at r) (fill r),
    get_or-tabulate 0 (byte_at r) (fill r) i,
    get_or-take 0 sz src (i - fill r),
    byte_at-written_old i,
    byte_at-written_new (i - fill r),
  )

  contents-written : contents (written r src sz) ≡ contents r ++ take sz src
  contents-written =
      tabulate-eq 0 (byte_at (written r src sz)) (fill (written r src sz))
        (contents r ++ take sz src)
        (omega (
          arith,
          fill-written,
          length-append (contents r) (take sz src),
          length-tabulate (byte_at r) (fill r),
          length-take sz src,
        ))
        λ i h. get_or-written i (omega (arith, fill-written))

-- On a valid ring, for `sz` bytes of the caller's object, `rb_write` does to the bytes held what `Queue.write` does to a bounded queue: it appends the `sz`
-- bytes given if all fit and returns `sz`, else it returns 0 and leaves them; the ring stays valid.
pub rb_write-refines :
    {r : RingBuffer} (src : List ℕ) (sz : ℕ)
    → IsValid r
    → sz ≤ length src
    → Returns
        (λ (n, r'). IsValid r' × ((n, contents r') ≡ Queue.write r.size (contents r) (take sz src)))
        (rb_write r src sz)
unfolding Queue.write
rb_write-refines {r} src sz v given = elim (dec_lt (r.size - fill r) sz) [
  | yes full ↦
      rw (rb_write-full src sz v full)
        (returns (v, ground (arith, length-contents r, length-take sz src, v.fill_fits)))
  | no room ↦
      let fits : sz + fill r ≤ r.size = omega (arith, v.fill_fits) in
      rw (rb_write-written src sz v given fits) (
        returns (
          written-IsValid src sz v given fits,
          rw (contents-written src sz v given fits)
              (ground (arith, length-contents r, length-take sz src)),
        ))
]

-- A whole list that fits is appended.
pub rb_write-append :
    {r : RingBuffer} (bytes : List ℕ) (sz : ℕ)
    → IsValid r
    → sz ≡ length bytes
    → length bytes + fill r ≤ r.size
    → Returns
        (λ (n, r'). IsValid r' × (contents r' ≡ contents r ++ bytes) × (r'.size ≡ r.size))
        (rb_write r bytes sz)
rb_write-append {r} bytes sz v e room =
    let given : sz ≤ length bytes = omega arith in
    let fits : sz + fill r ≤ r.size = omega arith in
    rw (rb_write-written bytes sz v given fits) (
      returns (
        written-IsValid bytes sz v given fits,
        contents-written bytes sz v given fits
            ∙ ap (λ t. contents r ++ t) (take-length sz bytes (omega arith)),
        refl,
      ))
