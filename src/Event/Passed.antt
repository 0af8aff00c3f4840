-- ===== src/Event/Passed.antt =====
-- One write of bytes that lie in a row in the ring, and what the connection has passed on by it.
use native.Mathlib.Decide.{dec_lt}
use middleware_development_d.Prelude.{
  ℕ, ◌+◌, ◌-◌, ◌%◌, ◌≤◌, ◌<◌, ◌≡◌, refl, ap, ◌∙◌, true, false, List, ◌++◌, append_assoc, append-nil,
  sym, min, [], ◌∷◌, take-add, drop-add, arith, length, take, drop, length-take, length-drop,
  get_or-take, get_or-drop, take-take, eq_of_get_or, get_or-tabulate, leb, ℤ, pos, int_less, Run,
  Returns, returns, Returns-weaken,
}
use middleware_development_d.RingBuf.{RingBuffer}
use middleware_development_d.RingBuf.Inv.{
  IsValid, fill, byte_at, contents, length-contents, index_lem, place,
}
use middleware_development_d.RingBuf.Consume.{
  consume, consume-IsValid, contents-consume, fill-consume,
}
use middleware_development_d.Event.{Conn, Event, Action}
use middleware_development_d.Event.Socket.{
  WriteAnswer, write_run, advance, after_write, put_outward, falls_short,
}
use middleware_development_d.Event.Answers.{Alive, calls, rooms, write_socket_-Sends}

module _ {r : RingBuffer} (v : IsValid r) (n : ℕ) (held : n ≤ fill r)
    (flat : r.read_pos % r.size + n ≤ r.size) where
  -- The oldest bytes lie in a row up to the end of the block.
  take-contents : take n (drop (r.read_pos % r.size) r.buf) ≡ take n (contents r)
  take-contents =
      eq_of_get_or 0 (take n (drop (r.read_pos % r.size) r.buf)) (take n (contents r))
        (omega (
          arith,
          length-take n (drop (r.read_pos % r.size) r.buf),
          length-drop (r.read_pos % r.size) r.buf,
          length-take n (contents r),
          length-contents r,
          v.block,
        ))
        λ i h. ground (
          arith,
          length-take n (drop (r.read_pos % r.size) r.buf),
          get_or-take 0 n (drop (r.read_pos % r.size) r.buf) i,
          get_or-drop 0 (r.read_pos % r.size) r.buf i,
          get_or-take 0 n (contents r) i,
          get_or-tabulate 0 (byte_at r) (fill r) i,
          place v i,
        )

-- `m` bytes of the ring are sent, and the ring moves on.
abbrev pub moved : Conn → ℕ → Conn
moved c m =
    put_outward (record c { sent = c.sent ++ take m (contents c.event.outward) })
      (consume m c.event.outward)

-- The peer's kernel has taken the first `m` bytes of the ring, which has the others; `asked` was asked
-- meanwhile, and nothing else is different.
pub record Passed (c : Conn) (m : ℕ) (asked : List Action) (c' : Conn) : Type 0 where
  pub valid : IsValid c'.event.outward
  pub most : m ≤ fill c.event.outward
  pub left : fill c'.event.outward ≡ fill c.event.outward - m
  pub sent : c'.sent ≡ c.sent ++ take m (contents c.event.outward)
  pub held : contents c'.event.outward ≡ drop m (contents c.event.outward)
  pub ring_kept : c'.event.outward ≡ record c.event.outward { read_pos = c'.event.outward.read_pos }
  pub rest_kept : c'.event ≡ record c.event { outward = c'.event.outward }
  pub log : c'.log ≡ c.log ++ asked

pub Passed-trans :
    {a b c : Conn} {m n : ℕ} {asked : List Action}
    → Passed a m [] b
    → Passed b n asked c
    → Passed a (m + n) asked c
Passed-trans {a} {b} {c} {m} {n} {asked} p q = record {
  valid = q.valid;
  most = omega (arith, p.most, p.left, q.most);
  left = omega (arith, p.left, q.left);
  sent =
      q.sent
      ∙ ap (λ t. t ++ take n (contents b.event.outward)) p.sent
      ∙ append_assoc a.sent (take m (contents a.event.outward)) (take n (contents b.event.outward))
      ∙ ap (λ t. a.sent ++ (take m (contents a.event.outward) ++ take n t)) p.held
      ∙ ap (λ t. a.sent ++ t) (sym (take-add m n (contents a.event.outward)));
  held = q.held ∙ ap (λ t. drop n t) p.held ∙ sym (drop-add m n (contents a.event.outward));
  ring_kept =
      q.ring_kept
      ∙ ap {A = RingBuffer} (λ r. record r { read_pos = c.event.outward.read_pos }) p.ring_kept;
  rest_kept =
      q.rest_kept ∙ ap {A = Event} (λ e. record e { outward = c.event.outward }) p.rest_kept;
  log = q.log ∙ ap (λ l. l ++ asked) (p.log ∙ append-nil a.log);
}

-- The outcome of a write of `n` bytes of the ring with these answers.
abbrev pub Ran : Conn → ℕ → List WriteAnswer → ℤ × Conn × List WriteAnswer → Type 0
Ran c n ws (i, c', rest) =
    (m : ℕ) × (i ≡ pos m)
    × (m ≤ n)
    × (advance (pos m) c' ≡ moved c m)
    × Alive rest
    × (calls ws ≤ calls rest + 1)
    × (k : ℕ) × (rooms ws ≡ k ∷ rooms rest)
    × (m ≡ min k n)

module _ (c : Conn) (v : IsValid c.event.outward) (n : ℕ) (held : n ≤ fill c.event.outward) where
  pub moved-Passed : (m : ℕ) → m ≤ n → Passed c m [] (moved c m)
  moved-Passed m h = record {
    valid = consume-IsValid m v (omega arith);
    most = omega arith;
    left = fill-consume m v (omega arith);
    sent = refl;
    held = contents-consume m v (omega arith);
    ring_kept = refl;
    rest_kept = refl;
    log = sym (append-nil c.log);
  }

  pub write_run-Ran :
      (ws : List WriteAnswer)
      → c.event.outward.read_pos % c.event.outward.size + n ≤ c.event.outward.size
      → Alive ws
      → 1 ≤ calls ws
      → Returns (Ran c n ws) (write_run ws c n)
  unfolding write_run advance
  write_run-Ran ws flat alive busy_h =
      let r = c.event.outward in
      let row = take n (drop (r.read_pos % r.size) r.buf) in
      let fits : leb (r.read_pos % r.size + n) (length r.buf) ≡ true = ground (arith, v.block) in
      rw (index_lem v r.read_pos, fits)
        (Returns-weaken (write_socket_-Sends ws c row alive busy_h)
          λ (i, c', rest) (m, a, b, e, d, f, k, g, h).
            let small : m ≤ n = omega (arith, length-take n (drop (r.read_pos % r.size) r.buf)) in
            let taken : take m row ≡ take m (contents r) =
              ap (λ t. take m t) (take-contents v n held flat) ∙ take-take m n (contents r) small in
            (
              m,
              a,
              small,
              ap (λ t. advance (pos m) t) (e ∙ ap (λ t. record c { sent = c.sent ++ t }) taken),
              d,
              f,
              k,
              g,
              omega (
                arith,
                h,
                length-take n (drop (r.read_pos % r.size) r.buf),
                length-drop (r.read_pos % r.size) r.buf,
                v.block,
              ),
            ))

-- What `after_write` makes of such an outcome: the ring has moved on, and all `n` bytes are sent
-- where it goes on.
pub after_write-Returns :
    {Q : ℤ × Conn → Type 0} (c c' : Conn) (n m : ℕ) {i : ℤ} (more : Conn → Run (ℤ × Conn))
    → i ≡ pos m
    → m ≤ n
    → 0 < n
    → advance (pos m) c' ≡ moved c m
    → (m < n → Q (pos 0, moved c m))
    → (m ≡ n → Returns Q (more (moved c m)))
    → Returns Q (after_write i n c' more)
unfolding after_write
after_write-Returns c c' n m more e small busy_h at short full = elim (dec_lt m n) [
  | yes p ↦
      let stop : falls_short (pos m) n ≡ true = ground arith in rw (e, stop, at) (returns (short p))
  | no p ↦
      let go : falls_short (pos m) n ≡ false = ground arith in
      let nonneg : int_less (pos m) (pos 0) ≡ false = ground arith in
      rw (e, go, nonneg, at) (full (omega arith))
]
