-- ===== src/Event/Flush.antt =====
-- What `flush_socket` does to the bytes that wait to be sent.
use mathlib.Core.Path.{subst}
use native.Mathlib.Decide.{dec_lt, dec_le}
use native.Mathlib.Nat.{mod-lt}
use middleware_development_d.Prelude.{
  ℕ, ◌+◌, ◌-◌, ◌%◌, ◌≤◌, ◌<◌, ◌≡◌, refl, ap, sym, ◌∙◌, [], ◌∷◌, min, Bool, ltb, ◌&&◌, if◌then◌else◌,
  true, false, List, append-nil, arith, leb, lt→ltb, step-mod, ◌==◌, ℤ, pos, ◌>>=◌, Returns-eq_ok,
  Returns, returns, Returns-weaken,
}
use middleware_development_d.RingBuf.{RingBuffer, rb_isempty, rb_len}
use middleware_development_d.RingBuf.Inv.{IsValid, fill, index_lem}
use middleware_development_d.RingBuf.Consume.{consume}
use middleware_development_d.Event.{Conn, ctl_mod, enable_event}
use middleware_development_d.Event.Socket.{
  WriteAnswer, write_run, after_write, flushed, flush_wrapped, flush_socket, read_edge_dis,
}
use middleware_development_d.Event.Answers.{Alive, calls, rooms}
use middleware_development_d.Event.Runs.{
  delivered, delivered-zero, delivered-cons, delivered_part, delivered_on,
}
use middleware_development_d.Event.Passed.{
  moved, Passed, Passed-trans, moved-Passed, write_run-Ran, after_write-Returns,
}

-- The bytes up to the block's end, and those from its start on.
abbrev pub runs : RingBuffer → List ℕ
runs r = let dis = r.size - r.read_pos % r.size in min (fill r) dis ∷ (fill r - dis) ∷ []

-- There were bytes, and all were taken.
abbrev pub emptied : RingBuffer → ℕ → Bool
emptied r m = ltb 0 (fill r) && m == fill r

-- What `flush_socket` promises when the kernel takes `m` bytes: its return value, what it asks of epoll,
-- and the connection it leaves.
pub record Flushed (c : Conn) (m : ℕ) (out : ℤ × Conn) : Type 0 where
  pub passed :
      Passed c m (if emptied c.event.outward m then ctl_mod c.event.fd 1 ∷ [] else []) out.1
  pub returned : out.0 ≡ (if emptied c.event.outward m then pos 1 else pos 0)

flushed-Flushed :
    (c : Conn) (m : ℕ)
    → Passed c m [] (moved c m)
    → 0 < m
    → m ≡ fill c.event.outward
    → Returns (Flushed c m) (flushed (moved c m))
unfolding flushed enable_event
flushed-Flushed c m p some_h all =
    let yes_h : emptied c.event.outward m ≡ true = ground arith in
    returns (record {
      passed = rw yes_h (record {
        valid = p.valid;
        most = p.most;
        left = p.left;
        sent = p.sent;
        held = p.held;
        ring_kept = p.ring_kept;
        rest_kept = p.rest_kept;
        log = refl;
      });
      returned = rw yes_h refl;
    })

short-Flushed :
    (c : Conn) (m : ℕ) (c' : Conn)
    → Passed c m [] c'
    → emptied c.event.outward m ≡ false
    → Flushed c m (pos 0, c')
short-Flushed c m c' p e = record { passed = rw e p; returned = rw e refl }

Flushed-trans :
    (a b : Conn) {m n : ℕ} {out : ℤ × Conn}
    → Passed a m [] b
    → 0 < fill b.event.outward
    → Flushed b n out
    → Flushed a (m + n) out
Flushed-trans a b {m} {n} {out} p more q =
    let same : emptied a.event.outward (m + n) ≡ emptied b.event.outward n =
      ground (arith, p.left, p.most) in
    let fd : b.event.fd ≡ a.event.fd = ap (λ e. e.fd) p.rest_kept in
    record {
      passed = Passed-trans p (rw (same, sym fd) q.passed);
      returned = q.returned ∙ rw same refl;
    }

module _ (c : Conn) (v : IsValid c.event.outward) (ws : List WriteAnswer) (alive : Alive ws) where
  -- One write of all that is held, when it lies in a row.
  flush_row :
      (n : ℕ)
      → n ≡ fill c.event.outward
      → 0 < n
      → c.event.outward.read_pos % c.event.outward.size + n ≤ c.event.outward.size
      → 1 ≤ calls ws
      → Returns
          (Flushed c (delivered (n ∷ []) (rooms ws)))
          (write_run ws c n >>= λ (i, c', rest). after_write i n c' flushed)
  flush_row n e busy_h flat enough =
      let (a, eq, (m, r₀, r₁, r₂, r₃, r₄, k, r₅, r₆)) =
        Returns-eq_ok (write_run-Ran c v n (omega arith) ws flat alive enough) in
      let taken : delivered (n ∷ []) (rooms ws) ≡ m = rw r₅ (ground (arith, r₆)) in
      let passed : Passed c m [] (moved c m) = moved-Passed c v n (omega arith) m r₁ in
      rw (eq, taken)
        (after_write-Returns c a.1 n m flushed r₀ r₁ busy_h r₂
          (λ less. short-Flushed c m (moved c m) passed (ground (arith, less, e)))
          λ all. flushed-Flushed c m passed (omega arith) (omega arith))

-- The second write starts at the block's first byte.
wrapped_start :
    (r : RingBuffer) (v : IsValid r)
    → let dis : ℕ = r.size - r.read_pos % r.size in (consume dis r).read_pos % r.size ≡ 0
wrapped_start r v =
    let dis : ℕ = r.size - r.read_pos % r.size in
    ground (
      arith,
      v.shape.wrap (r.read_pos + dis),
      v.shape.lower,
      mod-lt r.read_pos {m = r.size},
      step-mod r.read_pos dis r.size,
    )

flush_wrapped-Flushed :
    (c : Conn) (ws : List WriteAnswer) (n : ℕ)
    → IsValid c.event.outward
    → Alive ws
    → 1 ≤ calls ws
    → n ≡ fill c.event.outward
    → 0 < n
    → c.event.outward.read_pos % c.event.outward.size ≡ 0
    → Returns (Flushed c (delivered (n ∷ []) (rooms ws))) (flush_wrapped ws n c)
unfolding flush_wrapped
flush_wrapped-Flushed c ws n v alive enough e busy_h start =
    rw (lt→ltb 0 n busy_h) (flush_row c v ws alive n e busy_h (omega (arith, v.fill_fits)) enough)

-- `flush_socket` on a valid ring, when the kernel ends no connection and gives two answers besides
-- interruptions: it offers the bytes up to the block's end, and if all of these are taken those from its
-- start on. The bytes that the kernel has room for are sent, in order and behind those sent before; the
-- ring stays valid and has the others, in the same block. The result is 1, and epoll is asked to watch
-- for reading only, if there were bytes and none is left; else it is 0, and nothing is asked. Nothing
-- else changes.
pub flush_socket-Flushed :
    (c : Conn) (ws : List WriteAnswer)
    → IsValid c.event.outward
    → Alive ws
    → 2 ≤ calls ws
    → Returns (Flushed c (delivered (runs c.event.outward) (rooms ws))) (flush_socket ws c)
unfolding flush_socket rb_isempty rb_len
flush_socket-Flushed c ws v alive enough = elim (dec_lt 0 (fill r)) [
  | no idle_h ↦
      let empty : (r.read_pos == r.write_pos) ≡ true = ground (arith, v.write_fits, v.read_fits) in
      let none_held : min (fill r) dis ≡ 0 = omega arith in
      let nothing : delivered (runs r) (rooms ws) ≡ 0 =
        rw (none_held, delivered-cons 0 (fill r - dis) (rooms ws) (omega arith))
          (delivered-zero (rooms ws)) in
      rw (empty, nothing) (returns (short-Flushed c 0 c unchanged (ground arith)))
  | yes busy_h ↦
      let busy : (r.read_pos == r.write_pos) ≡ false = ground (arith, v.write_fits, v.read_fits) in
      elim (dec_le (fill r) dis) [
        | yes flat ↦
            let branch : leb (fill r) dis ≡ true = ground arith in
            let first : min (fill r) dis ≡ fill r = omega arith in
            rw
              (
                busy,
                edge,
                branch,
                first,
                delivered-cons (fill r) (fill r - dis) (rooms ws) (omega arith),
              )
              (flush_row c v ws alive (fill r) refl busy_h (omega (arith, inside)) (omega arith))
        | no beyond ↦
            let branch : leb (fill r) dis ≡ false = ground arith in
            let first : min (fill r) dis ≡ dis = omega arith in
            let held : dis ≤ fill r = omega arith in
            let (a, eq, (m, r₀, r₁, r₂, r₃, r₄, k, r₅, r₆)) =
              Returns-eq_ok
                (write_run-Ran c v dis held ws (omega (arith, inside)) alive (omega arith)) in
            let c₂ = moved c m in
            let passed : Passed c m [] c₂ = moved-Passed c v dis held m r₁ in
            let remain : ℕ = fill r - dis in
            rw (busy, edge, branch, first, eq, r₅)
              (after_write-Returns c a.1 dis m (flush_wrapped a.2 remain) r₀ r₁
                (omega (arith, inside)) r₂
                (λ less.
                  subst (λ d. Flushed c d (pos 0, c₂))
                    (sym (delivered_part dis remain k m (rooms a.2) r₆ less))
                    (short-Flushed c m c₂ passed (ground (arith, less, beyond))))
                λ all.
                  Returns-weaken
                    (flush_wrapped-Flushed c₂ a.2 remain passed.valid r₃ (omega (arith, r₄))
                      (omega (arith, passed.left)) (omega arith)
                      (ap (λ k. (consume k r).read_pos % r.size) all ∙ wrapped_start r v))
                    λ out f.
                      subst (λ d. Flushed c d out)
                        (sym (delivered_on dis remain k m (rooms a.2) r₆ all))
                        (Flushed-trans c c₂ passed (omega (arith, passed.left, all)) f))
      ]
]
  where
    r : RingBuffer
    r = c.event.outward

    dis : ℕ
    dis = r.size - r.read_pos % r.size

    inside : r.read_pos % r.size < r.size
    inside = mod-lt r.read_pos (omega (arith, v.shape.lower))

    edge : read_edge_dis r ≡ dis
    edge = ground (arith, index_lem v r.read_pos, v.shape.upper, inside)

    unchanged : Passed c 0 [] c
    unchanged = record {
      valid = v;
      most = omega arith;
      left = omega arith;
      sent = sym (append-nil c.sent);
      held = refl;
      ring_kept = refl;
      rest_kept = refl;
      log = sym (append-nil c.log);
    }
