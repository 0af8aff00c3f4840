-- ===== src/RingBuf/Lines.antt =====
-- `rb_readline` on a ring that holds a whole line, and on one that does not.
use native.Mathlib.Decide.{dec_lt}
use middleware_development_d.Prelude.{
  ℕ, ◌+◌, ◌-◌, ◌≤◌, ◌<◌, ◌≡◌, ◌≢◌, refl, ap, sym, ◌∙◌, List, ◌++◌, [], ◌∷◌, max, arith, length,
  get_or, take, drop, drop-append, append_assoc, length-take, length-drop, get_or-drop, get_or-take,
  length-append, get_or-append, eq_of_get_or, get_or-tabulate, inl, inr, ok, fault, true, false,
  ◌==◌, if◌then◌else◌, Returns, returns, Returns-weaken,
}
use middleware_development_d.RingBuf.{
  RingBuffer, newline, rb_len, rb_isempty, readline_loop, rb_readline,
}
use middleware_development_d.RingBuf.Inv.{IsValid, fill, byte_at, contents, length-contents}
use middleware_development_d.RingBuf.Consume.{
  consume-IsValid, contents-consume, fill-consume_past, not-IsValid_of_past,
}
use middleware_development_d.RingBuf.Line.{
  Free, Stored, Overwritten, loop_hit, loop_overrun, loop_none,
}

-- No newline in a list of bytes.
abbrev pub OneLine : List ℕ → Type 0
OneLine line = (k : ℕ) → k < length line → get_or line k 0 ≢ newline

get_or-cons_zero : (k x : ℕ) (xs : List ℕ) → k ≡ 0 → get_or (x ∷ xs) k 0 ≡ x
get_or-cons_zero k x xs e = rw e

-- A ring that is not empty enters the loop.
rb_readline-readline_loop :
    {r : RingBuffer} (out : List ℕ) (sz : ℕ)
    → IsValid r
    → 0 < fill r
    → rb_readline r out sz ≡ readline_loop (fill r + sz + 2) r out sz 0
unfolding rb_readline rb_isempty rb_len
rb_readline-readline_loop {r} out sz v h = ground arith

rb_readline-empty :
    {r : RingBuffer} (out : List ℕ) (sz : ℕ)
    → IsValid r
    → fill r ≡ 0
    → rb_readline r out sz ≡ ok (0, r, out)
unfolding rb_readline rb_isempty
rb_readline-empty out sz v h = ground arith

byte_at-contents : (r : RingBuffer) (k : ℕ) → k < fill r → byte_at r k ≡ get_or (contents r) k 0
byte_at-contents r k h = sym (get_or-tabulate 0 (byte_at r) (fill r) k h)

-- `rb_readline` on a ring whose first line is complete and fits the caller's object, for any `sz`:
-- it returns the line's length with the newline, stores the line and its newline at the start of
-- the object and nothing behind them, and leaves a valid ring with the bytes behind the line.
pub rb_readline-line :
    {r : RingBuffer} (line rest out : List ℕ) (sz : ℕ)
    → IsValid r
    → contents r ≡ line ++ newline ∷ rest
    → OneLine line
    → length line < length out
    → Returns
        (λ (n, r', out').
          (n ≡ length line + 1)
          × IsValid r'
          × (contents r' ≡ rest)
          × (take n out' ≡ line ++ newline ∷ [])
          × (drop n out' ≡ drop n out))
        (rb_readline r out sz)
rb_readline-line {r} line rest out sz v e one room =
    rw (rb_readline-readline_loop out sz v (omega (arith, held))) (
      Returns-weaken
        (loop_hit v sz (fill r + sz + 2) 0 (length line) out (omega arith) (omega (arith, held))
          (λ k a b. rw (front k (omega arith)) (at_line k b))
          (front (length line) (omega arith) ∙ at_newline) (inl (omega (arith, held))) room)
        λ (n, r', out') (a, b, c). (
          a,
          rw b (consume-IsValid (length line + 1) v (omega (arith, held))),
          rw b (contents-consume (length line + 1) v (omega (arith, held)) ∙ behind),
          rw a (stored out' c),
          rw a (kept out' c),
        ))
  where
    held : fill r ≡ length line + 1 + length rest
    held =
        omega (arith, length-contents r, ap (λ l. length l) e, length-append line (newline ∷ rest))

    front : (k : ℕ) → k < length line + 1 → byte_at r k ≡ get_or (line ++ newline ∷ []) k 0
    front k l = ground (
      arith,
      held,
      byte_at-contents r k,
      ap (λ t. get_or t k 0) e,
      get_or-append 0 line (newline ∷ rest) k,
      get_or-append 0 line (newline ∷ []) k,
      get_or-cons_zero (k - length line) newline rest,
    )

    at_line : (k : ℕ) → k < length line → get_or (line ++ newline ∷ []) k 0 ≢ newline
    at_line k l = ground (arith, get_or-append 0 line (newline ∷ []) k, one k)

    at_newline : get_or (line ++ newline ∷ []) (length line) 0 ≡ newline
    at_newline = ground (
      arith,
      get_or-append 0 line (newline ∷ []) (length line),
      get_or-cons_zero (length line - length line) newline [],
    )

    behind : drop (length line + 1) (contents r) ≡ rest
    behind =
        ap (λ t. drop (length line + 1) t) (e ∙ sym (append_assoc line (newline ∷ []) rest))
        ∙ ap (λ k. drop k ((line ++ newline ∷ []) ++ rest))
            (sym (length-append line (newline ∷ [])))
        ∙ drop-append (line ++ newline ∷ []) rest

    kept :
        (out' : List ℕ)
        → Stored r out 0 (length line) out'
        → drop (length line + 1) out' ≡ drop (length line + 1) out
    kept out' c =
        eq_of_get_or 0 (drop (length line + 1) out') (drop (length line + 1) out)
          (omega (
            arith,
            length-drop (length line + 1) out',
            length-drop (length line + 1) out,
            c.same_length,
          ))
          λ k h. ground (
            arith,
            get_or-drop 0 (length line + 1) out' k,
            get_or-drop 0 (length line + 1) out k,
            c.bytes (length line + 1 + k),
          )

    stored :
        (out' : List ℕ)
        → Stored r out 0 (length line) out'
        → take (length line + 1) out' ≡ line ++ newline ∷ []
    stored out' c =
        eq_of_get_or 0 (take (length line + 1) out') (line ++ newline ∷ [])
          (omega (
            arith,
            length-take (length line + 1) out',
            c.same_length,
            length-append line (newline ∷ []),
          ))
          λ k l. ground (
            arith,
            length-take (length line + 1) out',
            get_or-take 0 (length line + 1) out' k,
            c.bytes k,
            front k,
          )

-- A ring without a newline among the bytes held: when the block has an old newline behind them, at a
-- place up to `sz` from the front, `rb_readline` returns more bytes than the ring held, and the
-- length of the ring it leaves has wrapped round to nearly 2^32.
pub rb_readline-stale :
    {r : RingBuffer} (out : List ℕ) (sz j : ℕ)
    → IsValid r
    → 0 < fill r
    → fill r ≤ j
    → j ≤ sz
    → j < r.size
    → j < length out
    → Free r 0 j
    → byte_at r j ≡ newline
    → Returns
        (λ (n, r', out'). (fill r < n) × (rb_len r' ≡ 4294967296 - (n - fill r)) × ¬ IsValid r')
        (rb_readline r out sz)
unfolding rb_len
rb_readline-stale {r} out sz j v busy_h past within inside room free hit =
    rw (rb_readline-readline_loop out sz v busy_h) (
      Returns-weaken
        (loop_hit v sz (fill r + sz + 2) 0 j out (omega arith) (omega arith) free hit (inr within)
          room)
        λ (n, r', out') (a, b, c). (
          omega arith,
          rw b (
              fill-consume_past (j + 1) v (omega arith) (omega arith)
              ∙ ap (λ k. 4294967296 - (k - fill r)) (sym a)),
          rw b (not-IsValid_of_past (j + 1) v busy_h (omega arith) (omega arith)),
        ))

-- With no newline in the first bytes, as many as the caller's object is long, and `sz` at least its
-- length, `rb_readline` writes past the end of that object.
pub rb_readline-overrun :
    {r : RingBuffer} (out : List ℕ) (sz : ℕ)
    → IsValid r
    → 0 < fill r
    → length out ≤ sz
    → Free r 0 (length out)
    → rb_readline r out sz ≡ fault
rb_readline-overrun {r} out sz v busy_h past free =
    rb_readline-readline_loop out sz v busy_h
    ∙ loop_overrun v sz (fill r + sz + 2) 0 out (omega arith) (omega arith) free (inr past)

-- With no newline among the bytes held nor at the places up to `sz`, and an object long enough for
-- all of these, `rb_readline` returns 0 and leaves the ring as it was. With an empty ring it leaves
-- the caller's object alone too; else it has put the bytes of all these places, held or stale, at the start
-- of the object, and nothing behind them.
pub rb_readline-none :
    {r : RingBuffer} (out : List ℕ) (sz : ℕ)
    → IsValid r
    → max (fill r) (sz + 1) ≤ length out
    → Free r 0 (max (fill r) (sz + 1))
    → Returns
        (λ (n, r', out').
          (n ≡ 0)
          × (r' ≡ r)
          × Overwritten r out 0 (if fill r == 0 then 0 else max (fill r) (sz + 1)) out')
        (rb_readline r out sz)
rb_readline-none {r} out sz v room free = elim (dec_lt 0 (fill r)) [
  | yes busy_h ↦
      let full : (fill r == 0) ≡ false = ground arith in
      rw (rb_readline-readline_loop out sz v busy_h, full)
        (loop_none v sz (fill r + sz + 2) 0 out (omega arith) (omega arith) room free)
  | no idle_h ↦
      let none_held : (fill r == 0) ≡ true = ground arith in
      rw (rb_readline-empty out sz v (omega arith), none_held)
        (returns (refl, refl, record { same_length = refl; bytes = λ k. ground arith }))
]
