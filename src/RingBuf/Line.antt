-- ===== src/RingBuf/Line.antt =====
-- `rb_readline`: a whole line, no line, a line made of stale bytes, a write past the caller's object.
use native.Mathlib.Decide.{ℕ_discrete}
use native.Mathlib.Nat.{mod-lt}
use middleware_development_d.Prelude.{
  ℕ, zero, suc, ◌+◌, ◌%◌, ◌≤◌, ◌<◌, ◌≡◌, ◌≢◌, refl, ap, ◌∙◌, ◌⊎◌, List, max, arith, length, get_or,
  set, length-set, get_or-set, get_elem?, get_elem?-eq-get_or, some, leb, ltb, ◌&&◌, if◌then◌else◌,
  add32, ok, fault, Returns, returns, Returns-weaken,
}
use middleware_development_d.RingBuf.{RingBuffer, newline, index, rb_len, readline_loop}
use middleware_development_d.RingBuf.Inv.{IsValid, fill, byte_at, index_lem}
use middleware_development_d.RingBuf.Consume.{consume}

-- No newline among the bytes from `i` up to `j`, whether they are held or stale.
abbrev pub Free : RingBuffer → ℕ → ℕ → Type 0
Free r i j = (k : ℕ) → i ≤ k → k < j → byte_at r k ≢ newline

-- The test of the loop at `i`.
abbrev pub Goes : RingBuffer → ℕ → ℕ → Type 0
Goes r sz i = (i < fill r) ⊎ (i ≤ sz)

module _ {r : RingBuffer} (v : IsValid r) (sz : ℕ) where
  byte_read : (i : ℕ) → get_elem? r.buf (index r (add32 r.read_pos i)) ≡ some (byte_at r i)
  byte_read i =
      rw (index_lem v (add32 r.read_pos i), v.shape.wrap (r.read_pos + i))
        (get_elem?-eq-get_or 0 r.buf ((r.read_pos + i) % r.size)
          (rw v.block (mod-lt (r.read_pos + i) (omega (arith, v.shape.lower)))))

  step_on :
      (f : ℕ) (out : List ℕ) (i : ℕ)
      → Goes r sz i
      → i < length out
      → byte_at r i ≢ newline
      → readline_loop (suc f) r out sz i ≡ readline_loop f r (set out i (byte_at r i)) sz (i + 1)
  unfolding readline_loop rb_len
  step_on f out i goes room h = ground (arith, byte_read i)

  step_hit :
      (f : ℕ) (out : List ℕ) (i : ℕ)
      → Goes r sz i
      → i < length out
      → byte_at r i ≡ newline
      → readline_loop (suc f) r out sz i ≡ ok (i + 1, consume (i + 1) r, set out i (byte_at r i))
  unfolding readline_loop rb_len
  step_hit f out i goes room h = ground (arith, byte_read i)

  step_overrun :
      (f : ℕ) (out : List ℕ) (i : ℕ)
      → Goes r sz i
      → length out ≤ i
      → readline_loop (suc f) r out sz i ≡ fault
  unfolding readline_loop rb_len
  step_overrun f out i goes room = ground (arith, byte_read i)

  step_end :
      (f : ℕ) (out : List ℕ) (i : ℕ)
      → fill r ≤ i
      → sz < i
      → readline_loop (suc f) r out sz i ≡ ok (0, r, out)
  unfolding readline_loop rb_len
  step_end f out i a b = ground arith

-- `out'` is `out` with the bytes `i` to `j` of the ring stored at their places.
pub record Stored (r : RingBuffer) (out : List ℕ) (i j : ℕ) (out' : List ℕ) : Type 0 where
  pub same_length : length out' ≡ length out
  pub bytes :
      (k : ℕ) → get_or out' k 0 ≡ (if leb i k && leb k j then byte_at r k else get_or out k 0)

-- `out'` is `out` with the bytes of the ring from `i` up to `j` stored at their places.
pub record Overwritten (r : RingBuffer) (out : List ℕ) (i j : ℕ) (out' : List ℕ) : Type 0 where
  pub same_length : length out' ≡ length out
  pub bytes :
      (k : ℕ) → get_or out' k 0 ≡ (if leb i k && ltb k j then byte_at r k else get_or out k 0)

module _ {r : RingBuffer} (v : IsValid r) (sz : ℕ) where
  -- The loop stops behind the first newline that its test lets it reach.
  pub loop_hit :
      (f i j : ℕ) (out : List ℕ)
      → i ≤ j
      → j < i + f
      → Free r i j
      → byte_at r j ≡ newline
      → Goes r sz j
      → j < length out
      → Returns
          (λ (n, r', out'). (n ≡ j + 1) × (r' ≡ consume (j + 1) r) × Stored r out i j out')
          (readline_loop f r out sz i)
  loop_hit zero i j out le fuel free hit goes room = absurd (omega arith)
  loop_hit (suc f) i j out le fuel free hit goes room = elim (ℕ_discrete i j) [
    | yes e ↦
        let e' : j ≡ i = omega arith in
        rw (step_hit v sz f out i (ground arith) (omega arith) (rw e hit)) (
          returns (
            ap (λ k. k + 1) e,
            ap (λ k. consume (k + 1) r) e,
            record {
              same_length = length-set out i (byte_at r i);
              bytes =
                  λ k. ground (arith, get_or-set 0 out i (byte_at r i) k, ap (λ k. byte_at r k) e);
            },
          ))
    | no ne ↦
        rw (step_on v sz f out i (ground arith) (omega arith) (free i (omega arith) (omega arith)))
          (Returns-weaken
            (loop_hit f (i + 1) j (set out i (byte_at r i)) (omega arith) (omega arith)
              (λ k a b. free k (omega arith) b) hit goes
              (omega (arith, length-set out i (byte_at r i))))
            λ (n, r', out') (a, b, c). (
              a,
              b,
              record {
                same_length = c.same_length ∙ length-set out i (byte_at r i);
                bytes = λ k. ground (arith, c.bytes k, get_or-set 0 out i (byte_at r i) k);
              },
            ))
  ]

  -- With no newline up to the end of the caller's object, the loop writes past it.
  pub loop_overrun :
      (f i : ℕ) (out : List ℕ)
      → i ≤ length out
      → length out < i + f
      → Free r i (length out)
      → Goes r sz (length out)
      → readline_loop f r out sz i ≡ fault
  loop_overrun zero i out le fuel free goes = absurd (omega arith)
  loop_overrun (suc f) i out le fuel free goes = elim (ℕ_discrete i (length out)) [
    | yes e ↦ step_overrun v sz f out i (ground arith) (omega arith)
    | no ne ↦
        let same : length (set out i (byte_at r i)) ≡ length out = length-set out i (byte_at r i) in
        step_on v sz f out i (ground arith) (omega arith) (free i (omega arith) (omega arith))
        ∙ loop_overrun f (i + 1) (set out i (byte_at r i)) (omega arith) (omega arith)
            (λ k a b. free k (omega arith) (omega arith)) (ground arith)
  ]

  -- With no newline where the loop looks, and room for what it copies, it ends with 0.
  pub loop_none :
      (f i : ℕ) (out : List ℕ)
      → i ≤ max (fill r) (sz + 1)
      → max (fill r) (sz + 1) < i + f
      → max (fill r) (sz + 1) ≤ length out
      → Free r i (max (fill r) (sz + 1))
      → Returns
          (λ (n, r', out'). (n ≡ 0) × (r' ≡ r) × Overwritten r out i (max (fill r) (sz + 1)) out')
          (readline_loop f r out sz i)
  loop_none zero i out le fuel room free = absurd (omega arith)
  loop_none (suc f) i out le fuel room free = elim (ℕ_discrete i (max (fill r) (sz + 1))) [
    | yes e ↦
        rw (step_end v sz f out i (omega arith) (omega arith))
          (returns (refl, refl, record { same_length = refl; bytes = λ k. ground arith }))
    | no ne ↦
        rw (step_on v sz f out i (ground arith) (omega arith) (free i (omega arith) (omega arith)))
          (Returns-weaken
            (loop_none f (i + 1) (set out i (byte_at r i)) (omega arith) (omega arith)
              (omega (arith, length-set out i (byte_at r i))) (λ k a b. free k (omega arith) b))
            λ (n, r', out') (a, b, c). (
              a,
              b,
              record {
                same_length = c.same_length ∙ length-set out i (byte_at r i);
                bytes = λ k. ground (arith, c.bytes k, get_or-set 0 out i (byte_at r i) k);
              },
            ))
  ]
