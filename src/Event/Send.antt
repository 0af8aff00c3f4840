-- ===== src/Event/Send.antt =====
-- `write_socket`: bytes go to the kernel or into the ring, or are lost.
use native.Mathlib.Decide.{dec_lt}
use middleware_development_d.Prelude.{
  ℕ, ◌+◌, ◌-◌, ◌≤◌, ◌<◌, ◌≡◌, inl, inr, refl, ap, sym, ◌∙◌, true, false, Bool-cases, List, [], ◌++◌,
  append_assoc, append-nil, arith, length, take, drop, length-drop, take-length, take-append-drop,
  ◌==◌, ℤ, pos, int_less, ok, Returns-eq_ok, Returns, returns,
}
use middleware_development_d.RingBuf.{RingBuffer, rb_isempty}
use middleware_development_d.RingBuf.Inv.{IsValid, fill, contents, contents_empty}
use middleware_development_d.RingBuf.Write.{rb_write-append, rb_write-full}
use middleware_development_d.Event.{Conn, enable_event}
use middleware_development_d.Event.Socket.{WriteAnswer, write_socket, falls_short}
use middleware_development_d.Event.Answers.{Alive, calls, write_socket_-Sends}

-- All bytes given are with the peer's kernel or in the ring, behind those that were there.
pub record Accepted (c : Conn) (bytes : List ℕ) (out : ℤ × Conn) : Type 0 where
  pub valid : IsValid out.1.event.outward
  pub inward_kept : out.1.event.inward ≡ c.event.inward
  pub in_order :
      out.1.sent ++ contents out.1.event.outward ≡ (c.sent ++ contents c.event.outward) ++ bytes

-- `write_socket` on a valid ring with room for all bytes given, when the kernel ends no connection
-- and answers: no byte is lost, none is sent out of turn, the ring stays valid, and
-- the ring of what arrived stays as it was.
pub write_socket-Accepted :
    (c : Conn) (ws : List WriteAnswer) (bytes : List ℕ)
    → IsValid c.event.outward
    → Alive ws
    → 1 ≤ calls ws
    → length bytes + fill c.event.outward ≤ c.event.outward.size
    → Returns (Accepted c bytes) (write_socket ws c bytes)
unfolding write_socket rb_isempty enable_event
write_socket-Accepted c ws bytes v alive busy_h room = elim (dec_lt 0 (fill r)) [
  | yes busy ↦
      let miss : (r.read_pos == r.write_pos) ≡ false = ground (arith, v.write_fits, v.read_fits) in
      let (a, eq, w) = Returns-eq_ok (rb_write-append bytes (length bytes) v refl room) in
      rw (miss, eq)
        (returns (record {
          valid = w.0;
          inward_kept = refl;
          in_order = ap (λ t. c.sent ++ t) w.1 ∙ sym (append_assoc c.sent (contents r) bytes);
        }))
  | no idle_h ↦
      let hit : (r.read_pos == r.write_pos) ≡ true = ground (arith, v.write_fits, v.read_fits) in
      let empty : contents r ≡ [] = contents_empty r (omega arith) in
      let (a, eq, sends) = Returns-eq_ok (write_socket_-Sends ws c bytes alive busy_h) in
      let m : ℕ = sends.0 in
      let (b, eq', w) = Returns-eq_ok (
        rb_write-append (drop m bytes) (length bytes - m) v (omega (arith, length-drop m bytes))
          (omega (arith, length-drop m bytes, sends.2))) in
      elim (Bool-cases (falls_short (pos m) (length bytes))) [
        | inl short ↦
            rw (hit, eq, sends.1, short, sends.3, eq')
              (returns (record {
                valid = w.0;
                inward_kept = refl;
                in_order =
                    ap (λ t. (c.sent ++ take m bytes) ++ t)
                      (w.1 ∙ ap (λ t. t ++ drop m bytes) empty)
                    ∙ append_assoc c.sent (take m bytes) (drop m bytes)
                    ∙ ap (λ t. c.sent ++ t) (take-append-drop m bytes)
                    ∙ sym (
                        ap (λ t. (c.sent ++ t) ++ bytes) empty
                        ∙ ap (λ t. t ++ bytes) (append-nil c.sent));
              }))
        | inr all ↦
            let whole : length bytes ≤ m = ground arith in
            let nonneg : int_less (pos m) (pos 0) ≡ false = ground arith in
            rw (hit, eq, sends.1, all, nonneg, sends.3)
              (returns (record {
                valid = v;
                inward_kept = refl;
                in_order =
                    ap (λ t. (c.sent ++ t) ++ contents r) (take-length m bytes whole)
                    ∙ ap (λ t. (c.sent ++ bytes) ++ t) empty
                    ∙ append-nil (c.sent ++ bytes)
                    ∙ sym (
                        ap (λ t. (c.sent ++ t) ++ bytes) empty
                        ∙ ap (λ t. t ++ bytes) (append-nil c.sent));
              }))
      ]
]
  where
    r : RingBuffer
    r = c.event.outward

-- With bytes waiting and no room for all of the new ones, `write_socket` drops the new ones, changes
-- nothing, and returns 1 as if they were on their way.
pub write_socket-dropped :
    (c : Conn) (ws : List WriteAnswer) (bytes : List ℕ)
    → IsValid c.event.outward
    → 0 < fill c.event.outward
    → c.event.outward.size - fill c.event.outward < length bytes
    → write_socket ws c bytes ≡ ok (pos 1, c)
unfolding write_socket rb_isempty
write_socket-dropped c ws bytes v busy_h full =
    let miss : (c.event.outward.read_pos == c.event.outward.write_pos) ≡ false = ground arith in
    rw (miss, rb_write-full bytes (length bytes) v full)
