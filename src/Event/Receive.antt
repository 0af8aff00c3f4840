-- ===== src/Event/Receive.antt =====
-- `read_socket`: what arrives goes into the ring in order, and what ends a connection.
use middleware_development_d.Prelude.{
  ℕ, ◌+◌, ◌≤◌, ◌≡◌, refl, ap, sym, ◌∙◌, List, [], ◌∷◌, ◌++◌, append_assoc, append-nil, arith,
  length, length-append, Returns-eq_ok, Returns, returns, Returns-weaken,
}
use middleware_development_d.RingBuf.Inv.{IsValid, fill, contents, length-contents}
use middleware_development_d.Event.{Conn}
use middleware_development_d.Event.Socket.{
  ReadAnswer, got, read_failed, eintr, ewouldblock, read_loop, read_socket, put_inward,
}
use middleware_development_d.RingBuf.Write.{rb_write-append}

-- The answers bring these bytes, and then say that there is no more for now.
pub data Brings : List ReadAnswer → List ℕ → Type 0 where
  dry : {ws : List ReadAnswer} {e : ℕ} → e ≡ ewouldblock → Brings (read_failed e ∷ ws) []
  again :
      {ws : List ReadAnswer} {bs : List ℕ} {e : ℕ}
      → e ≡ eintr
      → Brings ws bs
      → Brings (read_failed e ∷ ws) bs
  chunk :
      {ws : List ReadAnswer} {bs all : List ℕ} {x : ℕ} {xs : List ℕ}
      → Brings ws bs
      → all ≡ (x ∷ xs) ++ bs
      → Brings (got (x ∷ xs) ∷ ws) all

-- What a call that began with `num` bytes counted returns and leaves.
pub record Received (num : ℕ) (c : Conn) (bytes : List ℕ) (out : ℕ × Conn) : Type 0 where
  pub count : out.0 ≡ num + length bytes
  pub valid : IsValid out.1.event.inward
  pub appended : contents out.1.event.inward ≡ contents c.event.inward ++ bytes
  pub size_kept : out.1.event.inward.size ≡ c.event.inward.size
  pub outward_kept : out.1.event.outward ≡ c.event.outward
  pub quiet : (out.1.log ≡ c.log) × (out.1.sent ≡ c.sent)

read_loop-Received :
    {ws : List ReadAnswer} {bytes : List ℕ} (num : ℕ) (c : Conn)
    → Brings ws bytes
    → IsValid c.event.inward
    → length bytes + fill c.event.inward ≤ c.event.inward.size
    → Returns (Received num c bytes) (read_loop ws num c)
unfolding read_loop
read_loop-Received num c (dry e) v room = rw e (
    returns (record {
      count = omega arith;
      valid = v;
      appended = sym (append-nil (contents c.event.inward));
      size_kept = refl;
      outward_kept = refl;
      quiet = (refl, refl);
    }))
read_loop-Received num c (again e rest) v room = rw e (read_loop-Received num c rest v room)
read_loop-Received num c (chunk {bs} {all} {x} {xs} rest e) v room =
    let long : length (x ∷ xs) + length bs ≡ length all =
      sym (ap (λ l. length l) e ∙ length-append (x ∷ xs) bs) in
    let (a, eq, w) =
      Returns-eq_ok (rb_write-append (x ∷ xs) (length (x ∷ xs)) v refl (omega arith)) in
    rw eq (
      Returns-weaken
        (read_loop-Received (num + length (x ∷ xs)) (put_inward c a.1) rest w.0 (
          omega (
            arith,
            room,
            w.2,
            length-contents a.1,
            length-contents c.event.inward,
            ap (λ l. length l) w.1,
            length-append (contents c.event.inward) (x ∷ xs),
          )))
        λ out q. record {
          count = omega (arith, q.count);
          valid = q.valid;
          appended =
              q.appended
              ∙ ap (λ t. t ++ bs) w.1
              ∙ append_assoc (contents c.event.inward) (x ∷ xs) bs
              ∙ ap (λ t. contents c.event.inward ++ t) (sym e);
          size_kept = q.size_kept ∙ w.2;
          outward_kept = q.outward_kept;
          quiet = q.quiet;
        })

-- `read_socket` on a valid ring, when the kernel brings some bytes with interruptions between and
-- then reports that no more are there, and the ring has room for them: it returns their number and
-- has put them behind those held, in order; the ring of what waits to be sent
-- stays as it was, and nothing is sent, closed or reported.
pub read_socket-Received :
    {ws : List ReadAnswer} {bytes : List ℕ} (c : Conn)
    → Brings ws bytes
    → IsValid c.event.inward
    → length bytes + fill c.event.inward ≤ c.event.inward.size
    → Returns (Received 0 c bytes) (read_socket ws c)
unfolding read_socket
read_socket-Received c b v room = read_loop-Received 0 c b v room
