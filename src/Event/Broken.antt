-- ===== src/Event/Broken.antt =====
-- What `read_socket`, `write_socket` and `flush_socket` leave of a connection that the kernel ends.
use native.Mathlib.Decide.{dec_le}
use native.Mathlib.Nat.{mod-lt}
use middleware_development_d.Prelude.{
  ℕ, zero, suc, ◌+◌, ◌-◌, ◌%◌, ◌<◌, ◌≤◌, ◌≡◌, ◌≢◌, refl, sym, ap, ◌∙◌, true, false, Option, none,
  some, List, [], ◌∷◌, ◌++◌, append_assoc, append-nil, arith, length, take, drop, leb, ltb, lt→ltb,
  ◌==◌, pos, minus_one, ok,
}
use middleware_development_d.RingBuf.{RingBuffer, rb_isempty, rb_len, rb_write, rb_remain, rb_free}
use middleware_development_d.RingBuf.Inv.{IsValid, fill, index_lem}
use middleware_development_d.Event.{
  Conn, Action, ctl_mod, ctl_del, close, call_error, act, report, enable_event, drop_connection,
  del_event, free_event,
}
use middleware_development_d.Event.Socket.{
  ReadAnswer, got, read_failed, WriteAnswer, write_failed, eintr, ewouldblock, put_outward,
  read_loop, read_socket, write_socket_, write_socket, flush_socket, write_run, after_write,
  advance, read_edge_dis,
}

-- So many interruptions come first.
abbrev pub interrupted_reads : ℕ → List ReadAnswer → List ReadAnswer
interrupted_reads zero answers = answers
interrupted_reads (suc k) answers = read_failed eintr ∷ interrupted_reads k answers

abbrev pub interrupted_writes : ℕ → List WriteAnswer → List WriteAnswer
interrupted_writes zero answers = answers
interrupted_writes (suc k) answers = write_failed eintr ∷ interrupted_writes k answers

-- A ring whose block was freed.
abbrev pub no_ring : RingBuffer
no_ring = record { buf = []; size = 0; write_pos = 0; read_pos = 0 }

abbrev pub told : Option ℕ → ℕ → ℕ → List Action
told none fd errno = []
told (some h) fd errno = call_error fd errno ∷ []

-- The error callback, if it is set, was called, the event taken from epoll, and the socket closed, in this
-- order; what follows was asked after that. Both rings were freed.
abbrev pub gone : ℕ → List Action → Conn → Conn
gone errno later c = record c {
  event = record c.event { inward = no_ring; outward = no_ring };
  log =
      c.log
      ++ (told c.event.error_fn c.event.fd errno ++ ctl_del c.event.fd ∷ close c.event.fd ∷ later);
}

report_lem :
    (errno : ℕ) (c : Conn)
    → report errno c ≡ record c { log = c.log ++ told c.event.error_fn c.event.fd errno }
unfolding report act
report_lem errno c = by_fn c.event.error_fn
  where
    by_fn :
        (o : Option ℕ)
        → elim o [
          | none ↦ c
          | some _ ↦ record c { log = c.log ++ call_error c.event.fd errno ∷ [] }
        ]
          ≡ record c { log = c.log ++ told o c.event.fd errno }
    by_fn none = ap {A = List Action} (λ l. record c { log = l }) (sym (append-nil c.log))
    by_fn (some h) = refl

drop_connection_lem : (errno : ℕ) (c : Conn) → drop_connection errno c ≡ gone errno [] c
unfolding drop_connection del_event free_event act rb_free
drop_connection_lem errno c =
    let words = told c.event.error_fn c.event.fd errno in
    ap (λ d. act (close c.event.fd) (del_event d)) (report_lem errno c)
    ∙ ap {A = List Action}
        (λ l. record c { event = record c.event { inward = no_ring; outward = no_ring }; log = l })
        (append_assoc (c.log ++ words) (ctl_del c.event.fd ∷ []) (close c.event.fd ∷ [])
          ∙ append_assoc c.log words (ctl_del c.event.fd ∷ close c.event.fd ∷ []))

module _ (errno : ℕ) (a : errno ≢ eintr) (b : errno ≢ ewouldblock) where
  read_loop-gone :
      (k : ℕ) (ws : List ReadAnswer) (n : ℕ) (c : Conn)
      → read_loop (interrupted_reads k (read_failed errno ∷ ws)) n c ≡ ok (0, gone errno [] c)
  unfolding read_loop
  read_loop-gone zero ws n c =
      let other : (errno == eintr) ≡ false = ground arith in
      let fatal : (errno == ewouldblock) ≡ false = ground arith in
      rw (other, fatal) (ap (λ d. ok (0, d)) (drop_connection_lem errno c))
  read_loop-gone (suc k) ws n c = read_loop-gone k ws n c

  write_socket_-gone :
      (k : ℕ) (ws : List WriteAnswer) (c : Conn) (bytes : List ℕ)
      → write_socket_ (interrupted_writes k (write_failed errno ∷ ws)) c bytes
        ≡ ok (minus_one, gone errno [] c, ws)
  unfolding write_socket_
  write_socket_-gone zero ws c bytes =
      let other : (errno == eintr) ≡ false = ground arith in
      let fatal : (errno == ewouldblock) ≡ false = ground arith in
      rw (other, fatal) (ap (λ d. ok (minus_one, d, ws)) (drop_connection_lem errno c))
  write_socket_-gone (suc k) ws c bytes = write_socket_-gone k ws c bytes

read_loop-end :
    (k : ℕ) (ws : List ReadAnswer) (n : ℕ) (c : Conn)
    → read_loop (interrupted_reads k (got [] ∷ ws)) n c ≡ ok (0, gone 0 [] c)
unfolding read_loop
read_loop-end zero ws n c = ap (λ d. ok (0, d)) (drop_connection_lem 0 c)
read_loop-end (suc k) ws n c = read_loop-end k ws n c

gone-later : (errno : ℕ) (x : Action) (c : Conn) → act x (gone errno [] c) ≡ gone errno (x ∷ []) c
unfolding act
gone-later errno x c =
    let words = told c.event.error_fn c.event.fd errno in
    let ended : List Action = ctl_del c.event.fd ∷ close c.event.fd ∷ [] in
    ap {A = List Action}
      (λ l. record c { event = record c.event { inward = no_ring; outward = no_ring }; log = l })
      (append_assoc c.log (words ++ ended) (x ∷ [])
        ∙ ap (λ l. c.log ++ l) (append_assoc words ended (x ∷ [])))

module _ (errno k : ℕ) (ws : List WriteAnswer) (a : errno ≢ eintr) (b : errno ≢ ewouldblock) where
  write_socket-gone :
      (c : Conn) (bytes : List ℕ)
      → IsValid c.event.outward
      → fill c.event.outward ≡ 0
      → write_socket (interrupted_writes k (write_failed errno ∷ ws)) c bytes
        ≡ ok (pos 0, gone errno (ctl_mod c.event.fd 5 ∷ []) c)
  unfolding write_socket rb_isempty rb_write rb_remain enable_event
  write_socket-gone c bytes v empty =
      let hit : (c.event.outward.read_pos == c.event.outward.write_pos) ≡ true = ground arith in
      let refused : ltb 0 (length bytes + 1) ≡ true = lt→ltb 0 (length bytes + 1) (omega arith) in
      rw (hit, write_socket_-gone errno a b k ws c bytes, refused)
        (ap (λ d. ok (pos 0, d)) (gone-later errno (ctl_mod c.event.fd 5) c))

  write_run-gone :
      (c : Conn) (n : ℕ)
      → IsValid c.event.outward
      → c.event.outward.read_pos % c.event.outward.size + n ≤ c.event.outward.size
      → write_run (interrupted_writes k (write_failed errno ∷ ws)) c n
        ≡ ok (minus_one, gone errno [] c, ws)
  unfolding write_run
  write_run-gone c n v flat =
      let r = c.event.outward in
      let fits : leb (r.read_pos % r.size + n) (length r.buf) ≡ true = ground (arith, v.block) in
      rw (index_lem v r.read_pos, fits)
        (write_socket_-gone errno a b k ws c (take n (drop (r.read_pos % r.size) r.buf)))

  -- A place one in front of the ring's first.
  flush_socket-gone :
      (c : Conn)
      → IsValid c.event.outward
      → 0 < fill c.event.outward
      → flush_socket (interrupted_writes k (write_failed errno ∷ ws)) c
        ≡ ok (pos 0, put_outward (gone errno [] c) (record no_ring { read_pos = 4294967295 }))
  unfolding flush_socket rb_isempty rb_len after_write advance
  flush_socket-gone c v busy_h =
      let busy : (r.read_pos == r.write_pos) ≡ false = ground (arith, v.write_fits, v.read_fits) in
      elim (dec_le (fill r) dis) [
        | yes flat ↦
            let branch : leb (fill r) dis ≡ true = ground arith in
            rw (busy, edge, branch, write_run-gone c (fill r) v (omega (arith, inside))) refl
        | no beyond ↦
            let branch : leb (fill r) dis ≡ false = ground arith in
            rw (busy, edge, branch, write_run-gone c dis v (omega (arith, inside))) refl
      ]
    where
      r : RingBuffer
      r = c.event.outward

      dis : ℕ
      dis = r.size - r.read_pos % r.size

      inside : r.read_pos % r.size < r.size
      inside = mod-lt r.read_pos (omega (arith, v.shape.lower))

      edge : read_edge_dis r ≡ dis
      edge = ground (arith, index_lem v r.read_pos, v.shape.upper, inside)

-- When, after any number of interruptions, the kernel ends a connection with an error other than EINTR
-- and EWOULDBLOCK, or, for `read_socket`, with the end of the stream: `read_socket`, `write_socket` with
-- nothing waiting in its valid ring, and `flush_socket` with bytes waiting in a valid ring `r` all call
-- the error callback if it is set, take the event from epoll, close the socket, each once and in this
-- order, free both rings, and return 0; no bytes are sent. After that `write_socket` still
-- asks epoll to watch the closed socket for reading and writing, and `flush_socket` moves the freed
-- ring's `read_pos` from 0 back to 2^32 - 1.
pub socket_calls-gone :
    (c : Conn) (r : RingBuffer) (bytes : List ℕ) (errno k : ℕ) (rs : List ReadAnswer)
    (ws : List WriteAnswer)
    → errno ≢ eintr
    → errno ≢ ewouldblock
    → IsValid c.event.outward
    → fill c.event.outward ≡ 0
    → IsValid r
    → 0 < fill r
    → (read_socket (interrupted_reads k (read_failed errno ∷ rs)) c ≡ ok (0, gone errno [] c))
      × (read_socket (interrupted_reads k (got [] ∷ rs)) c ≡ ok (0, gone 0 [] c))
      × (write_socket (interrupted_writes k (write_failed errno ∷ ws)) c bytes
          ≡ ok (pos 0, gone errno (ctl_mod c.event.fd 5 ∷ []) c))
      × (flush_socket (interrupted_writes k (write_failed errno ∷ ws)) (put_outward c r)
          ≡ ok (pos 0, put_outward (gone errno [] c) (record no_ring { read_pos = 4294967295 })))
unfolding read_socket
socket_calls-gone c r bytes errno k rs ws a b v empty w busy = (
  read_loop-gone errno a b k rs 0 c,
  read_loop-end k rs 0 c,
  write_socket-gone errno k ws a b c bytes v empty,
  flush_socket-gone errno k ws a b (put_outward c r) w busy,
)
