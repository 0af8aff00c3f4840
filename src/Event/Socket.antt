-- ===== src/Event/Socket.antt =====
-- `read_socket`, `readline`, `write_socket_`, `flush_socket` and `write_socket`.
use middleware_development_d.Prelude.{
  ℕ, ◌+◌, ◌-◌, min, Bool, true, false, ◌||◌, List, [], ◌∷◌, ◌++◌, length, take, drop, leb, ltb,
  ◌==◌, if◌then◌else◌, add32, sub32, ℤ, pos, negsuc, minus_one, int_less, int_zero, unsigned32, Run,
  ok, fault, out_of_fuel, ◌>>=◌,
}
use middleware_development_d.RingBuf.{RingBuffer, rb_isempty, rb_len, rb_write, rb_readline, index}
use middleware_development_d.Event.{Conn, enable_event, drop_connection}

abbrev pub eintr : ℕ
eintr = 4

abbrev pub ewouldblock : ℕ
ewouldblock = 11

-- An answer of `read(fd, buf, 1024)`: the bytes put into `buf`, none at the end of the stream, or -1
-- with `errno`.
pub data ReadAnswer : Type 0 where
  got : List ℕ → ReadAnswer
  read_failed : ℕ → ReadAnswer

-- An answer of `write(fd, buf, sz)`: the kernel has room for so many bytes and takes at most `sz`, or
-- -1 with `errno`.
pub data WriteAnswer : Type 0 where
  takes : ℕ → WriteAnswer
  write_failed : ℕ → WriteAnswer

abbrev pub put_inward : Conn → RingBuffer → Conn
put_inward c r = record c { event = record c.event { inward = r } }

abbrev pub put_outward : Conn → RingBuffer → Conn
put_outward c r = record c { event = record c.event { outward = r } }

-- The loop of `read_socket`. `rb_write`'s result is not looked at.
unfoldable pub read_loop : List ReadAnswer → ℕ → Conn → Run (ℕ × Conn)
unfolding rb_write drop_connection
read_loop [] num c = out_of_fuel
read_loop (got [] ∷ answers) num c = ok (0, drop_connection 0 c)
read_loop (got (b ∷ bs) ∷ answers) num c = do
  (n, r) ← rb_write c.event.inward (b ∷ bs) (length (b ∷ bs))
  read_loop answers (num + length (b ∷ bs)) (put_inward c r)
read_loop (read_failed errno ∷ answers) num c =
    let again = read_loop answers num c in
    if errno == eintr
    then again
    else if errno == ewouldblock
    then ok (num, c)
    else ok (0, drop_connection errno c)

unfoldable pub read_socket : List ReadAnswer → Conn → Run (ℕ × Conn)
unfolding read_loop
read_socket answers c = read_loop answers 0 c

unfoldable pub readline : Conn → List ℕ → ℕ → Run (ℕ × Conn × List ℕ)
unfolding rb_readline
readline c out sz = do
  (n, r, out') ← rb_readline c.event.inward out sz
  ok (n, put_inward c r, out')

-- `bytes` are the `sz` bytes at `buf`. The result is the return value, the connection and the answers
-- left.
unfoldable pub write_socket_ : List WriteAnswer → Conn → List ℕ → Run (ℤ × Conn × List WriteAnswer)
unfolding drop_connection
write_socket_ [] c bytes = out_of_fuel
write_socket_ (takes n ∷ answers) c bytes =
    ok (pos (min n (length bytes)), record c { sent = c.sent ++ take n bytes }, answers)
write_socket_ (write_failed errno ∷ answers) c bytes =
    let again = write_socket_ answers c bytes in
    if errno == eintr
    then again
    else if errno == ewouldblock
    then ok (pos 0, c, answers)
    else ok (minus_one, drop_connection errno c, answers)

-- `REAL_READ_POS`
abbrev pub real_read_pos : RingBuffer → ℕ
real_read_pos r = index r r.read_pos

-- `READ_EDGE_DIS`
abbrev pub read_edge_dis : RingBuffer → ℕ
read_edge_dis r = sub32 r.size (real_read_pos r)

-- `write_socket_(e, r->buf + REAL_READ_POS(r), n)` for the ring of what waits to be sent.
unfoldable pub write_run : List WriteAnswer → Conn → ℕ → Run (ℤ × Conn × List WriteAnswer)
unfolding write_socket_
write_run answers c n =
    let r = c.event.outward in
    if leb (real_read_pos r + n) (length r.buf)
    then write_socket_ answers c (take n (drop (real_read_pos r) r.buf))
    else fault

-- `r->read_pos += n`
unfoldable pub advance : ℤ → Conn → Conn
advance n c =
    put_outward c
      (record c.event.outward { read_pos = add32 c.event.outward.read_pos (unsigned32 n) })

-- `n == 0 || n < asked`
abbrev pub falls_short : ℤ → ℕ → Bool
falls_short n asked = int_less n (pos asked) || int_zero n

-- What `flush_socket` does with the result `n` of a write of `asked` bytes: the ring moves on by `n`,
-- and the function returns or goes on with `more`.
unfoldable pub after_write : ℤ → ℕ → Conn → (Conn → Run (ℤ × Conn)) → Run (ℤ × Conn)
unfolding advance
after_write n asked c more =
    if falls_short n asked
    then ok (pos 0, advance n c)
    else if int_less n (pos 0)
    then ok (minus_one, c)
    else more (advance n c)

-- All is sent: from here on only reading matters.
unfoldable pub flushed : Conn → Run (ℤ × Conn)
unfolding enable_event
flushed c = ok (pos 1, enable_event c true false)

-- The second write, of what lies at the start of the block.
unfoldable pub flush_wrapped : List WriteAnswer → ℕ → Conn → Run (ℤ × Conn)
unfolding write_run after_write flushed
flush_wrapped answers remain c =
    if ltb 0 remain
    then (do (n, c', rest) ← write_run answers c remain; after_write n remain c' flushed)
    else flushed c

unfoldable pub flush_socket : List WriteAnswer → Conn → Run (ℤ × Conn)
unfolding rb_isempty rb_len write_run after_write flushed flush_wrapped
flush_socket answers c =
    let len = rb_len c.event.outward in
    let dis = read_edge_dis c.event.outward in
    if rb_isempty c.event.outward
    then ok (pos 0, c)
    else if leb len dis
    then (do (n, c', rest) ← write_run answers c len; after_write n len c' flushed)
    else (do
      (n, c', rest) ← write_run answers c dis
      after_write n dis c' (flush_wrapped rest (len - dis)))

-- The object that starts at `buf + n`. Nothing is known of the bytes in front of `buf`.
abbrev pub behind : ℤ → List ℕ → List ℕ
behind (pos n) bytes = drop n bytes
behind (negsuc n) bytes = []

-- `sz - n`
abbrev pub less_int : ℕ → ℤ → ℕ
less_int sz (pos n) = sz - n
less_int sz (negsuc n) = sz + (n + 1)

-- `bytes` are the `sz` bytes at `buf`. `rb_write`'s result is not looked at.
unfoldable pub write_socket : List WriteAnswer → Conn → List ℕ → Run (ℤ × Conn)
unfolding rb_isempty rb_write write_socket_ enable_event
write_socket answers c bytes =
    if rb_isempty c.event.outward
    then (do
      (n, c', rest) ← write_socket_ answers c bytes
      if falls_short n (length bytes)
          then (do
            (_, r) ← rb_write c'.event.outward (behind n bytes) (less_int (length bytes) n)
            ok (pos 0, enable_event (put_outward c' r) true true))
          else ok (if int_less n (pos 0) then pos 0 else pos 1, c'))
    else (do (_, r) ← rb_write c.event.outward bytes (length bytes); ok (pos 1, put_outward c r))
