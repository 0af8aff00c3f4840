-- ===== src/Server/Echo.antt =====
-- `read_cb`: a line that arrives whole is sent back, with a zero byte behind it.
use middleware_development_d.Prelude.{
  ℕ, ◌+◌, ◌-◌, ◌≤◌, ◌<◌, ◌≡◌, sym, ap, ◌∙◌, true, List, [], ◌∷◌, ◌++◌, append_assoc, arith, length,
  length-append, length-drop, length-replicate, take, drop, take-add, drop-replicate,
  take-one-replicate, ap₂, leb, ltb, ok, Returns, returns, Returns-eq_ok, ℤ,
}
use middleware_development_d.RingBuf.{RingBuffer, newline, rb_readline}
use middleware_development_d.RingBuf.Inv.{IsValid, fill, contents, contents_empty}
use middleware_development_d.RingBuf.Lines.{OneLine, rb_readline-line}
use middleware_development_d.Event.{Conn}
use middleware_development_d.Event.Socket.{
  ReadAnswer, WriteAnswer, read_socket, readline, write_socket, put_inward,
}
use middleware_development_d.Event.Answers.{Alive, calls}
use middleware_development_d.Event.Receive.{Brings, Received, read_socket-Received}
use middleware_development_d.Event.Send.{write_socket-Accepted}
use middleware_development_d.Server.{read_cb, line_buffer}

-- What is sent or waits to be sent.
abbrev pub outgoing : Conn → List ℕ
outgoing c = c.sent ++ contents c.event.outward

wide : length line_buffer ≡ 1024
wide = length-replicate {A = ℕ} 1024 0

module _ (line : List ℕ) (short : length line < 1023) where
  -- What `write_socket` is given.
  answer :
      (out : List ℕ)
      → take (length line + 1) out ≡ line ++ newline ∷ []
      → drop (length line + 1) out ≡ drop (length line + 1) line_buffer
      → take (length line + 1 + 1) out ≡ line ++ newline ∷ 0 ∷ []
  answer out front back =
      take-add (length line + 1) 1 out
      ∙ ap₂ (λ s t. s ++ take 1 t) front (back ∙ drop-replicate (length line + 1) 1024 0)
      ∙ ap (λ t. (line ++ newline ∷ []) ++ t)
          (take-one-replicate (1024 - (length line + 1)) 0 (omega arith))
      ∙ append_assoc line (newline ∷ []) (0 ∷ [])

  length_answer : length (line ++ newline ∷ 0 ∷ []) ≡ length line + 2
  length_answer = length-append line (newline ∷ 0 ∷ [])

-- What is left of `read_cb` once `read_socket` and `readline` have run.
read_cb-sends :
    (rs : List ReadAnswer) (ws : List WriteAnswer) (c : Conn) (got : ℕ) (c₁ : Conn) (n : ℕ)
    (r : RingBuffer) (buf bytes : List ℕ) (m : ℤ) (c₃ : Conn)
    → read_socket rs c ≡ ok (got, c₁)
    → 0 < got
    → rb_readline c₁.event.inward line_buffer 1024 ≡ ok (n, r, buf)
    → 0 < n
    → n + 1 ≤ length buf
    → take (n + 1) buf ≡ bytes
    → write_socket ws (put_inward c₁ r) bytes ≡ ok (m, c₃)
    → read_cb rs ws c ≡ ok c₃
unfolding read_cb readline
read_cb-sends rs ws c got c₁ n r buf bytes m c₃ eq₁ some_got eq₂ some_line inside given eq₃ =
    let a : ltb 0 got ≡ true = ground arith in
    let b : ltb 0 n ≡ true = ground arith in
    let d : leb (n + 1) (length buf) ≡ true = ground arith in rw (eq₁, a, eq₂, b, d, given, eq₃)

-- On a connection with valid rings, nothing held of earlier input, when one line without a newline
-- inside, of less than 1023 bytes, arrives with its newline and fits the ring, and there is room for
-- the answer, and the kernel ends no connection and answers a write: the line goes out behind what
-- was to be sent before, with its newline and a zero byte; both rings stay valid, and the line is no
-- longer held.
pub read_cb-echoes :
    {rs : List ReadAnswer} (ws : List WriteAnswer) (c : Conn) (line : List ℕ)
    → Brings rs (line ++ newline ∷ [])
    → OneLine line
    → length line < 1023
    → IsValid c.event.inward
    → fill c.event.inward ≡ 0
    → length line + 1 ≤ c.event.inward.size
    → IsValid c.event.outward
    → Alive ws
    → 1 ≤ calls ws
    → length line + 2 + fill c.event.outward ≤ c.event.outward.size
    → Returns
        (λ c'.
          (outgoing c' ≡ outgoing c ++ (line ++ newline ∷ 0 ∷ []))
          × IsValid c'.event.inward
          × (contents c'.event.inward ≡ [])
          × IsValid c'.event.outward)
        (read_cb rs ws c)
read_cb-echoes {rs} ws c line brings one short v empty fits v' alive answers room =
    let (a, eq, got) = Returns-eq_ok (read_socket-Received c brings v (omega (arith, long))) in
    read_line a.0 a.1 eq got
  where
    Goal : Conn → Type 0
    Goal c' =
        (outgoing c' ≡ outgoing c ++ (line ++ newline ∷ 0 ∷ []))
        × IsValid c'.event.inward
        × (contents c'.event.inward ≡ [])
        × IsValid c'.event.outward

    long : length (line ++ newline ∷ []) ≡ length line + 1
    long = length-append line (newline ∷ [])

    send :
        (n₁ : ℕ) (c₁ : Conn)
        → read_socket rs c ≡ ok (n₁, c₁)
        → Received 0 c (line ++ newline ∷ []) (n₁, c₁)
        → (n : ℕ) (r : RingBuffer) (buf : List ℕ)
        → rb_readline c₁.event.inward line_buffer 1024 ≡ ok (n, r, buf)
        → (n ≡ length line + 1)
          × IsValid r
          × (contents r ≡ [])
          × (take n buf ≡ line ++ newline ∷ [])
          × (drop n buf ≡ drop n line_buffer)
        → Returns Goal (read_cb rs ws c)
    send n₁ c₁ eq₁ got n r buf eq₂ read =
        let given =
          answer line short buf (ap (λ k. take k buf) (sym read.0) ∙ read.3)
            (ap (λ k. drop k buf) (sym read.0) ∙ read.4 ∙ ap (λ k. drop k line_buffer) read.0) in
        let whole : n + 1 ≤ length buf = omega (
          arith,
          read.0,
          ap (λ t. length t) read.4,
          length-drop n buf,
          length-drop n line_buffer,
          wide,
        ) in
        let (d, eq₃, sent) = Returns-eq_ok (
          write_socket-Accepted (put_inward c₁ r) ws (line ++ newline ∷ 0 ∷ [])
            (rw got.outward_kept v') alive answers
            (rw got.outward_kept (omega (arith, length_answer line short)))) in
        rw
          (read_cb-sends rs ws c n₁ c₁ n r buf (line ++ newline ∷ 0 ∷ []) d.0 d.1 eq₁
            (omega (arith, got.count, long)) eq₂ (omega (arith, read.0)) whole
            (ap (λ k. take (k + 1) buf) read.0 ∙ given) eq₃)
          (returns (
            sent.in_order
                ∙ ap₂ (λ x y. (x ++ contents y) ++ (line ++ newline ∷ 0 ∷ [])) got.quiet.1
                    got.outward_kept,
            rw sent.inward_kept read.1,
            rw sent.inward_kept read.2,
            sent.valid,
          ))

    read_line :
        (n : ℕ) (c₁ : Conn)
        → read_socket rs c ≡ ok (n, c₁)
        → Received 0 c (line ++ newline ∷ []) (n, c₁)
        → Returns Goal (read_cb rs ws c)
    read_line n c₁ eq got =
        let held =
          got.appended
          ∙ ap (λ t. t ++ (line ++ newline ∷ [])) (contents_empty c.event.inward empty) in
        let (b, eq₂, read) =
          Returns-eq_ok
            (rb_readline-line line [] line_buffer 1024 got.valid held one (omega (arith, wide))) in
        send n c₁ eq got b.0 b.1 b.2 eq₂ read
