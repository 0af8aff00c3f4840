-- ===== src/LibeventServer/Reply.antt =====
-- What the libevent servers reply, and when the reply overflows.
use middleware_development_d.Prelude.{
  ℕ, ◌<◌, ◌≡◌, ◌≢◌, refl, ap, false, Bool, some, List, [], ◌∷◌, ◌++◌, length, length-append, arith,
  ltb, ◌==◌, if◌then◌else◌, ok, fault,
}
use middleware_development_d.LibeventServer.{
  replied, until_zero, reply_start, socket_read_cb, socket_read_callback,
}

-- No zero byte.
abbrev pub IsText : List ℕ → Type 0
IsText [] = Unit {0}
IsText (b ∷ bs) = (b ≢ 0) × IsText bs

until_zero_text : (bs : List ℕ) → IsText bs → until_zero bs ≡ bs
until_zero_text [] t = refl
until_zero_text (b ∷ bs) (ne, t) =
    let other : (b == 0) ≡ false = ground arith in rw other (ap (λ s. b ∷ s) (until_zero_text bs t))

-- For bytes received with no zero among them, at least one, the first server replies with its words
-- and the bytes if these are 4080 at most, and else writes past its array.
pub socket_read_cb-text :
    (bytes : List ℕ)
    → IsText bytes
    → 0 < length bytes
    → socket_read_cb (some bytes)
      ≡ (if ltb (length bytes) 4081 then ok (replied (reply_start ++ bytes)) else fault)
unfolding socket_read_cb
socket_read_cb-text [] t h = absurd (omega arith)
socket_read_cb-text (b ∷ bs) t h =
    rw (until_zero_text (b ∷ bs) t)
      (ap (λ (x : Bool). if x then ok (replied (reply_start ++ b ∷ bs)) else fault) (ground arith))

-- For a line with no zero byte the second server replies with its words, the line and a newline if the
-- line is 4079 bytes at most, and else writes past its array.
pub socket_read_callback-text :
    (line : List ℕ)
    → IsText line
    → socket_read_callback (some line)
      ≡ (if ltb (length line) 4080 then ok (some (reply_start ++ (line ++ 10 ∷ []))) else fault)
unfolding socket_read_callback
socket_read_callback-text line t = rw (until_zero_text line t) (
    ap (λ (x : Bool). if x then ok (some (reply_start ++ (line ++ 10 ∷ []))) else fault)
      (ground (arith, length-append line (10 ∷ []))))
