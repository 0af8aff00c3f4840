-- ===== src/LibeventServer.antt =====
-- The callbacks of the libevent servers `evmain1.c` and `evmain2.c` in
-- `4.3 Redis/4.3.2Redis协议与异步方式/src/example/`. libevent calls them.
pub mod Reply
pub mod Calls
mod Tests
use middleware_development_d.Prelude.{
  ℕ, ◌+◌, ◌-◌, Bool, true, false, not, Option, none, some, List, [], ◌∷◌, ◌++◌, length, ltb, ◌==◌,
  if◌then◌else◌, Run, ok, fault,
}

-- What a server does with a connection: `event_free` and `close`, or one `write`.
pub data Done : Type 0 where
  hung_up : Done
  replied : List ℕ → Done

-- The string that begins at the first of the bytes, with a zero byte behind the last.
abbrev pub until_zero : List ℕ → List ℕ
until_zero [] = []
until_zero (b ∷ bs) = if b == 0 then [] else b ∷ until_zero bs

-- `"recvieced msg: "`
abbrev pub reply_start : List ℕ
reply_start =
    114 ∷ 101 ∷ 99 ∷ 118 ∷ 105 ∷ 101 ∷ 99 ∷ 101 ∷ 100 ∷ 32 ∷ 109 ∷ 115 ∷ 103 ∷ 58 ∷ 32 ∷ []

-- `socket_read_cb` of `evmain1.c`, for the bytes that `read` gives, at most 4095, or its error.
-- Writing past the 4096 bytes of `reply_msg` is a fault.
unfoldable pub socket_read_cb : Option (List ℕ) → Run Done
socket_read_cb none = ok hung_up
socket_read_cb (some []) = ok hung_up
socket_read_cb (some (b ∷ bs)) =
    let reply = reply_start ++ until_zero (b ∷ bs) in
    if ltb (length reply) 4096 then ok (replied reply) else fault

-- `socket_listen` of `evmain1.c`, for the new socket, if any, and whether `bind` and `listen` succeed:
-- the socket, or none for -1, and the sockets closed.
unfoldable pub socket_listen : Option ℕ → (bind : Bool) → (listen : Bool) → Option ℕ × List ℕ
socket_listen none bind listen = (none, [])
socket_listen (some fd) false listen = (none, fd ∷ [])
socket_listen (some fd) true false = (none, fd ∷ [])
socket_listen (some fd) true true = (some fd, [])

-- `socket_read_callback` of `evmain2.c`, for the line that libevent read, if any: what is written. The
-- line is a string, without its newline.
unfoldable pub socket_read_callback : Option (List ℕ) → Run (Option (List ℕ))
socket_read_callback none = ok none
socket_read_callback (some msg) =
    let reply = reply_start ++ (until_zero msg ++ 10 ∷ []) in
    if ltb (length reply) 4096 then ok (some reply) else fault
