-- ===== src/Server.antt =====
-- The echo server of `4.3 Redis/4.3.2Redis协议与异步方式/src/example/evnet/server.c`: its callbacks.
-- The text that `printf` shows is left out.
pub mod Echo
mod Tests
use middleware_development_d.Prelude.{
  int_zero, ℕ, zero, suc, ◌+◌, Bool, Option, none, some, List, length, replicate, take, ltb, leb,
  if◌then◌else◌, Run, ok, fault, out_of_fuel, ◌>>=◌,
}
use middleware_development_d.Event.{Conn, epollin}
use middleware_development_d.Event.Socket.{
  ReadAnswer, WriteAnswer, read_socket, readline, flush_socket, write_socket,
}
use middleware_development_d.Reactor.{
  Reactor, World, Opening, Round, new_event, watch, Released, create_reactor, release_reactor,
  create_server, eventloop,
}
use middleware_development_d.Rbtree.Store.{Ptr}
use middleware_development_d.Timer.{Timers}

-- The callbacks' names.
abbrev pub read_name : ℕ
read_name = 10

abbrev pub write_name : ℕ
write_name = 11

abbrev pub accept_name : ℕ
accept_name = 12

-- `char buf[1024] = {0}`
abbrev pub line_buffer : List ℕ
line_buffer = replicate 1024 0

-- `rs` and `ws` answer the calls of `read` and `write`. Reading past `buf` is a fault.
unfoldable pub read_cb : List ReadAnswer → List WriteAnswer → Conn → Run Conn
unfolding read_socket readline write_socket
read_cb rs ws c = do
  (got, c₁) ← read_socket rs c
  if ltb 0 got
      then (do
        (n, c₂, buf) ← readline c₁ line_buffer 1024
        if ltb 0 n
            then (if leb (n + 1) (length buf)
                then (do (_, c₃) ← write_socket ws c₂ (take (n + 1) buf); ok c₃)
                else fault)
            else ok c₂)
      else ok c₁

unfoldable pub write_cb : List WriteAnswer → Conn → Run Conn
unfolding flush_socket
write_cb ws c = do (_, c₁) ← flush_socket ws c; ok c₁

-- `clientfd` is what `accept` gives, if it is positive. `set_nonblock` asks nothing of epoll, and its
-- result is not looked at.
unfoldable pub accept_cb : (malloc : ℕ → List ℕ) → Option ℕ → Reactor → Run Reactor
unfolding new_event
accept_cb malloc none r = ok r
accept_cb malloc (some clientfd) r = do
  (slot, r') ← new_event malloc r clientfd (some read_name) (some write_name) none
  ok (watch slot epollin r')

-- `main`: its result, and what is left.
unfoldable pub main :
    (malloc : ℕ → List ℕ)
    → (run : ℕ → ℕ → ℕ → ℕ → World → Run World) → (on_timer : ℕ → Ptr → World → Run World)
    → (fuel : ℕ) → (epfd : ℕ) → (sentinel : Ptr) → Opening
    → List Round
    → Timers
    → Run (ℕ × Released)
unfolding release_reactor create_reactor create_server eventloop
main malloc run on_timer fuel epfd sentinel opening rounds t = do
  w ← create_reactor epfd sentinel t
  (result, r) ← create_server malloc opening accept_name w.reactor
  if int_zero result
      then (do
        w' ← eventloop run on_timer fuel rounds (record w { reactor = r })
        ok (0, release_reactor w'))
      else ok (1, release_reactor (record w { reactor = r }))
