-- ===== src/Event.antt =====
-- A connection of `4.3 Redis/4.3.2Redis协议与异步方式/src/example/evnet/reactor.h`: an `event_t` with
-- its two rings, and the socket behind it. The kernel's answers are an argument, a list with one
-- answer for each system call; a run that needs more answers than there are has not returned.
pub mod Socket
pub mod Answers
pub mod Runs
pub mod Passed
pub mod Flush
pub mod Send
pub mod Receive
pub mod Broken
mod Tests
use middleware_development_d.Prelude.{
  ℕ, ◌+◌, bit_and, Bool, true, false, Option, none, some, List, [], ◌∷◌, ◌++◌, ◌==◌, if◌then◌else◌,
}
use middleware_development_d.RingBuf.{RingBuffer, rb_free}

-- What the code asks of the kernel and of the caller, in order.
pub data Action : Type 0 where
  ctl_add : ℕ → ℕ → Action
  ctl_mod : ℕ → ℕ → Action
  ctl_del : ℕ → Action
  close : ℕ → Action
  call_error : ℕ → ℕ → Action

-- The three callbacks are named by numbers.
pub record Event : Type 0 where
  pub fd : ℕ
  pub inward : RingBuffer
  pub outward : RingBuffer
  pub read_fn : Option ℕ
  pub write_fn : Option ℕ
  pub error_fn : Option ℕ

-- An event, what was asked so far, and the bytes that the kernel took for the peer.
pub record Conn : Type 0 where
  pub event : Event
  pub log : List Action
  pub sent : List ℕ

abbrev pub epollin : ℕ
epollin = 1

abbrev pub epollout : ℕ
epollout = 4

-- `mask & flag`, as a test
abbrev pub has_flag : ℕ → ℕ → Bool
has_flag mask flag = if bit_and mask flag == 0 then false else true

unfoldable pub act : Action → Conn → Conn
act a c = record c { log = c.log ++ a ∷ [] }

unfoldable pub free_event : Event → Event
unfolding rb_free
free_event e = record e { inward = rb_free e.inward; outward = rb_free e.outward }

unfoldable pub del_event : Conn → Conn
unfolding act free_event
del_event c = record (act (ctl_del c.event.fd) c) { event = free_event c.event }

-- The interest mask; the call's result is passed on by the caller alone.
unfoldable pub enable_event : Conn → Bool → Bool → Conn
unfolding act
enable_event c readable writeable =
    let ins = if readable then epollin else 0 in
    let mask = if writeable then ins + epollout else ins in act (ctl_mod c.event.fd mask) c

-- `if (e->error_fn) e->error_fn(fd, ...)`
unfoldable pub report : ℕ → Conn → Conn
unfolding act
report errno c = elim c.event.error_fn [ none ↦ c | some _ ↦ act (call_error c.event.fd errno) c ]

-- The lines that end a connection, in `read_socket` and in `write_socket_`.
unfoldable pub drop_connection : ℕ → Conn → Conn
unfolding report del_event act
drop_connection errno c = act (close c.event.fd) (del_event (report errno c))

-- The call's result is passed on by the caller alone.
unfoldable pub add_event : ℕ → Conn → Conn
unfolding act
add_event events c = act (ctl_add c.event.fd events) c
