-- ===== src/Reactor.antt =====
-- The reactor of `4.3 Redis/4.3.2Redis协议与异步方式/src/example/evnet/reactor.h`: its table of
-- events, the loop, and the listening socket. An `event_t *` into the table is the number of its
-- slot. What the callbacks do, what the system calls answer, the blocks of `malloc` and the clock are
-- arguments.
pub mod Slots
pub mod Rounds
mod Tests
use middleware_development_d.Prelude.{
  ℕ, zero, suc, ◌+◌, bit_and, bit_or, Bool, true, false, not, Option, none, some, List, [], ◌∷◌,
  ◌++◌, ltb, leb, ◌==◌, if◌then◌else◌, ℤ, pos, minus_one, Run, ok, fault, out_of_fuel, ◌>>=◌,
}
use middleware_development_d.RingBuf.{RingBuffer, rb_init}
use middleware_development_d.Event.{
  Action, close, Event, Conn, epollin, epollout, has_flag, add_event,
}
use middleware_development_d.Rbtree.Store.{Ptr}
use middleware_development_d.Timer.{Timers, init_timer, find_nearest_expire_timer, expire_timer}

-- `reactor_t`. `log` is what was asked of epoll so far.
pub record Reactor : Type 0 where
  pub epfd : ℕ
  pub listenfd : ℕ
  pub stop : ℕ
  pub iter : ℕ
  pub events : ℕ → Event
  pub log : List Action

-- The reactor, the global timers, and the timeouts that `epoll_wait` was given.
pub record World : Type 0 where
  pub reactor : Reactor
  pub timers : Timers
  pub waits : List ℤ

abbrev pub put_timers : Timers → World → World
put_timers t w = record w { timers = t }

-- `MAX_CONN`, the number of slots; it serves as a mask too.
abbrev pub max_conn : ℕ
max_conn = 65535

abbrev pub epollerr : ℕ
epollerr = 8

abbrev pub epollhup : ℕ
epollhup = 16

-- An event of zeros.
abbrev pub blank : Event
blank =
    let none_held : RingBuffer = record { buf = []; size = 0; write_pos = 0; read_pos = 0 } in
    record {
      fd = 0;
      inward = none_held;
      outward = none_held;
      read_fn = none;
      write_fn = none;
      error_fn = none;
    }

-- `epfd` is what `epoll_create` gives.
unfoldable pub create_reactor : (epfd : ℕ) → Ptr → Timers → Run World
unfolding init_timer
create_reactor epfd sentinel t = do
  t' ← init_timer sentinel t
  ok (record {
    reactor = record {
      epfd = epfd;
      listenfd = 0;
      stop = 0;
      iter = 0;
      events = λ _. blank;
      log = [];
    };
    timers = t';
    waits = [];
  })

-- What is left when the reactor and its table are freed.
pub record Released : Type 0 where
  pub timers : Timers
  pub waits : List ℤ
  pub log : List Action

unfoldable pub release_reactor : World → Released
release_reactor w = record {
  timers = w.timers;
  waits = w.waits;
  log = w.reactor.log ++ close w.reactor.epfd ∷ [];
}

-- The loop of `_get_event_t`. Slot 65535 is past the block.
unfoldable pub next_slot : ℕ → Reactor → Run Reactor
next_slot zero r = out_of_fuel
next_slot (suc rounds) r =
    let again = next_slot rounds (record r { iter = suc r.iter }) in
    let slot = bit_and r.iter max_conn in
    if leb max_conn slot then fault else if ltb 0 (r.events slot).fd then again else ok r

-- The slot is `iter` of the reactor that results. Before 65536 rounds the loop has left the block.
unfoldable pub get_event : Reactor → Run Reactor
unfolding next_slot
get_event r = next_slot 65536 (record r { iter = suc r.iter })

abbrev pub is_set : Option ℕ → Bool
is_set none = false
is_set (some _) = true

abbrev pub put_event : ℕ → Event → Reactor → Reactor
put_event slot e r = record r { events = λ i. if i == slot then e else r.events i }

-- The flags that `fcntl` gives, and its answer to the new ones.
unfoldable pub set_nonblock : (nonblock : ℕ) → (flags : ℕ) → (set_flags : ℕ → ℤ) → ℤ
set_nonblock nonblock flags set_flags = set_flags (bit_or flags nonblock)

-- `add_event` for the event in a slot.
abbrev pub watch : ℕ → ℕ → Reactor → Reactor
watch slot events r =
    let c : Conn = add_event events (record { event = r.events slot; log = r.log; sent = [] }) in
    record r { log = c.log }

-- What the calls of `create_server` answer: the new socket, if any, and whether each of the others
-- succeeds.
pub record Opening : Type 0 where
  pub socket : Option ℕ
  pub setsockopt : Bool
  pub bind : Bool
  pub listen : Bool
  pub set_nonblock : Bool

module _ (malloc : ℕ → List ℕ) where
  -- A failed `assert`, and a write past the block, are faults. The result is the slot.
  unfoldable pub new_event : Reactor → ℕ → Option ℕ → Option ℕ → Option ℕ → Run (ℕ × Reactor)
  unfolding get_event rb_init
  new_event r fd rd wt err =
      if is_set rd then found else if is_set wt then found else if is_set err then found else fault
    where
      found : Run (ℕ × Reactor)
      found = do
        r' ← get_event r
        inward ← rb_init malloc 16384
        outward ← rb_init malloc 16384
        let e : Event = record {
          fd = fd;
          inward = inward;
          outward = outward;
          read_fn = rd;
          write_fn = wt;
          error_fn = err;
        }
        if leb max_conn r'.iter then fault else ok (r'.iter, put_event r'.iter e r')

  unfoldable pub create_server : Opening → (func : ℕ) → Reactor → Run (ℤ × Reactor)
  unfolding new_event
  create_server o func r = elim o.socket [
    | none ↦ ok (minus_one, r)
    | some fd ↦
        if not o.setsockopt
        then ok (minus_one, r)
        else if not o.bind
        then ok (minus_one, r)
        else if not o.listen
        then ok (minus_one, r)
        else if not o.set_nonblock
        then ok (minus_one, r)
        else (new_event (record r { listenfd = fd }) fd (some func) none none >>= λ (slot, r').
            ok (pos 0, watch slot epollin r'))
  ]

unfoldable pub stop_eventloop : World → World
stop_eventloop w = record w { reactor = record w.reactor { stop = 1 } }

-- An error or a hang-up counts as readable and writeable.
abbrev pub raised : ℕ → ℕ
raised events =
    let mask = if has_flag events epollerr then bit_or events 5 else events in
    if has_flag events epollhup then bit_or mask 5 else mask

-- One round: the time before the wait, what is reported, and the time after it.
pub record Round : Type 0 where
  pub before : ℕ
  pub fire : List (ℕ × ℕ)
  pub after : ℕ

-- `run` is what a callback does, by its name, for a descriptor, the side that is ready and a slot;
-- `on_timer` is what a timer's handler does.
module _ (run : ℕ → ℕ → ℕ → ℕ → World → Run World) (on_timer : ℕ → Ptr → World → Run World) where
  -- `if (mask & side) { if (et->fn) et->fn(et->fd, side, et); }`
  abbrev pub notify : ℕ → ℕ → (Event → Option ℕ) → ℕ → World → Run World
  notify mask side fn slot w =
      if has_flag mask side
      then elim (fn (w.reactor.events slot)) [
        | none ↦ ok w
        | some f ↦ run f (w.reactor.events slot).fd side slot w
      ]
      else ok w

  -- The loop of `eventloop_once`, over what `epoll_wait` reported: slots with their events.
  unfoldable pub dispatch : List (ℕ × ℕ) → World → Run World
  dispatch [] w = ok w
  dispatch ((slot, events) ∷ fire) w =
      notify (raised events) epollin (λ e. e.read_fn) slot w >>= λ w'.
      notify (raised events) epollout (λ e. e.write_fn) slot w' >>= dispatch fire

  unfoldable pub eventloop_once : ℤ → List (ℕ × ℕ) → World → Run World
  unfolding dispatch
  eventloop_once timeout fire w = dispatch fire (record w { waits = w.waits ++ timeout ∷ [] })

  -- `fuel` bounds the loops on the tree, and the rounds of `expire_timer`.
  unfoldable pub eventloop : ℕ → List Round → World → Run World
  unfolding eventloop_once find_nearest_expire_timer expire_timer
  eventloop fuel [] w = if w.reactor.stop == 0 then out_of_fuel else ok w
  eventloop fuel (round ∷ rounds) w =
      let rest = eventloop fuel rounds in
      if w.reactor.stop == 0
      then (do
        timeout ← find_nearest_expire_timer fuel round.before w.timers
        w' ← eventloop_once timeout round.fire w
        w'' ← expire_timer (λ v. v.timers) put_timers on_timer fuel fuel round.after w'
        rest w'')
      else ok w
