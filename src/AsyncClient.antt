-- ===== src/AsyncClient.antt =====
-- The asynchronous Redis client of `4.3 Redis/4.3.2Redis协议与异步方式/src/example/evnet/async.c`: its
-- callbacks. hiredis calls them; printing is left out.
pub mod Replies
mod Tests
use middleware_development_d.Prelude.{
  ℕ, ◌+◌, ◌*◌, ◌/◌, Bool, true, false, Option, none, some, ltb, ◌==◌, if◌then◌else◌, List, Run, ok,
  fault, ◌>>=◌,
}
use middleware_development_d.Rbtree.Store.{Ptr}
use middleware_development_d.Timer.{Timers}
use middleware_development_d.Event.{Event, Conn}
use middleware_development_d.RedisEvent.{RedisEvent, redis_attach}
use middleware_development_d.Reactor.{
  World, Round, Released, create_reactor, release_reactor, eventloop, stop_eventloop,
}

-- The global variables, and how often `redisAsyncDisconnect` was called.
pub record Client : Type 0 where
  pub world : World
  pub cnt : ℕ
  pub before : ℕ
  pub num : ℕ
  pub disconnects : ℕ

-- From what `clock_gettime` gives; an `int` that overflows is a fault.
unfoldable pub current_tick : (sec : ℕ) → (nsec : ℕ) → Run ℕ
current_tick sec nsec =
    let t = sec * 1000 + nsec / 1000000 in if ltb t 2147483648 then ok t else fault

-- `reply` is the integer of the reply, or NULL.
unfoldable pub get_callback : (reply : Option ℕ) → Client → Client
get_callback none c = c
get_callback (some n) c =
    if c.cnt + 1 == c.num
    then record c { cnt = c.cnt + 1; disconnects = c.disconnects + 1 }
    else record c { cnt = c.cnt + 1 }

-- `done` is whether the status is `REDIS_OK`.
unfoldable pub connect_callback : (done : Bool) → Client → Client
unfolding stop_eventloop
connect_callback true c = c
connect_callback false c = record c { world = stop_eventloop c.world }

unfoldable pub disconnect_callback : (done : Bool) → Client → Client
unfolding stop_eventloop
disconnect_callback done c = record c { world = stop_eventloop c.world }

-- `(argc > 1) ? atoi(argv[1]) : 1000`, for an argument that is no negative number.
abbrev pub wanted : Option ℕ → ℕ
wanted none = 1000
wanted (some n) = n

-- What `main` has set up before its loop: the globals, what `redisAttach` made, which `main` does not look
-- at, and how often it called `redisAsyncCommand`.
pub record Started : Type 0 where
  pub client : Client
  pub attached : Option RedisEvent
  pub asked : ℕ

-- `main` up to `eventloop`. `block` is what the allocation in `redisAttach` gives, and `socket` the new
-- connection's.
unfoldable pub start :
    (epfd : ℕ)
    → (sentinel : Ptr) → Timers
    → (block : Option Event) → (socket : Conn) → (sec : ℕ) → (nsec : ℕ) → (arg : Option ℕ)
    → Run Started
unfolding create_reactor redis_attach current_tick
start epfd sentinel t block socket sec nsec arg = do
  world ← create_reactor epfd sentinel t
  tick ← current_tick sec nsec
  ok (record {
    client = record { world = world; cnt = 0; before = tick; num = wanted arg; disconnects = 0 };
    attached = redis_attach false block socket;
    asked = wanted arg;
  })

-- `main`, for whether `c->err` is set: its result, and what is left of the reactor, if there was one. `run` is what the events' callbacks do.
unfoldable pub main :
    (run : ℕ → ℕ → ℕ → ℕ → World → Run World)
    → (on_timer : ℕ → Ptr → World → Run World) → (fuel : ℕ) → (err : Bool) → (epfd : ℕ)
    → (sentinel : Ptr) → Timers
    → (block : Option Event) → (socket : Conn) → (sec : ℕ) → (nsec : ℕ) → (arg : Option ℕ)
    → List Round
    → Run (ℕ × Option Released)
unfolding start eventloop release_reactor
main run on_timer fuel true epfd sentinel t block socket sec nsec arg rounds = ok (1, none)
main run on_timer fuel false epfd sentinel t block socket sec nsec arg rounds = do
  st ← start epfd sentinel t block socket sec nsec arg
  w ← eventloop run on_timer fuel rounds st.client.world
  ok (0, some (release_reactor w))
