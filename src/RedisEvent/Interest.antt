-- ===== src/RedisEvent/Interest.antt =====
-- Which interest stands in the mask, in the callbacks and with epoll.
use mathlib.Core.Path.{subst}
use middleware_development_d.Prelude.{
  ℕ, ◌≡◌, ◌≢◌, refl, sym, Bool, true, false, Option, none, some, List, [], ◌∷◌, ◌++◌, arith,
}
use middleware_development_d.Event.{
  Action, ctl_add, ctl_mod, ctl_del, epollin, epollout, Conn, act, add_event, del_event, free_event,
  enable_event,
}
use middleware_development_d.RedisEvent.{
  RedisEvent, redis_read_handler, redis_write_handler, redis_add_read, redis_del_read,
  redis_add_write, redis_del_write,
}

-- The calls that hiredis makes through `ac->ev`.
pub data Call : Type 0 where
  add_read del_read add_write del_write : Call

unfoldable pub call : Call → RedisEvent → RedisEvent
unfolding redis_add_read redis_del_read redis_add_write redis_del_write
call add_read = redis_add_read
call del_read = redis_del_read
call add_write = redis_add_write
call del_write = redis_del_write

-- The two sides of the interest.
abbrev pub bits : Bool → Bool → ℕ
bits false false = 0
bits true false = 1
bits false true = 4
bits true true = 5

abbrev pub handler : Bool → ℕ → Option ℕ
handler true f = some f
handler false f = none

-- The mask and the callbacks both say that reading is wanted if `r`, and writing if `w`.
pub record Wants (r w : Bool) (re : RedisEvent) : Type 0 where
  pub mask : re.mask ≡ bits r w
  pub reads : re.conn.event.read_fn ≡ handler r redis_read_handler
  pub writes : re.conn.event.write_fn ≡ handler w redis_write_handler

abbrev pub wanted : Call → Bool × Bool → Bool × Bool
wanted add_read (r, w) = (true, w)
wanted del_read (r, w) = (false, w)
wanted add_write (r, w) = (r, true)
wanted del_write (r, w) = (r, false)

wanted_at :
    (k : Call) (r w : Bool) (c : Conn)
    → c.event.read_fn ≡ handler r redis_read_handler
    → c.event.write_fn ≡ handler w redis_write_handler
    → Wants (wanted k (r, w)).0 (wanted k (r, w)).1 (call k (record { conn = c; mask = bits r w }))
unfolding call add_event del_event free_event enable_event act
wanted_at add_read true true c a b = record { mask = refl; reads = refl; writes = b }
wanted_at add_read true false c a b = record { mask = refl; reads = refl; writes = b }
wanted_at add_read false true c a b = record { mask = refl; reads = refl; writes = b }
wanted_at add_read false false c a b = record { mask = refl; reads = refl; writes = b }
wanted_at del_read true true c a b = record { mask = refl; reads = refl; writes = b }
wanted_at del_read true false c a b = record { mask = refl; reads = refl; writes = b }
wanted_at del_read false true c a b = record { mask = refl; reads = refl; writes = b }
wanted_at del_read false false c a b = record { mask = refl; reads = refl; writes = b }
wanted_at add_write true true c a b = record { mask = refl; reads = a; writes = refl }
wanted_at add_write true false c a b = record { mask = refl; reads = a; writes = refl }
wanted_at add_write false true c a b = record { mask = refl; reads = a; writes = refl }
wanted_at add_write false false c a b = record { mask = refl; reads = a; writes = refl }
wanted_at del_write true true c a b = record { mask = refl; reads = a; writes = refl }
wanted_at del_write true false c a b = record { mask = refl; reads = a; writes = refl }
wanted_at del_write false true c a b = record { mask = refl; reads = a; writes = refl }
wanted_at del_write false false c a b = record { mask = refl; reads = a; writes = refl }

-- Where the mask and the callbacks agree, each of the four calls changes the wish for its own side, in the mask and in the callbacks alike,
-- and leaves the other side's.
pub call-Wants :
    (k : Call) (r w : Bool) {re : RedisEvent}
    → Wants r w re
    → Wants (wanted k (r, w)).0 (wanted k (r, w)).1 (call k re)
call-Wants k r w {re} h =
    subst
      (λ m.
        Wants (wanted k (r, w)).0 (wanted k (r, w)).1
          (call k (record { conn = re.conn; mask = m })))
      (sym h.mask) (wanted_at k r w re.conn h.reads h.writes)

-- What epoll is told when the wish goes from the first pair to the second: the sides that are wanted.
abbrev pub request : Bool × Bool → Bool × Bool → ℕ → List Action
request (false, false) (false, false) fd = []
request (false, false) (r, w) fd = ctl_add fd (bits r w) ∷ []
request (r, w) (false, false) fd = ctl_del fd ∷ []
request (r, w) (r', w') fd = ctl_mod fd (bits r' w') ∷ []

-- The call changes its side while the other side is not wanted.
abbrev pub IsSingle : Call → Bool × Bool → Type 0
IsSingle add_read (false, false) = Unit {0}
IsSingle del_read (true, false) = Unit {0}
IsSingle add_write (false, false) = Unit {0}
IsSingle del_write (false, true) = Unit {0}
IsSingle _ _ = ⊥

-- The call changes its side while the other side is wanted.
abbrev pub IsShared : Call → Bool × Bool → Type 0
IsShared add_read (false, true) = Unit {0}
IsShared del_read (true, true) = Unit {0}
IsShared add_write (true, false) = Unit {0}
IsShared del_write (true, true) = Unit {0}
IsShared _ _ = ⊥

request_at :
    (k : Call) (r w : Bool) (c : Conn)
    → IsSingle k (r, w)
    → (call k (record { conn = c; mask = bits r w })).conn.log
      ≡ c.log ++ request (r, w) (wanted k (r, w)) c.event.fd
unfolding call add_event del_event free_event enable_event act
request_at add_read false false c h = refl
request_at del_read true false c h = refl
request_at add_write false false c h = refl
request_at del_write false true c h = refl
request_at _ _ _ c h = absurd h

-- When the other side is not wanted, a call that changes the wish for its own side asks one thing of
-- epoll: to watch for that side, or to forget the socket.
pub call-request :
    (k : Call) (r w : Bool) {re : RedisEvent}
    → Wants r w re
    → IsSingle k (r, w)
    → (call k re).conn.log ≡ re.conn.log ++ request (r, w) (wanted k (r, w)) re.conn.event.fd
call-request k r w {re} h single =
    subst
      (λ m.
        (call k (record { conn = re.conn; mask = m })).conn.log
        ≡ re.conn.log ++ request (r, w) (wanted k (r, w)) re.conn.event.fd)
      (sym h.mask) (request_at k r w re.conn single)

-- The side that is added alone, or nothing.
abbrev pub alone : Call → ℕ
alone add_read = epollin
alone add_write = epollout
alone _ = 0

-- Epoll is told to watch that, and the mask says otherwise.
abbrev pub OutOfStep : Call → RedisEvent → Type 0
OutOfStep k re =
    ((call k re).conn.log ≡ re.conn.log ++ ctl_mod re.conn.event.fd (alone k) ∷ [])
    × (alone k ≢ (call k re).mask)

missed_at :
    (k : Call) (r w : Bool) (c : Conn)
    → IsShared k (r, w)
    → OutOfStep k (record { conn = c; mask = bits r w })
unfolding call add_event del_event free_event enable_event act
missed_at add_read false true c h = (refl, omega arith)
missed_at del_read true true c h = (refl, omega arith)
missed_at add_write true false c h = (refl, omega arith)
missed_at del_write true true c h = (refl, omega arith)
missed_at _ _ _ c h = absurd h

-- When the other side is wanted too, a call that changes the wish for its own side asks one thing of
-- epoll, which is not what the mask says: to watch for the added side alone, or for nothing when a side
-- is removed.
pub call-OutOfStep :
    (k : Call) (r w : Bool) {re : RedisEvent} → Wants r w re → IsShared k (r, w) → OutOfStep k re
call-OutOfStep k r w {re} h shared =
    subst (λ m. OutOfStep k (record { conn = re.conn; mask = m })) (sym h.mask)
      (missed_at k r w re.conn shared)
