-- ===== src/RedisEvent.antt =====
-- The hiredis adapter,
-- `4.3 Redis/4.3.2Redis协议与异步方式/src/example/evnet/adapter_evnet.h`: the interest that a Redis
-- connection has in its socket.
pub mod Interest
mod Tests
use middleware_development_d.Prelude.{
  ℕ, ◌+◌, ◌-◌, bit_and, bit_or, Bool, true, false, Option, none, some, List, ◌==◌, if◌then◌else◌,
}
use middleware_development_d.RingBuf.{RingBuffer}
use middleware_development_d.Event.{
  Event, Conn, epollin, epollout, has_flag, add_event, del_event, enable_event,
}

-- `redis_event_t`. The connection to Redis, `ctx`, is hiredis' own.
pub record RedisEvent : Type 0 where
  pub conn : Conn
  pub mask : ℕ

-- `mask & ~flag`
abbrev pub without_flag : ℕ → ℕ → ℕ
without_flag mask flag = mask - bit_and mask flag

-- What is asked of epoll once `re->mask` is set; `before` is the mask of before.
unfoldable pub apply_mask : ℕ → ℕ → Bool → RedisEvent → RedisEvent
unfolding add_event del_event enable_event
apply_mask before flag enable re =
    if re.mask == 0
    then record re { conn = del_event re.conn }
    else if before == 0
    then record re { conn = add_event re.mask re.conn }
    else if has_flag flag epollin
    then record re { conn = enable_event re.conn enable false }
    else if has_flag flag epollout
    then record re { conn = enable_event re.conn false enable }
    else re

-- `redisEventUpdate(privdata, flag, remove)`
unfoldable pub redis_event_update : RedisEvent → ℕ → Bool → RedisEvent
unfolding apply_mask
redis_event_update re flag true =
    if has_flag re.mask flag
    then apply_mask re.mask flag false (record re { mask = without_flag re.mask flag })
    else re
redis_event_update re flag false =
    if has_flag re.mask flag
    then re
    else apply_mask re.mask flag true (record re { mask = bit_or re.mask flag })

abbrev pub set_read_fn : Option ℕ → RedisEvent → RedisEvent
set_read_fn f re = record re {
  conn = record re.conn { event = record re.conn.event { read_fn = f } };
}

abbrev pub set_write_fn : Option ℕ → RedisEvent → RedisEvent
set_write_fn f re = record re {
  conn = record re.conn { event = record re.conn.event { write_fn = f } };
}

-- The names of the callbacks `redisReadHandler` and `redisWriteHandler`.
abbrev pub redis_read_handler : ℕ
redis_read_handler = 1

abbrev pub redis_write_handler : ℕ
redis_write_handler = 2

unfoldable pub redis_add_read : RedisEvent → RedisEvent
unfolding redis_event_update
redis_add_read re = redis_event_update (set_read_fn (some redis_read_handler) re) epollin false

unfoldable pub redis_del_read : RedisEvent → RedisEvent
unfolding redis_event_update
redis_del_read re = redis_event_update (set_read_fn none re) epollin true

unfoldable pub redis_add_write : RedisEvent → RedisEvent
unfolding redis_event_update
redis_add_write re = redis_event_update (set_write_fn (some redis_write_handler) re) epollout false

unfoldable pub redis_del_write : RedisEvent → RedisEvent
unfolding redis_event_update
redis_del_write re = redis_event_update (set_write_fn none re) epollout true

-- `redisReadHandler` and `redisWriteHandler`, by their names: they only call hiredis.
unfoldable pub run_handler :
    (handle_read : RedisEvent → RedisEvent)
    → (handle_write : RedisEvent → RedisEvent) → ℕ
    → RedisEvent
    → RedisEvent
run_handler handle_read handle_write name re =
    if name == redis_read_handler
    then handle_read re
    else if name == redis_write_handler
    then handle_write re
    else re

-- `redisCleanup`; `hi_free` gives the block back.
unfoldable pub redis_cleanup : RedisEvent → Conn
unfolding del_event
redis_cleanup re = del_event re.conn

-- `redisAttach`: refused when something is attached already, or without memory for the block. Of
-- the event only `fd` is set: the rest is what `hi_malloc` left in the block.
unfoldable pub redis_attach : Bool → Option Event → Conn → Option RedisEvent
redis_attach true block socket = none
redis_attach false none socket = none
redis_attach false (some e) socket =
    some (record { conn = record socket { event = record e { fd = socket.event.fd } }; mask = 0 })
