-- ===== src/Lib.antt =====
-- The repository's own C code: an event loop with buffered sockets and timers, its echo server and
-- its adapter for hiredis, and two nginx modules. Below, `evnet/` stands for
-- `4.3 Redis/4.3.2Redis协议与异步方式/src/example/evnet/`.
--
-- How the program's parts fit together. A reactor (`evnet/reactor.h`) keeps a table of events, one for
-- each socket; an event has two byte rings (`evnet/ringbuf.h`), for what arrived and for what waits to
-- be sent, and callbacks. A round of the loop asks the timers (`evnet/rbt-timer.h`, on the red-black
-- tree of `evnet/rbtree.h` and `evnet/rbtree.c`) for a timeout, waits with epoll, calls the callbacks
-- of the sockets that are ready, and runs the timers that are due. `evnet/server.c` answers each line
-- that a client sends; `evnet/adapter_evnet.h` lets hiredis say which sides of its socket it waits
-- for. The nginx modules stand alone: `ngx_http_prefix_filter_module.c` below
-- `4.5 Nginx/4.5.2Nginx过滤模块实现/` puts a line of HTML in front of a page, and
-- `ngx_http_pagecount_module.c` below `4.5 Nginx/4.5.3Nginx Handler模块实现/` counts visits by address.
--
-- Which file models what.
--   Prelude       names, lists over the native numbers, words of 32 bits, `int`, and runs that end in a
--                 result, in a fault (an access outside its object, a failed assertion, another
--                 undefined operation) or without rounds left
--   Queue         the abstract queue of bytes, bounded by a size
--   RingBuf       `evnet/ringbuf.h`: `ringbuffer_t` is `RingBuffer`, and each `rb_` function has its name;
--                 a function that changes `*r` gives the new ring back
--   Rbtree        `evnet/rbtree.h`, `evnet/rbtree.c`: nodes at addresses of a store; `ngx_rbtree_insert` is
--                 `insert`, `ngx_rbtree_delete` is `delete`, `ngx_rbtree_min` is `min_node`,
--                 `ngx_rbtree_next` is `next_node`.
--                 `Rbtree/Trail` to `Rbtree/Fix` take a tree apart at one of its places (a `Trail` leads up
--                 from it), for the rotations and the rounds of the insertion's loop; `Rbtree/Whole` says
--                 what a whole red-black tree is, and `Rbtree/Order` what its order means, for plain
--                 keys and for deadlines that wrap at 2^32; `Rbtree/AbsorbLeft` to
--                 `Rbtree/Settles` are about the loop of the deletion, which starts from a place whose ways
--                 down are short of a black node (`Rbtree/Short`); `Rbtree/Spot` to `Rbtree/Removes` are about
--                 what comes before it. The deletion writes to the sentinel's parent, and the root's parent
--                 may be left as it was; so neither is fixed by what a red-black tree is here
--   Timer         `evnet/rbt-timer.h`, with the functions' names; `Timer/Sequence` is about several calls
--                 of `add_timer`, each a `Request`, and `Timer/Expire` about the timers that are due: what a handler
--                 may do is a condition (`Handles` of `Timer/Handlers`), with the record of its calls that
--                 it keeps;
--                 `Timer/Wait` is about the loop of `wait_timer_expire`
--   Event         `evnet/reactor.h` from `free_event` to `enable_event`, and `Event/Socket` from
--                 `read_socket` to `write_socket`; `Event/Flush` is about sending what waits, and
--                 `Event/Broken` about a connection that the kernel ends
--   Reactor       the rest of `evnet/reactor.h`; `_get_event_t` is `get_event`; `Reactor/Slots` is about the
--                 table, and `Reactor/Rounds` about the callbacks of a round
--   Server        `evnet/server.c`
--   RedisEvent    `evnet/adapter_evnet.h`; `redisEventUpdate` is `redis_event_update`, and so on
--   AsyncClient   `evnet/async.c`, a client for the adapter; `main` up to its loop is `start`
--   SyncClient    `evnet/sync.c`, a client without the adapter
--   LibeventServer   `evmain1.c` and `evmain2.c` in the folder above `evnet/`; `LibeventServer/Calls` has
--                 what they ask of libevent, the two `main` functions as `main_accepting` and
--                 `main_listening`
--   PrefixFilter, PageCount   the nginx modules, without their common prefixes
--
-- What stands outside is an argument: what `malloc` gives, the answers of `read`, `write`, `accept`
-- and of the calls that open a socket (lists with one answer for each call), what epoll reports, the
-- clock, the callbacks and the handlers of timers, and nginx' own functions; for nginx'
-- `ngx_rbtree_insert` the theorem on new addresses takes that of `evnet/rbtree.c`. What is asked of
-- epoll and of `close` is written to a log.
--
-- Bounds and fuel. Positions, sizes, keys and times are `unsigned int` and wrap at 2^32, a count of
-- visits at 2^8; an `int` is `ℤ`, or a natural number where it holds a length or an index (`len` and
-- `dis` of `flush_socket`, `i` of `rb_readline`), which is the same below 2^31: rings of 2^31 bytes,
-- and `sz` that large, are beyond that, and the program's rings have 16384 bytes. The difference of
-- two times in `find_nearest_expire_timer` wraps, where C leaves the overflow of an `int` undefined.
-- Loops on answers end with the answers. The loop of `roundup_power_of_two` has 33 rounds for 32 bits;
-- that of `rb_readline` has the ring's length, `sz` and two, one more than its test can let through;
-- that of `_get_event_t` has 65536, since by then it has left the table. The loops on trees take their
-- rounds as an argument, and the theorems on them say that the number of nodes (or one more) is
-- enough.
--
-- Not modelled: printing, but for the lines of `evnet/sync.c`; nginx' tables of commands and hooks; and
-- the copies under `4.3 Redis/4.3.2Redis协议与异步方式/src/practice/`, which are the same code in another
-- layout. hiredis and libevent are other projects' libraries.
pub mod Prelude
pub mod Queue
pub mod RingBuf
pub mod Rbtree
pub mod Event
pub mod RedisEvent
pub mod Timer
pub mod PrefixFilter
pub mod PageCount
pub mod Reactor
pub mod Server
pub mod AsyncClient
pub mod LibeventServer
pub mod SyncClient
