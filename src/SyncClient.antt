-- ===== src/SyncClient.antt =====
-- The synchronous Redis client, `4.3 Redis/4.3.2Redis协议与异步方式/src/example/evnet/sync.c`. What hiredis
-- and the clock answer is an argument, and so is the number that `atoi` makes of an argument.
pub mod Commands
mod Tests
use middleware_development_d.Prelude.{
  ℕ, zero, suc, ◌+◌, ◌-◌, ◌*◌, ◌/◌, Bool, true, false, Option, none, some, List, [], ◌∷◌, ◌++◌, ltb,
  if◌then◌else◌, ℤ, pos, negsuc, Run, ok, fault, ◌>>=◌,
}

-- What the program prints.
pub data Line : Type 0 where
  counter : ℤ → Line
  used : ℤ → ℤ → Line
  connection_error : Line

-- What is printed, and how many replies and contexts were freed.
pub record Session : Type 0 where
  pub lines : List Line
  pub freed_replies : ℕ
  pub freed_contexts : ℕ

-- The `int` of milliseconds, from what `clock_gettime` gives, with seconds that fit an `int`; an
-- overflow is a fault.
unfoldable pub current_tick : (sec : ℕ) → (nsec : ℕ) → Run ℕ
current_tick sec nsec =
    let t = sec * 1000 + nsec / 1000000 in if ltb t 2147483648 then ok t else fault

-- `a - b`, of two `int`s that are not negative.
abbrev pub difference : ℕ → ℕ → ℤ
difference a b = if ltb a b then negsuc (b - a - 1) else pos (a - b)

-- Rounds of a loop from 0 to `num`.
abbrev pub rounds_to : ℤ → ℕ
rounds_to (pos n) = n
rounds_to (negsuc n) = 0

abbrev pub answered : ℤ → Session → Session
answered k c = record c { lines = c.lines ++ counter k ∷ []; freed_replies = suc c.freed_replies }

-- The loop, for the rounds left. `replies i` is the integer of the reply to command `i`, or NULL.
unfoldable pub commands : (replies : ℕ → Option ℤ) → ℕ → ℕ → Session → Run Session
commands replies zero i c = ok c
commands replies (suc n) i c =
    let rest = commands replies n (suc i) in
    elim (replies i) [ none ↦ fault | some k ↦ rest (answered k c) ]

-- What `redisConnectWithTimeout` gives: NULL, or a context with `err` set or not.
pub data Connection : Type 0 where
  no_context : Connection
  failed : Connection
  connected : Connection

-- The clock's seconds and nanoseconds, before and after the loop.
pub record Clock : Type 0 where
  pub sec : ℕ
  pub nsec : ℕ

-- `(argc > 1) ? atoi(argv[1]) : 1000`
abbrev pub wanted : Option ℤ → ℤ
wanted none = pos 1000
wanted (some n) = n

-- The exit status. `arg` is `atoi(argv[1])`, if there is an argument.
unfoldable pub main :
    Connection
    → (arg : Option ℤ) → (start finish : Clock) → (replies : ℕ → Option ℤ) → Run (ℕ × Session)
unfolding current_tick commands
main no_context arg start finish replies =
    ok (1, record { lines = connection_error ∷ []; freed_replies = 0; freed_contexts = 0 })
main failed arg start finish replies =
    ok (1, record { lines = connection_error ∷ []; freed_replies = 0; freed_contexts = 1 })
main connected arg start finish replies = do
  before ← current_tick start.sec start.nsec
  c ←
      commands replies (rounds_to (wanted arg)) 0
        (record { lines = []; freed_replies = 0; freed_contexts = 0 })
  after ← current_tick finish.sec finish.nsec
  ok (
    0,
    record c {
      lines = c.lines ++ used (wanted arg) (difference after before) ∷ [];
      freed_contexts = 1;
    },
  )
