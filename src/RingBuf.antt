-- ===== src/RingBuf.antt =====
-- The byte ring of `4.3 Redis/4.3.2Redis协议与异步方式/src/example/evnet/ringbuf.h`.
-- A function that updates `*r` returns the new ring. Positions are `unsigned int` and wrap at 2^32.
pub mod Inv
pub mod Write
pub mod Consume
pub mod Read
pub mod Init
pub mod Line
pub mod Lines
mod Tests
use middleware_development_d.Prelude.{
  ℕ, zero, suc, ◌+◌, ◌-◌, ◌/◌, ◌^◌, min, bit_and, Bool, false, ◌||◌, Option, none, some, List, [],
  ◌∷◌, get_elem?, set, length, memcpy, ltb, leb, ◌==◌, if◌then◌else◌, add32, sub32, Run, ok, fault,
  out_of_fuel, ◌>>=◌,
}

-- `ringbuffer_t`. `buf` holds the bytes of the block that `malloc` gave; NULL is the empty list.
pub record RingBuffer : Type 0 where
  pub buf : List ℕ
  pub size : ℕ
  pub write_pos : ℕ
  pub read_pos : ℕ

abbrev pub newline : ℕ
newline = 10

-- An access outside its object is a fault.
abbrev pub checked {ℓ} : {A : Type ℓ} → Option A → Run A
checked none = fault
checked (some a) = ok a

unfoldable pub is_power_of_two : ℕ → Bool
is_power_of_two num = if ltb num 2 then false else bit_and num (num - 1) == 0

-- `for (; num != 0; i++) num >>= 1;`
unfoldable pub shift_count : ℕ → ℕ → ℕ → Run ℕ
shift_count zero num i = out_of_fuel
shift_count (suc f) num i =
    let rest = shift_count f (num / 2) (i + 1) in if num == 0 then ok i else rest

-- 32 bits are shifted out in 32 rounds. `1U << 32` is undefined.
unfoldable pub roundup_power_of_two : ℕ → Run ℕ
roundup_power_of_two num =
    if num == 0 then ok 2 else do i ← shift_count 33 num 0; if ltb i 32 then ok (2 ^ i) else fault

-- `malloc` gives the new block.
unfoldable pub rb_init : (ℕ → List ℕ) → ℕ → Run RingBuffer
rb_init malloc sz = do
  size ← if is_power_of_two sz then ok sz else roundup_power_of_two sz
  ok (record { buf = malloc size; size = size; write_pos = 0; read_pos = 0 })

unfoldable pub rb_isempty : RingBuffer → Bool
rb_isempty r = r.read_pos == r.write_pos

unfoldable pub rb_isfull : RingBuffer → Bool
rb_isfull r = r.size == sub32 r.write_pos r.read_pos

unfoldable pub rb_free : RingBuffer → RingBuffer
rb_free r = record { buf = []; size = 0; write_pos = 0; read_pos = 0 }

unfoldable pub rb_clear : RingBuffer → RingBuffer
rb_clear r = record r { write_pos = 0; read_pos = 0 }

unfoldable pub rb_len : RingBuffer → ℕ
rb_len r = sub32 r.write_pos r.read_pos

unfoldable pub rb_remain : RingBuffer → ℕ
rb_remain r = add32 (sub32 r.size r.write_pos) r.read_pos

-- `pos & (r->size - 1)`
abbrev pub index : RingBuffer → ℕ → ℕ
index r pos = bit_and pos (sub32 r.size 1)

-- The list is the object at `buf`. The result is the return value and the new ring.
unfoldable pub rb_write : RingBuffer → List ℕ → ℕ → Run (ℕ × RingBuffer)
unfolding rb_remain memcpy
rb_write r src sz = if ltb (rb_remain r) sz then ok (0, r) else do
  let i = min sz (sub32 r.size (index r r.write_pos))
  front ← checked (memcpy r.buf (index r r.write_pos) src 0 i)
  whole ← checked (memcpy front 0 src i (sub32 sz i))
  ok (sz, record r { buf = whole; write_pos = add32 r.write_pos sz })

-- `out` is the caller's object at `buf`; it comes back as third result.
unfoldable pub rb_read : RingBuffer → List ℕ → ℕ → Run (ℕ × RingBuffer × List ℕ)
unfolding rb_isempty memcpy
rb_read r out want = if rb_isempty r then ok (0, r, out) else do
  let sz = min want (sub32 r.write_pos r.read_pos)
  let i = min sz (sub32 r.size (index r r.read_pos))
  front ← checked (memcpy out 0 r.buf (index r r.read_pos) i)
  whole ← checked (memcpy front i r.buf 0 (sub32 sz i))
  ok (sz, record r { read_pos = add32 r.read_pos sz }, whole)

-- `buf[i] = byte`
abbrev pub put : List ℕ → ℕ → ℕ → Run (List ℕ)
put out i byte = if ltb i (length out) then ok (set out i byte) else fault

-- The loop of `rb_readline` at `i`.
unfoldable pub readline_loop : ℕ → RingBuffer → List ℕ → ℕ → ℕ → Run (ℕ × RingBuffer × List ℕ)
unfolding rb_len
readline_loop zero r out sz i = out_of_fuel
readline_loop (suc f) r out sz i =
    let pos = index r (add32 r.read_pos i) in
    let next = λ (out' : List ℕ). readline_loop f r out' sz (i + 1) in
    if ltb i (rb_len r) || leb i sz
    then (do
      byte ← checked (get_elem? r.buf pos)
      out' ← put out i byte
      if byte == newline
          then ok (i + 1, record r { read_pos = add32 r.read_pos (i + 1) }, out')
          else next out')
    else ok (0, r, out)

-- The loop runs at most `max(len, sz + 1)` rounds, and one more for its last test.
unfoldable pub rb_readline : RingBuffer → List ℕ → ℕ → Run (ℕ × RingBuffer × List ℕ)
unfolding readline_loop rb_isempty
rb_readline r out sz =
    if rb_isempty r then ok (0, r, out) else readline_loop (rb_len r + sz + 2) r out sz 0
