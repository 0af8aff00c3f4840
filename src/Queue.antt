-- ===== src/Queue.antt =====
-- The specification of the byte rings: a FIFO of at most `cap` bytes, oldest first.
use middleware_development_d.Prelude.{
  ℕ, ◌+◌, List, ◌++◌, length, take, drop, min, leb, if◌then◌else◌,
}

-- All of the bytes, or none of them.
unfoldable pub write : ℕ → List ℕ → List ℕ → ℕ × List ℕ
write cap q bytes = if leb (length q + length bytes) cap then (length bytes, q ++ bytes) else (0, q)

-- At most `n` of the oldest bytes: their number, the bytes and the rest of the queue.
unfoldable pub read : List ℕ → ℕ → ℕ × List ℕ × List ℕ
read q n = (min n (length q), take n q, drop n q)
