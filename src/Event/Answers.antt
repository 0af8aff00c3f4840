-- ===== src/Event/Answers.antt =====
-- What the socket answers to `write`, and what `write_socket_` does with the answers.
use middleware_development_d.Prelude.{
  ℕ, suc, ◌+◌, ◌≤◌, ◌≡◌, ◌⊎◌, inl, inr, refl, ap, sym, min, true, false, List, [], ◌∷◌, ◌++◌,
  append-nil, arith, length, take, take-min, ◌==◌, if◌then◌else◌, ℤ, pos, Returns, returns,
  Returns-weaken,
}
use middleware_development_d.Event.{Conn}
use middleware_development_d.Event.Socket.{
  WriteAnswer, takes, write_failed, eintr, ewouldblock, write_socket_,
}

-- No answer is an error that ends the connection.
abbrev pub Alive : List WriteAnswer → Type 0
Alive [] = Unit {0}
Alive (takes n ∷ ws) = Alive ws
Alive (write_failed e ∷ ws) = ((e ≡ eintr) ⊎ (e ≡ ewouldblock)) × Alive ws

-- The answers that end a call of `write_socket_`: all but the interruptions.
abbrev pub calls : List WriteAnswer → ℕ
calls [] = 0
calls (takes n ∷ ws) = suc (calls ws)
calls (write_failed e ∷ ws) = if e == eintr then calls ws else suc (calls ws)

-- What the kernel has room for at each call, with interruptions left out.
abbrev pub rooms : List WriteAnswer → List ℕ
rooms [] = []
rooms (takes n ∷ ws) = n ∷ rooms ws
rooms (write_failed e ∷ ws) = if e == eintr then rooms ws else 0 ∷ rooms ws

-- The kernel took the first `m` of the bytes, as many as it had room for.
abbrev pub Sends : Conn → List WriteAnswer → List ℕ → ℤ × Conn × List WriteAnswer → Type 0
Sends c ws bytes (n, c', rest) =
    (m : ℕ) × (n ≡ pos m)
    × (m ≤ length bytes)
    × (c' ≡ record c { sent = c.sent ++ take m bytes })
    × Alive rest
    × (calls ws ≤ calls rest + 1)
    × (k : ℕ) × (rooms ws ≡ k ∷ rooms rest)
    × (m ≡ min k (length bytes))

pub write_socket_-Sends :
    (ws : List WriteAnswer) (c : Conn) (bytes : List ℕ)
    → Alive ws
    → 1 ≤ calls ws
    → Returns (Sends c ws bytes) (write_socket_ ws c bytes)
unfolding write_socket_
write_socket_-Sends [] c bytes alive busy_h = absurd (omega arith)
write_socket_-Sends (takes n ∷ ws) c bytes alive busy_h = returns (
  min n (length bytes),
  refl,
  omega arith,
  ap (λ t. record c { sent = c.sent ++ t }) (sym (take-min n bytes)),
  alive,
  omega arith,
  n,
  refl,
  refl,
)
write_socket_-Sends (write_failed e ∷ ws) c bytes (inl again, alive) busy_h =
    let hit : (e == eintr) ≡ true = ground arith in
    rw hit (
      Returns-weaken (write_socket_-Sends ws c bytes alive (ground arith))
        λ out (m, a, b, c', d, f, k, g, h). (m, a, b, c', d, ground arith, k, rw hit g, h))
write_socket_-Sends (write_failed e ∷ ws) c bytes (inr full, alive) busy_h =
    let miss : (e == eintr) ≡ false = ground arith in
    let hit : (e == ewouldblock) ≡ true = ground arith in
    rw (miss, hit)
      (returns (
        0,
        refl,
        omega arith,
        ap (λ t. record c { sent = t }) (sym (append-nil c.sent)),
        alive,
        ground arith,
        0,
        rw miss refl,
        omega arith,
      ))
