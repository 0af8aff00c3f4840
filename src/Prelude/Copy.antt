-- ===== src/Prelude/Copy.antt =====
-- Copies of blocks, as `memcpy` makes them.
use Prim.Native.Nat.{ℕ, ◌+◌, ◌-◌, ◌≤◌}
use mathlib.Core.Path.{◌≡◌}
use mathlib.Core.List.{List, ◌++◌}
use mathlib.Core.Option.{Option, none, some}
use native.Mathlib.Omega.{arith}
use mathlib.Core.Bool.{◌&&◌}
use middleware_development_d.Prelude.Tests.{ltb, leb, if◌then◌else◌}
use middleware_development_d.Prelude.Lists.{
  length, length-append, take, drop, length-take, length-drop, get_or, get_or-append, get_or-take,
  get_or-drop,
}

module _ {ℓ} {A : Type ℓ} where
  -- `dst` with `n` items of `src` from index `from` on put at `off`.
  unfoldable pub copied : List A → ℕ → List A → ℕ → ℕ → List A
  copied dst off src from n = take off dst ++ (take n (drop from src) ++ drop (off + n) dst)

  -- `memcpy(dst + off, src + from, n)`; `none` if it leaves either object.
  unfoldable pub memcpy : List A → ℕ → List A → ℕ → ℕ → Option (List A)
  unfolding copied
  memcpy dst off src from n =
      if leb (off + n) (length dst)
      then (if leb (from + n) (length src) then some (copied dst off src from n) else none)
      else none

  pub memcpy-eq_some :
      (dst : List A) (off : ℕ) (src : List A) (from n : ℕ)
      → off + n ≤ length dst
      → from + n ≤ length src
      → memcpy dst off src from n ≡ some (copied dst off src from n)
  unfolding memcpy
  memcpy-eq_some dst off src from n p q = ground arith

  pub length-copied :
      (dst : List A) (off : ℕ) (src : List A) (from n : ℕ)
      → off + n ≤ length dst
      → from + n ≤ length src
      → length (copied dst off src from n) ≡ length dst
  unfolding copied
  length-copied dst off src from n p q = omega (
    arith,
    length-append (take off dst) (take n (drop from src) ++ drop (off + n) dst),
    length-append (take n (drop from src)) (drop (off + n) dst),
    length-take off dst,
    length-take n (drop from src),
    length-drop from src,
    length-drop (off + n) dst,
  )

module _ {A : Type 0} where
  -- Copied items are those of the source, and all others stay.
  pub get_or-copied :
      (d : A) (dst : List A) (off : ℕ) (src : List A) (from n i : ℕ)
      → off + n ≤ length dst
      → from + n ≤ length src
      → get_or (copied dst off src from n) i d
        ≡ (if leb off i && ltb i (off + n) then get_or src (from + (i - off)) d else get_or dst i d)
  unfolding copied
  get_or-copied d dst off src from n i p q = ground (
    arith,
    get_or-append d (take off dst) (take n (drop from src) ++ drop (off + n) dst) i,
    get_or-append d (take n (drop from src)) (drop (off + n) dst) (i - off),
    length-take off dst,
    length-take n (drop from src),
    length-drop from src,
    get_or-take d off dst i,
    get_or-take d n (drop from src) (i - off),
    get_or-drop d from src (i - off),
    get_or-drop d (off + n) dst (i - off - n),
  )
