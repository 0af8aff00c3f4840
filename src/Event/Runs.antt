-- ===== src/Event/Runs.antt =====
-- How many bytes the kernel takes of runs of bytes that are offered one after the other.
use middleware_development_d.Prelude.{
  ℕ, ◌+◌, ◌<◌, ◌≡◌, refl, ap, sym, ◌∙◌, [], ◌∷◌, min, if◌then◌else◌, true, false, List, arith, leb,
}

-- How many bytes are taken of runs of these lengths, when each is offered at one call, for which the kernel
-- has this room, and the next one only when all of it was taken.
abbrev pub delivered : (runs : List ℕ) → (rooms : List ℕ) → ℕ
delivered [] ks = 0
delivered (n ∷ ns) [] = 0
delivered (n ∷ ns) (k ∷ ks) = let more = delivered ns ks in if leb n k then n + more else k

-- A run of no bytes takes none.
pub delivered-zero : (ks : List ℕ) → delivered (0 ∷ []) ks ≡ 0
delivered-zero [] = refl
delivered-zero (k ∷ ks) = ground arith

pub delivered-cons :
    (n n' : ℕ) (ks : List ℕ) → n' ≡ 0 → delivered (n ∷ n' ∷ []) ks ≡ delivered (n ∷ []) ks
delivered-cons n n' [] e = refl
delivered-cons n n' (k ∷ ks) e =
    ap (λ x. delivered (n ∷ x ∷ []) (k ∷ ks)) e
    ∙ ap (λ x. if leb n k then n + x else k) (delivered-zero ks)

pub delivered_part :
    (n n' k m : ℕ) (ks : List ℕ) → m ≡ min k n → m < n → delivered (n ∷ n' ∷ []) (k ∷ ks) ≡ m
delivered_part n n' k m ks e less =
    let stops : leb n k ≡ false = ground (arith, less, e) in rw stops (omega (arith, less, e))

pub delivered_on :
    (n n' k m : ℕ) (ks : List ℕ)
    → m ≡ min k n
    → m ≡ n
    → delivered (n ∷ n' ∷ []) (k ∷ ks) ≡ m + delivered (n' ∷ []) ks
delivered_on n n' k m ks e all =
    let goes : leb n k ≡ true = ground (arith, all, e) in rw (goes, sym all) refl
