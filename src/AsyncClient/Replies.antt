-- ===== src/AsyncClient/Replies.antt =====
-- The client disconnects once, at its last reply.
use middleware_development_d.Prelude.{
  ℕ, suc, ◌+◌, ◌≡◌, refl, ap, ◌∙◌, inl, inr, true, false, Bool-cases, ◌&&◌, Option, none, some,
  List, [], ◌∷◌, arith, ltb, leb, ◌==◌, if◌then◌else◌,
}
use middleware_development_d.AsyncClient.{Client, get_callback}

unfoldable pub replies : List (Option ℕ) → Client → Client
replies [] c = c
replies (r ∷ rs) c = replies rs (get_callback r c)

-- The replies that are not NULL.
abbrev pub answered : List (Option ℕ) → ℕ
answered [] = 0
answered (none ∷ rs) = answered rs
answered (some n ∷ rs) = suc (answered rs)

get_callback-null : (c : Client) → get_callback none c ≡ c
unfolding get_callback
get_callback-null c = refl

get_callback-last :
    (n : ℕ) (c : Client)
    → (c.cnt + 1 == c.num) ≡ true
    → get_callback (some n) c ≡ record c { cnt = c.cnt + 1; disconnects = c.disconnects + 1 }
unfolding get_callback
get_callback-last n c last = simp (get_callback, last)

get_callback-other :
    (n : ℕ) (c : Client)
    → (c.cnt + 1 == c.num) ≡ false
    → get_callback (some n) c ≡ record c { cnt = c.cnt + 1 }
unfolding get_callback
get_callback-other n c other = simp (get_callback, other)

-- Whatever replies come, NULL or not, the client calls `redisAsyncDisconnect` once more exactly when
-- they take its count from below `num` to `num` or past it, and else not.
pub replies-disconnects :
    (rs : List (Option ℕ)) (c : Client)
    → (replies rs c).disconnects ≡ (
        if ltb c.cnt c.num && leb c.num (c.cnt + answered rs)
        then c.disconnects + 1
        else c.disconnects)
unfolding replies
replies-disconnects [] c = ground arith
replies-disconnects (none ∷ rs) c =
    ap (λ x. (replies rs x).disconnects) (get_callback-null c) ∙ replies-disconnects rs c
replies-disconnects (some n ∷ rs) c = elim (Bool-cases (c.cnt + 1 == c.num)) [
  | inl last ↦
      let c' : Client = record c { cnt = c.cnt + 1; disconnects = c.disconnects + 1 } in
      ap (λ x. (replies rs x).disconnects) (get_callback-last n c last)
      ∙ replies-disconnects rs c'
      ∙ ground arith
  | inr other ↦
      let c' : Client = record c { cnt = c.cnt + 1 } in
      ap (λ x. (replies rs x).disconnects) (get_callback-other n c other)
      ∙ replies-disconnects rs c'
      ∙ ground arith
]
