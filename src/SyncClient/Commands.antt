-- ===== src/SyncClient/Commands.antt =====
-- The replies to the commands, all of them or up to one that is missing.
use middleware_development_d.Prelude.{
  ℕ, zero, suc, ◌+◌, ◌<◌, ◌≡◌, refl, sym, ap, ap₂, ◌∙◌, Option, none, some, List, [], ◌∷◌, ◌++◌,
  append_assoc, append-nil, length, arith, ℤ, Option-cases, inl, inr, ok, fault,
}
use middleware_development_d.SyncClient.{
  Line, counter, used, Session, answered, Clock, connected, commands, current_tick, rounds_to,
  difference, wanted, main,
}

-- The replies from command `i` on have these values.
abbrev pub Answers : (ℕ → Option ℤ) → ℕ → List ℤ → Type 0
Answers replies i [] = Unit {0}
Answers replies i (v ∷ vs) = (replies i ≡ some v) × Answers replies (suc i) vs

abbrev pub counters : List ℤ → List Line
counters [] = []
counters (v ∷ vs) = counter v ∷ counters vs

commands-counters :
    (replies : ℕ → Option ℤ) (vs : List ℤ) (i : ℕ) (c : Session)
    → Answers replies i vs
    → commands replies (length vs) i c
      ≡ ok
          (record c { lines = c.lines ++ counters vs; freed_replies = c.freed_replies + length vs })
unfolding commands
commands-counters replies [] i c all =
    ap₂ (λ l r. ok (record c { lines = l; freed_replies = r })) (sym (append-nil c.lines))
      (omega arith)
commands-counters replies (v ∷ vs) i c all = rw all.0 (
    commands-counters replies vs (suc i) (answered v c) all.1
    ∙ ap₂ (λ l r. ok (record c { lines = l; freed_replies = r }))
        (append_assoc c.lines (counter v ∷ []) (counters vs)) (omega arith))

-- A missing reply ends the program: the first one is read through NULL.
commands-missing :
    (replies : ℕ → Option ℤ) (n i k : ℕ) (c : Session)
    → k < n
    → replies (i + k) ≡ none
    → commands replies n i c ≡ fault
unfolding commands
commands-missing replies zero i k c less missing = ground (arith, less)
commands-missing replies (suc n) i zero c less missing =
    let here : replies i ≡ none = ap replies (ground arith) ∙ missing in rw (here, commands) refl
commands-missing replies (suc n) i (suc k) c less missing = elim (Option-cases (replies i)) [
  | inl gone ↦ rw (gone, commands) refl
  | inr (v, there) ↦
      rw (there, commands)
        (commands-missing replies n (suc i) k (answered v c) (omega (arith, less))
          (ap replies (ground arith) ∙ missing))
]

module _ (replies : ℕ → Option ℤ) (arg : Option ℤ) (start finish : Clock) where
  -- Connected, with a reply to each of the commands asked for and a clock within an `int`: `main` prints
  -- the replies' values in order and the time that passed, frees each reply and the context, and returns 0.
  pub main-counters :
      (vs : List ℤ) (before after : ℕ)
      → rounds_to (wanted arg) ≡ length vs
      → Answers replies 0 vs
      → current_tick start.sec start.nsec ≡ ok before
      → current_tick finish.sec finish.nsec ≡ ok after
      → main connected arg start finish replies
        ≡ ok (
          0,
          record {
            lines = counters vs ++ used (wanted arg) (difference after before) ∷ [];
            freed_replies = length vs;
            freed_contexts = 1;
          },
        )
  unfolding main
  main-counters vs before after num all b a =
      rw
        (
          b,
          num,
          commands-counters replies vs 0
              (record { lines = []; freed_replies = 0; freed_contexts = 0 }) all,
          a,
        )
        (ap
          (λ r. ok (
            0,
            record {
              lines = counters vs ++ used (wanted arg) (difference after before) ∷ [];
              freed_replies = r;
              freed_contexts = 1;
            },
          ))
          (omega arith))

  -- Connected, with no reply to one of the commands asked for and the clock within an `int` at the start:
  -- `main` reads through NULL.
  pub main-missing :
      (k before : ℕ)
      → k < rounds_to (wanted arg)
      → replies k ≡ none
      → current_tick start.sec start.nsec ≡ ok before
      → main connected arg start finish replies ≡ fault
  unfolding main
  main-missing k before less missing b =
      rw
        (
          b,
          commands-missing replies (rounds_to (wanted arg)) 0 k
              (record { lines = []; freed_replies = 0; freed_contexts = 0 }) less
              (ap replies (ground arith) ∙ missing),
        )
        refl
