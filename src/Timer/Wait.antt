-- ===== src/Timer/Wait.antt =====
-- `wait_timer_expire` ends when all timers have run.
use middleware_development_d.Prelude.{
  ℕ, ◌+◌, ◌≤◌, ◌<◌, ◌≡◌, refl, sym, ap, ◌∙◌, inl, inr, Bool-cases, false, List, [], ◌∷◌, ◌++◌,
  length, length-append, arith, ltb, Run, Returns, returns, Returns-weaken,
}
use middleware_development_d.Rbtree.Store.{Ptr}
use middleware_development_d.Rbtree.Insert.{timer_less}
use middleware_development_d.Rbtree.Order.{Window, Sorted}
use middleware_development_d.Rbtree.Whole.{IsRbTree, count}
use middleware_development_d.Timer.{Entry, Timers, wait_timer_expire}
use middleware_development_d.Timer.Sequence.{Request, insert_all}
use middleware_development_d.Timer.Remove.{empty_root, first-Head}
use middleware_development_d.Timer.Dues.{due_part, drop_due, due_part-drop_due}
use middleware_development_d.Timer.Handlers.{Handles, logged, logged-kept, room, run_then}
use middleware_development_d.Timer.Expire.{Holder, Expired, expire_timer-Expired}

-- No timer is later than this.
abbrev pub AllBy : ℕ → List (Ptr × ℕ × ℕ) → Type 0
AllBy last [] = Unit {0}
AllBy last (y ∷ ys) = (y.1 ≤ last) × AllBy last ys

due_by : (last k : ℕ) → k ≤ last → ltb last k ≡ false
due_by last k h = ground (arith, h)

all_due : (last : ℕ) (l : List (Ptr × ℕ × ℕ)) → AllBy last l → drop_due last l ≡ []
all_due last [] all = refl
all_due last (y ∷ l) (h, all) = rw (due_by last y.1 h) (all_due last l all)

AllBy-drop_due :
    (last now : ℕ) (l : List (Ptr × ℕ × ℕ)) → AllBy last l → AllBy last (drop_due now l)
AllBy-drop_due last now [] all = tt
AllBy-drop_due last now (y ∷ l) (h, all) = elim (Bool-cases (ltb now y.1)) [
  | inl later ↦ rw later (h, all)
  | inr due ↦ rw due (AllBy-drop_due last now l all)
]

no_room : (l : List (Ptr × ℕ × ℕ)) → room 0 l ≡ 0
no_room [] = refl
no_room (y ∷ l) = omega (arith, no_room l)

none_asked : (asks : List Request) → length asks ≤ 0 → asks ≡ []
none_asked [] few = refl
none_asked (q ∷ asks) few = absurd (omega (arith, few))

logged-append :
    {L : Type 0} (push : ℕ → Ptr → L → L) (e : Ptr → Entry) (l r : List (Ptr × ℕ × ℕ)) (c : L)
    → logged push e (l ++ r) c ≡ logged push e r (logged push e l c)
logged-append push e [] r c = refl
logged-append push e (y ∷ l) r c = logged-append push e l r _

length-parts :
    (now : ℕ) (l : List (Ptr × ℕ × ℕ))
    → length (due_part now l) + length (drop_due now l) ≡ length l
length-parts now l =
    sym (length-append (due_part now l) (drop_due now l)) ∙ ap length (due_part-drop_due now l)

module _ {S L : Type 0} (timers : S → Timers) (put_timers : Timers → S → S) (calls : S → L)
    (push : ℕ → Ptr → L → L) (run : ℕ → Ptr → S → Run S) (fuel start : ℕ) (s : Ptr) where
  -- No timer is left, and the handlers of all were called in order.
  pub record Waited (w w' : S) (listed : List (Ptr × ℕ × ℕ)) : Type 0 where
    pub is : IsRbTree s (timers w').tree []
    pub called : calls w' ≡ logged push (timers w).entries listed (calls w)

  -- What `expire_timer` leaves where handlers add no timers.
  record Fewer (now : ℕ) (w w' : S) (listed : List (Ptr × ℕ × ℕ)) : Type 0 where
    pub is : IsRbTree s (timers w').tree (drop_due now listed)
    pub sorted : Sorted timer_less (Window start) (drop_due now listed)
    pub kept :
        (p : Ptr) → 1 ≤ count p (drop_due now listed) → (timers w').entries p ≡ (timers w).entries p
    pub called : calls w' ≡ logged push (timers w).entries (due_part now listed) (calls w)

  Expired-Fewer :
      (now : ℕ) (w w' : S) (listed : List (Ptr × ℕ × ℕ))
      → Expired timers put_timers calls push run fuel start s now 0 w w' listed
      → Fewer now w w' listed
  Expired-Fewer now w w' listed done =
      let none_new : done.asks ≡ [] =
        none_asked done.asks (omega (arith, done.few, no_room (due_part now listed))) in
      let same : insert_all done.asks (drop_due now listed) ≡ drop_due now listed =
        ap (λ qs. insert_all qs (drop_due now listed)) none_new in
      record {
        is = rw same at done.is;
        sorted = rw same at done.sorted;
        kept = done.kept;
        called = done.called;
      }

  Waited-join :
      (now : ℕ) (w w₁ w' : S) (listed : List (Ptr × ℕ × ℕ))
      → Fewer now w w₁ listed
      → Waited w₁ w' (drop_due now listed)
      → Waited w w' listed
  Waited-join now w w₁ w' listed some_run rest = record {
    is = rest.is;
    called =
        rest.called
        ∙ logged-kept push (timers w).entries (timers w₁).entries (drop_due now listed) (calls w₁)
            some_run.kept
        ∙ ap (logged push (timers w).entries (drop_due now listed)) some_run.called
        ∙ sym (
            logged-append push (timers w).entries (due_part now listed) (drop_due now listed)
              (calls w))
        ∙ ap (λ l. logged push (timers w).entries l (calls w)) (due_part-drop_due now listed);
  }

  -- On timers that form a red-black tree, in order, with deadlines in a window of 2^31 milliseconds in which
  -- the clock does not wrap, and that are part of a state which the handlers change; where each handler
  -- records its call, adds no timer, and leaves the entries of the other timers as they are; with a round
  -- more and fuel for the number of timers; whatever the clock shows from round to round, once it shows a
  -- time at or after all deadlines `wait_timer_expire` has ended: no timer is left, and the handlers of all
  -- were called, once each and in the order of the deadlines.
  pub wait_timer_expire-Waited :
      (rounds last : ℕ)
      → Holder timers put_timers calls push run fuel start s last 0
      → ((now : ℕ) → Handles timers put_timers calls push run fuel start s now 0)
      → start + 2147483648 ≤ 4294967296
      → start < 4294967296
      → (nows : List ℕ) (w : S) (listed : List (Ptr × ℕ × ℕ)) → IsRbTree s (timers w).tree listed
      → Sorted timer_less (Window start) listed
      → AllBy last listed
      → length listed < rounds
      → length listed ≤ fuel
      → Returns
          (λ w'. Waited w w' listed)
          (wait_timer_expire timers put_timers run fuel rounds (nows ++ last ∷ []) w)
  unfolding wait_timer_expire
  wait_timer_expire-Waited rounds last holder handles whole small [] w [] is sorted all enough
        space =
      rw (empty_root fuel s (timers w) is) (returns (record { is = is; called = refl }))
  wait_timer_expire-Waited rounds last holder handles whole small (now ∷ nows) w [] is sorted all
        enough space =
      rw (empty_root fuel s (timers w) is) (returns (record { is = is; called = refl }))
  wait_timer_expire-Waited rounds last holder handles whole small [] w (y ∷ ys) is sorted all enough
        space =
      let head = first-Head fuel s (timers w) y ys is space in
      rw head.full (
        run_then
          (expire_timer-Expired timers put_timers calls push run fuel start s last 0 holder
            (handles last) whole small rounds w (y ∷ ys) is sorted
            (omega (arith, enough, length-parts last (y ∷ ys)))
            (omega (arith, space, no_room (due_part last (y ∷ ys)))))
          λ w₁ done.
            let some_run = Expired-Fewer last w w₁ (y ∷ ys) done in
            let empty = rw (all_due last (y ∷ ys) all) at some_run.is in
            rw (empty_root fuel s (timers w₁) empty) (
              returns (
                Waited-join last w w₁ w₁ (y ∷ ys) some_run
                  (record { is = empty; called = rw (all_due last (y ∷ ys) all) refl }))))
  wait_timer_expire-Waited rounds last holder handles whole small (now ∷ nows) w (y ∷ ys) is sorted
        all enough space =
      let head = first-Head fuel s (timers w) y ys is space in
      rw head.full (
        run_then
          (expire_timer-Expired timers put_timers calls push run fuel start s now 0
            (record { got = holder.got; quiet = holder.quiet }) (handles now) whole small rounds w
            (y ∷ ys) is sorted (omega (arith, enough, length-parts now (y ∷ ys)))
            (omega (arith, space, no_room (due_part now (y ∷ ys)))))
          λ w₁ done.
            let some_run = Expired-Fewer now w w₁ (y ∷ ys) done in
            Returns-weaken
              (wait_timer_expire-Waited rounds last holder handles whole small nows w₁
                (drop_due now (y ∷ ys)) some_run.is some_run.sorted
                (AllBy-drop_due last now (y ∷ ys) all)
                (omega (arith, enough, length-parts now (y ∷ ys)))
                (omega (arith, space, length-parts now (y ∷ ys))))
              λ w' rest. Waited-join now w w₁ w' (y ∷ ys) some_run rest)
