-- ===== src/Timer/Expire.antt =====
-- `expire_timer` runs the timers that are due, each once and in order, and removes them.
use middleware_development_d.Prelude.{
  ℕ, zero, suc, ◌+◌, ◌≤◌, ◌<◌, ◌≡◌, refl, sym, ap, ◌∙◌, inl, inr, Bool-cases, true, false, List, [],
  ◌∷◌, ◌++◌, length, length-append, arith, ltb, ◌==◌, Run, Returns, returns, Returns-weaken,
}
use middleware_development_d.Rbtree.Store.{Ptr}
use middleware_development_d.Rbtree.Insert.{timer_less}
use middleware_development_d.Rbtree.Order.{Window, Sorted}
use middleware_development_d.Rbtree.Whole.{IsRbTree, count}
use middleware_development_d.Rbtree.Drop.{remove_item}
use middleware_development_d.Timer.{Timers, expire_timer}
use middleware_development_d.Timer.Sequence.{Request, insert_all}
use middleware_development_d.Timer.Dues.{
  due_part, drop_due, Late, AllLate, insert_all-append, length-insert_all, Late-append,
  count-insert_all, count-drop_due, count-due_part, due_part-insert_all, drop_due-insert_all,
  insert_all-due, drop_due-AllLate,
}
use middleware_development_d.Timer.Remove.{empty_root, first-Head, del_timer-IsRbTree}
use middleware_development_d.Timer.Handlers.{
  same_address, first_counts, run_then, logged, logged-kept, room, Handles, Touched, touch-Touched,
}

module _ {S L : Type 0} (timers : S → Timers) (put_timers : Timers → S → S) (calls : S → L)
    (push : ℕ → Ptr → L → L) (run : ℕ → Ptr → S → Run S) (fuel start : ℕ) (s : Ptr)
    (now most : ℕ) where
  -- Taking timers out of the state, and putting them in.
  pub record Holder : Type 0 where
    pub got : (t : Timers) (w : S) → timers (put_timers t w) ≡ t
    pub quiet : (t : Timers) (w : S) → calls (put_timers t w) ≡ calls w

  -- What `expire_timer` leaves.
  pub record Expired (w w' : S) (listed : List (Ptr × ℕ × ℕ)) : Type 0 where
    pub asks : List Request
    pub late : Late start now asks
    pub few : length asks ≤ room most (due_part now listed)
    pub kept :
        (p : Ptr) → 1 ≤ count p (drop_due now listed) → (timers w').entries p ≡ (timers w).entries p
    pub is : IsRbTree s (timers w').tree (insert_all asks (drop_due now listed))
    pub sorted : Sorted timer_less (Window start) (insert_all asks (drop_due now listed))
    pub none_due : AllLate now (insert_all asks (drop_due now listed))
    pub called : calls w' ≡ logged push (timers w).entries (due_part now listed) (calls w)

  -- With the first timer handled and removed, the rest of the loop does what is left to do.
  continue :
      (w w₁ : S) (t₂ : Timers) (w' : S) (y : Ptr × ℕ × ℕ) (ys : List (Ptr × ℕ × ℕ))
      (r : Touched timers put_timers calls push run fuel start s now most y.0 w w₁ (y ∷ ys))
      → Holder
      → start + 2147483648 ≤ 4294967296
      → start < 4294967296
      → Sorted timer_less (Window start) (y ∷ ys)
      → ltb now y.1 ≡ false
      → t₂.entries ≡ (timers w₁).entries
      → Expired (put_timers t₂ w₁) w' (insert_all r.asks ys)
      → Expired w w' (y ∷ ys)
  continue w w₁ t₂ w' y ys r holder whole small (iy, all, sorted) due same done =
      let rest = drop_due-insert_all start now whole small r.asks ys r.late sorted in
      let list : insert_all done.asks (drop_due now (insert_all r.asks ys))
          ≡ insert_all (r.asks ++ done.asks) (drop_due now (y ∷ ys)) =
        ap (insert_all done.asks) rest
        ∙ sym (insert_all-append r.asks done.asks (drop_due now ys))
        ∙ rw due refl in
      record {
        asks = r.asks ++ done.asks;
        late = Late-append start now r.asks done.asks r.late done.late;
        few = rw due (
            omega (
              arith,
              length-append r.asks done.asks,
              r.few,
              done.few,
              ap (room most) (due_part-insert_all start now whole small r.asks ys r.late sorted),
            ));
        kept = rw due λ p h.
            done.kept p
              (omega (arith, h, ap (count p) rest, count-insert_all p r.asks (drop_due now ys)))
            ∙ ap (λ t. t.entries p) (holder.got t₂ w₁)
            ∙ ap (λ e. e p) same
            ∙ r.kept p (omega (arith, h, count-drop_due p now ys));
        is = rw (sym list) done.is;
        sorted = rw (sym list) done.sorted;
        none_due = rw (sym list) done.none_due;
        called =
            done.called
            ∙ ap
                (λ ds.
                  logged push (timers (put_timers t₂ w₁)).entries ds (calls (put_timers t₂ w₁)))
                (due_part-insert_all start now whole small r.asks ys r.late sorted)
            ∙ ap (λ e. logged push e (due_part now ys) (calls (put_timers t₂ w₁)))
                (ap (λ t. t.entries) (holder.got t₂ w₁) ∙ same)
            ∙ ap (logged push (timers w₁).entries (due_part now ys)) (holder.quiet t₂ w₁)
            ∙ logged-kept push (timers w).entries (timers w₁).entries (due_part now ys) (calls w₁)
                (λ p h. r.kept p (omega (arith, h, count-due_part p now ys)))
            ∙ ap (logged push (timers w).entries (due_part now ys)) r.called
            ∙ rw due refl;
      }

  -- On timers that form a red-black tree, in order, with deadlines in a window of 2^31 milliseconds in which
  -- the clock does not wrap, and that are part of a state which the handlers change; where each handler
  -- records its call, adds at most `most` timers, for later than `now`, and leaves the entries of the other
  -- timers as they are; with a round more than there are due timers, and fuel for the timers and for those
  -- that may be added: `expire_timer` returns. The handlers of
  -- the due timers were called once each and in order, and no others; the tree has the timers that were not
  -- due, with their entries, and those that the handlers added, in order, and none of them is due.
  pub expire_timer-Expired :
      Holder
      → Handles timers put_timers calls push run fuel start s now most
      → start + 2147483648 ≤ 4294967296
      → start < 4294967296
      → (rounds : ℕ) (w : S) (listed : List (Ptr × ℕ × ℕ)) → IsRbTree s (timers w).tree listed
      → Sorted timer_less (Window start) listed
      → length (due_part now listed) < rounds
      → length listed + room most (due_part now listed) ≤ fuel
      → Returns (λ w'. Expired w w' listed) (expire_timer timers put_timers run fuel rounds now w)
  unfolding expire_timer
  expire_timer-Expired holder handles whole small zero w listed is sorted enough space =
      ground (arith, enough)
  expire_timer-Expired holder handles whole small (suc rounds) w [] is sorted enough space =
      rw (empty_root fuel s (timers w) is) (
        returns (record {
          asks = [];
          late = tt;
          few = omega arith;
          kept = λ p h. refl;
          is = is;
          sorted = sorted;
          none_due = tt;
          called = refl;
        }))
  expire_timer-Expired holder handles whole small (suc rounds) w (y ∷ ys) is sorted enough space =
      let head = first-Head fuel s (timers w) y ys is (omega (arith, space)) in
      elim (Bool-cases (ltb now y.1)) [
        | inl later ↦
            rw (head.full, head.found, head.reads, later)
              (returns (record {
                asks = [];
                late = tt;
                few = omega arith;
                kept = λ p h. refl;
                is = rw later is;
                sorted = rw later sorted;
                none_due = drop_due-AllLate start now whole (y ∷ ys) sorted;
                called = rw later refl;
              }))
        | inr due ↦
            let inside : 1 ≤ count y.0 (y ∷ ys) = first_counts y.0 (count y.0 ys) in
            let here : (y.0 == y.0) ≡ true = same_address y.0 in
            let space' : length (y ∷ ys) + (most + room most (due_part now ys)) ≤ fuel =
              rw due at space in
            rw (head.full, head.found, head.reads, due)
              (run_then
                (touch-Touched timers put_timers calls push run fuel start s now most handles y.0 w
                  (y ∷ ys) is sorted inside (omega (arith, space')))
                λ w₁ r.
                  let front = insert_all-due start now whole r.asks y ys r.late sorted.0 due in
                  let gone : remove_item y.0 (insert_all r.asks (y ∷ ys)) ≡ insert_all r.asks ys =
                    ap (remove_item y.0) front ∙ rw here refl in
                  let due_left =
                    due_part-insert_all start now whole small r.asks ys r.late sorted.2 in
                  run_then
                    (del_timer-IsRbTree fuel start s y.0 (timers w₁) (insert_all r.asks (y ∷ ys))
                      r.is r.sorted (rw front (first_counts y.0 (count y.0 (insert_all r.asks ys))))
                      (omega (arith, length-insert_all r.asks (y ∷ ys), r.few, space')))
                    λ t₂ (is₂, sorted₂, out, same).
                      Returns-weaken
                        (expire_timer-Expired holder handles whole small rounds (put_timers t₂ w₁)
                          (insert_all r.asks ys) (rw (holder.got t₂ w₁) (rw gone at is₂))
                          (rw gone at sorted₂) (rw due_left (omega (arith, rw due at enough)))
                          (omega (
                            arith,
                            length-insert_all r.asks ys,
                            ap (room most) due_left,
                            r.few,
                            space',
                          )))
                        λ w' done.
                          continue w w₁ t₂ w' y ys r holder whole small sorted due same done)
      ]
