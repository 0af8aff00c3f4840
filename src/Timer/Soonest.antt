-- ===== src/Timer/Soonest.antt =====
-- `add_timer`, then `find_nearest_expire_timer`.
use middleware_development_d.Prelude.{
  ℕ, ◌≤◌, ◌<◌, ◌≡◌, ◌≢◌, refl, sym, ap, ◌∙◌, inl, inr, Bool-cases, true, false, List, [], ◌∷◌, ◌++◌,
  length, arith, min, add32, sub32, pos, ok, Returns, Returns-weaken,
}
use middleware_development_d.Rbtree.Store.{Ptr, null}
use middleware_development_d.Rbtree.Shape.{Shape, leaf, node, keys}
use middleware_development_d.Rbtree.Insert.{timer_less}
use middleware_development_d.Rbtree.Balance.{items}
use middleware_development_d.Rbtree.Order.{Window, insert_item, Sorted}
use middleware_development_d.Rbtree.Whole.{IsRbTree, count, size-items, length-insert_item}
use middleware_development_d.Timer.{Entry, Timers, timeout_of, add_timer, find_nearest_expire_timer}
use middleware_development_d.Timer.Nearest.{IsTimers, find_nearest_lem}
use middleware_development_d.Timer.Add.{add_timer-IsRbTree}

abbrev pub item_keys : List (Ptr × ℕ × ℕ) → List ℕ
item_keys [] = []
item_keys (y ∷ ys) = y.1 ∷ item_keys ys

item_keys-append : (l r : List (Ptr × ℕ × ℕ)) → item_keys (l ++ r) ≡ item_keys l ++ item_keys r
item_keys-append [] r = refl
item_keys-append (y ∷ l) r = ap (λ ks. y.1 ∷ ks) (item_keys-append l r)

pub keys-items : (sh : Shape) → keys sh ≡ item_keys (items sh)
keys-items leaf = refl
keys-items (node l a d r) =
    rw (item_keys-append (items l) ((a, d.key, d.payload) ∷ items r), keys-items l, keys-items r)

pub IsRbTree-IsTimers :
    (fuel : ℕ) (s : Ptr) (t : Timers) (listed : List (Ptr × ℕ × ℕ)) (is : IsRbTree s t.tree listed)
    → length listed ≤ fuel
    → IsTimers fuel t is.shape
IsRbTree-IsTimers fuel s t listed is enough = record {
  over = is.over;
  root = rw is.focus.sentinel is.focus.root;
  held = rw is.focus.sentinel is.focus.tree;
  enough = omega (arith, size-items is.shape, ap length is.same_items, enough);
}

-- With timers in order, the timeout is the wrapped difference to the first.
nearest_first :
    (fuel now : ℕ) (s : Ptr) (t : Timers) (listed : List (Ptr × ℕ × ℕ)) (y : Ptr × ℕ × ℕ)
    (later : List (Ptr × ℕ × ℕ))
    → listed ≡ y ∷ later
    → IsRbTree s t.tree listed
    → length listed ≤ fuel
    → find_nearest_expire_timer fuel now t ≡ ok (timeout_of (sub32 y.1 now))
nearest_first fuel now s t listed y later e is enough =
    find_nearest_lem fuel now t is.shape y.1 (item_keys later)
      (IsRbTree-IsTimers fuel s t listed is enough)
      (keys-items is.shape ∙ ap item_keys (is.same_items ∙ e))

-- The time left of the first of the timers, or of a new one.
abbrev pub soonest : (msec : ℕ) → (now : ℕ) → List (Ptr × ℕ × ℕ) → ℕ
soonest msec now [] = msec
soonest msec now (y ∷ ys) = min msec (sub32 y.1 now)

timeout_left : (left : ℕ) → left < 2147483648 → timeout_of left ≡ pos left
timeout_left left small = ground (arith, small)

sub32-add32 :
    (msec now : ℕ) → msec < 2147483648 → now < 4294967296 → sub32 (add32 msec now) now ≡ msec
sub32-add32 msec now short small = ground (arith, short, small)

module _ (now msec : ℕ) (short : msec < 2147483648) (small : now < 4294967296) where
  -- Of two deadlines in the window from now on, the lower by the wrapped test is the nearer.
  lower_soonest :
      (k : ℕ) → Window now k → timer_less (add32 msec now) k ≡ true → msec ≡ min msec (sub32 k now)
  lower_soonest k inside lower = ground (arith, short, small, inside.0, inside.1, lower)

  higher_soonest :
      (k : ℕ)
      → Window now k
      → timer_less (add32 msec now) k ≡ false
      → sub32 k now ≡ min msec (sub32 k now)
  higher_soonest k inside higher = ground (arith, short, small, inside.0, inside.1, higher)

  -- What comes first, and its time left.
  first :
      (x : Ptr × ℕ × ℕ)
      → x.1 ≡ add32 msec now
      → (listed : List (Ptr × ℕ × ℕ)) → Sorted timer_less (Window now) listed
      → (y : Ptr × ℕ × ℕ) × (later : List (Ptr × ℕ × ℕ)) × (insert_item timer_less x listed
          ≡ y ∷ later)
        × ((sub32 y.1 now ≡ soonest msec now listed) × (soonest msec now listed < 2147483648))
  first x key [] sorted =
      (x, [], refl, (ap (λ k. sub32 k now) key ∙ sub32-add32 msec now short small, short))
  first x key (y ∷ ys) (inside, rest, sorted) =
      let bounded : min msec (sub32 y.1 now) < 2147483648 = omega (arith, short) in
      elim (Bool-cases (timer_less x.1 y.1)) [
        | inl lower ↦ (
          x,
          y ∷ ys,
          rw lower refl,
          (
            ap (λ k. sub32 k now) key
                ∙ sub32-add32 msec now short small
                ∙ lower_soonest y.1 inside (ap (λ k. timer_less k y.1) (sym key) ∙ lower),
            bounded,
          ),
        )
        | inr higher ↦ (
          y,
          insert_item timer_less x ys,
          rw higher refl,
          (higher_soonest y.1 inside (ap (λ k. timer_less k y.1) (sym key) ∙ higher), bounded),
        )
      ]

  found :
      (fuel : ℕ) (s te : Ptr) (t' : Timers) (listed : List (Ptr × ℕ × ℕ))
      → Sorted timer_less (Window now) listed
      → IsRbTree s t'.tree (insert_item timer_less (te, add32 msec now, 0) listed)
      → length listed < fuel
      → find_nearest_expire_timer fuel now t' ≡ ok (pos (soonest msec now listed))
  found fuel s te t' listed sorted is enough =
      let x : Ptr × ℕ × ℕ = (te, add32 msec now, 0) in
      let (y, later, e, value) = first x refl listed sorted in
      let (left, small_left) = value in
      nearest_first fuel now s t' (insert_item timer_less x listed) y later e is
        (omega (arith, length-insert_item timer_less x listed, enough))
      ∙ ap (λ v. ok v) (rw left (timeout_left (soonest msec now listed) small_left))

-- Let the timers form a red-black tree, with deadlines in order and within 2^31 milliseconds from now on,
-- let `malloc` give a block that is in use nowhere, and let there be fuel for the number of timers. Once
-- `add_timer` has added one of fewer than 2^31 milliseconds, which it does, `find_nearest_expire_timer` at
-- that time gives the lower of `msec` and the time left of the first timer there was.
pub add_timer-find_nearest :
    (fuel : ℕ) (s te : Ptr) (now msec : ℕ) (entry : Entry) (t : Timers)
    (listed : List (Ptr × ℕ × ℕ))
    → now < 4294967296
    → msec < 2147483648
    → IsRbTree s t.tree listed
    → Sorted timer_less (Window now) listed
    → te ≢ null
    → te ≢ s
    → count te listed ≡ 0
    → length listed < fuel
    → Returns
        (λ t'. find_nearest_expire_timer fuel now t' ≡ ok (pos (soonest msec now listed)))
        (add_timer fuel te now msec entry t)
add_timer-find_nearest fuel s te now msec entry t listed small short is sorted given real out
      enough =
    Returns-weaken
      (add_timer-IsRbTree fuel now s te now msec entry t listed small is sorted given real out
        (ground (arith, small, short)) enough)
      λ t' (done, sorted', here, others).
        found now msec short small fuel s te t' listed sorted done enough
