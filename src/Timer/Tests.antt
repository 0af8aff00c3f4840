-- ===== src/Timer/Tests.antt =====
-- The timers' calls at a concrete tree.
use middleware_development_d.Prelude.{
  ℕ, List, ◌>>=◌, ◌≢◌, ◌∷◌, Returns, returns, ◌≡◌, ◌++◌, Run, refl, none, some, [], arith, ◌==◌,
  if◌then◌else◌, pos, negsuc, ok,
}
use middleware_development_d.Rbtree.Shape.{Shape, leaf, node}
use middleware_development_d.Timer.{
  Entry, Timers, init_timer, add_timer, find_nearest_expire_timer, expire_timer, wait_timer_expire,
}
use middleware_development_d.Timer.Nearest.{IsTimers, find_nearest_ahead, find_nearest_overdue}
use middleware_development_d.Rbtree.Insert.{timer_less}
use middleware_development_d.Rbtree.Order.{Window, Sorted}
use middleware_development_d.Rbtree.Whole.{IsRbTree}
use middleware_development_d.Timer.Add.{add_timer-IsRbTree}
use middleware_development_d.Timer.Sequence.{Request, add_all, add_all-sorts}
use middleware_development_d.Timer.Handlers.{Ran}
use middleware_development_d.Timer.Expire.{Expired, expire_timer-Expired}
use middleware_development_d.Timer.Wait.{Waited, wait_timer_expire-Waited}
use middleware_development_d.Timer.Soonest.{add_timer-find_nearest}
use middleware_development_d.Timer.Due.{expire_timer-waits}

-- One timer, at address 1, due at 1000.
abbrev one_timer : Timers
one_timer = record {
  tree = record {
    root = 1;
    sentinel = 9;
    cells = λ p.
        if p == 1
        then some (record { key = 1000; left = 9; right = 9; parent = 0; color = 0; payload = 0 })
        else none;
  };
  entries = λ p. record { handler = some 1; privdata = 0 };
}

abbrev one_shape : Shape
one_shape = node leaf 1 (record { key = 1000; color = 0; payload = 0 }) leaf

one_timer-IsTimers : IsTimers 1 one_timer one_shape
one_timer-IsTimers = record {
  over = 0;
  root = refl;
  held = (omega arith, refl, tt, tt);
  enough = omega arith;
}

ahead_run : find_nearest_expire_timer 1 400 one_timer ≡ ok (pos 600)
ahead_run =
    find_nearest_ahead 1 400 one_timer one_shape 1000 [] one_timer-IsTimers refl (omega arith)
      (omega arith) (omega arith)

find_nearest_overdue_example : find_nearest_expire_timer 1 1003 one_timer ≡ ok (negsuc 2)
find_nearest_overdue_example =
    find_nearest_overdue 1 1003 one_timer one_shape 1000 [] one_timer-IsTimers refl (omega arith)
      (omega arith) (omega arith)

waits_run : expire_timer (λ t. t) (λ t _. t) (λ _ _ t. ok t) 1 1 400 one_timer ≡ ok one_timer
waits_run =
    expire_timer-waits (λ t. t) (λ t _. t) (λ _ _ t. ok t) 1 0 400 one_timer one_shape 1000 []
      one_timer-IsTimers refl (omega arith)

-- The same timer with its sentinel.
abbrev kept_timer : Timers
kept_timer = record {
  tree = record {
    root = 1;
    sentinel = 9;
    cells = λ p.
        if p == 1
        then some (record { key = 1000; left = 9; right = 9; parent = 0; color = 0; payload = 0 })
        else (if p == 9
            then some (record { key = 0; left = 0; right = 0; parent = 0; color = 0; payload = 0 })
            else none);
  };
  entries = λ p. record { handler = some 1; privdata = 0 };
}

kept_timer-IsRbTree : IsRbTree 9 kept_timer.tree ((1, 1000, 0) ∷ [])
kept_timer-IsRbTree = record {
  bottom = record { key = 0; left = 0; right = 0; parent = 0; color = 0; payload = 0 };
  over = 0;
  shape = one_shape;
  focus = record {
    sentinel = refl;
    trail = tt;
    tree = (omega arith, refl, tt, tt);
    root = refl;
    once = λ z. ground arith;
    at_end = refl;
    end_black = refl;
  };
  level = (refl, tt, tt);
  calm = (refl, tt, tt);
  black_root = refl;
  same_items = refl;
}

abbrev ping : Entry
ping = record { handler = some 2; privdata = 7 }

add_timer-IsRbTree_example :
    Returns
      (λ t'.
        IsRbTree 9 t'.tree ((3, 450, 0) ∷ (1, 1000, 0) ∷ [])
        × Sorted timer_less (Window 400) ((3, 450, 0) ∷ (1, 1000, 0) ∷ [])
        × (t'.entries 3 ≡ ping)
        × ((p : ℕ) → p ≢ 3 → t'.entries p ≡ record { handler = some 1; privdata = 0 }))
      (add_timer 2 3 400 50 ping kept_timer)
add_timer-IsRbTree_example =
    add_timer-IsRbTree 2 400 9 3 400 50 ping kept_timer ((1, 1000, 0) ∷ []) (omega arith)
      kept_timer-IsRbTree ((omega arith, omega arith), tt, tt) (omega arith) (omega arith) refl
      (omega arith, omega arith) (omega arith)

add_timer-find_nearest_example :
    Returns
      (λ t'. find_nearest_expire_timer 2 400 t' ≡ ok (pos 50))
      (add_timer 2 3 400 50 ping kept_timer)
add_timer-find_nearest_example =
    add_timer-find_nearest 2 9 3 400 50 ping kept_timer ((1, 1000, 0) ∷ []) (omega arith)
      (omega arith) kept_timer-IsRbTree ((omega arith, omega arith), tt, tt) (omega arith)
      (omega arith) refl (omega arith)

-- The second of two timers comes first.
abbrev two_requests : List Request
two_requests =
    record { te = 3; now = 400; msec = 500; entry = ping }
    ∷ record { te = 4; now = 410; msec = 50; entry = ping }
    ∷ []

add_all-sorts_example :
    Returns
      (λ t'.
        IsRbTree 9 t'.tree ((4, 460, 0) ∷ (3, 900, 0) ∷ [])
        × Sorted timer_less (Window 400) ((4, 460, 0) ∷ (3, 900, 0) ∷ []))
      (init_timer 9 kept_timer >>= add_all 2 two_requests)
add_all-sorts_example =
    add_all-sorts 2 400 9 (omega arith) two_requests kept_timer
      (record { key = 0; left = 0; right = 0; parent = 0; color = 0; payload = 0 }) refl
      (
        omega arith,
        omega arith,
        refl,
        (omega arith, omega arith),
        (omega arith, omega arith, refl, (omega arith, omega arith), tt),
      )
      (omega arith)

-- A handler that records which timers it is called for.
abbrev Calls : Type 0
Calls = Timers × List ℕ

abbrev record_call : ℕ → ℕ → Calls → Run Calls
record_call h te w = ok (w.0, w.1 ++ te ∷ [])

record_call-Ran :
    (now h te : ℕ) (w : Calls) (listed : List (ℕ × ℕ × ℕ))
    → IsRbTree 9 (w.0).tree listed
    → Sorted timer_less (Window 400) listed
    → Returns
        (λ w'.
          Ran
            (λ v. v.0)
            (λ t v. (t, v.1))
            (λ v. v.1)
            (λ _ te l. l ++ te ∷ [])
            record_call
            1
            400
            9
            now
            0
            h
            te
            w
            w'
            listed)
        (record_call h te w)
record_call-Ran now h te w listed is sorted = returns (record {
  asks = [];
  few = omega arith;
  late = tt;
  is = is;
  sorted = sorted;
  kept = λ p inside. refl;
  called = refl;
})

expire_timer-Expired_example :
    Returns
      (λ w'.
        Expired
          (λ v. v.0)
          (λ t v. (t, v.1))
          (λ v. v.1)
          (λ _ te l. l ++ te ∷ [])
          record_call
          1
          400
          9
          1000
          0
          (kept_timer, [])
          w'
          ((1, 1000, 0) ∷ []))
      (expire_timer {S = Calls} (λ v. v.0) (λ t v. (t, v.1)) record_call 1 2 1000 (kept_timer, []))
expire_timer-Expired_example =
    expire_timer-Expired (λ v. v.0) (λ t v. (t, v.1)) (λ v. v.1) (λ _ te l. l ++ te ∷ [])
      record_call 1 400 9 1000 0 (record { got = λ t w. refl; quiet = λ t w. refl })
      (λ h te w listed is sorted inside space. record_call-Ran 1000 h te w listed is sorted)
      (omega arith) (omega arith) 2 (kept_timer, []) ((1, 1000, 0) ∷ []) kept_timer-IsRbTree
      ((omega arith, omega arith), tt, tt) (omega arith) (omega arith)

wait_timer_expire-Waited_example :
    Returns
      (λ w'.
        Waited
          (λ v. v.0)
          (λ t v. (t, v.1))
          (λ v. v.1)
          (λ _ te l. l ++ te ∷ [])
          record_call
          1
          400
          9
          (kept_timer, [])
          w'
          ((1, 1000, 0) ∷ []))
      (wait_timer_expire {S = Calls}
        (λ v. v.0)
        (λ t v. (t, v.1))
        record_call
        1
        2
        (990 ∷ 1000 ∷ [])
        (kept_timer, []))
wait_timer_expire-Waited_example =
    wait_timer_expire-Waited (λ v. v.0) (λ t v. (t, v.1)) (λ v. v.1) (λ _ te l. l ++ te ∷ [])
      record_call 1 400 9 2 1000 (record { got = λ t w. refl; quiet = λ t w. refl })
      (λ now h te w listed is sorted inside space. record_call-Ran now h te w listed is sorted)
      (omega arith) (omega arith) (990 ∷ []) (kept_timer, []) ((1, 1000, 0) ∷ [])
      kept_timer-IsRbTree ((omega arith, omega arith), tt, tt) (omega arith, tt) (omega arith)
      (omega arith)
