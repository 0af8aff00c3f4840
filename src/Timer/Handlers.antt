-- ===== src/Timer/Handlers.antt =====
-- What the handlers of timers do, and `if (te->handler) te->handler(te);` in `expire_timer`.
use middleware_development_d.Prelude.{
  ℕ, ◌+◌, ◌≤◌, ◌≡◌, refl, ◌∙◌, true, Option, none, some, List, [], ◌∷◌, length, arith, ◌==◌,
  if◌then◌else◌, Run, ok, fault, out_of_fuel, Returns, returns, Returns-weaken,
}
use middleware_development_d.Rbtree.Store.{Ptr}
use middleware_development_d.Rbtree.Insert.{timer_less}
use middleware_development_d.Rbtree.Order.{Window, Sorted}
use middleware_development_d.Rbtree.Whole.{IsRbTree, count}
use middleware_development_d.Timer.{Entry, Timers, touch}
use middleware_development_d.Timer.Sequence.{Request, insert_all}
use middleware_development_d.Timer.Dues.{Late}

pub same_address : (a : ℕ) → (a == a) ≡ true
same_address a = ground arith

pub first_counts : (a n : ℕ) → 1 ≤ (if a == a then 1 else 0) + n
first_counts a n = ground arith

pub run_then :
    {A B : Type 0} {P : A → Type 0} {Q : B → Type 0} {m : Run A} {k : A → Run B}
    → Returns P m
    → ((t : A) → P t → Returns Q (k t))
    → Returns Q (elim m [ ok t ↦ k t | fault ↦ fault | out_of_fuel ↦ out_of_fuel ])
run_then (returns {a = t} p) next = next t p

module _ {L : Type 0} (push : ℕ → Ptr → L → L) where
  -- The calls for these timers, in their order.
  abbrev pub said : Option ℕ → Ptr → L → L
  said none te l = l
  said (some h) te l = push h te l

  abbrev pub logged : (Ptr → Entry) → List (Ptr × ℕ × ℕ) → L → L
  logged entries [] l = l
  logged entries (y ∷ ys) l = logged entries ys (said (entries y.0).handler y.0 l)

  pub logged-kept :
      (e e' : Ptr → Entry) (ds : List (Ptr × ℕ × ℕ)) (l : L)
      → ((p : Ptr) → 1 ≤ count p ds → e' p ≡ e p)
      → logged e' ds l ≡ logged e ds l
  logged-kept e e' [] l kept = refl
  logged-kept e e' (y ∷ ds) l kept =
      rw (kept y.0 (first_counts y.0 (count y.0 ds)))
        (logged-kept e e' ds (said (e y.0).handler y.0 l) λ p h. kept p (omega (arith, h)))

-- Room for the timers that the handlers of these may add.
abbrev pub room : (most : ℕ) → List (Ptr × ℕ × ℕ) → ℕ
room most [] = 0
room most (y ∷ ys) = most + room most ys

-- What a handler and the loop do, seen by a record of the calls that the handlers keep.
module _ {S L : Type 0} (timers : S → Timers) (put_timers : Timers → S → S) (calls : S → L)
    (push : ℕ → Ptr → L → L) (run : ℕ → Ptr → S → Run S) (fuel start : ℕ) (s : Ptr)
    (now most : ℕ) where
  -- The handler `h` of the timer `te` was called: it recorded that, added at most `most` timers, for later
  -- than `now`, and left the entries of the timers that there were.
  pub record Ran (h : ℕ) (te : Ptr) (w w' : S) (listed : List (Ptr × ℕ × ℕ)) : Type 0 where
    pub asks : List Request
    pub few : length asks ≤ most
    pub late : Late start now asks
    pub is : IsRbTree s (timers w').tree (insert_all asks listed)
    pub sorted : Sorted timer_less (Window start) (insert_all asks listed)
    pub kept : (p : Ptr) → 1 ≤ count p listed → (timers w').entries p ≡ (timers w).entries p
    pub called : calls w' ≡ push h te (calls w)

  -- Every handler does so, with room for its timers.
  abbrev pub Handles : Type 0
  Handles =
      (h : ℕ) (te : Ptr) (w : S) (listed : List (Ptr × ℕ × ℕ))
      → IsRbTree s (timers w).tree listed
      → Sorted timer_less (Window start) listed
      → 1 ≤ count te listed
      → length listed + most ≤ fuel
      → Returns (λ w'. Ran h te w w' listed) (run h te w)

  -- `if (te->handler) te->handler(te);`
  pub record Touched (te : Ptr) (w w' : S) (listed : List (Ptr × ℕ × ℕ)) : Type 0 where
    pub asks : List Request
    pub few : length asks ≤ most
    pub late : Late start now asks
    pub is : IsRbTree s (timers w').tree (insert_all asks listed)
    pub sorted : Sorted timer_less (Window start) (insert_all asks listed)
    pub kept : (p : Ptr) → 1 ≤ count p listed → (timers w').entries p ≡ (timers w).entries p
    pub called : calls w' ≡ said push ((timers w).entries te).handler te (calls w)

  pub touch-Touched :
      Handles
      → (te : Ptr) (w : S) (listed : List (Ptr × ℕ × ℕ)) → IsRbTree s (timers w).tree listed
      → Sorted timer_less (Window start) listed
      → 1 ≤ count te listed
      → length listed + most ≤ fuel
      → Returns (λ w'. Touched te w w' listed) (touch timers put_timers run te w)
  unfolding touch
  touch-Touched handles te w listed is sorted inside enough =
      by_handler ((timers w).entries te).handler refl
    where
      by_handler :
          (o : Option ℕ)
          → ((timers w).entries te).handler ≡ o
          → Returns
              (λ w'. Touched te w w' listed)
              (elim ((timers w).entries te).handler [ none ↦ ok w | some h ↦ run h te w ])
      by_handler none e = rw e (
          returns (record {
            asks = [];
            few = omega arith;
            late = tt;
            is = is;
            sorted = sorted;
            kept = λ p h. refl;
            called = rw e refl;
          }))
      by_handler (some h) e = rw e (
          Returns-weaken (handles h te w listed is sorted inside enough) λ w' r. record {
            asks = r.asks;
            few = r.few;
            late = r.late;
            is = r.is;
            sorted = r.sorted;
            kept = r.kept;
            called = r.called ∙ rw e refl;
          })
