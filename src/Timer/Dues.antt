-- ===== src/Timer/Dues.antt =====
-- The timers of a sorted list that are due, those that are not, and calls of `add_timer` for later ones.
use middleware_development_d.Prelude.{
  ℕ, ◌+◌, ◌≤◌, ◌<◌, ◌≡◌, refl, ap, ◌∙◌, inl, inr, Bool-cases, true, false, List, [], ◌∷◌, ◌++◌,
  length, arith, ltb, if◌then◌else◌, add32,
}
use middleware_development_d.Rbtree.Store.{Ptr}
use middleware_development_d.Rbtree.Insert.{timer_less}
use middleware_development_d.Rbtree.Order.{
  Window, timer_less-Order, insert_item, insert_item-Sorted, Ahead, Sorted,
}
use middleware_development_d.Rbtree.Whole.{count, length-insert_item}
use middleware_development_d.Timer.Sequence.{Request, asked, insert_all}

-- The timers that the loop of `expire_timer` finds due at the front, and the rest.
abbrev pub due_part : ℕ → List (Ptr × ℕ × ℕ) → List (Ptr × ℕ × ℕ)
due_part now [] = []
due_part now (y ∷ ys) = if ltb now y.1 then [] else y ∷ due_part now ys

abbrev pub drop_due : ℕ → List (Ptr × ℕ × ℕ) → List (Ptr × ℕ × ℕ)
drop_due now [] = []
drop_due now (y ∷ ys) = if ltb now y.1 then y ∷ ys else drop_due now ys

-- The deadlines asked for are later than `now`, and in the window.
abbrev pub Late : ℕ → ℕ → List Request → Type 0
Late start now [] = Unit {0}
Late start now (q ∷ qs) =
    (now < add32 q.msec q.now) × Window start (add32 q.msec q.now) × Late start now qs

-- No timer is due.
abbrev pub AllLate : ℕ → List (Ptr × ℕ × ℕ) → Type 0
AllLate now [] = Unit {0}
AllLate now (y ∷ ys) = (now < y.1) × AllLate now ys

pub insert_all-append :
    (qs rs : List Request) (l : List (Ptr × ℕ × ℕ))
    → insert_all (qs ++ rs) l ≡ insert_all rs (insert_all qs l)
insert_all-append [] rs l = refl
insert_all-append (q ∷ qs) rs l = insert_all-append qs rs (insert_item timer_less (asked q) l)

pub length-insert_all :
    (qs : List Request) (l : List (Ptr × ℕ × ℕ)) → length (insert_all qs l) ≡ length l + length qs
length-insert_all [] l = omega arith
length-insert_all (q ∷ qs) l = omega (
  arith,
  length-insert_all qs (insert_item timer_less (asked q) l),
  length-insert_item timer_less (asked q) l,
)

pub Late-append :
    (start now : ℕ) (qs rs : List Request)
    → Late start now qs
    → Late start now rs
    → Late start now (qs ++ rs)
Late-append start now [] rs late more = more
Late-append start now (q ∷ qs) rs (later, inside, late) more =
    (later, inside, Late-append start now qs rs late more)

pub count-due_part :
    (p : Ptr) (now : ℕ) (l : List (Ptr × ℕ × ℕ)) → count p (due_part now l) ≤ count p l
count-due_part p now [] = omega arith
count-due_part p now (y ∷ l) = elim (Bool-cases (ltb now y.1)) [
  | inl later ↦ rw later (omega arith)
  | inr due ↦ rw due (omega (arith, count-due_part p now l))
]

-- A timer stays among the others when some are added; the due part and the rest are all of them.
count-insert_item :
    (p : Ptr) (x : Ptr × ℕ × ℕ) (l : List (Ptr × ℕ × ℕ))
    → count p l ≤ count p (insert_item timer_less x l)
count-insert_item p x [] = omega arith
count-insert_item p x (y ∷ l) = elim (Bool-cases (timer_less x.1 y.1)) [
  | inl lower ↦ rw lower (omega arith)
  | inr higher ↦ rw higher (omega (arith, count-insert_item p x l))
]

pub count-insert_all :
    (p : Ptr) (qs : List Request) (l : List (Ptr × ℕ × ℕ)) → count p l ≤ count p (insert_all qs l)
count-insert_all p [] l = omega arith
count-insert_all p (q ∷ qs) l = omega (
  arith,
  count-insert_item p (asked q) l,
  count-insert_all p qs (insert_item timer_less (asked q) l),
)

pub count-drop_due :
    (p : Ptr) (now : ℕ) (l : List (Ptr × ℕ × ℕ)) → count p (drop_due now l) ≤ count p l
count-drop_due p now [] = omega arith
count-drop_due p now (y ∷ l) = elim (Bool-cases (ltb now y.1)) [
  | inl later ↦ rw later (omega arith)
  | inr due ↦ rw due (omega (arith, count-drop_due p now l))
]

pub due_part-drop_due : (now : ℕ) (l : List (Ptr × ℕ × ℕ)) → due_part now l ++ drop_due now l ≡ l
due_part-drop_due now [] = refl
due_part-drop_due now (y ∷ l) = elim (Bool-cases (ltb now y.1)) [
  | inl later ↦ rw later refl
  | inr due ↦ rw due (ap (λ r. y ∷ r) (due_part-drop_due now l))
]

-- While the clock does not wrap in the window.
module _ (start now : ℕ) (whole : start + 2147483648 ≤ 4294967296) where
  not_before_due :
      (x k : ℕ)
      → Window start x
      → Window start k
      → now < x
      → ltb now k ≡ false
      → timer_less x k ≡ false
  not_before_due x k ix ik later due = ground (arith, whole, ix.0, ix.1, ik.0, ik.1, later, due)

  later_than :
      (x k : ℕ) → Window start x → Window start k → timer_less x k ≡ false → now < k → now < x
  later_than x k ix ik after later = ground (arith, whole, ix.0, ix.1, ik.0, ik.1, later, after)

  due_part-insert_item :
      (x : Ptr × ℕ × ℕ) (l : List (Ptr × ℕ × ℕ))
      → now < x.1
      → Window start x.1
      → Sorted timer_less (Window start) l
      → due_part now (insert_item timer_less x l) ≡ due_part now l
  due_part-insert_item x [] later inside sorted =
      let t : ltb now x.1 ≡ true = ground (arith, later) in rw t refl
  due_part-insert_item x (y ∷ l) later inside (iy, all, sorted) = elim (Bool-cases (ltb now y.1)) [
    | inl waits ↦ elim (Bool-cases (timer_less x.1 y.1)) [
      | inl lower ↦ let t : ltb now x.1 ≡ true = ground (arith, later) in rw (lower, waits, t) refl
      | inr higher ↦ rw (higher, waits) refl
    ]
    | inr due ↦
        rw (not_before_due x.1 y.1 inside iy later due, due)
          (ap (λ r. y ∷ r) (due_part-insert_item x l later inside sorted))
  ]

  drop_due-insert_item :
      (x : Ptr × ℕ × ℕ) (l : List (Ptr × ℕ × ℕ))
      → now < x.1
      → Window start x.1
      → Sorted timer_less (Window start) l
      → drop_due now (insert_item timer_less x l) ≡ insert_item timer_less x (drop_due now l)
  drop_due-insert_item x [] later inside sorted =
      let t : ltb now x.1 ≡ true = ground (arith, later) in rw t refl
  drop_due-insert_item x (y ∷ l) later inside (iy, all, sorted) = elim (Bool-cases (ltb now y.1)) [
    | inl waits ↦ elim (Bool-cases (timer_less x.1 y.1)) [
      | inl lower ↦
          let t : ltb now x.1 ≡ true = ground (arith, later) in rw (lower, waits, t, lower) refl
      | inr higher ↦ rw (higher, waits, higher) refl
    ]
    | inr due ↦
        rw (not_before_due x.1 y.1 inside iy later due, due)
          (drop_due-insert_item x l later inside sorted)
  ]

  module _ (small : start < 4294967296) where
    pub due_part-insert_all :
        (qs : List Request) (l : List (Ptr × ℕ × ℕ))
        → Late start now qs
        → Sorted timer_less (Window start) l
        → due_part now (insert_all qs l) ≡ due_part now l
    due_part-insert_all [] l late sorted = refl
    due_part-insert_all (q ∷ qs) l (later, inside, late) sorted =
        due_part-insert_all qs (insert_item timer_less (asked q) l) late (
          insert_item-Sorted timer_less (Window start) (timer_less-Order start small) (asked q) l
            inside sorted)
        ∙ due_part-insert_item (asked q) l later inside sorted

    pub drop_due-insert_all :
        (qs : List Request) (l : List (Ptr × ℕ × ℕ))
        → Late start now qs
        → Sorted timer_less (Window start) l
        → drop_due now (insert_all qs l) ≡ insert_all qs (drop_due now l)
    drop_due-insert_all [] l late sorted = refl
    drop_due-insert_all (q ∷ qs) l (later, inside, late) sorted =
        drop_due-insert_all qs (insert_item timer_less (asked q) l) late (
          insert_item-Sorted timer_less (Window start) (timer_less-Order start small) (asked q) l
            inside sorted)
        ∙ ap (insert_all qs) (drop_due-insert_item (asked q) l later inside sorted)

  -- A due timer stays in front.
  pub insert_all-due :
      (qs : List Request) (y : Ptr × ℕ × ℕ) (l : List (Ptr × ℕ × ℕ))
      → Late start now qs
      → Window start y.1
      → ltb now y.1 ≡ false
      → insert_all qs (y ∷ l) ≡ y ∷ insert_all qs l
  insert_all-due [] y l late iy due = refl
  insert_all-due (q ∷ qs) y l (later, inside, late) iy due =
      rw (not_before_due (add32 q.msec q.now) y.1 inside iy later due)
        (insert_all-due qs y (insert_item timer_less (asked q) l) late iy due)

  Ahead-AllLate :
      (k : ℕ) (l : List (Ptr × ℕ × ℕ))
      → Window start k
      → now < k
      → Ahead timer_less k l
      → Sorted timer_less (Window start) l
      → AllLate now l
  Ahead-AllLate k [] ik later all sorted = tt
  Ahead-AllLate k (y ∷ l) ik later (ky, all) (iy, more, sorted) =
      (later_than y.1 k iy ik ky later, Ahead-AllLate k l ik later all sorted)

  pub drop_due-AllLate :
      (l : List (Ptr × ℕ × ℕ)) → Sorted timer_less (Window start) l → AllLate now (drop_due now l)
  drop_due-AllLate [] sorted = tt
  drop_due-AllLate (y ∷ l) (iy, all, sorted) = elim (Bool-cases (ltb now y.1)) [
    | inl waits ↦
        let later : now < y.1 = ground (arith, waits) in
        rw waits (later, Ahead-AllLate y.1 l iy later all sorted)
    | inr due ↦ rw due (drop_due-AllLate l sorted)
  ]

insert_item-AllLate :
    (now : ℕ) (x : Ptr × ℕ × ℕ) (l : List (Ptr × ℕ × ℕ))
    → now < x.1
    → AllLate now l
    → AllLate now (insert_item timer_less x l)
insert_item-AllLate now x [] later all = (later, tt)
insert_item-AllLate now x (y ∷ l) later (ny, all) = elim (Bool-cases (timer_less x.1 y.1)) [
  | inl lower ↦ rw lower (later, (ny, all))
  | inr higher ↦ rw higher (ny, insert_item-AllLate now x l later all)
]

pub insert_all-AllLate :
    (start now : ℕ) (qs : List Request) (l : List (Ptr × ℕ × ℕ))
    → Late start now qs
    → AllLate now l
    → AllLate now (insert_all qs l)
insert_all-AllLate start now [] l late all = all
insert_all-AllLate start now (q ∷ qs) l (later, inside, late) all =
    insert_all-AllLate start now qs (insert_item timer_less (asked q) l) late
      (insert_item-AllLate now (asked q) l later all)
