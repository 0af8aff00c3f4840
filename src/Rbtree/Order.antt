-- ===== src/Rbtree/Order.antt =====
-- The order in which the tree keeps what its nodes carry: address, key and `data`.
use middleware_development_d.Prelude.{
  ℕ, ◌<◌, ◌≡◌, refl, inl, inr, Bool, Bool-cases, true, false, List, [], ◌∷◌, ◌++◌, arith,
  if◌then◌else◌, sub32,
}
use middleware_development_d.Rbtree.Store.{Ptr}
use middleware_development_d.Rbtree.Insert.{key_less, timer_less}

-- A test that orders the keys of some range, ties left open.
pub record Order (less : ℕ → ℕ → Bool) (In : ℕ → Type 0) : Type 0 where
  pub not_less_trans :
      (a b c : ℕ) → In a → In b → In c → less b a ≡ false → less c b ≡ false → less c a ≡ false
  pub less_asym : (a b : ℕ) → In a → In b → less a b ≡ true → less b a ≡ false

pub key_less-Order : Order key_less (λ k. Unit {0})
key_less-Order = record {
  not_less_trans = λ a b c ia ib ic ab bc. ground (arith, ab, bc);
  less_asym = λ a b ia ib ab. ground (arith, ab);
}

-- The keys of the 2^31 milliseconds from `start`, which may wrap.
abbrev pub Window : ℕ → ℕ → Type 0
Window start k = (k < 4294967296) × (sub32 k start < 2147483648)

pub timer_less-Order : (start : ℕ) → start < 4294967296 → Order timer_less (Window start)
timer_less-Order start small = record {
  not_less_trans =
      λ a b c ia ib ic ab bc. ground (arith, ab, bc, ia.0, ia.1, ib.0, ib.1, ic.0, ic.1);
  less_asym = λ a b ia ib ab. ground (arith, ab, ia.0, ia.1, ib.0, ib.1);
}

module _ (less : ℕ → ℕ → Bool) where
  -- Before the first item with a greater key, so that equal keys stay in the order of their insertion.
  abbrev pub insert_item : Ptr × ℕ × ℕ → List (Ptr × ℕ × ℕ) → List (Ptr × ℕ × ℕ)
  insert_item x [] = x ∷ []
  insert_item x (y ∷ ys) = if less x.1 y.1 then x ∷ y ∷ ys else y ∷ insert_item x ys

  -- No key is greater than `k`, and none is less.
  abbrev pub Past : ℕ → List (Ptr × ℕ × ℕ) → Type 0
  Past k [] = Unit {0}
  Past k (y ∷ ys) = (less k y.1 ≡ false) × Past k ys

  abbrev pub Ahead : ℕ → List (Ptr × ℕ × ℕ) → Type 0
  Ahead k [] = Unit {0}
  Ahead k (y ∷ ys) = (less y.1 k ≡ false) × Ahead k ys

  pub insert_item-front :
      (x y : Ptr × ℕ × ℕ) (l r : List (Ptr × ℕ × ℕ))
      → less x.1 y.1 ≡ true
      → insert_item x (l ++ y ∷ r) ≡ insert_item x l ++ y ∷ r
  insert_item-front x y [] r lower = rw lower
  insert_item-front x y (j ∷ l) r lower = elim (Bool-cases (less x.1 j.1)) [
    | inl here ↦ rw here
    | inr later ↦ rw (later, insert_item-front x y l r lower)
  ]

  pub insert_item-back :
      (x : Ptr × ℕ × ℕ) (l r : List (Ptr × ℕ × ℕ))
      → Past x.1 l
      → insert_item x (l ++ r) ≡ l ++ insert_item x r
  insert_item-back x [] r past = refl
  insert_item-back x (j ∷ l) r past = rw (past.0, insert_item-back x l r past.1)

  module _ (In : ℕ → Type 0) where
    abbrev pub Sorted : List (Ptr × ℕ × ℕ) → Type 0
    Sorted [] = Unit {0}
    Sorted (y ∷ ys) = In y.1 × Ahead y.1 ys × Sorted ys

    Ahead-middle :
        (k : ℕ) (y : Ptr × ℕ × ℕ) (l r : List (Ptr × ℕ × ℕ))
        → Ahead k (l ++ y ∷ r)
        → less y.1 k ≡ false
    Ahead-middle k y [] r all = all.0
    Ahead-middle k y (j ∷ l) r all = Ahead-middle k y l r all.1

    Ahead-left : (k : ℕ) (l r : List (Ptr × ℕ × ℕ)) → Ahead k (l ++ r) → Ahead k l
    Ahead-left k [] r all = tt
    Ahead-left k (j ∷ l) r all = (all.0, Ahead-left k l r all.1)

    pub Sorted-left : (l r : List (Ptr × ℕ × ℕ)) → Sorted (l ++ r) → Sorted l
    Sorted-left [] r sorted = tt
    Sorted-left (j ∷ l) r (inside, all, sorted) =
        (inside, Ahead-left j.1 l r all, Sorted-left l r sorted)

    pub Sorted-right : (l r : List (Ptr × ℕ × ℕ)) → Sorted (l ++ r) → Sorted r
    Sorted-right [] r sorted = sorted
    Sorted-right (j ∷ l) r (inside, all, sorted) = Sorted-right l r sorted

    module _ (order : Order less In) where
      -- What comes before a key that is not greater does so as well.
      pub Sorted-Past :
          (k : ℕ) (y : Ptr × ℕ × ℕ) (l r : List (Ptr × ℕ × ℕ))
          → Sorted (l ++ y ∷ r)
          → In k
          → less k y.1 ≡ false
          → Past k l
      Sorted-Past k y [] r sorted inside higher = tt
      Sorted-Past k y (j ∷ l) r (ij, all, sorted) inside higher = (
        order.not_less_trans j.1 y.1 k ij (Sorted-right l (y ∷ r) sorted).0 inside
            (Ahead-middle j.1 y l r all) higher,
        Sorted-Past k y l r sorted inside higher,
      )

      Ahead-trans :
          (j k : ℕ) (l : List (Ptr × ℕ × ℕ))
          → In j
          → In k
          → less k j ≡ false
          → Sorted l
          → Ahead k l
          → Ahead j l
      Ahead-trans j k [] ij ik jk sorted all = tt
      Ahead-trans j k (y ∷ l) ij ik jk (iy, rest, sorted) (ky, all) =
          (order.not_less_trans j k y.1 ij ik iy jk ky, Ahead-trans j k l ij ik jk sorted all)

      Ahead-insert :
          (k : ℕ) (x : Ptr × ℕ × ℕ) (l : List (Ptr × ℕ × ℕ))
          → less x.1 k ≡ false
          → Ahead k l
          → Ahead k (insert_item x l)
      Ahead-insert k x [] kx all = (kx, tt)
      Ahead-insert k x (y ∷ l) kx (ky, all) = elim (Bool-cases (less x.1 y.1)) [
        | inl lower ↦ rw lower (kx, (ky, all))
        | inr higher ↦ rw higher (ky, Ahead-insert k x l kx all)
      ]

      pub insert_item-Sorted :
          (x : Ptr × ℕ × ℕ) (l : List (Ptr × ℕ × ℕ)) → In x.1 → Sorted l → Sorted (insert_item x l)
      insert_item-Sorted x [] inside sorted = (inside, tt, tt)
      insert_item-Sorted x (y ∷ l) inside (iy, all, sorted) = elim (Bool-cases (less x.1 y.1)) [
        | inl lower ↦
            let after = order.less_asym x.1 y.1 inside iy lower in
            rw lower
              (inside, (after, Ahead-trans x.1 y.1 l inside iy after sorted all), (iy, all, sorted))
        | inr higher ↦
            rw higher (iy, Ahead-insert y.1 x l higher all, insert_item-Sorted x l inside sorted)
      ]
