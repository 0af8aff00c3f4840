-- ===== src/Prelude/Lists.antt =====
-- Lists measured and indexed by native numbers, under the library's names.
use Prim.Native.Nat.{ℕ, zero, suc, ◌+◌, ◌-◌, ◌≤◌, ◌<◌, min}
use mathlib.Core.Path.{◌≡◌, refl, ap, ap₂, sym, ◌∙◌}
use native.Mathlib.Decide.{dec_le}
use mathlib.Core.List.{List, [], ◌∷◌, ◌++◌}
use mathlib.Core.Option.{Option, none, some}
use native.Mathlib.Omega.{arith}
use mathlib.Core.Bool.{◌&&◌}
use middleware_development_d.Prelude.Tests.{ltb, ◌==◌, if◌then◌else◌}

module _ {ℓ} {A : Type ℓ} where
  abbrev pub length : List A → ℕ
  length [] = 0
  length (x ∷ xs) = suc (length xs)

  abbrev pub get_elem? : List A → ℕ → Option A
  get_elem? [] i = none
  get_elem? (x ∷ xs) zero = some x
  get_elem? (x ∷ xs) (suc i) = get_elem? xs i

  abbrev pub get_or : List A → ℕ → A → A
  get_or [] i d = d
  get_or (x ∷ xs) zero d = x
  get_or (x ∷ xs) (suc i) d = get_or xs i d

  -- A write out of bounds changes nothing.
  abbrev pub set : List A → ℕ → A → List A
  set [] i v = []
  set (x ∷ xs) zero v = v ∷ xs
  set (x ∷ xs) (suc i) v = x ∷ set xs i v

  abbrev pub take : ℕ → List A → List A
  take zero xs = []
  take (suc n) [] = []
  take (suc n) (x ∷ xs) = x ∷ take n xs

  abbrev pub drop : ℕ → List A → List A
  drop zero xs = xs
  drop (suc n) [] = []
  drop (suc n) (x ∷ xs) = drop n xs

  abbrev pub replicate : ℕ → A → List A
  replicate zero a = []
  replicate (suc n) a = a ∷ replicate n a

  -- The `n` values `f i, f (i + 1), ...`.
  abbrev pub tabulate : (ℕ → A) → ℕ → List A
  tabulate f zero = []
  tabulate f (suc n) = f 0 ∷ tabulate (λ i. f (suc i)) n

module _ {ℓ} {A : Type ℓ} where
  pub length-append : (xs ys : List A) → length (xs ++ ys) ≡ length xs + length ys
  length-append [] ys = omega arith
  length-append (x ∷ xs) ys = omega (arith, length-append xs ys)

  pub length-set : (xs : List A) (i : ℕ) (v : A) → length (set xs i v) ≡ length xs
  length-set [] i v = refl
  length-set (x ∷ xs) zero v = refl
  length-set (x ∷ xs) (suc i) v = ap suc (length-set xs i v)

  pub length-take : (n : ℕ) (xs : List A) → length (take n xs) ≡ min n (length xs)
  length-take zero xs = omega arith
  length-take (suc n) [] = omega arith
  length-take (suc n) (x ∷ xs) = omega (arith, length-take n xs)

  pub length-drop : (n : ℕ) (xs : List A) → length (drop n xs) ≡ length xs - n
  length-drop zero xs = omega arith
  length-drop (suc n) [] = omega arith
  length-drop (suc n) (x ∷ xs) = omega (arith, length-drop n xs)

  pub length-replicate : (n : ℕ) (a : A) → length (replicate n a) ≡ n
  length-replicate zero a = refl
  length-replicate (suc n) a = ap suc (length-replicate n a)

  pub length-tabulate : (f : ℕ → A) (n : ℕ) → length (tabulate f n) ≡ n
  length-tabulate f zero = refl
  length-tabulate f (suc n) = ap suc (length-tabulate (λ i. f (suc i)) n)

  pub take-append-drop : (n : ℕ) (xs : List A) → take n xs ++ drop n xs ≡ xs
  take-append-drop zero xs = refl
  take-append-drop (suc n) [] = refl
  take-append-drop (suc n) (x ∷ xs) = ap (λ t. x ∷ t) (take-append-drop n xs)

module _ {ℓ} {A : Type ℓ} where
  pub take-nil : (n : ℕ) → take {A = A} n [] ≡ []
  take-nil zero = refl
  take-nil (suc n) = refl

  pub drop-nil : (n : ℕ) → drop {A = A} n [] ≡ []
  drop-nil zero = refl
  drop-nil (suc n) = refl

  pub take-take : (m n : ℕ) (xs : List A) → m ≤ n → take m (take n xs) ≡ take m xs
  take-take zero n xs h = refl
  take-take (suc m) zero xs h = elim h [ ]
  take-take (suc m) (suc n) [] h = refl
  take-take (suc m) (suc n) (x ∷ xs) h = ap (λ t. x ∷ t) (take-take m n xs (omega arith))

  pub take-add : (m n : ℕ) (xs : List A) → take (m + n) xs ≡ take m xs ++ take n (drop m xs)
  take-add zero n xs = let e : 0 + n ≡ n = omega arith in rw e
  take-add (suc m) n [] = let e : suc m + n ≡ suc (m + n) = omega arith in rw (e, take-nil n)
  take-add (suc m) n (x ∷ xs) =
      let e : suc m + n ≡ suc (m + n) = omega arith in rw e (ap (λ t. x ∷ t) (take-add m n xs))

  pub drop-add : (m n : ℕ) (xs : List A) → drop (m + n) xs ≡ drop n (drop m xs)
  drop-add zero n xs = let e : 0 + n ≡ n = omega arith in rw e
  drop-add (suc m) n [] = let e : suc m + n ≡ suc (m + n) = omega arith in rw (e, drop-nil n)
  drop-add (suc m) n (x ∷ xs) =
      let e : suc m + n ≡ suc (m + n) = omega arith in rw e (drop-add m n xs)

  pub drop-replicate : (m n : ℕ) (a : A) → drop m (replicate n a) ≡ replicate (n - m) a
  drop-replicate zero n a = let e : n - 0 ≡ n = omega arith in rw e
  drop-replicate (suc m) zero a = let e : 0 - suc m ≡ 0 = omega arith in rw e
  drop-replicate (suc m) (suc n) a =
      let e : suc n - suc m ≡ n - m = omega arith in rw e (drop-replicate m n a)

  pub take-one-replicate : (n : ℕ) (a : A) → 0 < n → take 1 (replicate n a) ≡ a ∷ []
  take-one-replicate zero a h = absurd (omega arith)
  take-one-replicate (suc n) a h = refl

  pub take-append : (xs ys : List A) → take (length xs) (xs ++ ys) ≡ xs
  take-append [] ys = refl
  take-append (x ∷ xs) ys = ap (λ t. x ∷ t) (take-append xs ys)

  pub drop-append : (xs ys : List A) → drop (length xs) (xs ++ ys) ≡ ys
  drop-append [] ys = refl
  drop-append (x ∷ xs) ys = drop-append xs ys

  -- More than there is takes all.
  pub take-length : (n : ℕ) (xs : List A) → length xs ≤ n → take n xs ≡ xs
  take-length zero [] h = refl
  take-length zero (x ∷ xs) h = absurd (omega arith)
  take-length (suc n) [] h = refl
  take-length (suc n) (x ∷ xs) h = ap (λ t. x ∷ t) (take-length n xs (omega arith))

  pub drop-length : (n : ℕ) (xs : List A) → length xs ≤ n → drop n xs ≡ []
  drop-length zero [] h = refl
  drop-length zero (x ∷ xs) h = absurd (omega arith)
  drop-length (suc n) [] h = refl
  drop-length (suc n) (x ∷ xs) h = drop-length n xs (omega arith)

  pub take-min : (n : ℕ) (xs : List A) → take (min n (length xs)) xs ≡ take n xs
  take-min n xs = elim (dec_le n (length xs)) [
    | yes p ↦ ap (λ k. take k xs) (omega arith)
    | no p ↦
        let all : min n (length xs) ≡ length xs = omega arith in
        rw all (take-length (length xs) xs (omega arith) ∙ sym (take-length n xs (omega arith)))
  ]

  pub drop-min : (n : ℕ) (xs : List A) → drop (min n (length xs)) xs ≡ drop n xs
  drop-min n xs = elim (dec_le n (length xs)) [
    | yes p ↦ ap (λ k. drop k xs) (omega arith)
    | no p ↦
        let all : min n (length xs) ≡ length xs = omega arith in
        rw all (drop-length (length xs) xs (omega arith) ∙ sym (drop-length n xs (omega arith)))
  ]

module _ {ℓ} {A : Type ℓ} (d : A) where
  pub get_or-append :
      (xs ys : List A) (i : ℕ)
      → get_or (xs ++ ys) i d
        ≡ (if ltb i (length xs) then get_or xs i d else get_or ys (i - length xs) d)
  get_or-append [] ys i = ground arith
  get_or-append (x ∷ xs) ys zero = ground arith
  get_or-append (x ∷ xs) ys (suc i) = ground (arith, get_or-append xs ys i)

  pub get_or-take : (n : ℕ) (xs : List A) (i : ℕ) → i < n → get_or (take n xs) i d ≡ get_or xs i d
  get_or-take zero xs i h = elim h [ ]
  get_or-take (suc n) [] i h = refl
  get_or-take (suc n) (x ∷ xs) zero h = refl
  get_or-take (suc n) (x ∷ xs) (suc i) h = get_or-take n xs i (omega arith)

  pub get_or-drop : (n : ℕ) (xs : List A) (i : ℕ) → get_or (drop n xs) i d ≡ get_or xs (n + i) d
  get_or-drop zero xs i = ap (λ k. get_or xs k d) (omega arith)
  get_or-drop (suc n) [] i = refl
  get_or-drop (suc n) (x ∷ xs) i =
      ground (arith, get_or-drop n xs i, ap (λ k. get_or (x ∷ xs) k d) shift)
    where
      shift : suc n + i ≡ suc (n + i)
      shift = omega arith

  pub get_or-tabulate : (f : ℕ → A) (n i : ℕ) → i < n → get_or (tabulate f n) i d ≡ f i
  get_or-tabulate f zero i h = elim h [ ]
  get_or-tabulate f (suc n) zero h = refl
  get_or-tabulate f (suc n) (suc i) h = get_or-tabulate (λ i. f (suc i)) n i (omega arith)

  pub get_or-set :
      (xs : List A) (i : ℕ) (v : A) (j : ℕ)
      → get_or (set xs i v) j d ≡ (if i == j && ltb i (length xs) then v else get_or xs j d)
  get_or-set [] i v j = ground arith
  get_or-set (x ∷ xs) zero v zero = ground arith
  get_or-set (x ∷ xs) zero v (suc j) = ground arith
  get_or-set (x ∷ xs) (suc i) v zero = ground arith
  get_or-set (x ∷ xs) (suc i) v (suc j) = ground (arith, get_or-set xs i v j)

  pub get_elem?-eq-get_or :
      (xs : List A) (i : ℕ) → i < length xs → get_elem? xs i ≡ some (get_or xs i d)
  get_elem?-eq-get_or [] i h = elim h [ ]
  get_elem?-eq-get_or (x ∷ xs) zero h = refl
  get_elem?-eq-get_or (x ∷ xs) (suc i) h = get_elem?-eq-get_or xs i (omega arith)

  -- Two lists of one length are equal if they agree at every index.
  pub eq_of_get_or :
      (xs ys : List A)
      → length xs ≡ length ys
      → ((i : ℕ) → i < length xs → get_or xs i d ≡ get_or ys i d)
      → xs ≡ ys
  eq_of_get_or [] [] e h = refl
  eq_of_get_or [] (y ∷ ys) e h = absurd (omega arith)
  eq_of_get_or (x ∷ xs) [] e h = absurd (omega arith)
  eq_of_get_or (x ∷ xs) (y ∷ ys) e h =
      ap₂ ◌∷◌ (h 0 (omega arith)) (eq_of_get_or xs ys (omega arith) λ i l. h (suc i) (omega arith))

  pub tabulate-eq :
      (f : ℕ → A) (n : ℕ) (ys : List A)
      → n ≡ length ys
      → ((i : ℕ) → i < n → f i ≡ get_or ys i d)
      → tabulate f n ≡ ys
  tabulate-eq f zero [] e h = refl
  tabulate-eq f zero (y ∷ ys) e h = absurd (omega arith)
  tabulate-eq f (suc n) [] e h = absurd (omega arith)
  tabulate-eq f (suc n) (y ∷ ys) e h =
      ap₂ ◌∷◌ (h 0 (omega arith))
        (tabulate-eq (λ i. f (suc i)) n ys (omega arith) λ i l. h (suc i) (omega arith))
