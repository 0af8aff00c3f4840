-- ===== src/PrefixFilter/Body.antt =====
-- A whole response through the two filters: the prefix once, in front, and the length announced.
use middleware_development_d.Prelude.{
  ℕ, ◌+◌, ◌<◌, ◌≡◌, ◌≢◌, refl, sym, ap, ◌∙◌, inl, inr, Bool, true, false, Bool-cases, Option-cases,
  Option, none, some, List, [], ◌∷◌, ◌++◌, arith, length, ◌==◌, ℤ, pos, Run, ok, fault, ◌>>=◌,
  Returns, returns, Returns-eq_ok,
}
use middleware_development_d.PrefixFilter.{
  Request, returned, next_header_filter, next_body_filter, filter_prefix, lengthened, is_html,
  marked, header_filter, body_filter,
}
use middleware_development_d.PrefixFilter.Header.{
  applies, header_filter-applies, marked_html, marked_plain,
}

abbrev pub concat : List (List (List ℕ)) → List (List ℕ)
concat [] = []
concat (c ∷ cs) = c ++ concat cs

-- The number of bytes in a chain.
abbrev pub bytes : List (List ℕ) → ℕ
bytes [] = 0
bytes (b ∷ bs) = length b + bytes bs

-- The chains of one response, one call of the body filter for each, and what is handed on in all.
unfoldable pub stream : Request → List (List (List ℕ)) → Run (List (List ℕ))
unfolding body_filter
stream r [] = ok []
stream r (c ∷ cs) = body_filter true r c >>= λ a. elim a [
  | next_body_filter r' out ↦ stream r' cs >>= λ rest. ok (out ++ rest)
  | next_header_filter r' ↦ fault
  | returned n ↦ fault
]

differs : (n : ℕ) → n ≢ 1 → (n == 1) ≡ false
differs n h = ground arith

abbrev mark_of : Option ℕ → ℕ
mark_of none = 0
mark_of (some n) = n

unmarked : {o : Option ℕ} → mark_of o ≢ 1 → o ≢ some 1
unmarked h e = h (ap mark_of e)

body_filter-unmarked :
    (memory : Bool) (r : Request) (in_ : List (List ℕ))
    → r.ctx ≢ some 1
    → body_filter memory r in_ ≡ ok (next_body_filter r in_)
unfolding body_filter
body_filter-unmarked memory r in_ h = elim (Option-cases r.ctx) [
  | inl unset ↦ simp (body_filter, unset)
  | inr (n, set) ↦
      let other : (n == 1) ≡ false = differs n λ e. h (set ∙ ap (λ m. some m) e) in
      simp (body_filter, set, other)
]

-- Without the mark the chains are handed on as they are.
pub stream-unmarked :
    (r : Request) (cs : List (List (List ℕ))) → r.ctx ≢ some 1 → stream r cs ≡ ok (concat cs)
unfolding stream
stream-unmarked r [] h = refl
stream-unmarked r (c ∷ cs) h = rw (body_filter-unmarked true r c h, stream-unmarked r cs h)

body_filter-marked :
    (r : Request) (c : List (List ℕ))
    → r.ctx ≡ some 1
    → body_filter true r c ≡ ok (next_body_filter (record r { ctx = some 2 }) (filter_prefix ∷ c))
unfolding body_filter
body_filter-marked r c h = simp (body_filter, h)

-- On a marked response, when the pool has memory, the body filter hands on the prefix first and once, and then all chains as
-- they are.
pub stream-marked :
    (r : Request) (c : List (List ℕ)) (cs : List (List (List ℕ)))
    → r.ctx ≡ some 1
    → stream r (c ∷ cs) ≡ ok (filter_prefix ∷ concat (c ∷ cs))
unfolding stream
stream-marked r c cs h =
    let first : body_filter true r c
        ≡ ok (next_body_filter (record r { ctx = some 2 }) (filter_prefix ∷ c)) =
      body_filter-marked r c h in
    let after : stream (record r { ctx = some 2 }) cs ≡ ok (concat cs) =
      stream-unmarked (record r { ctx = some 2 }) cs (unmarked (omega arith)) in
    rw (first, after)

-- Added in front of a chain list that is not empty, the prefix adds its own bytes.
pub stream_bytes :
    (r : Request) (cs : List (List (List ℕ)))
    → 0 < bytes (concat cs)
    → r.ctx ≡ some 1
    → Returns (λ out. bytes out ≡ bytes (concat cs) + length filter_prefix) (stream r cs)
stream_bytes r [] h marked = absurd (omega arith)
stream_bytes r (c ∷ cs) h marked = rw (stream-marked r c cs marked) (returns (omega arith))

module _ (strncasecmp : List ℕ → List ℕ → ℕ → ℤ) (http_ok : ℕ) (error : ℤ) where
  -- The header filter and then the body filter: the length announced and the chain handed on.
  unfoldable pub respond : Request → List (List (List ℕ)) → Run (ℤ × List (List ℕ))
  unfolding header_filter stream
  respond r cs = header_filter strncasecmp http_ok error true 2 r >>= λ a. elim a [
    | next_header_filter r' ↦ stream r' cs >>= λ out. ok (r'.content_length_n, out)
    | next_body_filter r' out ↦ fault
    | returned n ↦ fault
  ]

  -- When the pool has memory: in a response that is new to the module, with a content length that is positive and the number
  -- of bytes in its body, the length announced after the filter is the number of bytes handed on.
  pub respond-length :
      (r : Request) (cs : List (List (List ℕ)))
      → r.ctx ≡ none
      → 0 < bytes (concat cs)
      → r.content_length_n ≡ pos (bytes (concat cs))
      → Returns (λ (n, out). n ≡ pos (bytes out)) (respond r cs)
  unfolding respond
  respond-length r cs fresh some_bytes announced = elim (Bool-cases (applies http_ok r)) [
    | inr other ↦
        let seen = header_filter-applies strncasecmp http_ok error true 0 r in
        rw (seen, other, stream-unmarked r cs (unmarked (omega (arith, ap mark_of fresh))))
          (returns announced)
    | inl use_it ↦
        let seen = header_filter-applies strncasecmp http_ok error true 0 r in
        let r' : Request = marked strncasecmp http_ok error true r in
        elim (Bool-cases (is_html strncasecmp http_ok error true r)) [
          | inl html ↦
              let m = marked_html strncasecmp http_ok error true r html in
              let (out, eq, w) = Returns-eq_ok (stream_bytes r' cs some_bytes m.0) in
              let raised = m.1 ∙ ap lengthened announced ∙ lengthened_pos some_bytes in
              rw (seen, use_it, eq) (returns (raised ∙ ap (λ n. pos n) (sym w)))
          | inr plain ↦
              let m = marked_plain strncasecmp http_ok error true r plain in
              let same = stream-unmarked r' cs (unmarked (omega (arith, ap mark_of m.0))) in
              rw (seen, use_it, same) (returns (m.1 ∙ announced))
        ]
  ]
    where
      lengthened_pos : {n : ℕ} → 0 < n → lengthened (pos n) ≡ pos (n + length filter_prefix)
      lengthened_pos {n} h = ap (λ m. pos m) (ground arith)

  -- When the pool has memory: in an HTML page that the filter applies to, with a content length of 0,
  -- the length announced stays 0 while bytes are handed on, if the body filter is called at all.
  pub respond-mismatch :
      (r : Request) (c : List (List ℕ)) (cs : List (List (List ℕ)))
      → applies http_ok r ≡ true
      → is_html strncasecmp http_ok error true r ≡ true
      → r.content_length_n ≡ pos 0
      → Returns (λ (n, out). (n ≡ pos 0) × (0 < bytes out)) (respond r (c ∷ cs))
  unfolding respond
  respond-mismatch r c cs use_it html announced =
      let seen = header_filter-applies strncasecmp http_ok error true 0 r in
      let r' : Request = marked strncasecmp http_ok error true r in
      let m = marked_html strncasecmp http_ok error true r html in
      let same = stream-marked r' c cs m.0 in
      rw (seen, use_it, same) (returns (m.1 ∙ ap lengthened announced, omega arith))
