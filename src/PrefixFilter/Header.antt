-- ===== src/PrefixFilter/Header.antt =====
-- `ngx_http_prefix_filter_header_filter` returns, and what it hands on.
use middleware_development_d.Prelude.{
  ℕ, suc, ◌≡◌, refl, inl, inr, Bool, true, false, Bool-cases, Option-cases, ◌&&◌, not, none, some,
  List, ◌==◌, if◌then◌else◌, ℤ, int_zero, ok,
}
use middleware_development_d.PrefixFilter.{
  Request, returned, next_header_filter, lengthened, is_html, marked, header_filter,
}

-- The filter has work to do: the response is a success, not seen before, and the location is enabled.
abbrev pub applies : ℕ → Request → Bool
applies http_ok r = (r.status == http_ok) && (elim r.ctx [
  | some _ ↦ false
  | none ↦ elim r.loc_conf [ none ↦ false | some conf ↦ not (int_zero conf.enable) ]
])

module _ (strncasecmp : List ℕ → List ℕ → ℕ → ℤ) (http_ok : ℕ) (error : ℤ) (memory : Bool) where
  marked_ctx : (r : Request) → (n : ℕ) × ((marked strncasecmp http_ok error memory r).ctx ≡ some n)
  marked_ctx r = elim (Bool-cases (is_html strncasecmp http_ok error memory r)) [
    | inl html ↦ (1, rw html)
    | inr other ↦ (0, rw other)
  ]

  -- A response that was seen before is handed on.
  header_filter-seen :
      (rounds : ℕ) (r : Request)
      → (n : ℕ) × (r.ctx ≡ some n)
      → header_filter strncasecmp http_ok error memory (suc rounds) r ≡ ok (next_header_filter r)
  unfolding header_filter
  header_filter-seen rounds r (n, seen) = elim (Bool-cases (r.status == http_ok)) [
    | inl success ↦ simp (success, seen)
    | inr failure ↦ rw failure
  ]

  header_filter_step :
      (rounds : ℕ) (r : Request)
      → header_filter strncasecmp http_ok error memory (suc rounds) r ≡ (
          if applies http_ok r
          then (if memory
              then header_filter strncasecmp http_ok error memory rounds
                  (marked strncasecmp http_ok error memory r)
              else ok (returned error))
          else ok (next_header_filter r))
  unfolding header_filter
  header_filter_step rounds r = elim (Bool-cases (r.status == http_ok)) [
    | inr failure ↦ rw failure
    | inl success ↦ elim (Option-cases r.ctx) [
      | inr (n, seen) ↦ simp (success, seen)
      | inl fresh ↦ elim (Option-cases r.loc_conf) [
        | inl unset ↦ simp (success, fresh, unset)
        | inr (conf, set) ↦ elim (Bool-cases (int_zero conf.enable)) [
          | inl off ↦ simp (success, fresh, set, off)
          | inr enabled ↦ simp (success, fresh, set, enabled)
        ]
      ]
    ]
  ]

  -- With two rounds or more the filter returns, and hands the request to the next filter: marked,
  -- when it applies and the pool has memory, and as it was when it does not apply. An error is
  -- returned when it applies and there is no memory.
  pub header_filter-applies :
      (rounds : ℕ) (r : Request)
      → header_filter strncasecmp http_ok error memory (suc (suc rounds)) r
        ≡ ok (
            if applies http_ok r
            then (if memory
                then next_header_filter (marked strncasecmp http_ok error memory r)
                else returned error)
            else next_header_filter r)
  header_filter-applies rounds r =
      let again =
        header_filter-seen rounds (marked strncasecmp http_ok error memory r) (marked_ctx r) in
      rw (header_filter_step (suc rounds) r, again) (answers (applies http_ok r) memory)
    where
      answers :
          (b m : Bool)
          → (if b
              then (if m
                  then ok (next_header_filter (marked strncasecmp http_ok error memory r))
                  else ok (returned error))
              else ok (next_header_filter r))
            ≡ ok (
                if b
                then (if m
                    then next_header_filter (marked strncasecmp http_ok error memory r)
                    else returned error)
                else next_header_filter r)
      answers true true = refl
      answers true false = refl
      answers false m = refl

  -- An HTML page is marked for the prefix, and its length is raised.
  pub marked_html :
      (r : Request)
      → is_html strncasecmp http_ok error memory r ≡ true
      → ((marked strncasecmp http_ok error memory r).ctx ≡ some 1)
        × ((marked strncasecmp http_ok error memory r).content_length_n
            ≡ lengthened r.content_length_n)
  marked_html r html = (rw html, rw html)

  pub marked_plain :
      (r : Request)
      → is_html strncasecmp http_ok error memory r ≡ false
      → ((marked strncasecmp http_ok error memory r).ctx ≡ some 0)
        × ((marked strncasecmp http_ok error memory r).content_length_n ≡ r.content_length_n)
  marked_plain r other = (rw other, rw other)
