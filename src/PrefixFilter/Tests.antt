-- ===== src/PrefixFilter/Tests.antt =====
-- A response through the filters.
use middleware_development_d.Prelude.{
  ◌<◌, ℕ, ◌≡◌, refl, true, none, some, List, [], ◌∷◌, arith, if◌then◌else◌, pos, ok, ℤ, minus_one,
  Returns,
}
use middleware_development_d.PrefixFilter.{
  Request, text_html, filter_prefix, header_filter, next_header_filter, returned, marked,
}
use middleware_development_d.PrefixFilter.Header.{applies, header_filter-applies}
use middleware_development_d.PrefixFilter.Body.{
  bytes, stream, stream-marked, respond, respond-length, respond-mismatch,
}

abbrev same_text : List ℕ → List ℕ → ℕ → ℤ
same_text a b n = pos 0

abbrev page : Request
page = record {
  status = 200;
  ctx = none;
  loc_conf = some (record { enable = pos 1 });
  content_type = text_html;
  content_length_n = pos 3;
}

header_filter-applies_example :
    header_filter same_text 200 minus_one true 2 page
    ≡ ok (
        if applies 200 page
        then (if true
            then next_header_filter (marked same_text 200 minus_one true page)
            else returned minus_one)
        else next_header_filter page)
header_filter-applies_example = header_filter-applies same_text 200 minus_one true 0 page

stream-marked_example :
    stream (record page { ctx = some 1 }) (((1 ∷ []) ∷ []) ∷ ((2 ∷ 3 ∷ []) ∷ []) ∷ [])
    ≡ ok (filter_prefix ∷ (1 ∷ []) ∷ (2 ∷ 3 ∷ []) ∷ [])
stream-marked_example =
    stream-marked (record page { ctx = some 1 }) ((1 ∷ []) ∷ []) (((2 ∷ 3 ∷ []) ∷ []) ∷ []) refl

respond-length_example :
    Returns
      (λ (n, out). n ≡ pos (bytes out))
      (respond same_text 200 minus_one page (((1 ∷ []) ∷ []) ∷ ((2 ∷ 3 ∷ []) ∷ []) ∷ []))
respond-length_example =
    respond-length same_text 200 minus_one page (((1 ∷ []) ∷ []) ∷ ((2 ∷ 3 ∷ []) ∷ []) ∷ []) refl
      (omega arith) refl

respond-mismatch_example :
    Returns
      (λ (n, out). (n ≡ pos 0) × (0 < bytes out))
      (respond same_text 200 minus_one (record page { content_length_n = pos 0 }) ([] ∷ []))
respond-mismatch_example =
    respond-mismatch same_text 200 minus_one (record page { content_length_n = pos 0 }) [] [] refl
      refl refl
