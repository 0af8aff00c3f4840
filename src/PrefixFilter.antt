-- ===== src/PrefixFilter.antt =====
-- The filter of `4.5 Nginx/4.5.2Nginx过滤模块实现/src/ngx_http_prefix_filter_module/`
-- `ngx_http_prefix_filter_module.c`, which puts a line of HTML in front of a page. A filter ends in a
-- call of the next filter: what it calls is its result. A request holds what the module reads and
-- writes: its own context and configuration, and the response's headers. `ngx_strncasecmp`,
-- `ngx_conf_merge_value` and nginx's constants are arguments, and so is whether the pool has memory.
pub mod Body
pub mod Header
mod Tests
use middleware_development_d.Prelude.{
  ℕ, zero, suc, ◌+◌, ◌-◌, Bool, true, false, ◌&&◌, not, Option, none, some, List, [], ◌∷◌, ◌++◌,
  length, ltb, leb, ◌==◌, if◌then◌else◌, ℤ, pos, negsuc, int_zero, Run, ok, fault, out_of_fuel,
}

-- `ngx_http_prefix_filter_conf_t`
pub record Conf : Type 0 where
  pub enable : ℤ

-- `ctx` is `add_prefix` of the module's context, when there is one.
pub record Request : Type 0 where
  pub status : ℕ
  pub ctx : Option ℕ
  pub loc_conf : Option Conf
  pub content_type : List ℕ
  pub content_length_n : ℤ

-- What a filter ends in.
pub data Answer : Type 0 where
  returned : ℤ → Answer
  next_header_filter : Request → Answer
  next_body_filter : Request → List (List ℕ) → Answer

-- The filters at the head of nginx's two lists, and the ones this module calls next, by number.
pub record Filters : Type 0 where
  pub top_header : ℕ
  pub top_body : ℕ
  pub next_header : ℕ
  pub next_body : ℕ

abbrev pub filter_prefix : List ℕ
filter_prefix =
    60 ∷ 104 ∷ 50 ∷ 62 ∷ 65 ∷ 117 ∷ 116 ∷ 104 ∷ 111 ∷ 114 ∷ 32 ∷ 58 ∷ 32 ∷ 75 ∷ 105 ∷ 110 ∷ 103 ∷ 60
    ∷ 47 ∷ 104 ∷ 50 ∷ 62 ∷ 60 ∷ 112 ∷ 62 ∷ 60 ∷ 97 ∷ 32 ∷ 104 ∷ 114 ∷ 101 ∷ 102 ∷ 61 ∷ 34 ∷ 104
    ∷ 116 ∷ 116 ∷ 112 ∷ 58 ∷ 47 ∷ 47 ∷ 119 ∷ 119 ∷ 119 ∷ 46 ∷ 48 ∷ 118 ∷ 111 ∷ 105 ∷ 99 ∷ 101 ∷ 46
    ∷ 99 ∷ 111 ∷ 109 ∷ 34 ∷ 62 ∷ 48 ∷ 118 ∷ 111 ∷ 105 ∷ 99 ∷ 101 ∷ 60 ∷ 47 ∷ 97 ∷ 62 ∷ 60 ∷ 47 ∷ 112
    ∷ 62 ∷ []

abbrev pub text_html : List ℕ
text_html = 116 ∷ 101 ∷ 120 ∷ 116 ∷ 47 ∷ 104 ∷ 116 ∷ 109 ∷ 108 ∷ []

unfoldable pub create_conf : (unset : ℤ) (memory : Bool) → Option Conf
create_conf unset memory = if memory then some (record { enable = unset }) else none

unfoldable pub merge_conf : (merge_value : ℤ → ℤ → ℤ → ℤ) → Conf → Conf → Conf
merge_conf merge_value prev conf = record { enable = merge_value conf.enable prev.enable (pos 0) }

-- `header` and `body` are this module's two filters.
unfoldable pub init : (header body : ℕ) → Filters → Filters
init header body f = record {
  top_header = header;
  top_body = body;
  next_header = f.top_header;
  next_body = f.top_body;
}

-- `if (content_length_n > 0) content_length_n += filter_prefix.len;`
abbrev pub lengthened : ℤ → ℤ
lengthened (pos n) = pos (if ltb 0 n then n + length filter_prefix else n)
lengthened (negsuc n) = negsuc n

module _ (strncasecmp : List ℕ → List ℕ → ℕ → ℤ) (http_ok : ℕ) (error : ℤ) (memory : Bool) where
  abbrev pub is_html : Request → Bool
  is_html r = leb 9 (length r.content_type) && int_zero (strncasecmp r.content_type text_html 9)

  -- The context is set with `add_prefix`, 0 or 1.
  abbrev pub marked : Request → Request
  marked r =
      if is_html r
      then record r { ctx = some 1; content_length_n = lengthened r.content_length_n }
      else record r { ctx = some 0 }

  -- The filter ends in a call of itself: `rounds` bounds those calls.
  unfoldable pub header_filter : ℕ → Request → Run Answer
  header_filter zero r = out_of_fuel
  header_filter (suc rounds) r =
      let again = header_filter rounds (marked r) in
      if not (r.status == http_ok) then ok (next_header_filter r) else elim r.ctx [
        | some _ ↦ ok (next_header_filter r)
        | none ↦ elim r.loc_conf [
          | none ↦ ok (next_header_filter r)
          | some conf ↦
              if int_zero conf.enable
              then ok (next_header_filter r)
              else (if memory then again else ok (returned error))
        ]
      ]

-- The chain is a list of buffers. Without memory a NULL pointer is written through.
unfoldable pub body_filter : (memory : Bool) → Request → List (List ℕ) → Run Answer
body_filter memory r in_ = elim r.ctx [
  | none ↦ ok (next_body_filter r in_)
  | some add_prefix ↦
      if not (add_prefix == 1)
      then ok (next_body_filter r in_)
      else (if memory
          then ok (next_body_filter (record r { ctx = some 2 }) (filter_prefix ∷ in_))
          else fault)
]
