-- ===== src/PageCount/Page.antt =====
-- The page that `ngx_encode_http_page_rb` writes.
use middleware_development_d.Prelude.{
  ℕ, zero, suc, ◌<◌, ◌≡◌, ◌≢◌, refl, ap, ◌∙◌, inl, inr, Bool-cases, false, List, [], ◌∷◌, ◌++◌,
  append_assoc, append-nil, length, length-append, some, arith, ltb, ◌==◌, if◌then◌else◌, Run, ok,
  fault,
}
use middleware_development_d.Rbtree.Store.{Ptr, null, Node, Tree, M, get_root, get_sentinel}
use middleware_development_d.Rbtree.Fields.{load_lem}
use middleware_development_d.PageCount.{concat_html, encode_loop, encode_page}

module _ (next : Ptr → M Ptr) (t : Tree) where
  -- The nodes with their labels, as `next` goes through them from the first to NULL.
  abbrev pub Listing : List (Ptr × Node) → Type 0
  Listing [] = Unit {0}
  Listing ((p, n) ∷ []) = (t.cells p ≡ some n) × (next p t ≡ ok (null, t))
  Listing ((p, n) ∷ (q, m) ∷ rest) =
      (t.cells p ≡ some n) × (next p t ≡ ok (q, t)) × (q ≢ null) × Listing ((q, m) ∷ rest)

  module _ (min : Ptr → Ptr → M Ptr) (line : ℕ → ℕ → List ℕ) (opening closing : List ℕ) where
    abbrev pub lines : List (Ptr × Node) → List ℕ
    lines [] = []
    lines ((p, n) ∷ rest) = line n.key n.payload ++ lines rest

    -- The array takes the text, or the text goes past it.
    abbrev pub fitting : List ℕ → Run (List ℕ × Tree)
    fitting html = if ltb (length html) 1024 then ok (html, t) else fault

    concat_html-fitting : (html text : List ℕ) → concat_html html text t ≡ fitting (html ++ text)
    concat_html-fitting html text = rw (length-append html text) refl

    still_over :
        (html text more : List ℕ)
        → ltb (length (html ++ text)) 1024 ≡ false
        → ltb (length (html ++ (text ++ more))) 1024 ≡ false
    still_over html text more over = ground (
      arith,
      over,
      length-append html text,
      length-append html (text ++ more),
      length-append text more,
    )

    encode_loop-lines :
        (f : ℕ) (p : Ptr) (n : Node) (rest : List (Ptr × Node)) (html : List ℕ)
        → Listing ((p, n) ∷ rest)
        → length rest < f
        → encode_loop next min line opening closing f p html t
          ≡ fitting (html ++ lines ((p, n) ∷ rest))
    unfolding encode_loop
    encode_loop-lines zero p n rest html list enough = ground (arith, enough)
    encode_loop-lines (suc f) p n [] html (at, end) enough =
        elim (Bool-cases (ltb (length (html ++ line n.key n.payload)) 1024)) [
          | inl fits ↦
              rw
                (
                  load_lem t p n at,
                  concat_html-fitting html (line n.key n.payload),
                  fits,
                  end,
                  append-nil (line n.key n.payload),
                  fits,
                )
                refl
          | inr over ↦
              rw
                (
                  load_lem t p n at,
                  concat_html-fitting html (line n.key n.payload),
                  over,
                  append-nil (line n.key n.payload),
                  over,
                )
                refl
        ]
    encode_loop-lines (suc f) p n ((q, m) ∷ rest) html (at, step, real, list) enough =
        let text : List ℕ = line n.key n.payload in
        let other : (q == null) ≡ false = ground (arith, real) in
        elim (Bool-cases (ltb (length (html ++ text)) 1024)) [
          | inl fits ↦
              rw (load_lem t p n at, concat_html-fitting html text, fits, step, other)
                (encode_loop-lines f q m rest (html ++ text) list (omega (arith, enough))
                  ∙ ap fitting (append_assoc html text (lines ((q, m) ∷ rest))))
          | inr over ↦
              rw
                (
                  load_lem t p n at,
                  concat_html-fitting html text,
                  over,
                  still_over html text (lines ((q, m) ∷ rest)) over,
                )
                refl
        ]

    -- Where `next` goes from the first node through the others to NULL, and `min` gives the first: with a
    -- round for each node, `ngx_encode_http_page_rb` leaves the tree alone and gives the opening, a line for
    -- each node in order and the closing, if these are at most 1023 bytes, and else writes past the array.
    pub encode_page-lines :
        (fuel : ℕ) (p : Ptr) (n : Node) (rest : List (Ptr × Node))
        → Listing ((p, n) ∷ rest)
        → min t.root t.sentinel t ≡ ok (p, t)
        → length rest < fuel
        → encode_page next min line opening closing fuel t ≡ (
            if ltb (length (opening ++ (lines ((p, n) ∷ rest) ++ closing))) 1024
            then ok (opening ++ (lines ((p, n) ∷ rest) ++ closing), t)
            else fault)
    unfolding encode_page get_root get_sentinel
    encode_page-lines fuel p n rest list first enough =
        let text : List ℕ = lines ((p, n) ∷ rest) in
        elim (Bool-cases (ltb (length (opening ++ text)) 1024)) [
          | inl fits ↦
              rw
                (
                  first,
                  encode_loop-lines fuel p n rest opening list enough,
                  fits,
                  concat_html-fitting (opening ++ text) closing,
                  append_assoc opening text closing,
                )
                refl
          | inr over ↦
              rw
                (
                  first,
                  encode_loop-lines fuel p n rest opening list enough,
                  over,
                  still_over opening text closing over,
                )
                refl
        ]
