-- ===== src/Rbtree/Steps.antt =====
-- Commands one after the other, and what a command leaves as it was.
use middleware_development_d.Prelude.{
  ℕ, ◌≤◌, ◌≡◌, ◌≢◌, refl, true, false, Option, some, arith, ◌==◌, if◌then◌else◌, Run, ok, Returns,
  returns, Returns-weaken,
}
use middleware_development_d.Rbtree.Store.{
  Ptr, Node, Tree, M, pure, and_then, write, modify, set_parent, left,
}
use middleware_development_d.Rbtree.Fields.{modify_lem}
use middleware_development_d.Rbtree.Shape.{Shape, leaf, node, top, Holds}
use middleware_development_d.Rbtree.Trail.{times, linked, Holds-agree}

-- What happens next in a chain of commands.
pub follow :
    {A B : Type 0} {Q : B × Tree → Type 0} {m : Run (A × Tree)} (k : A → M B)
    {P : A × Tree → Type 0}
    → Returns P m
    → ((a : A) (t : Tree) → P (a, t) → Returns Q (k a t))
    → Returns Q (and_then m k)
follow k (returns {a = r} p) next = next r.0 r.1 p

pub follow_ok :
    {A B : Type 0} {Q : B × Tree → Type 0} {m : Run (A × Tree)} (k : A → M B) {a : A} {t : Tree}
    → m ≡ ok (a, t)
    → Returns Q (k a t)
    → Returns Q (and_then m k)
follow_ok k e next = rw e next

pub write_other :
    (cells : Ptr → Option Node) (p q : Ptr) (c : Option Node) → q ≢ p → write cells p c q ≡ cells q
write_other cells p q c h = let other : (q == p) ≡ false = ground arith in rw other

pub write_same : (cells : Ptr → Option Node) (p : Ptr) (c : Option Node) → write cells p c p ≡ c
write_same cells p c = let same : (p == p) ≡ true = ground arith in rw same

-- What a command left alone outside of some addresses.
pub record Leaves (out : Ptr → ℕ) (t t' : Tree) : Type 0 where
  pub sentinel : t'.sentinel ≡ t.sentinel
  pub cells : (z : Ptr) → out z ≡ 0 → t'.cells z ≡ t.cells z

abbrev pub just : Ptr → Ptr → ℕ
just p q = if q == p then 1 else 0

pub modify-Leaves :
    (t : Tree) (p : Ptr) (n : Node) (g : Node → Node)
    → t.cells p ≡ some n
    → Returns
        (λ (u, t'). Leaves (just p) t t' × (t'.root ≡ t.root) × (t'.cells p ≡ some (g n)))
        (modify p g t)
modify-Leaves t p n g at = rw (modify_lem t p n at g) (
    returns (
      record {
        sentinel = refl;
        cells = λ z h. write_other t.cells p z (some (g n)) (ground (arith, h));
      },
      refl,
      write_same t.cells p (some (g n)),
    ))

-- Hangs a tree below `q`.
pub reparent :
    (t : Tree) (s pm q : Ptr) (m : Shape)
    → Holds t.cells s pm m
    → ((z : Ptr) → times z m ≤ 1)
    → Returns
        (λ (u, t'). Leaves (λ z. times z m) t t' × (t'.root ≡ t.root) × Holds t'.cells s q m)
        ((if top s m == s then pure tt else set_parent (top s m) q) t)
unfolding set_parent
reparent t s pm q leaf h once =
    let same : (s == s) ≡ true = ground arith in
    rw same (returns (record { sentinel = refl; cells = λ z o. refl }, refl, tt))
reparent t s pm q (node l a d r) (ne, at, hl, hr) once =
    let other : (a == s) ≡ false = ground arith in
    let n : Node = linked pm d (top s l) (top s r) in
    rw other (
      Returns-weaken (modify-Leaves t a n (λ n. record n { parent = q }) at)
        λ (u, t') (left, root, new). (
          record { sentinel = left.sentinel; cells = λ z o. left.cells z (ground (arith, o)) },
          root,
          (
            ne,
            new,
            Holds-agree t.cells t'.cells s a l
                (λ z o. left.cells z (ground (arith, once z, once a))) hl,
            Holds-agree t.cells t'.cells s a r
                (λ z o. left.cells z (ground (arith, once z, once a))) hr,
          ),
        ))
