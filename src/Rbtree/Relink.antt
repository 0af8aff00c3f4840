-- ===== src/Rbtree/Relink.antt =====
-- The link from above a rotation: at the root, or at one of the sides of the parent.
use middleware_development_d.Prelude.{
  ◌+◌, ◌≤◌, ◌≡◌, ◌≢◌, refl, ◌∙◌, Bool, true, false, if◌then◌else◌, ok, some, arith, ◌==◌, Returns,
  returns, Returns-weaken,
}
use middleware_development_d.Rbtree.Store.{
  Ptr, Node, Tree, set_left, set_right, left, get_root, set_root,
}
use middleware_development_d.Rbtree.Fields.{left_lem, right_lem, parent_lem}
use middleware_development_d.Rbtree.Shape.{Label, Shape, top}
use middleware_development_d.Rbtree.Rotate.{relink_left_first, relink_right_first}
use middleware_development_d.Rbtree.Trail.{
  Trail, start, in_left, in_right, times_on, above, root_at, linked, OnTrail, Holds-agree,
  OnTrail-agree, root_at-times, top_other,
}
use middleware_development_d.Rbtree.Steps.{follow_ok, Leaves, just, modify-Leaves}

-- The trail now leads to `new`, and nothing else changed.
pub record Hung (s new : Ptr) (up : Trail) (t t' : Tree) : Type 0 where
  pub leaves : Leaves (λ z. times_on z up) t t'
  pub trail : OnTrail t'.cells s new up
  pub root : t'.root ≡ root_at new up

-- `old` hangs on the trail and stands nowhere on it.
pub record Hangs (s old : Ptr) (up : Trail) (t : Tree) : Type 0 where
  pub here : Node
  pub at_old : t.cells old ≡ some here
  pub knows : here.parent ≡ above up
  pub real : old ≢ s
  pub trail : OnTrail t.cells s old up
  pub root : t.root ≡ root_at old up
  pub once : (z : Ptr) → just old z + times_on z up ≤ 1

-- Whether the place is below a node, and the left link of the node that it is below.
abbrev pub below : Trail → Bool
below (start o) = false
below (in_left up a d r) = true
below (in_right up l a d) = true

abbrev pub over_side : Ptr → Ptr → Trail → Ptr
over_side s old (start o) = s
over_side s old (in_left up a d r) = old
over_side s old (in_right up l a d) = top s l

module _ (s old new : Ptr) (t : Tree) where
  -- A new root.
  pub Hung-root :
      {o : Ptr}
      → Hangs s old (start o) t
      → Returns (λ (u, t'). Hung s new (start o) t t') (set_root new t)
  unfolding set_root
  Hung-root h =
      returns (record {
        leaves = record { sentinel = refl; cells = λ z o. refl };
        trail = tt;
        root = refl;
      })

  Hung-left :
      (up : Trail) (a : Ptr) (d : Label) (r : Shape)
      → Hangs s old (in_left up a d r) t
      → Returns (λ (u, t'). Hung s new (in_left up a d r) t t') (set_left a new t)
  unfolding set_left
  Hung-left up a d r h =
      let (ne, at, hr, hu) = h.trail in
      Returns-weaken
        (modify-Leaves t a (linked (above up) d old (top s r)) (λ n. record n { left = new }) at)
        λ (u, t') (leaves, root, now). record {
          leaves = record {
            sentinel = leaves.sentinel;
            cells = λ z o. leaves.cells z (ground (arith, o));
          };
          trail = (
            ne,
            now,
            Holds-agree t.cells t'.cells s a r (λ z o. leaves.cells z (ground (arith, h.once z)))
                hr,
            OnTrail-agree t.cells t'.cells s a up (λ z o. leaves.cells z (ground (arith, h.once z)))
                hu,
          );
          root = root ∙ h.root;
        }

  Hung-right :
      (up : Trail) (l : Shape) (a : Ptr) (d : Label)
      → Hangs s old (in_right up l a d) t
      → Returns (λ (u, t'). Hung s new (in_right up l a d) t t') (set_right a new t)
  unfolding set_right
  Hung-right up l a d h =
      let (ne, at, hl, hu) = h.trail in
      Returns-weaken
        (modify-Leaves t a (linked (above up) d (top s l) old) (λ n. record n { right = new }) at)
        λ (u, t') (leaves, root, now). record {
          leaves = record {
            sentinel = leaves.sentinel;
            cells = λ z o. leaves.cells z (ground (arith, o));
          };
          trail = (
            ne,
            now,
            Holds-agree t.cells t'.cells s a l (λ z o. leaves.cells z (ground (arith, h.once z)))
                hl,
            OnTrail-agree t.cells t'.cells s a up (λ z o. leaves.cells z (ground (arith, h.once z)))
                hu,
          );
          root = root ∙ h.root;
        }

  -- Below a parent `old` is not the root.
  not_root :
      (p : Ptr) (up : Trail)
      → t.root ≡ root_at p up
      → just old p + times_on old up ≡ 0
      → (old == t.root) ≡ false
  not_root p up root out = ground (arith, root_at-times p up)

  -- Below a node: what the left link of the parent holds tells on which side `old` hangs.
  pub reads_side :
      (up : Trail)
      → below up ≡ true
      → Hangs s old up t
      → left (above up) t ≡ ok (over_side s old up, t)
  reads_side (start o) under h = ground (arith, under)
  reads_side (in_left up a d r) under h = left_lem t a (linked (above up) d old (top s r)) h.trail.1
  reads_side (in_right up l a d) under h =
      left_lem t a (linked (above up) d (top s l) old) h.trail.1

  pub relinks-Hung :
      (up : Trail)
      → below up ≡ true
      → Hangs s old up t
      → Returns
          (λ (u, t'). Hung s new up t t')
          ((if old == over_side s old up then set_left (above up) new else set_right (above up) new)
            t)
  relinks-Hung (start o) under h = ground (arith, under)
  relinks-Hung (in_left up a d r) under h =
      let side : (old == old) ≡ true = ground arith in rw side (Hung-left up a d r h)
  relinks-Hung (in_right up l a d) under h =
      let side = top_other s old l h.real (ground (arith, h.once old)) in
      rw side (Hung-right up l a d h)

  pub relink_left_first-Hung :
      (up : Trail)
      → Hangs s old up t
      → Returns (λ (u, t'). Hung s new up t t') (relink_left_first old new t)
  unfolding relink_left_first get_root
  relink_left_first-Hung (start o) h =
      let hit : (old == t.root) ≡ true = ground (arith, h.root) in rw hit (Hung-root h)
  relink_left_first-Hung (in_left up a d r) h =
      rw (not_root a up h.root (ground (arith, h.once old))) (
        follow_ok _ (parent_lem t old h.here h.at_old) (
          rw h.knows (
            follow_ok _ (reads_side (in_left up a d r) refl h)
              (relinks-Hung (in_left up a d r) refl h))))
  relink_left_first-Hung (in_right up l a d) h =
      rw (not_root a up h.root (ground (arith, h.once old))) (
        follow_ok _ (parent_lem t old h.here h.at_old) (
          rw h.knows (
            follow_ok _ (reads_side (in_right up l a d) refl h)
              (relinks-Hung (in_right up l a d) refl h))))

  pub relink_right_first-Hung :
      (up : Trail)
      → Hangs s old up t
      → Returns (λ (u, t'). Hung s new up t t') (relink_right_first old new t)
  unfolding relink_right_first get_root
  relink_right_first-Hung (start o) h =
      let hit : (old == t.root) ≡ true = ground (arith, h.root) in rw hit (Hung-root h)
  relink_right_first-Hung (in_right up l a d) h =
      let miss = not_root a up h.root (ground (arith, h.once old)) in
      let (ne, at, hl, hu) = h.trail in
      let side : (old == old) ≡ true = ground arith in
      rw miss (
        follow_ok _ (parent_lem t old h.here h.at_old) (
          rw h.knows (
            follow_ok _ (right_lem t a (linked (above up) d (top s l) old) at)
              (rw side (Hung-right up l a d h)))))
  relink_right_first-Hung (in_left up a d r) h =
      let miss = not_root a up h.root (ground (arith, h.once old)) in
      let (ne, at, hr, hu) = h.trail in
      let side = top_other s old r h.real (ground (arith, h.once old)) in
      rw miss (
        follow_ok _ (parent_lem t old h.here h.at_old) (
          rw h.knows (
            follow_ok _ (right_lem t a (linked (above up) d old (top s r)) at)
              (rw side (Hung-left up a d r h)))))
