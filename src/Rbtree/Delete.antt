-- ===== src/Rbtree/Delete.antt =====
-- `ngx_rbtree_delete`.
use middleware_development_d.Prelude.{ℕ, zero, suc, not, ◌&&◌, ◌==◌, if◌then◌else◌, out_of_fuel}
use middleware_development_d.Rbtree.Store.{
  Ptr, null, M, pure, ◌>>=◌, ◌>>◌, get_root, set_root, get_sentinel, left, right, parent, is_red,
  is_black, set_left, set_right, set_parent, set_key, red, black, copy_color,
}
use middleware_development_d.Rbtree.Rotate.{left_rotate, right_rotate}
use middleware_development_d.Rbtree.Walk.{min_node}

-- The node that leaves its place, and the one that takes that place: `subst` and `temp`.
unfoldable pub choose : ℕ → Ptr → Ptr → M (Ptr × Ptr)
unfolding min_node
choose fuel node sentinel = do
  on_left ← left node
  on_right ← right node
  if on_left == sentinel
      then pure (node, on_right)
      else if on_right == sentinel
      then pure (node, on_left)
      else do
        subst ← min_node fuel on_right sentinel
        inner ← left subst
        temp ← (if inner == sentinel then right subst else pure inner)
        pure (subst, temp)

-- The lines marked DEBUG.
unfoldable pub clear_node : Ptr → M (Unit {0})
clear_node node = do set_left node null; set_right node null; set_parent node null; set_key node 0

-- `subst` takes the place of `node`.
unfoldable pub replace : Ptr → Ptr → Ptr → M (Unit {0})
replace node subst sentinel = do
  on_left ← left node
  set_left subst on_left
  on_right ← right node
  set_right subst on_right
  up ← parent node
  set_parent subst up
  copy_color subst node
  root ← get_root
  (if node == root then set_root subst else do
    over ← parent node
    side ← left over
    if node == side then set_left over subst else set_right over subst)
  below ← left subst
  (if below == sentinel then pure tt else set_parent below subst)
  beside ← right subst
  (if beside == sentinel then pure tt else set_parent beside subst)

-- The rest of a round, with a black sibling `w'`, where `temp` is a left child. The result is the node for
-- the next round.
unfoldable pub absorb_left : Ptr → Ptr → M Ptr
unfolding left_rotate right_rotate
absorb_left temp w' = do
  wl ← left w'
  wl_black ← is_black wl
  wr ← right w'
  wr_black ← is_black wr
  if wl_black && wr_black then (do red w'; parent temp) else (do
    w'' ←
        (if wr_black
          then (do black wl; red w'; right_rotate w'; up'' ← parent temp; right up'')
          else pure w')
    over ← parent temp
    copy_color w'' over
    black over
    outer ← right w''
    black outer
    left_rotate over
    get_root)

-- One round of the loop after a black node left, where `temp` is a left child. The result is the
-- node for the next round.
unfoldable pub settle_left : Ptr → Ptr → M Ptr
unfolding left_rotate right_rotate absorb_left
settle_left temp up = do
  w ← right up
  w_red ← is_red w
  w' ←
      (if w_red then (do black w; red up; left_rotate up; up' ← parent temp; right up') else pure w)
  absorb_left temp w'

-- The rest of a round, with a black sibling `w'`, where `temp` is a right child. The result is the node for
-- the next round.
unfoldable pub absorb_right : Ptr → Ptr → M Ptr
unfolding left_rotate right_rotate
absorb_right temp w' = do
  wl ← left w'
  wl_black ← is_black wl
  wr ← right w'
  wr_black ← is_black wr
  if wl_black && wr_black then (do red w'; parent temp) else (do
    w'' ←
        (if wl_black
          then (do black wr; red w'; left_rotate w'; up'' ← parent temp; left up'')
          else pure w')
    over ← parent temp
    copy_color w'' over
    black over
    outer ← left w''
    black outer
    right_rotate over
    get_root)

-- The mirror image.
unfoldable pub settle_right : Ptr → Ptr → M Ptr
unfolding left_rotate right_rotate absorb_right
settle_right temp up = do
  w ← left up
  w_red ← is_red w
  w' ←
      (if w_red then (do black w; red up; right_rotate up; up' ← parent temp; left up') else pure w)
  absorb_right temp w'

-- `while (temp != *root && ngx_rbt_is_black(temp))`, and the line after the loop.
unfoldable pub settle : ℕ → Ptr → M (Unit {0})
unfolding settle_left settle_right
settle zero temp = λ _. out_of_fuel
settle (suc f) temp = do
  root ← get_root
  temp_black ← is_black temp
  if not (temp == root) && temp_black
      then (do
        up ← parent temp
        side ← left up
        temp' ← (if temp == side then settle_left temp up else settle_right temp up)
        settle f temp')
      else black temp

-- `fuel` bounds the rounds of each loop.
unfoldable pub delete : ℕ → Ptr → M (Unit {0})
unfolding choose clear_node replace settle
delete fuel node = do
  sentinel ← get_sentinel
  (subst, temp) ← choose fuel node sentinel
  root ← get_root
  if subst == root then (do set_root temp; black temp; clear_node node) else (do
    was_red ← is_red subst
    over ← parent subst
    side ← left over
    (if subst == side then set_left over temp else set_right over temp)
    (if subst == node then (do up ← parent subst; set_parent temp up) else (do
      up ← parent subst
      (if up == node then set_parent temp subst else set_parent temp up)
      replace node subst sentinel))
    clear_node node
    if was_red then pure tt else settle fuel temp)
