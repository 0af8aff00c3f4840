-- ===== src/PageCount.antt =====
-- The visit counter of `4.5 Nginx/4.5.3Nginx Handler模块实现/src/ngx_http_pagecount_module/`
-- `ngx_http_pagecount_module.c`: a tree of client addresses in shared memory. Nodes have the fields of
-- `Rbtree.Store`; nginx's own `ngx_rbtree_insert`, `ngx_rbtree_min` and `ngx_rbtree_next`, the slab
-- allocator and the formatting of one line are arguments.
pub mod Visits
pub mod Insertion
pub mod Fresh
pub mod Page
mod Tests
use middleware_development_d.Prelude.{
  ℤ, pos, ℕ, zero, suc, ◌+◌, ◌-◌, ◌%◌, Bool, true, false, Option, none, some, List, [], ◌∷◌, ◌++◌,
  length, replicate, ltb, ◌==◌, if◌then◌else◌, Run, ok, fault, out_of_fuel,
}
use middleware_development_d.Rbtree.Store.{
  Ptr, null, Tree, M, pure, ◌>>=◌, ◌>>◌, key, left, right, load, modify, set_key, set_left,
  set_right, set_parent, red, get_root, get_sentinel,
}

-- `ngx_http_pagecount_conf_t`: the size of the zone, and the addresses of its pool and of the tree in it.
pub record Conf : Type 0 where
  pub shmsize : ℕ
  pub shpool : Ptr
  pub sh : Ptr

-- What the handler gives back, besides the result of nginx' output filter.
pub record Response : Type 0 where
  pub status : ℕ
  pub body : List ℕ

-- `zone->data`'s pool and tree after the call, or an error when the slab has no memory. `found` is the
-- old cycle's configuration; the tree itself is made empty by `init`.
unfoldable pub shm_init :
    (init : M (Unit {0}))
    → (addr : Ptr) → (found : Option Conf) → (block : Option Ptr) → Conf
    → M (Option Conf)
shm_init init addr (some old) block conf =
    pure (some (record conf { sh = old.sh; shpool = old.shpool }))
shm_init init addr none none conf = pure none
shm_init init addr none (some sh) conf = do
  init
  pure (some (record conf { shpool = addr; sh = sh }))

-- `zone` is whether nginx adds the zone. The second part is whether the handler was set.
unfoldable pub set : (zone : Bool) → Conf → Conf × Bool
set zone conf = (record conf { shmsize = 1048576 }, zone)

-- `ngx_http_pagecount_init`: both of its blocks are compiled out.
abbrev pub init_result : ℤ
init_result = pos 0

-- The fields that are not set are what the block held.
unfoldable pub create_location_conf : (block : Option Conf) → Option Conf
create_location_conf none = none
create_location_conf (some held) = some (record held { shmsize = 0 })

-- The loop and the end of `ngx_http_pagecount_rbtree_insert_value`; a key that is there already is
-- left alone.
unfoldable pub insert_value : ℕ → Ptr → Ptr → Ptr → M (Unit {0})
unfolding key left right set_left set_right set_parent red
insert_value zero temp node sentinel = λ _. out_of_fuel
insert_value (suc f) temp node sentinel = do
  k ← key node
  k' ← key temp
  if ltb k k'
      then (do
        down ← left temp
        if down == sentinel
            then (do
              set_left temp node
              set_parent node temp
              set_left node sentinel
              set_right node sentinel
              red node)
            else insert_value f down node sentinel)
      else (if ltb k' k
          then (do
            down ← right temp
            if down == sentinel
                then (do
                  set_right temp node
                  set_parent node temp
                  set_left node sentinel
                  set_right node sentinel
                  red node)
                else insert_value f down node sentinel)
          else pure tt)

-- `node->data ++`, on a `u_char`
unfoldable pub count_visit : Ptr → M (Unit {0})
unfolding modify
count_visit node = modify node λ n. record n { payload = (n.payload + 1) % 256 }

-- The loop of `ngx_http_pagecount_lookup`.
unfoldable pub find : ℕ → (address : ℕ) → Ptr → Ptr → M (Option Ptr)
unfolding key left right
find zero address node sentinel = λ _. out_of_fuel
find (suc f) address node sentinel = if node == sentinel then pure none else (do
  k ← key node
  if ltb address k
      then (do down ← left node; find f address down sentinel)
      else (if ltb k address
          then (do down ← right node; find f address down sentinel)
          else pure (some node)))

module _ (rbtree_insert : (Ptr → Ptr → Ptr → M (Unit {0})) → Ptr → M (Unit {0})) where
  -- `block` is what the slab gives. The tree's insertion function is the one that `shm_init` registers.
  -- The result is whether all went well.
  unfoldable pub lookup : ℕ → (block : Option Ptr) → (address : ℕ) → M Bool
  unfolding find count_visit get_root get_sentinel set_key modify insert_value
  lookup fuel block address = do
    root ← get_root
    sentinel ← get_sentinel
    found ← find fuel address root sentinel
    elim found [
      | some node ↦ do count_visit node; pure true
      | none ↦ elim block [
        | none ↦ pure false
        | some node ↦ do
          set_key node address
          modify node λ n. record n { payload = 1 }
          rbtree_insert (insert_value fuel) node
          pure true
      ]
    ]

-- `strcat(html, text)`, into an array of 1024 bytes
abbrev pub concat_html : List ℕ → List ℕ → M (List ℕ)
concat_html html text t =
    if ltb (length html + length text) 1024 then ok (html ++ text, t) else fault

module _ (next : Ptr → M Ptr) (min : Ptr → Ptr → M Ptr) (line : ℕ → ℕ → List ℕ)
    (opening closing : List ℕ) where
  -- The loop of `ngx_encode_http_page_rb`. `line` is `buffer`, for an address and a count; NULL ends.
  unfoldable pub encode_loop : ℕ → Ptr → List ℕ → M (List ℕ)
  unfolding load
  encode_loop zero node html = λ _. out_of_fuel
  encode_loop (suc f) node html = do
    n ← load node
    html' ← concat_html html (line n.key n.payload)
    node' ← next node
    if node' == null then pure html' else encode_loop f node' html'

  unfoldable pub encode_page : ℕ → M (List ℕ)
  unfolding encode_loop get_root get_sentinel
  encode_page fuel = do
    root ← get_root
    sentinel ← get_sentinel
    node ← min root sentinel
    html ← encode_loop fuel node opening
    concat_html html closing

  -- The body is the whole array of 1024 bytes; what `lookup` returns is not looked at.
  unfoldable pub handler :
      ((Ptr → Ptr → Ptr → M (Unit {0})) → Ptr → M (Unit {0})) → ℕ → Option Ptr → ℕ → M Response
  unfolding lookup encode_page
  handler rbtree_insert fuel block address = do
    lookup rbtree_insert fuel block address
    html ← encode_page fuel
    pure (record { status = 200; body = html ++ replicate (1024 - length html) 0 })
