-- ===== src/RbTree/Search.antt =====
-- `rbtree_find` and `rbtree_traverse`, the two static functions of rbtree.c that the program does not
-- call.
use mtcp_lua.Base.{
  ℕ, zero, suc, Bool, Option, none, some, List, [], ◌∷◌, ◌++◌, ◌==◌, if◌then◌else◌, ltb, leb,
}
use mtcp_lua.RbTree.Memory.{Ptr, null, Store}

-- The loop of `rbtree_find` from the node `p` on, with a bound on its rounds; `NULL` is the answer
-- for a key that is not found.
unfoldable pub find_from : ℕ → ℕ → Ptr → Store → Option Ptr
find_from zero key p t = none
find_from (suc k) key p t =
    let on_left = find_from k key (t.lefts p) t in
    let on_right = find_from k key (t.rights p) t in
    if p == null
    then some null
    else if ltb key (t.key p)
    then on_left
    else if ltb (t.key p) key
    then on_right
    else some p

-- `rbtree_find`
unfoldable pub rbtree_find : ℕ → ℕ → Store → Option Ptr
rbtree_find fuel key t = find_from fuel key t.root t

-- How `rbtree_traverse` ends: the keys printed, with the process still running or with `exit(1)`.
pub data Traversal : Type 0 where
  returned : List ℕ → Traversal
  exited : List ℕ → Traversal
  out_of_rounds : Traversal

abbrev pub and_then : Traversal → (List ℕ → Traversal) → Traversal
and_then (returned out) next = next out
and_then (exited out) next = exited out
and_then out_of_rounds next = out_of_rounds

-- A child, unless it is the sentinel: first the test of its key, then the call.
abbrev pub visit : Ptr → Ptr → Bool → List ℕ → Traversal → Traversal
visit s p wrong out rest = if p == s then returned out else if wrong then exited out else rest

-- `rbtree_traverse`, with a bound on the depth of its calls; `out` is what is printed before.
unfoldable pub rbtree_traverse : Ptr → ℕ → Store → Ptr → List ℕ → Traversal
rbtree_traverse s zero t p out = out_of_rounds
rbtree_traverse s (suc k) t p out =
    let l = t.lefts p in
    let r = t.rights p in
    let left_part = visit s l (leb (t.key p) (t.key l)) out (rbtree_traverse s k t l out) in
    let whole = and_then left_part λ out1.
      let out2 = out1 ++ t.key p ∷ [] in
      visit s r (leb (t.key r) (t.key p)) out2 (rbtree_traverse s k t r out2) in
    if p == s then returned out else whole
