-- ===== src/Trie/Deletion.antt =====
-- `delete` of pkg/trie/trie.go, which keeps the trie in its shortest form on the way up.
use meta_co_sign.Base.{
  ℕ, zero, suc, Bool, true, false, [], ◌∷◌, ◌++◌, ltb, ◌==◌, if◌then◌else◌, length, drop, take,
}
use meta_co_sign.Bytes.{Bytes}
use meta_co_sign.Store.{Read}
use meta_co_sign.Trie.Nibbles.{prefix_len}
use meta_co_sign.Trie.Node.{
  Node, empty, value_node, hash_node, short_node, full_node, NodeFlag, new_flag, set_child,
  total_child_node, TrieLibrary,
}
use meta_co_sign.Trie.Operations.{resolve, resolve_and_track, inserted_loaded}
use meta_co_sign.Trie.Operations.Steps.{crashed, unfinished, Access, return, ◌>>=◌, ◌>>◌, tell}
use meta_co_sign.Trie.Tracer.{on_delete}

-- `pos` of the loop over the children: -1, an index, or -2
pub data Position : Type 0 where
  nothing_left : Position
  only : ℕ → Position
  several : Position

unfoldable pub seen : ℕ → Position → Position
seen i nothing_left = only i
seen i (only j) = several
seen i several = several

unfoldable pub note_child : ℕ → Node → Position → Position
unfolding seen
note_child i empty pos = pos
note_child i (value_node v) pos = seen i pos
note_child i (hash_node h) pos = seen i pos
note_child i (short_node key child flags) pos = seen i pos
note_child i (full_node children flags) pos = seen i pos

-- The loop from `i` on, over the children left. Where the source breaks, nothing changes any more.
unfoldable pub scan_children : ℕ → ℕ → (ℕ → Node) → Position → Position
unfolding note_child
scan_children zero i children pos = pos
scan_children (suc rounds) i children pos =
    scan_children rounds (suc i) children (note_child i (children i) pos)

-- A short node over what is left of its child.
unfoldable pub merge_short : Bytes → Bytes → Node → Access (Bool × Node)
merge_short prefix nk (short_node ck grandchild flags) =
    tell (on_delete (prefix ++ nk)) >> return (true, short_node (nk ++ ck) grandchild new_flag)
merge_short prefix nk empty = return (true, short_node nk empty new_flag)
merge_short prefix nk (value_node v) = return (true, short_node nk (value_node v) new_flag)
merge_short prefix nk (hash_node h) = return (true, short_node nk (hash_node h) new_flag)
merge_short prefix nk (full_node children flags) =
    return (true, short_node nk (full_node children flags) new_flag)

unfoldable pub deleted_short : Bytes → Bytes → Node → Bool × Node → Access (Bool × Node)
unfolding merge_short
deleted_short prefix nk old (dirty, child) =
    if dirty then merge_short prefix nk child else return (false, old)

-- The last child `pos` of a full node, once it is loaded, takes the place of the full node.
unfoldable pub join_child : Bytes → Node → ℕ → Node → Access (Bool × Node)
join_child prefix child pos (short_node ck grandchild flags) =
    tell (on_delete (prefix ++ pos ∷ []))
    >> return (true, short_node (pos ∷ ck) grandchild new_flag)
join_child prefix child pos empty = return (true, short_node (pos ∷ []) child new_flag)
join_child prefix child pos (value_node v) = return (true, short_node (pos ∷ []) child new_flag)
join_child prefix child pos (hash_node h) = return (true, short_node (pos ∷ []) child new_flag)
join_child prefix child pos (full_node children flags) =
    return (true, short_node (pos ∷ []) child new_flag)

module _ (T : TrieLibrary) (get_blob : Bytes → Read) where
  unfoldable pub reduce_full : Bytes → (ℕ → Node) → Position → Access (Bool × Node)
  unfolding join_child resolve
  reduce_full prefix children nothing_left = return (true, full_node children new_flag)
  reduce_full prefix children several = return (true, full_node children new_flag)
  reduce_full prefix children (only pos) =
      if pos == 16
      then return (true, short_node (pos ∷ []) (children pos) new_flag)
      else (resolve T get_blob (children pos) (prefix ++ pos ∷ [])
          >>= join_child prefix (children pos) pos)

  -- A full node whose child has become `nn`: only a nil one can leave it with a single child.
  unfoldable pub shrink_full : Bytes → (ℕ → Node) → Node → Access (Bool × Node)
  unfolding reduce_full scan_children
  shrink_full prefix children empty =
      reduce_full prefix children (scan_children total_child_node 0 children nothing_left)
  shrink_full prefix children (value_node v) = return (true, full_node children new_flag)
  shrink_full prefix children (hash_node h) = return (true, full_node children new_flag)
  shrink_full prefix children (short_node key child flags) =
      return (true, full_node children new_flag)
  shrink_full prefix children (full_node grandchildren flags) =
      return (true, full_node children new_flag)

  unfoldable pub deleted_full :
      Bytes → (ℕ → Node) → NodeFlag → ℕ → Bool × Node → Access (Bool × Node)
  unfolding shrink_full
  deleted_full prefix children flags x (dirty, nn) =
      if dirty
      then shrink_full prefix (set_child children x nn) nn
      else return (false, full_node children flags)

  unfoldable pub delete : ℕ → Node → Bytes → Bytes → Access (Bool × Node)
  unfolding deleted_short deleted_full resolve_and_track inserted_loaded
  delete zero n prefix key = λ t. (unfinished, t)
  delete (suc fuel) empty prefix key = return (false, empty)
  delete (suc fuel) (value_node v) prefix key = return (true, empty)
  delete (suc fuel) (short_node nk child flags) prefix key =
      let m = prefix_len key nk in
      let rest = delete fuel child (prefix ++ take (length nk) key) (drop (length nk) key) in
      if ltb m (length nk)
      then return (false, short_node nk child flags)
      else if m == length key
      then (tell (on_delete prefix) >> return (true, empty))
      else (rest >>= deleted_short prefix nk (short_node nk child flags))
  delete (suc fuel) (full_node children flags) prefix [] = λ t. (crashed, t)
  delete (suc fuel) (full_node children flags) prefix (x ∷ key) =
      let rest = delete fuel (children x) (prefix ++ x ∷ []) key in
      if ltb x total_child_node then (rest >>= deleted_full prefix children flags x) else λ t.
      (crashed, t)
  delete (suc fuel) (hash_node h) prefix key = resolve_and_track T get_blob h prefix >>= λ loaded.
      delete fuel loaded prefix key >>= λ r. return (inserted_loaded loaded r)
