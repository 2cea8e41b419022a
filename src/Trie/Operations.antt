-- ===== src/Trie/Operations.antt =====
-- The recursive operations of pkg/trie/trie.go: `get`, `insert` and `delete`, with the loading of
-- nodes from the database. A call takes the tracer and gives it back changed, also with an error. A
-- key is given by the part behind the path to the node, and the path: `key[pos:]` and `key[:pos]`.
-- The fuel bounds the nodes on the way, of which a broken database could give no end.
pub mod Fuel
pub mod Steps
use meta_co_sign.Base.{
  ℕ, zero, suc, ◌+◌, Bool, true, false, not, Option, none, some, [], ◌∷◌, ◌++◌, ltb, ◌==◌, ◌||◌,
  ◌&&◌, if◌then◌else◌, length, take, drop,
}
use meta_co_sign.Bytes.{Bytes, bytes_eq}
use meta_co_sign.Result.{Result, ok, fail, panic}
use meta_co_sign.Store.{Read, found, not_found, read_failed}
use meta_co_sign.Trie.Nibbles.{prefix_len}
use meta_co_sign.Trie.Node.{
  Node, empty, value_node, hash_node, short_node, full_node, NodeFlag, new_flag, set_child,
  total_child_node, TrieLibrary, decode_node,
}
use meta_co_sign.Trie.Tracer.{Tracer, on_read, on_insert, on_delete, add_old_key}
use Steps.{
  Reply, done, missing_node, crashed, unfinished, Access, return, ◌>>=◌, ◌>>◌, tell, on_missing,
}

-- what `get` returns: the value, the node to put in the place of this one, and whether any node
-- was loaded
abbrev pub Got : Type 0
Got = Option Bytes × Node × Bool

unfoldable pub got_short : Bytes → Node → NodeFlag → Got → Got
got_short key child flags (value, new_node, did_resolve) =
    (value, short_node key (if did_resolve then new_node else child) flags, did_resolve)

unfoldable pub got_full : (ℕ → Node) → NodeFlag → ℕ → Got → Got
got_full children flags x (value, new_node, did_resolve) = (
  value,
  full_node (if did_resolve then set_child children x new_node else children) flags,
  did_resolve,
)

unfoldable pub got_hash : Got → Got
got_hash (value, new_node, did_resolve) = (value, new_node, true)

-- `insert` on a nil node
unfoldable pub insert_new : Bytes → Bytes → Node → Access (Bool × Node)
insert_new prefix [] value = return (true, value)
insert_new prefix (x ∷ key) value =
    tell (on_insert prefix) >> return (true, short_node (x ∷ key) value new_flag)

-- `insert` with an empty key
unfoldable pub insert_end : Node → Node → Access (Bool × Node)
insert_end (value_node v) (value_node w) = return (not (bytes_eq v w), value_node w)
insert_end (value_node v) empty = λ t. (crashed, t)
insert_end (value_node v) (hash_node h) = λ t. (crashed, t)
insert_end (value_node v) (short_node key child flags) = λ t. (crashed, t)
insert_end (value_node v) (full_node children flags) = λ t. (crashed, t)
insert_end empty value = return (true, value)
insert_end (hash_node h) value = return (true, value)
insert_end (short_node key child flags) value = return (true, value)
insert_end (full_node children flags) value = return (true, value)

-- the two children of a new branch, where the keys go on with these nibbles
unfoldable pub branch_children : ℕ → Node → ℕ → Node → ℕ → Node
branch_children y old x new = set_child (set_child (λ i. empty) y old) x new

-- The branch takes the place of the short node, behind a short node for the common nibbles.
unfoldable pub insert_joint : Bytes → ℕ → Bytes → Node → Bytes → Access (Bool × Node)
insert_joint prefix m key branch hash =
    if m == 0 then (tell (add_old_key hash) >> return (true, branch)) else (do
      tell (on_insert (prefix ++ take m key))
      tell (add_old_key hash)
      return (true, short_node (take m key) branch new_flag))

-- The rest of both keys from where they differ. An index out of range panics.
unfoldable pub insert_branch :
    Bytes → ℕ → Bytes → Node → NodeFlag → Bytes → Node → Bytes → Bytes → Access (Bool × Node)
unfolding insert_new branch_children insert_joint
insert_branch prefix m nk child flags key value [] k = λ t. (crashed, t)
insert_branch prefix m nk child flags key value (y ∷ ys) [] =
    if ltb y total_child_node
    then (insert_new (prefix ++ take (suc m) nk) ys child >>= λ r. λ t. (crashed, t))
    else λ t. (crashed, t)
insert_branch prefix m nk child flags key value (y ∷ ys) (x ∷ xs) =
    if ltb y total_child_node && ltb x total_child_node
    then (do
      (_, old) ← insert_new (prefix ++ take (suc m) nk) ys child
      (_, new) ← insert_new (prefix ++ take (suc m) key) xs value
      let branch = full_node (branch_children y old x new) new_flag
      insert_joint prefix m key branch flags.hash)
    else λ t. (crashed, t)

-- after the child of a short or of a full node was inserted into
unfoldable pub inserted : Node → Bytes → (Node → Node) → Bool × Node → Access (Bool × Node)
inserted old hash rebuild (dirty, nn) =
    if dirty then tell (add_old_key hash) >> return (true, rebuild nn) else return (false, old)

unfoldable pub inserted_loaded : Node → Bool × Node → Bool × Node
inserted_loaded loaded (dirty, nn) = (dirty, if dirty then nn else loaded)

module _ (T : TrieLibrary) (get_blob : Bytes → Read) where
  -- `reader.node`: an empty value, or any error, is a missing node.
  unfoldable pub load : Read → Bytes → Bytes → Access Node
  unfolding decode_node
  load (found []) h prefix = λ t. (missing_node, t)
  load (found (b ∷ bs)) h prefix =
      λ t. (Steps.reply_of (decode_node T h (b ∷ bs)), on_read prefix (b ∷ bs) t)
  load not_found h prefix = λ t. (missing_node, t)
  load read_failed h prefix = λ t. (missing_node, t)

  unfoldable pub resolve_and_track : Bytes → Bytes → Access Node
  unfolding load
  resolve_and_track h prefix = load (get_blob (T.bytes_to_hash h)) h prefix

  unfoldable pub resolve : Node → Bytes → Access Node
  unfolding resolve_and_track
  resolve (hash_node h) prefix = resolve_and_track h prefix
  resolve empty prefix = return empty
  resolve (value_node v) prefix = return (value_node v)
  resolve (short_node key child flags) prefix = return (short_node key child flags)
  resolve (full_node children flags) prefix = return (full_node children flags)

  unfoldable pub get : ℕ → Node → Bytes → Bytes → Access Got
  unfolding resolve_and_track got_short got_full got_hash
  get zero n prefix key = λ t. (unfinished, t)
  get (suc fuel) empty prefix key = return (none, empty, false)
  get (suc fuel) (value_node v) prefix key = return (some v, value_node v, false)
  get (suc fuel) (short_node nk child flags) prefix key =
      let rest = get fuel child (prefix ++ nk) (drop (length nk) key) in
      if ltb (length key) (length nk) || not (bytes_eq nk (take (length nk) key))
      then return (none, short_node nk child flags, false)
      else rest >>= λ r. return (got_short nk child flags r)
  get (suc fuel) (full_node children flags) prefix [] = λ t. (crashed, t)
  get (suc fuel) (full_node children flags) prefix (x ∷ key) =
      let rest = get fuel (children x) (prefix ++ x ∷ []) key in
      if ltb x total_child_node then (rest >>= λ r. return (got_full children flags x r)) else λ t.
      (crashed, t)
  get (suc fuel) (hash_node h) prefix key =
      resolve_and_track h prefix >>= λ child. get fuel child prefix key >>= λ r. return (got_hash r)

  unfoldable pub insert : ℕ → Node → Bytes → Bytes → Node → Access (Bool × Node)
  unfolding insert_end insert_new insert_branch inserted inserted_loaded resolve_and_track
  insert zero n prefix key value = λ t. (unfinished, t)
  insert (suc fuel) n prefix [] value = insert_end n value
  insert (suc fuel) empty prefix (x ∷ key) value = insert_new prefix (x ∷ key) value
  insert (suc fuel) (value_node v) prefix (x ∷ key) value = λ t. (crashed, t)
  insert (suc fuel) (short_node nk child flags) prefix (x ∷ key) value =
      let m = prefix_len (x ∷ key) nk in
      let rest = insert fuel child (prefix ++ take m (x ∷ key)) (drop m (x ∷ key)) value in
      if m == length nk
      then rest
        >>= inserted (short_node nk child flags) flags.hash (λ nn. short_node nk nn new_flag)
      else insert_branch prefix m nk child flags (x ∷ key) value (drop m nk) (drop m (x ∷ key))
  insert (suc fuel) (full_node children flags) prefix (x ∷ key) value =
      let rest = insert fuel (children x) (prefix ++ x ∷ []) key value in
      if ltb x total_child_node
      then rest
        >>= inserted (full_node children flags) flags.hash
            (λ nn. full_node (set_child children x nn) new_flag)
      else λ t. (crashed, t)
  insert (suc fuel) (hash_node h) prefix (x ∷ key) value =
      on_missing (resolve_and_track h prefix)
        (λ loaded.
          insert fuel loaded prefix (x ∷ key) value >>= λ r. return (inserted_loaded loaded r))
        (insert_new prefix (x ∷ key) value)
