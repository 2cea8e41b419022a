-- ===== src/Trie/NodeSet.antt =====
-- pkg/trie/node/node_set.go: the nodes that a commit collects, by the text of their paths. The
-- counters are `int`, given by their bits.
use meta_co_sign.Base.{
  ℕ, Bool, Option, none, some, List, [], ◌∷◌, ◌++◌, if◌then◌else◌, replicate, length, ◌==◌,
}
use meta_co_sign.Bytes.{Bytes}
use meta_co_sign.Bytes.Word.{int_suc, u64_pred}
use meta_co_sign.Trie.Tracer.{store}

pub record NodeWrapper : Type 0 where
  pub hash : Bytes
  pub blob : Bytes

unfoldable pub is_deleted : NodeWrapper → Bool
is_deleted n = length n.blob == 0

unfoldable pub new_deleted : NodeWrapper
new_deleted = record { hash = replicate 32 0; blob = [] }

pub record Leaf : Type 0 where
  pub leaf_blob : Bytes
  pub parent : Bytes

pub record NodeSet : Type 0 where
  pub leaves : List Leaf
  pub nodes : Bytes → Option NodeWrapper
  pub updates : ℕ
  pub deletes : ℕ

unfoldable pub new_node_set : NodeSet
new_node_set = record { leaves = []; nodes = λ path. none; updates = 0; deletes = 0 }

unfoldable pub counted : NodeWrapper → NodeSet → NodeSet
unfolding is_deleted
counted n set =
    if is_deleted n
    then record set { deletes = int_suc set.deletes }
    else record set { updates = int_suc set.updates }

-- the counter of an overwritten node taken back
unfoldable pub uncounted : Option NodeWrapper → NodeSet → NodeSet
unfolding is_deleted
uncounted none set = set
uncounted (some prev) set =
    if is_deleted prev
    then record set { deletes = u64_pred set.deletes }
    else record set { updates = u64_pred set.updates }

unfoldable pub add_leaf : Bytes → Bytes → NodeSet → NodeSet
add_leaf parent blob set = record set {
  leaves = set.leaves ++ record { leaf_blob = blob; parent = parent } ∷ [];
}

module _ (hex_encode : Bytes → Bytes) where
  unfoldable pub add_node : Bytes → NodeWrapper → NodeSet → NodeSet
  unfolding counted
  add_node path n set = record (counted n set) {
    nodes = store (hex_encode path) (some n) set.nodes;
  }

  -- The nodes as the range over the map gives them; `AddNode` takes the text of the path again.
  unfoldable pub merge : List (Bytes × NodeWrapper) → NodeSet → NodeSet
  unfolding add_node uncounted
  merge [] set = set
  merge ((path, n) ∷ nodes) set = merge nodes (add_node path n (uncounted (set.nodes path) set))

unfoldable pub size : NodeSet → ℕ × ℕ
size set = (set.updates, set.deletes)
