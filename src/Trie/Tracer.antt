-- ===== src/Trie/Tracer.antt =====
-- pkg/trie/tracer.go: what a trie remembers of the nodes that it has loaded, made and dropped. A
-- `sync.Map` from paths is a function, and a set of paths a test.
use meta_co_sign.Base.{
  Bool, true, false, Option, none, some, List, [], ◌∷◌, ◌++◌, ◌&&◌, if◌then◌else◌,
}
use meta_co_sign.Bytes.{Bytes, bytes_eq}
use meta_co_sign.Registry.{is_some}

pub record Tracer : Type 0 where
  pub inserts : Bytes → Bool
  pub deletes : Bytes → Bool
  pub old_keys : List Bytes
  pub access_list : Bytes → Option Bytes

unfoldable pub new_tracer : Tracer
new_tracer = record {
  inserts = λ p. false;
  deletes = λ p. false;
  old_keys = [];
  access_list = λ p. none;
}

abbrev pub store {ℓ} : {A : Type ℓ} → Bytes → A → (Bytes → A) → Bytes → A
store path a m p = if bytes_eq path p then a else m p

unfoldable pub on_read : Bytes → Bytes → Tracer → Tracer
on_read path val t = record t { access_list = store path (some val) t.access_list }

unfoldable pub on_insert : Bytes → Tracer → Tracer
on_insert path t =
    if t.deletes path
    then record t { deletes = store path false t.deletes }
    else record t { inserts = store path true t.inserts }

unfoldable pub on_delete : Bytes → Tracer → Tracer
on_delete path t =
    if t.inserts path
    then record t { inserts = store path false t.inserts }
    else record t { deletes = store path true t.deletes }

-- `t.tracer.oldKeys = append(t.tracer.oldKeys, hash)`
unfoldable pub add_old_key : Bytes → Tracer → Tracer
add_old_key hash t = record t { old_keys = t.old_keys ++ hash ∷ [] }

unfoldable pub reset_tracer : Tracer → Tracer
unfolding new_tracer
reset_tracer t = new_tracer

-- The copy starts with no old keys.
unfoldable pub copy_tracer : Tracer → Tracer
copy_tracer t = record t { old_keys = [] }

-- the set of the deleted paths that had been read from the database
unfoldable pub deleted_nodes : Tracer → Bytes → Bool
unfolding is_some
deleted_nodes t path = t.deletes path && is_some (t.access_list path)
