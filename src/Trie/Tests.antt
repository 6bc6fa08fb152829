-- ===== src/Trie/Tests.antt =====
-- A small tree of paths: /a/b and /a/c.
use mathlib.Core.Option.{or_else}
use ioapps.Base.{ℕ, ◌≡◌, ◌≢◌, refl, List, [], ◌∷◌, ◌↔◌, none, some}
use ioapps.Parsing.{codes}
use ioapps.Trie.{Trie, node, no_nodes, trie_find, trie_delete, trie_err}
use ioapps.Trie.Paths.{IsPath}
use ioapps.Trie.Insert.{trie_longest_prefix, trie_insert2}
use ioapps.Trie.Lookup.{find_value}
use ioapps.Trie.Longest.{IsLongest, trie_longest_prefix-IsLongest}
use ioapps.Trie.Inserting.{trie_insert2-value}
use ioapps.Trie.Deleting.{trie_delete-value}
use ioapps.Trie.Pointers.{trie_insert2-find}
use ioapps.Trie.Distinct.{Distinct}

abbrev paths : Trie ℕ
paths = record {
  root = 0;
  children =
      node (codes "a") 1 (node (codes "b") 2 no_nodes (node (codes "c") 3 no_nodes no_nodes))
        no_nodes;
  delim = b'/';
}

no_nil : {x : ℕ} {xs : List ℕ} → x ∷ xs ≢ []
no_nil e = cc

abbrev key_d : List ℕ
key_d = codes "d"

a_c-IsPath : IsPath b'/' (codes "a" ∷ codes "c" ∷ [])
a_c-IsPath = (((no_nil, (refl, tt)), (refl, tt)), ((((no_nil, (refl, tt)), (refl, tt))), tt))

a_d-IsPath : IsPath b'/' (codes "a" ∷ key_d ∷ [])
a_d-IsPath = (((no_nil, (refl, tt)), (refl, tt)), ((((no_nil, (refl, tt)), (refl, tt))), tt))

paths-Distinct : Distinct paths.children
paths-Distinct = (refl, (refl, tt, (refl, tt, tt)), tt)

trie_longest_prefix-IsLongest_example :
    IsLongest paths
      (codes "/a/d")
      (codes "a" ∷ key_d ∷ [])
      (trie_longest_prefix paths (codes "/a/d") (codes "/a/d"))
trie_longest_prefix-IsLongest_example =
    trie_longest_prefix-IsLongest paths (codes "/a/d") (codes "a") (key_d ∷ []) refl a_d-IsPath

trie_insert2-value_example :
    find_value 0 (trie_insert2 paths (codes "/a/d") 9).0.children (codes "a" ∷ key_d ∷ [])
    ≡ or_else (find_value 0 paths.children (codes "a" ∷ key_d ∷ [])) (some 9)
trie_insert2-value_example =
    trie_insert2-value paths 9 (codes "a") (key_d ∷ []) (codes "a" ∷ key_d ∷ []) refl a_d-IsPath

trie_insert2-find_example :
    (trie_find (trie_insert2 paths (codes "/a/d") 9).0 (codes "/a/d")
      ≡ some (trie_insert2 paths (codes "/a/d") 9).1)
    × Distinct (trie_insert2 paths (codes "/a/d") 9).0.children
trie_insert2-find_example =
    trie_insert2-find paths 9 (codes "a") (key_d ∷ []) refl a_d-IsPath paths-Distinct

trie_delete-value_example :
    (find_value 0 (trie_delete paths (codes "/a/c")).1.children (codes "a" ∷ codes "b" ∷ [])
      ≡ find_value 0 paths.children (codes "a" ∷ codes "b" ∷ []))
    × (((trie_delete paths (codes "/a/c")).0 ≡ trie_err)
        ↔ (find_value 0 paths.children (codes "a" ∷ codes "c" ∷ []) ≡ none))
trie_delete-value_example =
    trie_delete-value paths (codes "a") (codes "c" ∷ []) (codes "a" ∷ codes "b" ∷ []) a_c-IsPath
      paths-Distinct
