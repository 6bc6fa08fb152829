-- ===== src/HashTable/Walk.antt =====
-- `hash_table_apply` against the list of the items in the order of the chains.
use mathlib.Core.List.{flatten, foldl}
use ioapps.Base.{◌≡◌, refl, ◌∙◌, List, [], ◌∷◌, ◌++◌}
use ioapps.HashTable.{HashTable, apply_chain, apply_entries, hash_table_apply}

module _ {S V : Type 0} (function : S → V → S) where
  apply_chain_lem :
      (s : S) (chain rest : List V)
      → foldl function (apply_chain function s chain) rest ≡ foldl function s (chain ++ rest)
  unfolding apply_chain
  apply_chain_lem s [] rest = refl
  apply_chain_lem s (v ∷ vs) rest = apply_chain_lem (function s v) vs rest

  apply_entries_lem :
      (s : S) (chains : List (List V))
      → apply_entries function s chains ≡ foldl function s (flatten chains)
  unfolding apply_entries flatten
  apply_entries_lem s [] = refl
  apply_entries_lem s (chain ∷ chains) =
      apply_entries_lem (apply_chain function s chain) chains
      ∙ apply_chain_lem s chain (flatten chains)

  -- `hash_table_apply` calls the function once for each item of the table, chain after chain and in
  -- the order of the items in a chain, each time in the state that the call before it left.
  pub hash_table_apply_lem :
      (s : S) (h : HashTable V) → hash_table_apply function s h ≡ foldl function s (flatten h.entry)
  unfolding hash_table_apply
  hash_table_apply_lem s h = apply_entries_lem s h.entry
