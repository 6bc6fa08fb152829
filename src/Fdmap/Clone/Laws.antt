-- ===== src/Fdmap/Clone/Laws.antt =====
-- What the table of a cloned process holds.
use mathlib.Core.Path.{subst}
use mathlib.Core.List.{flatten, foldl}
use ioapps.Base.{
  Option, none, some, ℕ, zero, suc, ◌<◌, ◌≡◌, refl, sym, ap, ◌∙◌, List, [], ◌∷◌, ◌++◌, append_assoc,
  append-nil, All, length, length-append, arith,
}
use ioapps.Base.Int.{pos, ==ℤ_refl}
use ioapps.Base.Run.{Run, ok, ◌>>=◌, >>=-ok}
use ioapps.HashTable.{HashTable, find_in, hash_table_init, hash_table_find, hash_table_insert}
use ioapps.HashTable.Index.{IsIndex, insert-IsIndex, insert_placed, init-IsIndex}
use ioapps.HashTable.IntKeys.{length-init}
use ioapps.HashTable.NatKeys.{
  nat_ops, nat_ops-IsLawful, nat_ops-IsPlacing, insert-nat, find-nat, find_in-nat,
}
use ioapps.HashTable.Walk.{hash_table_apply_lem}
use ioapps.Fdmap.{FdMap, FdItem, FdUsage}
use ioapps.Fdmap.Clone.{item_fd, ht_ops_fditem, load, Cloning, duplicate_item, duplicate_process_ht}
use ioapps.Fdmap.Usage.{increase_fd_usage}
use ioapps.Fdmap.Usage.Counts.{IsCounting, updated, increase_fd_usage-IsCounting}

-- An open descriptor of the old process: its number, where its map is, the map, and the descriptor
-- that the map names.
pub record Entry : Type 0 where
  pub fd : ℕ
  pub pointer : ℕ
  pub map : FdMap
  pub my_fd : ℕ

pub record IsEntry (maps : List (Option FdMap)) (e : Entry) : Type 0 where
  pub stored : load maps e.pointer ≡ ok e.map
  pub named : e.map.my_fd ≡ pos e.my_fd

abbrev pub items : List Entry → List FdItem
items [] = []
items (e ∷ es) = record { old_fd = pos e.fd; fd_map = e.pointer } ∷ items es

abbrev pub copies : List Entry → List (Option FdMap)
copies [] = []
copies (e ∷ es) = some e.map ∷ copies es

-- The items of the new table; the maps are at the place `p` and those behind it.
abbrev pub clones : ℕ → List Entry → List FdItem
clones p [] = []
clones p (e ∷ es) = record { old_fd = pos e.fd; fd_map = p } ∷ clones (suc p) es

abbrev pub counted : (ℕ → ℕ) → List Entry → ℕ → ℕ
counted f [] = f
counted f (e ∷ es) = counted (updated f e.my_fd (suc (f e.my_fd))) es

load-append :
    (maps more : List (Option FdMap)) (p : ℕ) {m : FdMap}
    → load maps p ≡ ok m
    → load (maps ++ more) p ≡ ok m
load-append [] more p e = cc
load-append (none ∷ maps) more zero e = cc
load-append (some m ∷ maps) more zero e = e
load-append (m ∷ maps) more (suc p) e = load-append maps more p e

-- What the loops keep.
record IsCloning (s : Cloning) (maps : List (Option FdMap)) (done : List FdItem) (f : ℕ → ℕ)
    : Type 0 where
  stored : s.maps ≡ maps
  width : 0 < length s.ht.entry
  index : IsIndex (nat_ops item_fd) s.ht done
  counts : IsCounting s.usage_map f

item-step :
    (s : Cloning) (maps more : List (Option FdMap)) (done : List FdItem) (f : ℕ → ℕ) (e : Entry)
    → IsCloning s (maps ++ more) done f
    → IsEntry maps e
    → (s' : Cloning) × (duplicate_item (record { old_fd = pos e.fd; fd_map = e.pointer }) s ≡ ok s')
      × IsCloning s'
          (maps ++ (more ++ some e.map ∷ []))
          (done ++ record { old_fd = pos e.fd; fd_map = length (maps ++ more) } ∷ [])
          (updated f e.my_fd (suc (f e.my_fd)))
unfolding duplicate_item
item-step s maps more done f e h entry =
    let item : FdItem = record { old_fd = pos e.fd; fd_map = length (maps ++ more) } in
    let (ht, put, wide) =
      insert_placed (nat_ops item_fd) s.ht e.fd item
        (nat_ops-IsPlacing item_fd (length s.ht.entry) h.width) in
    let (usage, more_used, counts) = increase_fd_usage-IsCounting s.usage_map f e.my_fd h.counts in
    let read : load s.maps e.pointer ≡ ok e.map =
      ap (λ t. load t e.pointer) h.stored ∙ load-append maps more e.pointer entry.stored in
    let inserted : hash_table_insert ht_ops_fditem s.ht (pos e.fd)
          (record { old_fd = pos e.fd; fd_map = length s.maps })
        ≡ ok ht =
      ap
        (λ t.
          hash_table_insert ht_ops_fditem s.ht (pos e.fd)
            (record { old_fd = pos e.fd; fd_map = length t }))
        h.stored
      ∙ insert-nat item_fd s.ht e.fd item
      ∙ put in
    (
      record { maps = s.maps ++ some e.map ∷ []; ht = ht; usage_map = usage },
      >>=-ok _ read
          ∙ >>=-ok _ inserted
          ∙ >>=-ok _ (ap (increase_fd_usage s.usage_map) entry.named ∙ more_used),
      record {
        stored = ap (λ t. t ++ some e.map ∷ []) h.stored ∙ append_assoc maps more (some e.map ∷ []);
        width = omega (arith, wide, h.width);
        index =
            insert-IsIndex (nat_ops item_fd) (nat_ops-IsLawful item_fd) s.ht ht e.fd item done
              (==ℤ_refl (pos e.fd)) h.index put;
        counts = counts;
      },
    )

abbrev dup : Run Cloning → FdItem → Run Cloning
dup s fd_it_old = s >>= duplicate_item fd_it_old

next_place :
    (maps more : List (Option FdMap)) (m : Option FdMap)
    → length (maps ++ (more ++ m ∷ [])) ≡ suc (length (maps ++ more))
next_place maps more m = omega (
  arith,
  length-append maps (more ++ m ∷ []),
  length-append more (m ∷ []),
  length-append maps more,
)

IsCloning-eq :
    {s : Cloning} {maps maps' : List (Option FdMap)} {done done' : List FdItem} {f : ℕ → ℕ}
    → maps ≡ maps'
    → done ≡ done'
    → IsCloning s maps done f
    → IsCloning s maps' done' f
IsCloning-eq {s} {f = f} p q h = record {
  stored = h.stored ∙ p;
  width = h.width;
  index = subst (IsIndex (nat_ops item_fd) s.ht) q h.index;
  counts = h.counts;
}

items-loop :
    (es : List Entry) (s : Cloning) (maps more : List (Option FdMap)) (done : List FdItem)
    (f : ℕ → ℕ)
    → IsCloning s (maps ++ more) done f
    → All (IsEntry maps) es
    → (s' : Cloning) × (foldl dup (ok s) (items es) ≡ ok s')
      × IsCloning s'
          (maps ++ (more ++ copies es))
          (done ++ clones (length (maps ++ more)) es)
          (counted f es)
items-loop [] s maps more done f h entries =
    (s, refl, IsCloning-eq (ap (λ t. maps ++ t) (sym (append-nil more))) (sym (append-nil done)) h)
items-loop (e ∷ es) s maps more done f h entries =
    let item : FdItem = record { old_fd = pos e.fd; fd_map = length (maps ++ more) } in
    let (next, run, kept) = item-step s maps more done f e h entries.0 in
    let (last, rest, all) =
      items-loop es next maps (more ++ some e.map ∷ []) (done ++ item ∷ [])
        (updated f e.my_fd (suc (f e.my_fd))) kept entries.1 in
    (
      last,
      ap (λ r. foldl dup r (items es)) run ∙ rest,
      IsCloning-eq (ap (λ t. maps ++ t) (append_assoc more (some e.map ∷ []) (copies es)))
          (ap (λ p. (done ++ item ∷ []) ++ clones p es) (next_place maps more (some e.map))
            ∙ append_assoc done (item ∷ []) (clones (suc (length (maps ++ more))) es))
          all,
    )

-- Where the items of a table are open descriptors whose maps are stored, and the usages count `f`,
-- `duplicate_process_ht` goes through. It appends a copy of each map to the stored ones, also where
-- two descriptors share one; each descriptor from 0 on finds in the new table what it finds among the
-- clones, which are the descriptors with the copies; and the usages count one more use for each item,
-- of the descriptor that its map names.
pub duplicate_process_ht_lem :
    (maps : List (Option FdMap)) (h : HashTable FdItem) (usage_map : HashTable FdUsage) (f : ℕ → ℕ)
    (es : List Entry)
    → flatten h.entry ≡ items es
    → 0 < length h.entry
    → All (IsEntry maps) es
    → IsCounting usage_map f
    → (s : Cloning) × (duplicate_process_ht maps h usage_map ≡ ok s)
      × (s.maps ≡ maps ++ copies es)
      × ((fd : ℕ)
          → hash_table_find ht_ops_fditem s.ht (pos fd)
            ≡ ok (find_in ht_ops_fditem (pos fd) (clones (length maps) es)))
      × IsCounting s.usage_map (counted f es)
unfolding duplicate_process_ht
duplicate_process_ht_lem maps h usage_map f es listed wide entries counts =
    let m = length h.entry in
    let start : Cloning = record { maps = maps; ht = hash_table_init m; usage_map = usage_map } in
    let room : 0 < length start.ht.entry = omega (arith, wide, length-init item_fd m) in
    let first : IsCloning start (maps ++ []) [] f = record {
      stored = sym (append-nil maps);
      width = room;
      index =
          init-IsIndex (nat_ops item_fd) m (nat_ops-IsPlacing item_fd (length start.ht.entry) room);
      counts = counts;
    } in
    let (s, run, all) = items-loop es start maps [] [] f first entries in
    (
      s,
      hash_table_apply_lem dup (ok start) h ∙ ap (foldl dup (ok start)) listed ∙ run,
      all.stored,
      λ fd.
          find-nat item_fd s.ht fd
          ∙ all.index fd
          ∙ ap ok (
              sym (find_in-nat item_fd fd (clones (length (maps ++ [])) es))
              ∙ ap (λ t. find_in ht_ops_fditem (pos fd) (clones (length t) es)) (append-nil maps)),
      all.counts,
    )
