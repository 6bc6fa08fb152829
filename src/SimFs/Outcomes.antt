-- ===== src/SimFs/Outcomes.antt =====
-- simfs.c: what the operations have found when they start, and what `simfs_unlink` answers and leaves.
use mathlib.Core.Path.{subst}
use ioapps.Base.{
  ℕ, ◌<◌, ◌≡◌, ◌≢◌, refl, sym, ap, ◌∙◌, ◌==◌, if◌then◌else◌, Bool, Bool-cases, inl, inr, false,
  List, [], ◌∷◌, ◌++◌, append_assoc, All, some, length,
}
use ioapps.Base.Int.{ℤ, pos}
use ioapps.Base.Run.{ok}
use ioapps.Trace.{UnlinkOp}
use ioapps.Parsing.{same}
use ioapps.Trie.{max_line}
use ioapps.Trie.Paths.{path_of, IsKey, IsPath}
use ioapps.Trie.Having.{has, has-below_missing}
use ioapps.Trie.Inserting.{All-behind}
use ioapps.SimFs.{Fs, Disk, Missing, simfs_enoent, simfs_eent}
use ioapps.SimFs.Names.{slash, IsPart, IsPlain, climb, climb-IsPlain, absolute_name-climb}
use ioapps.SimFs.Scan.{IsFs, scan}
use ioapps.SimFs.Seek.{Miss, seek, Hit-same, Miss-scan}
use ioapps.SimFs.Existing.{existing-whole}
use ioapps.SimFs.Known.{
  known, scan-IsFs, scan-has, scan-known_all, without_path-IsFs, without_path-has, with_path-IsFs,
}
use ioapps.SimFs.Calls.{
  prefix_in, find_prefix, populate, without_path, with_path, unlink_missing, simfs_unlink,
}

-- A name that leads to a path: absolute, shorter than the buffer, of names that do not begin with a dot
-- and of `..`.
abbrev pub Names : List ℕ → List (List ℕ) → Type 0
Names name ks =
    (js : List (List ℕ)) × (name ≡ path_of slash js)
    × (length name < max_line)
    × All IsPart js
    × (climb [] js ≡ ks)

plain-IsPath : (ks : List (List ℕ)) → All IsPlain ks → IsPath slash ks
plain-IsPath [] h = tt
plain-IsPath (k ∷ ks) (plain, h) = (plain.0, plain-IsPath ks h)

pub Names-IsPath : (name : List ℕ) (ks : List (List ℕ)) → Names name ks → IsPath slash ks
Names-IsPath name ks (js, text, fits, parts, leads) =
    subst (IsPath slash) leads (plain-IsPath (climb [] js) (climb-IsPlain [] js tt parts))

pub find_prefix-Names :
    (disk : Disk) (fs : Fs) (name k : List ℕ) (ks : List (List ℕ))
    → Names name (k ∷ ks)
    → find_prefix disk name fs ≡ ok (prefix_in fs (path_of slash (k ∷ ks)))
find_prefix-Names disk fs name k ks ([], text, fits, parts, leads) = cc
find_prefix-Names disk fs name k ks (j ∷ js, text, fits, parts, leads) =
    let fits' = subst (λ z. length z < max_line) text fits in
    rw (text, absolute_name-climb disk max_line j js fits' parts)
      (ap (λ z. ok (prefix_in fs (path_of slash z))) leads)

All-before : {A : Type 0} (P : A → Type 0) (xs ys : List A) → All P (xs ++ ys) → All P xs
All-before P [] ys h = tt
All-before P (x ∷ xs) ys (p, h) = (p, All-before P xs ys h)

-- What `simfs_populate` leaves where the path is not in the tree.
pub record Looked (disk : Disk) (fs : Fs) (ks : List (List ℕ)) (m : Missing) : Type 0 where
  pub run : populate disk (prefix_in fs (path_of slash ks)) fs ≡ ok m
  pub answer : m.rv ≡ known disk fs [] ks
  pub good : IsFs m.fs
  pub there : has m.fs.children ks ≡ m.rv
  pub exact : same (path_of slash ks) m.existing ≡ m.rv
  pub left : m.rv ≡ false → m.missing ≢ []

pub Miss-Looked :
    (disk : Disk) (fs : Fs) (ks : List (List ℕ))
    → IsFs fs
    → IsPath slash ks
    → Miss fs ks
    → (same (path_of slash ks) (prefix_in fs (path_of slash ks)).buff ≡ false)
      × (has fs.children ks ≡ false)
      × (m : Missing) × Looked disk fs ks m
Miss-Looked disk fs ks good path h =
    let (differ, scanned) = Miss-scan disk fs ks path h in
    let (m, run, rv, after, stands, sums) = scanned in
    let parts = h.next ∷ h.parts in
    let (exact, left) = existing-whole disk fs ks h.way h.next h.parts m path h.split stands sums in
    let gone : has fs.children (h.way ++ parts) ≡ false =
      ap (has fs.children) (sym (append_assoc h.way (h.next ∷ []) h.parts))
      ∙ has-below_missing fs.children (h.way ++ h.next ∷ []) h.parts h.not_there in
    let path' = subst (IsPath slash) h.split path in
    let before = All-before (IsKey slash) h.way parts path' in
    let behind = All-behind (IsKey slash) h.way parts path' in
    (
      differ,
      ap (has fs.children) h.split ∙ gone,
      m,
      record {
        run = run;
        answer =
            rv
            ∙ scan-known_all disk fs h.way h.parts h.next h.there h.not_there
            ∙ ap (known disk fs []) (sym h.split);
        good = subst IsFs (sym after) (scan-IsFs disk parts h.way fs good before behind);
        there =
            ap {A = Fs} (λ z. has z.children ks) after
            ∙ ap (has (scan disk h.way fs parts).fs.children) h.split
            ∙ scan-has disk parts h.way fs good before behind gone
            ∙ sym rv;
        exact = exact ∙ sym rv;
        left = λ less. left (sym rv ∙ less);
      },
    )

-- The result of unlink: what is missing is never deleted with success.
abbrev pub unlink_result : Bool → Bool → ℕ → ℤ
unlink_result there found retval =
    if there
    then if retval == 0 then pos 0 else simfs_eent
    else if retval == 0
    then simfs_enoent
    else if found
    then simfs_eent
    else pos 0

unlink-missing :
    (retval : ℕ) (k : List ℕ) (ks : List (List ℕ)) (m : Missing)
    → IsPath slash (k ∷ ks)
    → IsFs m.fs
    → has m.fs.children (k ∷ ks) ≡ m.rv
    → (fs' : Fs) × (ok (unlink_missing retval (path_of slash (k ∷ ks)) m)
        ≡ ok (some (unlink_result false m.rv retval), fs'))
      × IsFs fs'
      × (has fs'.children (k ∷ ks) ≡ false)
unlink-missing retval k ks m path good there =
    let name = path_of slash (k ∷ ks) in
    let again = with_path-IsFs m.fs k ks good path in
    elim (Bool-cases (retval == 0)) [
      | inl z ↦
          rw (unlink_missing, z)
            (
              without_path (with_path m.fs name) name,
              refl,
              without_path-IsFs _ name again,
              without_path-has (with_path m.fs name) k ks again path,
            )
      | inr z ↦ elim (Bool-cases m.rv) [
        | inl r ↦
            rw (unlink_missing, z, r)
              (
                without_path m.fs name,
                refl,
                without_path-IsFs m.fs name good,
                without_path-has m.fs k ks good path,
              )
        | inr r ↦ rw (unlink_missing, z, r) (m.fs, refl, good, there ∙ r)
      ]
    ]

-- A name shorter than 512 characters that has one slash before each of its parts, where each part is
-- `..` or a name that does not begin with a dot, and that leads to a path of one part or more; and a
-- tree with the slash as delimiter, whose siblings have different names: `simfs_unlink` does not
-- abort, leaves again such a tree, and afterwards the path is not in the tree. A path in the tree is
-- deleted with success, if the trace says so; where it is not there, a success in the trace is never
-- confirmed, even if the disk has the path, and a failure is confirmed unless the disk has what the
-- tree lacks of it.
pub simfs_unlink-gone :
    (disk : Disk) (op : UnlinkOp) (fs : Fs) (k : List ℕ) (ks : List (List ℕ))
    → Names op.name (k ∷ ks)
    → IsFs fs
    → (fs' : Fs) × (simfs_unlink disk op fs
        ≡ ok (
          some (unlink_result (has fs.children (k ∷ ks)) (known disk fs [] (k ∷ ks)) op.retval),
          fs',
        ))
      × IsFs fs'
      × (has fs'.children (k ∷ ks) ≡ false)
unfolding simfs_unlink
simfs_unlink-gone disk op fs k ks names good =
    let name = path_of slash (k ∷ ks) in
    let path = Names-IsPath op.name (k ∷ ks) names in
    let start = find_prefix-Names disk fs op.name k ks names in
    elim (seek fs k ks good.0 path) [
      | inl h ↦
          rw (start, Hit-same fs (k ∷ ks) h, h.there)
            (
              without_path fs name,
              refl,
              without_path-IsFs fs name good,
              without_path-has fs k ks good path,
            )
      | inr h ↦
          let (differ, gone, m, looked) = Miss-Looked disk fs (k ∷ ks) good path h in
          rw (start, differ, gone, looked.run, sym looked.answer)
            (unlink-missing op.retval k ks m path looked.good looked.there)
    ]
