-- ===== src/SimFs/Tests.antt =====
-- A disk with one directory and a file in it.
use ioapps.Base.{
  ℕ, ◌≡◌, ◌≢◌, refl, arith, ◌||◌, Bool, true, List, [], ◌∷◌, All, none, some, inl, inr,
}
use ioapps.Base.Run.{ok}
use ioapps.Trace.{OpInfo}
use ioapps.Parsing.{codes, same}
use ioapps.Trie.Having.{has}
use ioapps.SimFs.{Disk, Fs, simfs_init, simfs_absolute_name, simfs_enoent}
use ioapps.SimFs.Names.{IsPart, parent, absolute_name-climb}
use ioapps.SimFs.Known.{known}
use ioapps.SimFs.Scan.{IsFs}
use ioapps.SimFs.Calls.{simfs_stat, simfs_access, simfs_unlink, simfs_mkdir, simfs_creat}
use ioapps.SimFs.Making.{Leaves, simfs_mkdir-Leaves, simfs_creat-Leaves}
use ioapps.SimFs.Outcomes.{Names, unlink_result, simfs_unlink-gone}
use ioapps.SimFs.Checking.{Gives, check_result, is_virtual, simfs_stat-Gives, simfs_access-Gives}

abbrev disk : Disk
disk = record {
  getcwd = some (codes "/tmp");
  exists = λ name. same name (codes "/tmp") || same name (codes "/tmp/x");
  size = λ name. 7;
}

abbrev no_info : OpInfo
no_info = record { pid = 1; dur = 0; tv_sec = 0; tv_usec = 0 }

no_nil : {x : ℕ} {xs : List ℕ} → x ∷ xs ≢ []
no_nil e = cc

tmp-IsPart : IsPart (codes "tmp")
tmp-IsPart = inr (((no_nil, (refl, (refl, (refl, tt)))), (refl, (refl, (refl, tt)))), refl)

x-IsPart : IsPart (codes "x")
x-IsPart = inr (((no_nil, (refl, tt)), (refl, tt)), refl)

-- /tmp/../tmp/x
abbrev parts : List (List ℕ)
parts = codes "tmp" ∷ parent ∷ codes "tmp" ∷ codes "x" ∷ []

parts-IsPart : All IsPart parts
parts-IsPart = (tmp-IsPart, (inl refl, (tmp-IsPart, (x-IsPart, tt))))

abbrev tmp_x : List (List ℕ)
tmp_x = codes "tmp" ∷ codes "x" ∷ []

name-Names : Names (codes "/tmp/../tmp/x") tmp_x
name-Names = (parts, refl, omega arith, parts-IsPart, refl)

init-IsFs : IsFs simfs_init
init-IsFs = (refl, tt)

absolute_name-climb_example :
    simfs_absolute_name disk (codes "/tmp/../tmp/x") 512 ≡ ok (codes "/tmp/x")
absolute_name-climb_example =
    absolute_name-climb disk 512 (codes "tmp") (parent ∷ codes "tmp" ∷ codes "x" ∷ []) (omega arith)
      parts-IsPart

simfs_stat-Gives_example :
    Gives
      (simfs_stat disk
        (record { name = codes "/tmp/../tmp/x"; retval = 0; info = no_info })
        simfs_init)
      (check_result (some simfs_enoent) (known disk simfs_init [] tmp_x) 0)
      tmp_x
      true
simfs_stat-Gives_example =
    simfs_stat-Gives disk (record { name = codes "/tmp/../tmp/x"; retval = 0; info = no_info })
      simfs_init (codes "tmp") (codes "x" ∷ []) name-Names init-IsFs

simfs_access-Gives_example :
    Gives
      (simfs_access disk
        (record { name = codes "/tmp/../tmp/x"; mode = 0; retval = 1; info = no_info })
        simfs_init)
      (check_result none (known disk simfs_init [] tmp_x) 1)
      tmp_x
      (is_virtual simfs_init tmp_x)
simfs_access-Gives_example =
    simfs_access-Gives disk
      (record { name = codes "/tmp/../tmp/x"; mode = 0; retval = 1; info = no_info }) simfs_init
      (codes "tmp") (codes "x" ∷ []) name-Names init-IsFs

simfs_unlink-gone_example :
    (fs' : Fs) × (simfs_unlink disk
        (record { name = codes "/tmp/../tmp/x"; retval = 0; info = no_info })
        simfs_init
      ≡ ok (
        some (unlink_result (has simfs_init.children tmp_x) (known disk simfs_init [] tmp_x) 0),
        fs',
      ))
    × IsFs fs'
    × (has fs'.children tmp_x ≡ Bool.false)
simfs_unlink-gone_example =
    simfs_unlink-gone disk (record { name = codes "/tmp/../tmp/x"; retval = 0; info = no_info })
      simfs_init (codes "tmp") (codes "x" ∷ []) name-Names init-IsFs

simfs_mkdir-Leaves_example :
    Leaves
      (simfs_mkdir disk
        (record { name = codes "/tmp/../tmp/x"; mode = 511; retval = 0; info = no_info })
        simfs_init)
      tmp_x
      true
unfolding has
simfs_mkdir-Leaves_example =
    simfs_mkdir-Leaves disk
      (record { name = codes "/tmp/../tmp/x"; mode = 511; retval = 0; info = no_info }) simfs_init
      (codes "tmp") (codes "x" ∷ []) name-Names init-IsFs

simfs_creat-Leaves_example :
    Leaves
      (simfs_creat disk
        (record { name = codes "/tmp/../tmp/x"; flags = 64; mode = 0; retval = 3; info = no_info })
        simfs_init)
      tmp_x
      true
simfs_creat-Leaves_example =
    simfs_creat-Leaves disk
      (record { name = codes "/tmp/../tmp/x"; flags = 64; mode = 0; retval = 3; info = no_info })
      simfs_init (codes "tmp") (codes "x" ∷ []) name-Names init-IsFs
