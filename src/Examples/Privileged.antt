-- ===== src/Examples/Privileged.antt =====
-- crates/supervdsm/src: the privileged daemon on concrete requests.
use vdsm_rs.Base.{
  ℕ, suc, ◌≡◌, ◌⊎◌, refl, true, [], ◌∷◌, some, none, Text, codes, Result, ok, err, pos, starts_with,
  contains_text, contains_byte, text_eq, if◌then◌else◌,
}
use vdsm_rs.Encoding.Trim.{trim}
use vdsm_rs.Supervdsm.Access.{IsExecuted, handle-IsExecuted}
use vdsm_rs.Supervdsm.Confined.{IsConfined, execute-IsConfined}
use vdsm_rs.Supervdsm.Daemon.{handle}
use vdsm_rs.Supervdsm.Exec.{System, run, execute}
use vdsm_rs.Supervdsm.Exec.{option_args}
use vdsm_rs.Supervdsm.Valid.{valid_fstype, valid_target, valid_spec, valid_options}
use vdsm_rs.Supervdsm.{PrivOp, mount, umount, iscsi_rescan}

-- A machine that counts the programs that were run; each succeeds and prints nothing.
abbrev counting : System ℕ
counting = record {
  output = λ bin args n.
      (ok (record { success = true; status = some (pos 0); out = []; error_out = [] }), suc n);
  lossy = λ s. s;
  scsi_hosts = λ n. ok [];
  write_file = λ path text n. (none, n);
}

abbrev target : Text
target = codes "/rhev/data-center/mnt/x"

abbrev mount_root_there : PrivOp
mount_root_there = mount (codes "none") (codes "/") target (codes "bind")

execute-IsConfined_example : IsConfined counting 0 (execute counting (umount (codes "/etc")) 0)
execute-IsConfined_example = execute-IsConfined counting (umount (codes "/etc")) 0 cc

-- A bind mount of the root directory passes every test.
root_is_mountable :
    execute counting mount_root_there 0
    ≡ run counting
        (codes "/usr/bin/mount")
        (codes "-t" ∷ codes "none" ∷ codes "-o" ∷ codes "bind" ∷ codes "/" ∷ target ∷ [])
        0
unfolding starts_with contains_text contains_byte execute valid_fstype valid_spec valid_options
    valid_target option_args text_eq
root_is_mountable = refl

-- The one request that is understood.
abbrev decode_rescan : Text → Result Text PrivOp
decode_rescan t = if text_eq t (codes "rescan") then ok iscsi_rescan else err (codes "unknown")

handle-IsExecuted_example :
    ((handle counting decode_rescan 36 36 (codes " rescan\n") 0).world ≡ 0)
    ⊎ IsExecuted counting decode_rescan 36 36 (codes " rescan\n") 0
handle-IsExecuted_example = handle-IsExecuted counting decode_rescan 36 36 (codes " rescan\n") 0

allowed_runs : (handle counting decode_rescan 36 36 (codes " rescan\n") 0).world ≡ 1
unfolding handle trim execute run text_eq
allowed_runs = refl

other_user_denied : (handle counting decode_rescan 36 0 (codes "rescan\n") 0).world ≡ 0
unfolding handle
other_user_denied = refl
