-- ===== src/Supervdsm/Exec.antt =====
-- crates/supervdsm/src/exec.rs: `execute`. Processes and the file system act on the state `W` of the
-- machine, and are parameters.
use vdsm_rs.Base.{
  ◌==◌, Bool, true, not, ◌&&◌, ◌||◌, Option, none, some, List, [], ◌∷◌, ◌++◌, if◌then◌else◌, Text,
  Bytes, codes, Result, ok, err, ℤ, pos, negsuc, is_empty, all,
}
use vdsm_rs.Encoding.Decimal.{to_string}
use vdsm_rs.Supervdsm.{
  PrivOp, mount, umount, iscsi_discover, iscsi_login, iscsi_logout, iscsi_rescan, pvcreate,
  vgcreate, vgextend, vgremove, lvcreate, lvchange, lvremove, fc_scan, multipath_list, PrivResult,
  failure,
}
use vdsm_rs.Supervdsm.Valid.{
  valid_lvm_name, valid_device, valid_target, valid_fstype, valid_portal, valid_iqn, valid_spec,
  valid_options,
}

-- `std::process::Output`
pub record Output : Type 0 where
  pub success : Bool
  pub status : Option ℤ
  pub out : Bytes
  pub error_out : Bytes

-- What the daemon asks of the system: to run a program with arguments, which may fail to start; the
-- lossy reading of its output as text; the entries of /sys/class/scsi_host; and to write a file.
pub record System (W : Type 0) : Type 0 where
  pub output : Text → List Text → W → Result Text Output × W
  pub lossy : Bytes → Text
  pub scsi_hosts : W → Result Text (List Text)
  pub write_file : Text → Text → W → Option Text × W

unfoldable pub invalid : Text → PrivResult
invalid field = failure (codes "rejected: invalid " ++ field)

-- `args.push("-o"); args.push(&options)` unless there are no options.
unfoldable pub option_args : Text → List Text
option_args options = if is_empty options then [] else codes "-o" ∷ options ∷ []

module _ {W : Type 0} (sys : System W) where
  finished : Text → Result Text Output → PrivResult
  finished bin (ok o) = record {
    succeeded = o.success;
    code = elim o.status [ none ↦ negsuc 0 | some c ↦ c ];
    stdout = sys.lossy o.out;
    stderr = sys.lossy o.error_out;
  }
  finished bin (err e) = failure (codes "spawn " ++ (bin ++ (codes ": " ++ e)))

  -- `run`
  unfoldable pub run : Text → List Text → W → PrivResult × W
  unfolding finished
  run bin args w = let (r, w') = sys.output bin args w in (finished bin r, w')

  -- `return invalid(…)` unless the test holds.
  abbrev pub require : Bool → Text → (W → PrivResult × W) → W → PrivResult × W
  require test field next w = if test then next w else (invalid field, w)

  -- The loop over the hosts: the errors, in order.
  scan_hosts : List Text → W → List Text × W
  scan_hosts [] w = ([], w)
  scan_hosts (p ∷ ps) w =
      let path = p ++ codes "/scan" in
      let (failed, w') = sys.write_file path (codes "- - -\n") w in
      let (errs, w'') = scan_hosts ps w' in
      (elim failed [ none ↦ errs | some e ↦ (path ++ (codes ": " ++ e)) ∷ errs ], w'')

  -- `errs.join("; ")`
  join_errors : List Text → Text
  join_errors [] = []
  join_errors (e ∷ []) = e
  join_errors (e ∷ d ∷ es) = e ++ (codes "; " ++ join_errors (d ∷ es))

  scan_result : List Text → PrivResult
  scan_result [] = record { succeeded = true; code = pos 0; stdout = []; stderr = [] }
  scan_result (e ∷ es) = failure (join_errors (e ∷ es))

  scan_all : Result Text (List Text) → W → PrivResult × W
  scan_all (err e) w = (scan_result ((codes "read scsi_host: " ++ e) ∷ []), w)
  scan_all (ok hosts) w = let (errs, w') = scan_hosts hosts w in (scan_result errs, w')

  -- `execute`
  unfoldable pub execute : PrivOp → W → PrivResult × W
  unfolding scan_hosts join_errors scan_result scan_all
  execute (mount fstype spec target options) = require (valid_fstype fstype) (codes "fstype") (
      require (valid_target target) (codes "target") (
        require (valid_spec spec) (codes "spec") (
          require (is_empty options || valid_options options) (codes "options") (
            run (codes "/usr/bin/mount")
              (codes "-t" ∷ fstype ∷ (option_args options ++ spec ∷ target ∷ []))))))
  execute (umount target) =
      require (valid_target target) (codes "target") (run (codes "/usr/bin/umount") (target ∷ []))
  execute (iscsi_discover portal) = require (valid_portal portal) (codes "portal") (
      run (codes "/usr/sbin/iscsiadm")
        (codes "-m" ∷ codes "discovery" ∷ codes "-t" ∷ codes "st" ∷ codes "-p" ∷ portal ∷ []))
  execute (iscsi_login iqn portal) = require (valid_iqn iqn) (codes "iqn") (
      require (valid_portal portal) (codes "portal") (
        run (codes "/usr/sbin/iscsiadm") (
          codes "-m"
          ∷ codes "node"
          ∷ codes "-T"
          ∷ iqn
          ∷ codes "-p"
          ∷ portal
          ∷ codes "--login"
          ∷ [])))
  execute (iscsi_logout iqn portal) = require (valid_iqn iqn) (codes "iqn") (
      require (valid_portal portal) (codes "portal") (
        run (codes "/usr/sbin/iscsiadm") (
          codes "-m"
          ∷ codes "node"
          ∷ codes "-T"
          ∷ iqn
          ∷ codes "-p"
          ∷ portal
          ∷ codes "--logout"
          ∷ [])))
  execute iscsi_rescan =
      run (codes "/usr/sbin/iscsiadm") (codes "-m" ∷ codes "session" ∷ codes "--rescan" ∷ [])
  execute (pvcreate device) =
      require (valid_device device) (codes "device")
        (run (codes "/usr/sbin/pvcreate") (codes "-ff" ∷ codes "-y" ∷ device ∷ []))
  execute (vgcreate vg devices) = require (valid_lvm_name vg) (codes "vg") (
      require (not (is_empty devices) && all valid_device devices) (codes "devices") (
        run (codes "/usr/sbin/vgcreate")
          ((codes "-s" ∷ codes "128m" ∷ codes "-y" ∷ vg ∷ []) ++ devices)))
  execute (vgextend vg device) = require (valid_lvm_name vg) (codes "vg") (
      require (valid_device device) (codes "device")
        (run (codes "/usr/sbin/vgextend") (vg ∷ device ∷ [])))
  execute (vgremove vg) =
      require (valid_lvm_name vg) (codes "vg")
        (run (codes "/usr/sbin/vgremove") (codes "-f" ∷ codes "-y" ∷ vg ∷ []))
  execute (lvcreate vg lv size_bytes) = require (valid_lvm_name vg) (codes "vg") (
      require (valid_lvm_name lv) (codes "lv") (
        require (not (size_bytes == 0)) (codes "size_bytes") (
          run (codes "/usr/sbin/lvcreate") (
            codes "-W"
            ∷ codes "y"
            ∷ codes "-Z"
            ∷ codes "n"
            ∷ codes "-n"
            ∷ lv
            ∷ codes "-L"
            ∷ (to_string size_bytes ++ codes "B")
            ∷ vg
            ∷ []))))
  execute (lvchange vg lv active) = require (valid_lvm_name vg) (codes "vg") (
      require (valid_lvm_name lv) (codes "lv") (
        if active
        then run (codes "/usr/sbin/lvchange")
            (codes "-a" ∷ codes "y" ∷ codes "-K" ∷ (vg ++ (codes "/" ++ lv)) ∷ [])
        else run (codes "/usr/sbin/lvchange")
            (codes "-a" ∷ codes "n" ∷ (vg ++ (codes "/" ++ lv)) ∷ [])))
  execute (lvremove vg lv) = require (valid_lvm_name vg) (codes "vg") (
      require (valid_lvm_name lv) (codes "lv") (
        run (codes "/usr/sbin/lvremove")
          (codes "-f" ∷ codes "-y" ∷ (vg ++ (codes "/" ++ lv)) ∷ [])))
  execute fc_scan = λ w. scan_all (sys.scsi_hosts w) w
  execute multipath_list = run (codes "/usr/sbin/multipath") (codes "-ll" ∷ codes "-j" ∷ [])
