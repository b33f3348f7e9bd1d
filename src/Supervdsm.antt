-- ===== src/Supervdsm.antt =====
-- crates/vdsm-common/src/supervdsm.rs: the privileged operations, their results, and the client.
pub mod Valid
pub mod Exec
pub mod Daemon
pub mod Operands
pub mod Confined
pub mod Access
use vdsm_rs.Base.{
  ℕ, ◌≡◌, Bool, true, false, Option, none, some, List, [], if◌then◌else◌, Text, codes, Result, ok,
  err, ℤ, pos, negsuc,
}

-- `PrivOp`
pub data PrivOp : Type 0 where
  mount : Text → Text → Text → Text → PrivOp
  umount : Text → PrivOp
  iscsi_discover : Text → PrivOp
  iscsi_login iscsi_logout : Text → Text → PrivOp
  iscsi_rescan : PrivOp
  pvcreate : Text → PrivOp
  vgcreate : Text → List Text → PrivOp
  vgextend : Text → Text → PrivOp
  vgremove : Text → PrivOp
  lvcreate : Text → Text → ℕ → PrivOp
  lvchange : Text → Text → Bool → PrivOp
  lvremove : Text → Text → PrivOp
  fc_scan multipath_list : PrivOp

-- `PrivResult`, whose field `ok` is `succeeded` here.
pub record PrivResult : Type 0 where
  pub succeeded : Bool
  pub code : ℤ
  pub stdout : Text
  pub stderr : Text

-- `PrivResult::failure`
unfoldable pub failure : Text → PrivResult
failure msg = record { succeeded = false; code = negsuc 0; stdout = []; stderr = msg }

-- `run`, over the outcome of `call`, whose error is one of the transport: stdout or nothing.
unfoldable pub run_result : Result Text PrivResult → Option Text
run_result (ok r) = if r.succeeded then some r.stdout else none
run_result (err e) = none
