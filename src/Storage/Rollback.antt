-- ===== src/Storage/Rollback.antt =====
-- crates/vdsm-storage/src/volumes.rs: what `create_block_volume` leaves behind when qemu-img fails.
use vdsm_rs.Base.{ℕ, ◌≡◌, refl, false, some, List, [], ◌∷◌, ◌++◌, Text, codes, text_eq, ok, err}
use vdsm_rs.Encoding.Decimal.{to_string}
use vdsm_rs.Rpc.Protocol.{internal}
use vdsm_rs.Storage.Create.{
  create_block_volume, create_lv, format_lv, format_qcow2, qemu_img, check_success, rounded,
}
use vdsm_rs.Storage.Paths.{device}
use vdsm_rs.Storage.{Host, run_privileged}
use vdsm_rs.Supervdsm.Exec.{Output}
use vdsm_rs.Supervdsm.{lvcreate, lvremove}

abbrev pub qcow2 : Text
qcow2 = codes "qcow2"

-- The arguments that format a logical volume.
abbrev pub format_args : Text → Text → ℕ → List Text
format_args vg vol_id size =
    codes "create" ∷ codes "-f" ∷ qcow2 ∷ device vg vol_id ∷ to_string size ∷ []

module _ {V W : Type 0} (host : Host W) where
  -- When the volume has been created and qemu-img runs and fails, the error carries its stderr, no
  -- metadata is written, and the volume is removed again.
  pub create_block_volume_rolled_back :
      (vg state_dir img_id vol_id meta out : Text) (size : ℕ) (o : Output) (w w1 w2 : W)
      → run_privileged host (lvcreate vg vol_id (rounded size)) w ≡ (some out, w1)
      → host.output (codes "/usr/bin/qemu-img") (format_args vg vol_id size) w1 ≡ (ok o, w2)
      → o.success ≡ false
      → create_block_volume {V = V} host vg state_dir img_id vol_id size qcow2 meta w ≡ (
        err (
            internal
              (codes "qemu-img create qcow2-on-LV" ++ (codes ": " ++ host.lossy o.error_out))),
        (run_privileged host (lvremove vg vol_id) w2).1,
      )
  unfolding create_block_volume create_lv format_lv format_qcow2 qemu_img check_success text_eq
  create_block_volume_rolled_back vg state_dir img_id vol_id meta out size o w w1 w2 c q f =
      rw (c, q, f) refl

  -- When the volume has been created and qemu-img does not start, the call fails and the volume stays:
  -- nothing is done behind the attempt to start it.
  pub create_block_volume_leaks :
      (vg state_dir img_id vol_id meta out e : Text) (size : ℕ) (w w1 w2 : W)
      → run_privileged host (lvcreate vg vol_id (rounded size)) w ≡ (some out, w1)
      → host.output (codes "/usr/bin/qemu-img") (format_args vg vol_id size) w1 ≡ (err e, w2)
      → create_block_volume {V = V} host vg state_dir img_id vol_id size qcow2 meta w
        ≡ (err (internal (codes "qemu-img spawn: " ++ e)), w2)
  unfolding create_block_volume create_lv format_lv format_qcow2 qemu_img check_success text_eq
  create_block_volume_leaks vg state_dir img_id vol_id meta out e size w w1 w2 c q = rw (c, q) refl
