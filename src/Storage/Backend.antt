-- ===== src/Storage/Backend.antt =====
-- crates/vdsm-storage/src/sd_backend.rs: whether a storage domain is a directory or a volume group.
use vdsm_rs.Base.{
  Bool, true, false, not, ◌&&◌, Option, none, some, List, [], ◌∷◌, ◌++◌, if◌then◌else◌, Text, codes,
  Result, ok, err, is_empty, text_eq,
}
use vdsm_rs.Encoding.Trim.{trim}
use vdsm_rs.Storage.Paths.{join, mnt_base, block_sd_state_base}
use vdsm_rs.Storage.{Host}
use vdsm_rs.Supervdsm.Exec.{Output}

-- `SdBackend`
pub data SdBackend : Type 0 where
  file_backend : Text → SdBackend
  block_backend : Text → Text → SdBackend

-- `SdBackend::is_block`
unfoldable pub is_block : SdBackend → Bool
is_block (file_backend sd_path) = false
is_block (block_backend vg_name state_dir) = true

module _ {W : Type 0} (host : Host W) where
  names_group : Text → Result Text Output → Bool
  names_group name (err e) = false
  names_group name (ok o) =
      o.success && (not (is_empty o.out) && text_eq (trim (host.lossy o.out)) name)

  -- `vg_exists`
  unfoldable pub vg_exists : Text → W → Bool × W
  unfolding names_group
  vg_exists name w =
      let (r, w') =
        host.output (codes "/usr/sbin/vgs")
          (codes "--noheadings"
            ∷ codes "-o"
            ∷ codes "vg_name"
            ∷ codes "--select"
            ∷ (codes "vg_name=" ++ name)
            ∷ [])
          w in
      (names_group name r, w')

  -- The scan of the mounts for a directory of the domain's name.
  find_domain : Text → List Text → W → Option SdBackend
  find_domain sd_uuid [] w = none
  find_domain sd_uuid (name ∷ names) w =
      let p = join (join mnt_base name) sd_uuid in
      if host.is_dir p w then some (file_backend p) else find_domain sd_uuid names w

  scan_mounts : Text → Result Text (List Text) → W → Option SdBackend
  scan_mounts sd_uuid (err e) w = none
  scan_mounts sd_uuid (ok names) w = find_domain sd_uuid names w

  choose_backend : Text → Bool × W → Option SdBackend × W
  choose_backend sd_uuid (true, w) =
      (some (block_backend sd_uuid (join block_sd_state_base sd_uuid)), w)
  choose_backend sd_uuid (false, w) = (scan_mounts sd_uuid (host.read_dir mnt_base w) w, w)

  -- `sd_backend`: a volume group of the domain's name comes first.
  unfoldable pub sd_backend : Text → W → Option SdBackend × W
  unfolding find_domain scan_mounts choose_backend
  sd_backend [] w = (none, w)
  sd_backend (c ∷ s) w = choose_backend (c ∷ s) (vg_exists (c ∷ s) w)
