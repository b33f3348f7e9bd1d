-- ===== src/Storage/Create.antt =====
-- crates/vdsm-storage/src/volumes.rs: `volume_create` and what it does for each backend.
use vdsm_rs.Base.{
  ℕ, zero, suc, ◌*◌, ◌/◌, ◌%◌, ◌^◌, ◌==◌, ◌||◌, Option, none, some, List, [], ◌∷◌, ◌++◌,
  if◌then◌else◌, Text, Bytes, codes, Result, ok, err, is_empty, text_eq, pos,
}
use vdsm_rs.Encoding.Decimal.{to_string, parse_usize}
use vdsm_rs.Rpc.Protocol.{JsonRpcError, internal, invalid_params}
use vdsm_rs.Storage.Backend.{SdBackend, file_backend, block_backend, sd_backend}
use vdsm_rs.Storage.Metadata.{VolumeMeta, build_meta, vol_format_str, vol_alloc_str}
use vdsm_rs.Storage.Paths.{join, image_dir, meta_file, lease_file, device}
use vdsm_rs.Storage.{
  Json, Host, Verb, return, throw, ◌>>=◌, ignore, attempt, str_param, str_or, int_or,
  run_privileged,
}
use vdsm_rs.Supervdsm.Exec.{Output}
use vdsm_rs.Supervdsm.{lvcreate, lvremove}

abbrev pub zero_uuid : Text
zero_uuid = codes "00000000-0000-0000-0000-000000000000"

-- 128 MiB
abbrev pub extent_bytes : ℕ
extent_bytes = 134217728

-- `u64::div_ceil`
unfoldable pub div_ceil : ℕ → ℕ → ℕ
div_ceil n d = if n % d == 0 then n / d else suc (n / d)

-- The size of the logical volume, a 64-bit product.
unfoldable pub rounded : ℕ → ℕ
unfolding div_ceil
rounded size_bytes = div_ceil size_bytes extent_bytes * extent_bytes % 2 ^ 64

-- `vec![0u8; n]`
unfoldable pub zeros : ℕ → Bytes
zeros zero = []
zeros (suc n) = 0 ∷ zeros n

-- `if fmt_str == "COW" { "qcow2" } else { "raw" }`
unfoldable pub qemu_format : Text → Text
qemu_format fmt_str = if text_eq fmt_str (codes "COW") then codes "qcow2" else codes "raw"

unfoldable pub file_args : Text → Text → Text → ℕ → List Text
file_args qemu_fmt alloc_str vol_path size_bytes =
    (codes "create" ∷ codes "-f" ∷ qemu_fmt ∷ [])
    ++ ((if text_eq alloc_str (codes "PREALLOCATED")
          then codes "-o" ∷ codes "preallocation=falloc" ∷ []
          else [])
        ++ (vol_path ∷ to_string size_bytes ∷ []))

module _ {V W : Type 0} (host : Host W) where
  started : Result Text Output × W → Result (JsonRpcError V) Output × W
  started (ok o, w) = (ok o, w)
  started (err e, w) = (err (internal (codes "qemu-img spawn: " ++ e)), w)

  -- `Command::new("/usr/bin/qemu-img")`, and the error if it does not start.
  unfoldable pub qemu_img : List Text → Verb V W Output
  unfolding started
  qemu_img args w = started (host.output (codes "/usr/bin/qemu-img") args w)

  -- What is done when the program failed, with its stderr.
  unfoldable pub check_success : Text → Verb V W Unit → Output → Verb V W Unit
  check_success what undo o =
      if o.success
      then return tt
      else do undone ← undo; throw (internal (what ++ (codes ": " ++ host.lossy o.error_out)))

  -- `create_file_volume`
  unfoldable pub create_file_volume : Text → Text → Text → ℕ → Text → Text → Text → Verb V W Unit
  create_file_volume sd_path img_id vol_id size_bytes qemu_fmt alloc_str meta_blob = do
    let img_dir = image_dir sd_path img_id
    made ← attempt (codes "mkdir " ++ img_dir) (host.create_dir_all img_dir)
    out ← qemu_img (file_args qemu_fmt alloc_str (join img_dir vol_id) size_bytes)
    checked ← check_success (codes "qemu-img create") (return tt) out
    written ← attempt (codes "write .meta") (host.write (meta_file img_dir vol_id) meta_blob)
    ignore (host.write (lease_file img_dir vol_id) (zeros 1048576))

  created : Text → Option Text → Verb V W Unit
  created lv_path none = throw (internal (codes "lvcreate failed for " ++ lv_path))
  created lv_path (some out) = return tt

  -- `run(PrivOp::Lvcreate { … })`, and the error if it fails.
  unfoldable pub create_lv : Text → Text → ℕ → Verb V W Unit
  unfolding created
  create_lv vg vol_id size = do
    out ← λ w. let (r, w') = run_privileged host (lvcreate vg vol_id size) w in (ok r, w')
    created (vg ++ (codes "/" ++ vol_id)) out

  -- A qcow2 image is made on the volume, which is removed again if that fails.
  unfoldable pub format_qcow2 : Text → Text → ℕ → Verb V W Unit
  format_qcow2 vg vol_id size_bytes = do
    out ←
        qemu_img (
          codes "create"
          ∷ codes "-f"
          ∷ codes "qcow2"
          ∷ device vg vol_id
          ∷ to_string size_bytes
          ∷ [])
    check_success (codes "qemu-img create qcow2-on-LV")
        (ignore (run_privileged host (lvremove vg vol_id))) out

  unfoldable pub format_lv : Text → Text → ℕ → Text → Verb V W Unit
  unfolding format_qcow2
  format_lv vg vol_id size_bytes qemu_fmt =
      if text_eq qemu_fmt (codes "qcow2") then format_qcow2 vg vol_id size_bytes else return tt

  -- `create_block_volume`
  unfoldable pub create_block_volume : Text → Text → Text → Text → ℕ → Text → Text → Verb V W Unit
  create_block_volume vg state_dir img_id vol_id size_bytes qemu_fmt meta_blob = do
    made ← create_lv vg vol_id (rounded size_bytes)
    formatted ← format_lv vg vol_id size_bytes qemu_fmt
    let meta_dir = image_dir state_dir img_id
    state_made ← attempt (codes "mkdir state " ++ meta_dir) (host.create_dir_all meta_dir)
    attempt (codes "write block .meta") (host.write (meta_file meta_dir vol_id) meta_blob)

  -- The match on the backend.
  unfoldable pub create_on : Option SdBackend → Text → VolumeMeta → Verb V W Unit
  create_on (some (file_backend sd_path)) vol_id m =
      create_file_volume sd_path m.img_id vol_id m.size_bytes (qemu_format m.fmt_str) m.alloc_str
        (build_meta m)
  create_on (some (block_backend vg_name state_dir)) vol_id m =
      create_block_volume vg_name state_dir m.img_id vol_id m.size_bytes (qemu_format m.fmt_str)
        (build_meta m)
  create_on none vol_id m = throw (internal (codes "SD " ++ (m.sd_id ++ codes " not found")))

module _ {V W : Type 0} (json : Json V) (host : Host W) where
  size_of : Option Text → ℕ
  size_of none = 1073741824
  size_of (some s) = elim (parse_usize s) [ none ↦ 1073741824 | some n ↦ n ]

  unfoldable pub meta_of : V → ℕ → VolumeMeta
  unfolding size_of
  meta_of params ctime = record {
    size_bytes = size_of (str_param json (codes "size") params);
    ctime = ctime;
    desc = str_or json [] (codes "desc") params;
    disk_type = str_or json (codes "DATA") (codes "diskType") params;
    sd_id = str_or json [] (codes "storagedomainID") params;
    fmt_str = vol_format_str (int_or json (pos 5) (codes "volFormat") params);
    img_id = str_or json [] (codes "imageID") params;
    src_vol = str_or json zero_uuid (codes "srcVolUUID") params;
    alloc_str = vol_alloc_str (int_or json (pos 0) (codes "preallocate") params);
  }

  -- `volume_create`
  unfoldable pub volume_create : V → Verb V W V
  volume_create params w =
      let m = meta_of params (host.now w) in
      let vol_id = str_or json [] (codes "volumeID") params in
      if is_empty vol_id || is_empty m.sd_id || is_empty m.img_id
      then (err (invalid_params (codes "volumeID/storagedomainID/imageID required")), w)
      else (do
        backend ← λ w. let (b, w') = sd_backend host m.sd_id w in (ok b, w')
        done ← create_on host backend vol_id m
        return (json.object ((codes "uuid", json.string vol_id) ∷ [])))
          w
