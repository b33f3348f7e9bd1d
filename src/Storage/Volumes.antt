-- ===== src/Storage/Volumes.antt =====
-- crates/vdsm-storage/src/volumes.rs: the other verbs on volumes, and those on images.
use vdsm_rs.Base.{
  ℕ, true, false, Option, none, some, List, [], ◌∷◌, ◌++◌, if◌then◌else◌, Text, codes, Result, ok,
  err, is_empty, starts_with, ◌&&◌, drop,
}
use vdsm_rs.Encoding.Decimal.{to_string, parse_usize}
use vdsm_rs.Encoding.TextMap.{TextMap}
use vdsm_rs.Encoding.Trim.{trim}
use vdsm_rs.Rpc.Protocol.{JsonRpcError, internal}
use vdsm_rs.Storage.Backend.{SdBackend, file_backend, block_backend, sd_backend}
use vdsm_rs.Storage.Metadata.{read_meta, meta_value}
use vdsm_rs.Storage.Paths.{join, image_dir, meta_file, lease_file, device}
use vdsm_rs.Storage.{
  Json, Host, Verb, return, throw, ◌>>=◌, effect, str_or, run_privileged, empty_object,
}
use vdsm_rs.Supervdsm.Exec.{Output}
use vdsm_rs.Supervdsm.{lvchange, lvremove}

-- `name.strip_suffix(".meta")`
unfoldable pub strip_meta : Text → Option Text
strip_meta [] = none
strip_meta (c ∷ s) =
    let rest = strip_meta s in
    if starts_with (c ∷ s) (codes ".meta") && is_empty (drop 5 (c ∷ s))
    then some []
    else elim rest [ none ↦ none | some r ↦ some (c ∷ r) ]

module _ {W : Type 0} (host : Host W) where
  size_printed : Result Text Output → Option ℕ
  size_printed (err e) = none
  size_printed (ok o) = if o.success then parse_usize (trim (host.lossy o.out)) else none

  -- `lv_size_bytes`
  unfoldable pub lv_size_bytes : Text → Text → W → Option ℕ × W
  unfolding size_printed
  lv_size_bytes vg lv w =
      let (r, w') =
        host.output (codes "/usr/sbin/lvs")
          (codes "--noheadings"
            ∷ codes "--units"
            ∷ codes "B"
            ∷ codes "--nosuffix"
            ∷ codes "-o"
            ∷ codes "lv_size"
            ∷ (vg ++ (codes "/" ++ lv))
            ∷ [])
          w in
      (size_printed r, w')

  or_zero : Option ℕ → ℕ
  or_zero none = 0
  or_zero (some n) = n

  -- Where the metadata is, and the apparent size.
  unfoldable pub meta_and_size : Text → Text → SdBackend → W → (Text × ℕ) × W
  unfolding or_zero
  meta_and_size img_id vol_id (file_backend sd_path) w =
      let dir = image_dir sd_path img_id in
      ((meta_file dir vol_id, or_zero (host.file_len (join dir vol_id) w)), w)
  meta_and_size img_id vol_id (block_backend vg_name state_dir) w =
      let (size, w') = lv_size_bytes vg_name vol_id w in
      ((meta_file (image_dir state_dir img_id) vol_id, or_zero size), w')

  -- `volume_delete`'s match on the backend.
  unfoldable pub delete_volume : Text → Text → Option SdBackend → W → W
  delete_volume img_id vol_id (some (file_backend sd_path)) w =
      let dir = image_dir sd_path img_id in
      host.remove_file (lease_file dir vol_id)
        (host.remove_file (meta_file dir vol_id) (host.remove_file (join dir vol_id) w))
  delete_volume img_id vol_id (some (block_backend vg_name state_dir)) w =
      host.remove_file (meta_file (image_dir state_dir img_id) vol_id)
        (run_privileged host (lvremove vg_name vol_id) w).1
  delete_volume img_id vol_id none w = w

  -- The removal of the volumes whose metadata lies in an image's directory.
  remove_lvs : Text → List Text → W → W
  remove_lvs vg_name [] w = w
  remove_lvs vg_name (name ∷ names) w = remove_lvs vg_name names (elim (strip_meta name) [
    | none ↦ w
    | some vol ↦ (run_privileged host (lvremove vg_name vol) w).1
  ])

  remove_listed : Text → Result Text (List Text) → W → W
  remove_listed vg_name (ok names) w = remove_lvs vg_name names w
  remove_listed vg_name (err e) w = w

  -- `image_delete`'s match on the backend.
  unfoldable pub delete_image : Text → Option SdBackend → W → W
  unfolding remove_lvs remove_listed
  delete_image img_id (some (file_backend sd_path)) w =
      host.remove_dir_all (image_dir sd_path img_id) w
  delete_image img_id (some (block_backend vg_name state_dir)) w =
      let dir = image_dir state_dir img_id in
      host.remove_dir_all dir (remove_listed vg_name (host.read_dir dir w) w)
  delete_image img_id none w = w

  -- `image_teardown`'s match on the backend.
  unfoldable pub teardown : Text → Option SdBackend → W → W
  teardown vol_id (some (block_backend vg_name state_dir)) w =
      if is_empty vol_id then w else (run_privileged host (lvchange vg_name vol_id false) w).1
  teardown vol_id (some (file_backend sd_path)) w = w
  teardown vol_id none w = w

module _ {V W : Type 0} (host : Host W) where
  -- `sd_backend(…).await`
  abbrev pub backend_of : Text → Verb V W (Option SdBackend)
  backend_of sd_id w = let (b, w') = sd_backend host sd_id w in (ok b, w')

  -- `let Some(…) = … else { return Err(…) }`
  unfoldable pub found : Text → Option SdBackend → Verb V W SdBackend
  found sd_id none = throw (internal (codes "SD " ++ (sd_id ++ codes " not found")))
  found sd_id (some b) = return b

  was_read : Text → Result Text Text → Result (JsonRpcError V) Text
  was_read what (ok content) = ok content
  was_read what (err e) = err (internal (what ++ (codes ": " ++ e)))

  -- `read_to_string(path).map_err(…)?`
  unfoldable pub read_file : Text → Text → Verb V W Text
  unfolding was_read
  read_file what path w = (was_read what (host.read_to_string path w), w)

  activated : Text → Option Text → Verb V W Unit
  activated lv none = throw (internal (codes "lvchange -ay " ++ lv))
  activated lv (some out) = return tt

  appeared : Text → Verb V W Text
  appeared dev w =
      if host.exists dev w
      then (ok dev, w)
      else (err (internal (codes "device " ++ (dev ++ codes " did not appear"))), w)

  -- `image_prepare`'s match on the backend: the path of the volume.
  unfoldable pub prepare : Text → Text → Text → Option SdBackend → Verb V W Text
  unfolding activated appeared
  prepare sd_id img_id vol_id (some (file_backend sd_path)) = λ w.
      let vol_path = join (image_dir sd_path img_id) vol_id in
      if host.exists vol_path w
      then (ok vol_path, w)
      else (err (internal (codes "volume " ++ (vol_path ++ codes " missing"))), w)
  prepare sd_id img_id vol_id (some (block_backend vg_name state_dir)) = do
    out ← λ w. let (r, w') = run_privileged host (lvchange vg_name vol_id true) w in (ok r, w')
    active ← activated (vg_name ++ (codes "/" ++ vol_id)) out
    appeared (device vg_name vol_id)
  prepare sd_id img_id vol_id none = throw (internal (codes "SD " ++ (sd_id ++ codes " not found")))

module _ {V W : Type 0} (json : Json V) (host : Host W) where
  abbrev vol_param : V → Text
  vol_param = str_or json [] (codes "volumeID")

  abbrev sd_param : V → Text
  sd_param = str_or json [] (codes "storagedomainID")

  abbrev img_param : V → Text
  img_param = str_or json [] (codes "imageID")

  unfoldable pub volume_info : Text → Text → Text → ℕ → TextMap Text → List (Text × V)
  volume_info vol_id img_id sd_id apparent m =
      (codes "uuid", json.string vol_id)
      ∷ (codes "image", json.string img_id)
      ∷ (codes "domain", json.string sd_id)
      ∷ (codes "voltype", json.string (meta_value m (codes "VOLTYPE")))
      ∷ (codes "format", json.string (meta_value m (codes "FORMAT")))
      ∷ (codes "type", json.string (meta_value m (codes "TYPE")))
      ∷ (codes "disktype", json.string (meta_value m (codes "DISKTYPE")))
      ∷ (codes "capacity", json.string (meta_value m (codes "CAP")))
      ∷ (codes "apparentsize", json.string (to_string apparent))
      ∷ (codes "truesize", json.string (to_string apparent))
      ∷ (codes "parent", json.string (meta_value m (codes "PUUID")))
      ∷ (codes "description", json.string (meta_value m (codes "DESCRIPTION")))
      ∷ (codes "legality", json.string (meta_value m (codes "LEGALITY")))
      ∷ (codes "ctime", json.string (meta_value m (codes "CTIME")))
      ∷ (codes "mtime", json.string (codes "0"))
      ∷ (codes "status", json.string (codes "OK"))
      ∷ (codes "children", json.array [])
      ∷ []

  -- `volume_get_info`
  unfoldable pub volume_get_info : V → Verb V W V
  volume_get_info params = do
    backend ← backend_of host (sd_param params)
    b ← found host (sd_param params) backend
    at ← λ w.
        let (p, w') = meta_and_size host (img_param params) (vol_param params) b w in (ok p, w')
    content ← read_file host (codes "read meta") at.0
    return (
        json.object (
          volume_info (vol_param params) (img_param params) (sd_param params) at.1
            (read_meta content)))

  field_or : Option V → V
  field_or none = json.string (codes "0")
  field_or (some v) = v

  -- `volume_get_size`
  unfoldable pub volume_get_size : V → Verb V W V
  unfolding field_or
  volume_get_size params = do
    info ← volume_get_info params
    return (
        json.object (
          (codes "apparentsize", field_or (json.field (codes "apparentsize") info))
          ∷ (codes "truesize", field_or (json.field (codes "truesize") info))
          ∷ []))

  -- `volume_delete`
  unfoldable pub volume_delete : V → Verb V W V
  volume_delete params = do
    backend ← backend_of host (sd_param params)
    gone ← effect (delete_volume host (img_param params) (vol_param params) backend)
    return (empty_object json)

  -- `image_prepare`
  unfoldable pub image_prepare : V → Verb V W V
  image_prepare params = do
    backend ← backend_of host (sd_param params)
    path ← prepare host (sd_param params) (img_param params) (vol_param params) backend
    return (json.object ((codes "path", json.string path) ∷ []))

  -- `image_teardown`
  unfoldable pub image_teardown : V → Verb V W V
  image_teardown params = do
    backend ← backend_of host (sd_param params)
    down ← effect (teardown host (vol_param params) backend)
    return (empty_object json)

  -- `image_delete`, and `image_delete_volumes`
  unfoldable pub image_delete : V → Verb V W V
  image_delete params = do
    backend ← backend_of host (sd_param params)
    gone ← effect (delete_image host (img_param params) backend)
    return (empty_object json)

  unfoldable pub image_delete_volumes : V → Verb V W V
  unfolding image_delete
  image_delete_volumes params = image_delete params
