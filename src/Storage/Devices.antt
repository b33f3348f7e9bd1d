-- ===== src/Storage/Devices.antt =====
-- crates/vdsm-storage/src/block.rs: the block devices, their visibility and their paths.
use vdsm_rs.Base.{
  Bool, true, false, ◌||◌, Option, none, some, List, [], ◌∷◌, ◌++◌, if◌then◌else◌, Text, codes,
  is_empty, text_eq, ok, map,
}
use vdsm_rs.Encoding.Affix.{to_ascii_lowercase}
use vdsm_rs.Encoding.TextMap
use vdsm_rs.Encoding.TextMap.{TextMap}
use vdsm_rs.Encoding.Trim.{split_whitespace}
use vdsm_rs.Storage.Groups.{query, parsed, array_at}
use vdsm_rs.Storage.Pool.{texts_of}
use vdsm_rs.Storage.{Json, Host, Verb, run_privileged, str_or, str_param}
use vdsm_rs.Supervdsm.{multipath_list}

-- `s.trim_start_matches("0x")`: all the pairs in front go.
unfoldable pub trim_0x : Text → Text
trim_0x [] = []
trim_0x (c ∷ []) = c ∷ []
trim_0x (c ∷ d ∷ s) =
    let rest = trim_0x s in
    elim (text_eq (c ∷ d ∷ []) (codes "0x")) [ true ↦ rest | false ↦ c ∷ d ∷ s ]

-- The engine's name of a transport.
unfoldable pub devtype_of : Text → Text
devtype_of tran =
    if text_eq tran (codes "iscsi")
    then codes "iSCSI"
    else if text_eq tran (codes "fc")
    then codes "FCP"
    else if text_eq tran (codes "sas")
    then codes "SAS"
    else codes "SCSI"

first_two : List Text → Text × Text
first_two [] = ([], [])
first_two (pv ∷ []) = (pv, [])
first_two (pv ∷ vg ∷ more) = (pv, vg)

membership : Option Text → Text × Text
membership none = ([], [])
membership (some raw) = first_two (split_whitespace raw)

module _ {V W : Type 0} (json : Json V) (host : Host W) where
  -- `pv_membership`
  unfoldable pub pv_membership : Text → W → (Text × Text) × W
  unfolding membership first_two
  pv_membership dev w =
      let (raw, w') =
        query json host (codes "/usr/sbin/pvs")
          (codes "--noheadings" ∷ codes "-o" ∷ codes "pv_uuid,vg_uuid" ∷ dev ∷ []) w in
      (membership raw, w')

  value_or : Text → Text → V → V
  value_or d k v = elim (json.field k v) [ none ↦ json.string d | some x ↦ x ]

  device_json : V → Text × Text → V
  device_json d (pv_uuid, vg_uuid) = json.object (
      (codes "GUID", json.string (trim_0x (str_or json [] (codes "wwn") d)))
      ∷ (
        codes "devtype",
        json.string (devtype_of (map to_ascii_lowercase (str_or json [] (codes "tran") d))),
      )
      ∷ (codes "capacity", value_or (codes "0") (codes "size") d)
      ∷ (codes "vendorID", value_or [] (codes "vendor") d)
      ∷ (codes "productID", value_or [] (codes "model") d)
      ∷ (codes "serial", value_or [] (codes "serial") d)
      ∷ (codes "fwrev", json.string [])
      ∷ (codes "status", json.string (if is_empty vg_uuid then codes "free" else codes "used"))
      ∷ (
        codes "pathstatus",
        json.array (
            json.object (
              (codes "physdev", json.string (str_or json [] (codes "name") d))
              ∷ (codes "state", json.string (codes "active"))
              ∷ [])
            ∷ []),
      )
      ∷ (codes "pvUUID", json.string pv_uuid)
      ∷ (codes "vgUUID", json.string vg_uuid)
      ∷ (codes "pathlist", json.array [])
      ∷ [])

  -- Whether a device is a disk with a world-wide name.
  is_listed : V → Bool
  is_listed d = elim (str_param json (codes "type") d) [
    | none ↦ false
    | some t ↦
        if text_eq t (codes "disk")
        then (if is_empty (str_or json [] (codes "wwn") d) then false else true)
        else false
  ]

  -- The loop over the devices: each that is listed is looked up in LVM.
  unfoldable pub devices_json : List V → W → List V × W
  unfolding device_json value_or is_listed
  devices_json [] w = ([], w)
  devices_json (d ∷ ds) w =
      let member = pv_membership (codes "/dev/" ++ str_or json [] (codes "name") d) w in
      let (out, w') = devices_json ds (if is_listed d then member.1 else w) in
      (if is_listed d then device_json d member.0 ∷ out else out, w')

  -- `get_device_list`
  unfoldable pub get_device_list : V → Verb V W V
  get_device_list params w =
      let (raw, w') =
        query json host (codes "/usr/bin/lsblk")
          (codes "-J"
            ∷ codes "-b"
            ∷ codes "-o"
            ∷ codes "NAME,SIZE,TYPE,WWN,VENDOR,MODEL,SERIAL,FSTYPE,TRAN"
            ∷ [])
          w in
      let (out, w2) =
        devices_json (array_at json host (codes "blockdevices") (parsed json host raw)) w' in
      (ok (json.array out), w2)

  ids_of : Option V → List Text
  ids_of none = []
  ids_of (some v) = elim (json.elements v) [ none ↦ [] | some vs ↦ texts_of json vs ]

  visible_in : List Text → W → TextMap V → TextMap V
  visible_in [] w m = m
  visible_in (id ∷ ids) w m = visible_in ids w (
      TextMap.insert id
        (json.boolean (
          host.exists (codes "/dev/disk/by-id/wwn-0x" ++ id) w
          || host.exists (codes "/dev/disk/by-id/" ++ id) w))
        m)

  -- `get_devices_visibility`
  unfoldable pub get_devices_visibility : V → Verb V W V
  unfolding visible_in ids_of
  get_devices_visibility params w = (
    ok (
        json.object (
          visible_in
            (ids_of (elim (json.field (codes "devices") params) [
              | some v ↦ some v
              | none ↦ json.field (codes "guids") params
            ]))
            w [])),
    w,
  )

  path_json : V → V
  path_json p = json.object (
      (codes "physdev", value_or [] (codes "dev") p)
      ∷ (codes "state", value_or [] (codes "dm_st") p)
      ∷ (codes "type", value_or [] (codes "chk_st") p)
      ∷ [])

  groups_paths : List V → List V
  groups_paths [] = []
  groups_paths (g ∷ gs) = map path_json (array_at json host (codes "paths") g) ++ groups_paths gs

  multipath_json : V → V
  multipath_json m = json.object (
      (codes "name", json.string (str_or json [] (codes "name") m))
      ∷ (codes "GUID", json.string (str_or json [] (codes "uuid") m))
      ∷ (codes "paths", json.array (groups_paths (array_at json host (codes "path_groups") m)))
      ∷ (codes "status", json.string (codes "active"))
      ∷ [])

  maps_json : Option Text → V
  maps_json none = json.array []
  maps_json (some raw) =
      json.array
        (map multipath_json (array_at json host (codes "maps") (parsed json host (some raw))))

  -- `get_path_list_status`
  unfoldable pub get_path_list_status : V → Verb V W V
  unfolding maps_json multipath_json groups_paths path_json value_or
  get_path_list_status params w =
      let (r, w') = run_privileged host multipath_list w in (ok (maps_json r), w')
