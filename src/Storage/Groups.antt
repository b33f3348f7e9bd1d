-- ===== src/Storage/Groups.antt =====
-- crates/vdsm-storage/src/block.rs: the verbs on volume groups.
use vdsm_rs.Base.{
  ◌||◌, Option, none, some, List, [], ◌∷◌, ◌++◌, if◌then◌else◌, Text, codes, is_empty, text_eq,
  Result, ok, err,
}
use vdsm_rs.Rpc.Protocol.{JsonRpcError, invalid_params, internal}
use vdsm_rs.Storage.Pool.{texts_of}
use vdsm_rs.Storage.{Json, Host, Verb, return, throw, ◌>>=◌, run_privileged, empty_object, str_or}
use vdsm_rs.Supervdsm.Exec.{Output}
use vdsm_rs.Supervdsm.{PrivOp, pvcreate, vgcreate, vgextend, vgremove}

module _ {V W : Type 0} (json : Json V) (host : Host W) where
  printed : Result Text Output → Option Text
  printed (err e) = none
  printed (ok o) = if o.success then some (host.lossy o.out) else none

  -- `query`
  unfoldable pub query : Text → List Text → W → Option Text × W
  unfolding printed
  query bin args w = let (r, w') = host.output bin args w in (printed r, w')

  parsed_or : Option V → V
  parsed_or none = empty_object json
  parsed_or (some v) = v

  -- `serde_json::from_str(&raw).unwrap_or(json!({}))`, of a text or of none.
  unfoldable pub parsed : Option Text → V
  unfolding parsed_or
  parsed none = parsed_or (json.parse [])
  parsed (some raw) = parsed_or (json.parse raw)

  elements_of : Option V → List V
  elements_of none = []
  elements_of (some v) = elim (json.elements v) [ none ↦ [] | some vs ↦ vs ]

  -- `if let Some(a) = v.get(k).and_then(|v| v.as_array())`, iterated.
  unfoldable pub array_at : Text → V → List V
  unfolding elements_of
  array_at k v = elements_of (json.field k v)

  field_or : Text → Text → V → V
  field_or d k v = elim (json.field k v) [ none ↦ json.string d | some x ↦ x ]

  group_json : V → V
  group_json vg = json.object (
      (codes "vgUUID", field_or [] (codes "vg_uuid") vg)
      ∷ (codes "name", field_or [] (codes "vg_name") vg)
      ∷ (codes "size", field_or (codes "0") (codes "vg_size") vg)
      ∷ (codes "free", field_or (codes "0") (codes "vg_free") vg)
      ∷ (codes "attr", json.string [])
      ∷ (codes "state", json.string (codes "OK"))
      ∷ (codes "pvList", json.array [])
      ∷ [])

  groups_json : List V → List V
  groups_json [] = []
  groups_json (g ∷ gs) = group_json g ∷ groups_json gs

  reports_json : List V → List V
  reports_json [] = []
  reports_json (r ∷ rs) = groups_json (array_at (codes "vg") r) ++ reports_json rs

  -- The groups of `get_lvm_vg_list`, whose answer is their array.
  unfoldable pub vg_list : W → List V × W
  unfolding reports_json groups_json group_json field_or
  vg_list w =
      let (raw, w') =
        query (codes "/usr/sbin/vgs")
          (codes "--reportformat"
            ∷ codes "json"
            ∷ codes "-o"
            ∷ codes "vg_uuid,vg_name,vg_size,vg_free,vg_tags"
            ∷ [])
          w in
      (reports_json (array_at (codes "report") (parsed raw)), w')

  -- `get_lvm_vg_list`
  unfoldable pub get_lvm_vg_list : V → Verb V W V
  get_lvm_vg_list params w = let (gs, w') = vg_list w in (ok (json.array gs), w')

  unfoldable pub find_group : Text → List V → Option V
  find_group vg [] = none
  find_group vg (v ∷ vs) =
      let rest = find_group vg vs in
      if text_eq (str_or json [] (codes "vgUUID") v) vg
        || text_eq (str_or json [] (codes "name") v) vg
      then some v
      else rest

  found_group : Text → Option V → Result (JsonRpcError V) V
  found_group vg none = err (internal (codes "VG " ++ (vg ++ codes " not found")))
  found_group vg (some v) = ok v

  -- `get_vg_info` for a name or an id.
  unfoldable pub vg_info : Text → Verb V W V
  unfolding found_group
  vg_info vg w = let (gs, w') = vg_list w in (found_group vg (find_group vg gs), w')

  str_of : Option V → Text
  str_of none = []
  str_of (some v) = elim (json.as_str v) [ none ↦ [] | some s ↦ s ]

  -- `params.get(a).or_else(|| params.get(b)).and_then(Value::as_str).unwrap_or("")`
  unfoldable pub either_text : Text → Text → V → Text
  unfolding str_of
  either_text a b params =
      str_of (elim (json.field a params) [ some v ↦ some v | none ↦ json.field b params ])

  -- `devlist`
  unfoldable pub devices_of : V → List Text
  unfolding elements_of
  devices_of params = texts_of json (elements_of (json.field (codes "devlist") params))

  -- `get_vg_info`
  unfoldable pub get_vg_info : V → Verb V W V
  get_vg_info params =
      let vg = either_text (codes "vgUUID") (codes "vgName") params in
      if is_empty vg then throw (invalid_params (codes "vgUUID or vgName required")) else vg_info vg

  -- The error, if there is no output.
  unfoldable pub succeeded_or : Text → Option Text → W → Result (JsonRpcError V) Unit × W
  succeeded_or e none w = (err (internal e), w)
  succeeded_or e (some out) w = (ok tt, w)

  -- A privileged operation whose failure is the verb's.
  unfoldable pub needed : Text → PrivOp → Verb V W Unit
  unfolding succeeded_or
  needed e op w = let (r, w') = run_privileged host op w in succeeded_or e r w'

  -- The loop of `create_vg` over its devices.
  unfoldable pub create_pvs : List Text → Verb V W Unit
  create_pvs [] = return tt
  create_pvs (d ∷ ds) =
      let rest = create_pvs ds in
      needed (codes "pvcreate " ++ (d ++ codes " failed")) (pvcreate d) >>= (λ u. rest)

  uuid_of : Result (JsonRpcError V) V → V
  uuid_of (ok info) =
      json.object ((codes "uuid", json.string (str_or json [] (codes "vgUUID") info)) ∷ [])
  uuid_of (err e) =
      json.object
        ((codes "uuid", json.string (str_or json [] (codes "vgUUID") (empty_object json))) ∷ [])

  -- The answer of `create_vg`, for which the group is looked up by its name.
  unfoldable pub new_group : Text → Verb V W V
  unfolding uuid_of
  new_group name w = let (r, w') = vg_info name w in (ok (uuid_of r), w')

  unfoldable pub create_group : Text → List Text → Verb V W V
  create_group name devices = do
    created ← create_pvs devices
    grouped ← needed (codes "vgcreate failed") (vgcreate name devices)
    new_group name

  -- `create_vg`
  unfoldable pub create_vg : V → Verb V W V
  create_vg params =
      let name = either_text (codes "vgName") (codes "name") params in
      let devices = devices_of params in
      if is_empty name || is_empty devices
      then throw (invalid_params (codes "vgName + devlist required"))
      else create_group name devices

  -- The loop of `extend_vg`.
  unfoldable pub extend_with : Text → List Text → W → W
  extend_with vg [] w = w
  extend_with vg (d ∷ ds) w =
      extend_with vg ds
        (run_privileged host (vgextend vg d) (run_privileged host (pvcreate d) w).1).1

  -- `extend_vg`
  unfoldable pub extend_vg : V → Verb V W V
  extend_vg params w =
      let vg = either_text (codes "vgUUID") (codes "vgName") params in
      if is_empty vg || is_empty (devices_of params)
      then (err (invalid_params (codes "vg + devlist required")), w)
      else (ok (empty_object json), extend_with vg (devices_of params) w)

  -- `remove_vg`
  unfoldable pub remove_vg : V → Verb V W V
  remove_vg params w =
      let vg = either_text (codes "vgUUID") (codes "vgName") params in
      if is_empty vg
      then (err (invalid_params (codes "vg required")), w)
      else (ok (empty_object json), (run_privileged host (vgremove vg) w).1)
