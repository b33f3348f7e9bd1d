-- ===== src/Examples/Stores.antt =====
-- crates/vdsm-storage/src: volumes, pools and connections on a small machine.
use vdsm_rs.Base.{
  ℕ, suc, ◌+◌, ◌≤◌, ◌<◌, ◌%◌, ◌≡◌, refl, true, false, not, ◌&&◌, ◌||◌, List, [], ◌∷◌, ◌++◌, some,
  none, Text, codes, Result, ok, err, pos, text_eq, if◌then◌else◌, arith, ◌==◌,
}
use vdsm_rs.Encoding.Trim.{trim}
use vdsm_rs.Rpc.Protocol.{internal}
use vdsm_rs.Storage.Backend.{file_backend, sd_backend, vg_exists}
use vdsm_rs.Storage.Connections.{Connected, connect_storage_server, disconnect_storage_server}
use vdsm_rs.Storage.Create.{create_block_volume, rounded, extent_bytes}
use vdsm_rs.Storage.Escapes.{image_delete_escapes}
use vdsm_rs.Storage.Extents.{rounded_bounds}
use vdsm_rs.Storage.Members.{Distinct, pool_domains}
use vdsm_rs.Storage.MetaRoundTrip.{read_meta-build_meta}
use vdsm_rs.Storage.Metadata.{VolumeMeta, build_meta, read_meta, entries_of}
use vdsm_rs.Storage.Paths.{StorageServerConnection, join}
use vdsm_rs.Storage.Pool.{PoolState, connect_pool, create_pool, contains, texts_of}
use vdsm_rs.Storage.Registry.{ids, answered_ids, has_id, each_is_answered, disconnect_forgets}
use vdsm_rs.Storage.Rollback.{qcow2, create_block_volume_rolled_back, create_block_volume_leaks}
use vdsm_rs.Storage.Volumes.{image_delete}
use vdsm_rs.Storage.Groups.{
  create_vg, create_group, create_pvs, needed, succeeded_or, either_text, devices_of,
}
use vdsm_rs.Storage.NewGroup.{CreationEnds, create_vg_ends}
use vdsm_rs.Storage.{Json, Host, str_or, str_param, empty_object, run_privileged}
use vdsm_rs.Supervdsm.Exec.{Output}
use vdsm_rs.Supervdsm.{run_result}

abbrev failed : Output
failed = record { success = false; status = some (pos 1); out = []; error_out = codes "no space" }

-- A machine that counts privileged calls, which succeed, and removals; every other program ends as
-- given. One domain "sd" lies on the mount "m".
abbrev machine : Result Text Output → Host ℕ
machine result = record {
  output = λ bin args n. (result, n);
  lossy = λ s. s;
  call = λ op n. (ok (record { succeeded = true; code = pos 0; stdout = []; stderr = [] }), suc n);
  create_dir_all = λ path n. (none, n);
  write = λ path text n. (none, n);
  read_to_string = λ path n. err (codes "absent");
  read_dir = λ path n. ok (codes "m" ∷ []);
  exists = λ path n. true;
  is_dir = λ path n. true;
  file_len = λ path n. none;
  remove_file = λ path n. n;
  remove_dir_all = λ path n. suc n;
  now = λ n. 0;
}

-- JSON of strings, with the parameters as its only object.
abbrev texts : Json Text
texts = record {
  field = λ k v.
      if text_eq k (codes "imageID")
      then some (codes "/etc")
      else if text_eq k (codes "storagedomainID")
      then some (codes "sd")
      else none;
  as_str = λ v. some v;
  as_i64 = λ v. none;
  as_u64 = λ v. none;
  parse = λ s. none;
  boolean = λ b. [];
  keys = λ v. none;
  elements = λ v. none;
  string = λ s. s;
  integer = λ n. [];
  array = λ vs. [];
  object = λ es. codes "{}";
}

rounded_bounds_example :
    (5 ≤ rounded 5) × (rounded 5 < 5 + extent_bytes) × (rounded 5 % extent_bytes ≡ 0)
rounded_bounds_example = rounded_bounds 5 (omega arith)

create_block_volume_rolled_back_example :
    create_block_volume {V = Text}
      (machine (ok failed))
      (codes "sd")
      (codes "/s")
      (codes "i")
      (codes "v")
      5
      qcow2
      []
      0
    ≡ (err (internal (codes "qemu-img create qcow2-on-LV" ++ (codes ": " ++ codes "no space"))), 2)
unfolding run_privileged run_result
create_block_volume_rolled_back_example =
    create_block_volume_rolled_back (machine (ok failed)) (codes "sd") (codes "/s") (codes "i")
      (codes "v") [] [] 5 failed 0 1 1 refl refl refl

create_block_volume_leaks_example :
    create_block_volume {V = Text}
      (machine (err (codes "absent")))
      (codes "sd")
      (codes "/s")
      (codes "i")
      (codes "v")
      5
      qcow2
      []
      0
    ≡ (err (internal (codes "qemu-img spawn: " ++ codes "absent")), 1)
unfolding run_privileged run_result
create_block_volume_leaks_example =
    create_block_volume_leaks (machine (err (codes "absent"))) (codes "sd") (codes "/s") (codes "i")
      (codes "v") [] [] (codes "absent") 5 0 1 1 refl refl

sd_found :
    sd_backend (machine (ok failed)) (codes "sd") 0
    ≡ (some (file_backend (codes "/rhev/data-center/mnt/m/sd")), 0)
unfolding sd_backend vg_exists join
sd_found = refl

image_delete_escapes_example :
    image_delete texts (machine (ok failed)) [] 0 ≡ (ok (empty_object texts), 1)
unfolding str_or str_param text_eq
image_delete_escapes_example =
    image_delete_escapes texts (machine (ok failed)) [] 0 0 (codes "/rhev/data-center/mnt/m/sd")
      (codes "etc") refl sd_found

abbrev volume : VolumeMeta
volume = record {
  size_bytes = 4096;
  ctime = 7;
  desc = codes "a=b";
  disk_type = codes "DATA";
  sd_id = codes "sd";
  fmt_str = codes "RAW";
  img_id = codes "i";
  src_vol = codes "0";
  alloc_str = codes "SPARSE";
}

read_meta-build_meta_example : read_meta (build_meta volume) ≡ entries_of volume
unfolding trim
read_meta-build_meta_example = read_meta-build_meta volume (
  (omega arith, omega arith, refl),
  (omega arith, omega arith, refl),
  (omega arith, omega arith, refl),
  (omega arith, omega arith, refl),
  (omega arith, omega arith, refl),
  (omega arith, omega arith, refl),
  (omega arith, omega arith, refl),
)

abbrev pool : PoolState
pool = record {
  pool_id = codes "p";
  master_sd = codes "sd";
  master_ver = pos 1;
  domains = codes "sd" ∷ [];
}

abbrev named : List Text
named = codes "iso" ∷ codes "sd" ∷ []

pool_domains_example :
    Distinct (connect_pool (codes "p") (codes "sd") (pos 2) named pool).domains
    × Distinct (create_pool (codes "p") (codes "sd") named pool).domains
    × (contains (connect_pool (codes "p") (codes "sd") (pos 2) named pool).domains (codes "iso")
        ≡ (contains pool.domains (codes "iso") || contains named (codes "iso")))
    × (contains (create_pool (codes "p") (codes "sd") named pool).domains (codes "iso")
        ≡ (contains pool.domains (codes "iso") || contains named (codes "iso")))
unfolding contains
pool_domains_example =
    pool_domains (codes "p") (codes "sd") (pos 2) named pool (codes "iso") (refl, tt)

abbrev server : Text → StorageServerConnection
server id = record {
  id = id;
  connection = codes "nas:/x";
  vfs_type = [];
  mnt_options = [];
  protocol_version = [];
}

abbrev one_connected : Connected ℕ
one_connected = record { registry = server (codes "a") ∷ []; statuses = []; world = 0 }

abbrev specs : List StorageServerConnection
specs = server (codes "a") ∷ server (codes "b") ∷ []

each_is_answered_example :
    (answered_ids
        (connect_storage_server (machine (ok failed)) (pos 1) specs one_connected).statuses
      ≡ answered_ids one_connected.statuses ++ ids specs)
    × (answered_ids (disconnect_storage_server (machine (ok failed)) specs one_connected).statuses
        ≡ answered_ids one_connected.statuses ++ ids specs)
each_is_answered_example = each_is_answered (machine (ok failed)) (pos 1) specs one_connected

disconnect_forgets_example :
    has_id
      (disconnect_storage_server (machine (ok failed)) specs one_connected).registry
      (codes "a")
    ≡ (has_id one_connected.registry (codes "a") && not (has_id specs (codes "a")))
disconnect_forgets_example =
    disconnect_forgets (machine (ok failed)) specs one_connected (codes "a")

-- The parameters `vgName` and `devlist`, with two devices.
abbrev two_devices : Json Text
two_devices = record texts {
  field = λ k v.
      if text_eq k (codes "vgName")
      then some (codes "vg")
      else if text_eq k (codes "devlist")
      then some (codes "devices")
      else none;
  elements = λ v. some (codes "/dev/a" ∷ codes "/dev/b" ∷ []);
}

-- The second privileged call fails.
abbrev second_fails : Host ℕ
second_fails = record (machine (ok failed)) {
  call =
      λ op n. (ok (record { succeeded = n == 0; code = pos 0; stdout = []; stderr = [] }), suc n);
}

create_vg_ends_example :
    CreationEnds two_devices second_fails
      (either_text two_devices second_fails (codes "vgName") (codes "name") [])
      (devices_of two_devices second_fails [])
      0
      (create_vg two_devices second_fails [] 0)
create_vg_ends_example = create_vg_ends two_devices second_fails [] 0

create_vg_stops :
    create_vg two_devices second_fails [] 0 ≡ (err (internal (codes "pvcreate /dev/b failed")), 2)
unfolding create_vg create_group create_pvs needed succeeded_or run_privileged run_result text_eq
    either_text devices_of texts_of
create_vg_stops = refl
