-- ===== src/Storage/Domain.antt =====
-- crates/vdsm-storage/src/domain.rs: the creation of storage domains.
use vdsm_rs.Base.{
  ◌*◌, ◌==◌, Bool, true, false, not, ◌&&◌, ◌||◌, List, [], ◌∷◌, ◌++◌, if◌then◌else◌, Text, codes,
  is_empty, ok, ℤ, pos, negsuc, suc,
}
use vdsm_rs.Encoding.Decimal.{to_string}
use vdsm_rs.Rpc.Protocol.{internal, invalid_params}
use vdsm_rs.Storage.Backend.{vg_exists}
use vdsm_rs.Storage.Create.{zeros}
use vdsm_rs.Storage.Metadata.{print_entries}
use vdsm_rs.Storage.Paths.{mountpoint, join, block_sd_state_base}
use vdsm_rs.Storage.{
  Json, Host, Verb, return, throw, ◌>>=◌, ignore, attempt, ask, str_or, int_or, empty_object,
}

-- The bytes of a long dash.
abbrev em_dash : Text
em_dash = 0xE2 ∷ 0x80 ∷ 0x94 ∷ []

-- `class_to_str`
unfoldable pub class_to_str : ℤ → Text
class_to_str (pos n) =
    if n == 2 then codes "Iso" else if n == 3 then codes "Backup" else codes "Data"
class_to_str (negsuc n) = codes "Data"

-- `type_to_str`
unfoldable pub type_to_str : ℤ → Text
type_to_str (pos n) =
    if n == 2
    then codes "FCP"
    else if n == 3
    then codes "ISCSI"
    else if n == 4
    then codes "LOCALFS"
    else if n == 5
    then codes "CIFS"
    else if n == 7
    then codes "POSIXFS"
    else codes "NFS"
type_to_str (negsuc n) = codes "NFS"

-- `is_block_type`
unfoldable pub is_block_type : ℤ → Bool
is_block_type (pos n) = n == 2 || n == 3
is_block_type (negsuc n) = false

-- `i64` printed.
unfoldable pub print_int : ℤ → Text
print_int (pos n) = to_string n
print_int (negsuc n) = b'-' ∷ to_string (suc n)

-- What a domain's metadata is built from.
pub record DomainMeta : Type 0 where
  pub block_size : ℤ
  pub domain_class : ℤ
  pub name : Text
  pub remote_path : Text
  pub sd_uuid : Text
  pub domain_type : ℤ
  pub version : ℤ

abbrev pub domain_entries : DomainMeta → List (Text × Text)
domain_entries m =
    (codes "ALIGNMENT", codes "1048576")
    ∷ (codes "BLOCK_SIZE", print_int m.block_size)
    ∷ (codes "CLASS", class_to_str m.domain_class)
    ∷ (codes "DESCRIPTION", m.name)
    ∷ (codes "IOOPTIMEOUTSEC", codes "10")
    ∷ (codes "LEASERETRIES", codes "3")
    ∷ (codes "LEASETIMESEC", codes "60")
    ∷ (codes "LOCKPOLICY", [])
    ∷ (codes "LOCKRENEWALINTERVALSEC", codes "5")
    ∷ (codes "MASTER_VERSION", codes "0")
    ∷ (codes "POOL_UUID", [])
    ∷ (codes "REMOTE_PATH", m.remote_path)
    ∷ (codes "ROLE", codes "Regular")
    ∷ (codes "SDUUID", m.sd_uuid)
    ∷ (codes "TYPE", type_to_str m.domain_type)
    ∷ (codes "VERSION", print_int m.version)
    ∷ (codes "_SHA_CKSUM", codes "0000000000000000000000000000000000000000000000000000000000000000")
    ∷ []

unfoldable pub domain_metadata : DomainMeta → Text
domain_metadata m = print_entries (domain_entries m) []

module _ {V W : Type 0} (host : Host W) where
  -- The loop over directories, which stops at the first error.
  unfoldable pub make_dirs : List Text → Verb V W Unit
  make_dirs [] = return tt
  make_dirs (d ∷ ds) = do made ← attempt (codes "mkdir " ++ d) (host.create_dir_all d); make_dirs ds

  group_present : Text → Bool → Verb V W Unit
  group_present sd_uuid true = return tt
  group_present sd_uuid false = throw (
      internal (
        codes "VG "
        ++ (sd_uuid
            ++ codes " not present "
            ++ (em_dash ++ codes " engine should call Host.createVG first"))))

  -- The directories of a block domain; the result is its `dom_md`.
  unfoldable pub make_block_domain : Text → Verb V W Text
  unfolding group_present
  make_block_domain sd_uuid = do
    present ← λ w. let (b, w') = vg_exists host sd_uuid w in (ok b, w')
    checked ← group_present sd_uuid present
    let state = join block_sd_state_base sd_uuid
    let dom_md = join state (codes "dom_md")
    made ←
        make_dirs (state ∷ dom_md ∷ join state (codes "master") ∷ join state (codes "images") ∷ [])
    return dom_md

  mount_present : Text → Bool → Verb V W Unit
  mount_present mp true = return tt
  mount_present mp false = throw (
      internal (
        codes "mountpoint "
        ++ (mp
            ++ codes " not present "
            ++ (em_dash ++ codes " was connectStorageServer called first?"))))

  -- The same for a file domain, on the mount of its path.
  unfoldable pub make_file_domain : Text → Text → Verb V W Text
  unfolding mount_present
  make_file_domain sd_uuid typeargs = do
    let mp = mountpoint record {
      id = [];
      connection = typeargs;
      vfs_type = [];
      mnt_options = [];
      protocol_version = [];
    }
    present ← ask (host.exists mp)
    checked ← mount_present mp present
    let sd_dir = join mp sd_uuid
    let dom_md = join sd_dir (codes "dom_md")
    let master = join sd_dir (codes "master")
    made ← make_dirs (
        sd_dir
        ∷ dom_md
        ∷ master
        ∷ join master (codes "tasks")
        ∷ join master (codes "vms")
        ∷ join sd_dir (codes "images")
        ∷ [])
    return dom_md

  -- The stubs of sanlock's files.
  unfoldable pub write_stubs : Text → Verb V W Unit
  write_stubs dom_md = do
    ids ← ignore (host.write (join dom_md (codes "ids")) (zeros 1048576))
    leases ← ignore (host.write (join dom_md (codes "leases")) (zeros (2 * 1048576)))
    inbox ← ignore (host.write (join dom_md (codes "inbox")) (zeros (8 * 1048576)))
    ignore (host.write (join dom_md (codes "outbox")) (zeros (8 * 1048576)))

  -- What `create_storage_domain` does behind its tests.
  unfoldable pub make_domain : Text → DomainMeta → Verb V W Unit
  make_domain typeargs m = do
    dom_md ←
        if is_block_type m.domain_type
        then make_block_domain m.sd_uuid
        else make_file_domain m.sd_uuid typeargs
    written ←
        attempt (codes "write metadata")
          (host.write (join dom_md (codes "metadata")) (domain_metadata m))
    write_stubs dom_md

module _ {V W : Type 0} (json : Json V) (host : Host W) where
  domain_of : V → DomainMeta
  domain_of params =
      let sd_uuid = str_or json [] (codes "storagedomainID") params in
      let domain_type = int_or json (pos 1) (codes "domainType") params in
      record {
        block_size = int_or json (pos 512) (codes "blockSize") params;
        domain_class = int_or json (pos 1) (codes "domainClass") params;
        name = str_or json (codes "nfs") (codes "name") params;
        remote_path =
            if is_block_type domain_type then sd_uuid else str_or json [] (codes "typeArgs") params;
        sd_uuid = sd_uuid;
        domain_type = domain_type;
        version = int_or json (pos 5) (codes "version") params;
      }

  -- `create_storage_domain`
  unfoldable pub create_storage_domain : V → Verb V W V
  unfolding domain_of
  create_storage_domain params =
      let m = domain_of params in
      let typeargs = str_or json [] (codes "typeArgs") params in
      if is_empty m.sd_uuid
      then throw (invalid_params (codes "storagedomainID required"))
      else if not (is_block_type m.domain_type) && is_empty typeargs
      then throw (invalid_params (codes "typeArgs required for file storage domain types"))
      else make_domain host typeargs m >>= λ made. return (empty_object json)
