-- ===== src/Storage/DomainInfo.antt =====
-- crates/vdsm-storage/src/domain.rs: the sizes of domains, and what is said of domains and the pool.
use vdsm_rs.Base.{
  ℕ, ◌/◌, ◌==◌, Bool, true, false, ◌&&◌, Option, none, some, List, [], ◌∷◌, ◌++◌, if◌then◌else◌,
  Text, codes, is_empty, get_elem?, Result, ok, err, pos,
}
use vdsm_rs.Encoding.Decimal.{to_string, parse_usize}
use vdsm_rs.Encoding.Split.{lines}
use vdsm_rs.Encoding.TextMap
use vdsm_rs.Encoding.TextMap.{TextMap}
use vdsm_rs.Encoding.Trim.{split_whitespace}
use vdsm_rs.Rpc.Protocol.{internal, invalid_params}
use vdsm_rs.Storage.Backend.{SdBackend, file_backend, block_backend, sd_backend}
use vdsm_rs.Storage.Metadata.{read_meta, meta_value}
use vdsm_rs.Storage.Paths.{join}
use vdsm_rs.Storage.Pool.{PoolState}
use vdsm_rs.Storage.Volumes.{backend_of, found, read_file}
use vdsm_rs.Storage.{Json, Host, Verb, return, throw, ◌>>=◌, ask, str_or}
use vdsm_rs.Supervdsm.Exec.{Output}

-- Where a domain's metadata is.
unfoldable pub domain_file : SdBackend → Text
domain_file (file_backend sd_path) = join (join sd_path (codes "dom_md")) (codes "metadata")
domain_file (block_backend vg_name state_dir) =
    join (join state_dir (codes "dom_md")) (codes "metadata")

-- The numbers among the words.
numbers_of : List Text → List ℕ
numbers_of [] = []
numbers_of (t ∷ ts) =
    let rest = numbers_of ts in elim (parse_usize t) [ none ↦ rest | some n ↦ n ∷ rest ]

last_line : List Text → Text
last_line [] = []
last_line (l ∷ []) = l
last_line (l ∷ k ∷ ls) = last_line (k ∷ ls)

or_zero : Option ℕ → ℕ
or_zero none = 0
or_zero (some n) = n

first_two : List ℕ → ℕ × ℕ
first_two ns = (or_zero (get_elem? ns 0), or_zero (get_elem? ns 1))

module _ {W : Type 0} (host : Host W) where
  read_df : Result Text Output → ℕ × ℕ
  read_df (err e) = (0, 0)
  read_df (ok o) = first_two (numbers_of (split_whitespace (last_line (lines (host.lossy o.out)))))

  read_vgs : Result Text Output → ℕ × ℕ
  read_vgs (err e) = (0, 0)
  read_vgs (ok o) = first_two (numbers_of (split_whitespace (host.lossy o.out)))

  measure : Option SdBackend × W → (ℕ × ℕ) × W
  measure (none, w) = ((0, 0), w)
  measure (some (file_backend sd_path), w) =
      let (r, w') =
        host.output (codes "/usr/bin/df") (codes "-B1" ∷ codes "--output=size,avail" ∷ sd_path ∷ [])
          w in
      (read_df r, w')
  measure (some (block_backend vg_name state_dir), w) =
      let (r, w') =
        host.output (codes "/usr/sbin/vgs")
          (codes "--noheadings"
            ∷ codes "--units"
            ∷ codes "B"
            ∷ codes "--nosuffix"
            ∷ codes "-o"
            ∷ codes "vg_size,vg_free"
            ∷ vg_name
            ∷ [])
          w in
      (read_vgs r, w')

  -- `sd_total_free`
  unfoldable pub sd_total_free : Text → W → (ℕ × ℕ) × W
  unfolding measure read_df read_vgs first_two numbers_of last_line or_zero
  sd_total_free sd_uuid w = measure (sd_backend host sd_uuid w)

module _ {V W : Type 0} (json : Json V) (host : Host W) where
  known : Text → ℕ → ℕ → Verb V W Unit
  known sd_uuid total free =
      if total == 0 && free == 0
      then (backend_of host sd_uuid >>= found host sd_uuid >>= λ b. return tt)
      else return tt

  -- `get_storage_domain_stats`
  unfoldable pub get_storage_domain_stats : V → Verb V W V
  unfolding known
  get_storage_domain_stats params = do
    let sd_uuid = str_or json [] (codes "storagedomainID") params
    size ← λ w. let (p, w') = sd_total_free host sd_uuid w in (ok p, w')
    checked ← known sd_uuid size.0 size.1
    return (
        json.object (
          (codes "disktotal", json.string (to_string size.0))
          ∷ (codes "diskfree", json.string (to_string size.1))
          ∷ (codes "mdasize", json.string (to_string (size.0 / 100)))
          ∷ (codes "mdafree", json.string (to_string (size.1 / 100)))
          ∷ []))

  not_missing : Text → Text → Bool → Verb V W Unit
  not_missing sd_uuid path true = return tt
  not_missing sd_uuid path false =
      throw (internal (codes "SD " ++ (sd_uuid ++ (codes " metadata missing at " ++ path))))

  unfoldable pub domain_info : Text → TextMap Text → List (Text × V)
  domain_info sd_uuid meta =
      (codes "uuid", json.string sd_uuid)
      ∷ (codes "type", json.string (meta_value meta (codes "TYPE")))
      ∷ (codes "class", json.string (meta_value meta (codes "CLASS")))
      ∷ (codes "name", json.string (meta_value meta (codes "DESCRIPTION")))
      ∷ (codes "role", json.string (meta_value meta (codes "ROLE")))
      ∷ (codes "pool", json.array [])
      ∷ (codes "version", json.string (meta_value meta (codes "VERSION")))
      ∷ (codes "remotePath", json.string (meta_value meta (codes "REMOTE_PATH")))
      ∷ (codes "alignment", json.string (meta_value meta (codes "ALIGNMENT")))
      ∷ (codes "block_size", json.string (meta_value meta (codes "BLOCK_SIZE")))
      ∷ (codes "master_ver", json.string (meta_value meta (codes "MASTER_VERSION")))
      ∷ (codes "lver", json.string (codes "-1"))
      ∷ (codes "spm_id", json.string (codes "-1"))
      ∷ (codes "state", json.string (codes "OK"))
      ∷ []

  read_domain : Text → Verb V W V
  read_domain sd_uuid = do
    backend ← backend_of host sd_uuid
    b ← found host sd_uuid backend
    present ← ask (host.exists (domain_file b))
    checked ← not_missing sd_uuid (domain_file b) present
    content ← read_file host (codes "read metadata") (domain_file b)
    return (json.object (domain_info sd_uuid (read_meta content)))

  -- `get_storage_domain_info`
  unfoldable pub get_storage_domain_info : V → Verb V W V
  unfolding not_missing read_domain
  get_storage_domain_info params =
      let sd_uuid = str_or json [] (codes "storagedomainID") params in
      if is_empty sd_uuid
      then throw (invalid_params (codes "storagedomainID required"))
      else read_domain sd_uuid

  domain_row : ℕ × ℕ → V
  domain_row size = json.object (
      (codes "status", json.string (codes "Active"))
      ∷ (codes "diskfree", json.string (to_string size.1))
      ∷ (codes "alerts", json.array [])
      ∷ (codes "version", json.string (codes "5"))
      ∷ (codes "isoprefix", json.string [])
      ∷ [])

  -- The row of each domain, inserted into `dominfo`.
  domain_rows : List Text → TextMap V → W → TextMap V × W
  domain_rows [] m w = (m, w)
  domain_rows (sd ∷ sds) m w =
      let (size, w') = sd_total_free host sd w in
      domain_rows sds (TextMap.insert sd (domain_row size) m) w'

  -- The row of the master domain, unless it is there.
  master_row : Text → TextMap V × W → TextMap V × W
  master_row sd (m, w) = elim (TextMap.get sd m) [
    | some row ↦ (m, w)
    | none ↦ if is_empty sd then (m, w) else domain_rows (sd ∷ []) m w
  ]

  -- `dominfo` of `get_storage_pool_info`
  unfoldable pub dominfo : PoolState → W → TextMap V × W
  unfolding domain_rows master_row domain_row
  dominfo s w = master_row s.master_sd (domain_rows s.domains [] w)

  -- `get_storage_pool_info`
  unfoldable pub get_storage_pool_info : PoolState → Verb V W V
  get_storage_pool_info s = do
    rows ← λ w. let (m, w') = dominfo s w in (ok m, w')
    return (
        json.object (
          (
            codes "info",
            json.object (
                (codes "name", json.string (codes "Default"))
                ∷ (codes "version", json.string (codes "5"))
                ∷ (codes "isoprefix", json.string [])
                ∷ (codes "master_uuid", json.string s.master_sd)
                ∷ (codes "master_ver", json.integer s.master_ver)
                ∷ (codes "lver", json.integer (pos 0))
                ∷ (codes "spm_id", json.integer (pos 1))
                ∷ (codes "type", json.string (codes "NFS"))
                ∷ (codes "pool_status", json.string (codes "connected"))
                ∷ []),
          )
          ∷ (codes "dominfo", json.object rows)
          ∷ []))
