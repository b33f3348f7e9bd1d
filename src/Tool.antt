-- ===== src/Tool.antt =====
-- crates/vdsm-tool/src/main.rs: the host's id, the lookups in the account files, and the test
-- certificates; and the defaults of crates/vdsm-common/src/config.rs.
pub mod Config
use vdsm_rs.Base.{
  ℕ, Bool, true, false, Option, none, some, List, [], ◌∷◌, ◌++◌, if◌then◌else◌, ◌==◌, Text, codes,
  text_eq, is_empty, Result, ok, err, ℤ, pos, negsuc, suc,
}
use vdsm_rs.Encoding.Decimal.{parse_word, u32_max, to_string}
use vdsm_rs.Encoding.Split.{lines, split_on}
use vdsm_rs.Encoding.Trim.{trim}
use vdsm_rs.Storage.{Host}
use vdsm_rs.Supervdsm.Exec.{Output}

-- A part of the tool: it changes the machine and returns a value or the text of an error.
abbrev pub Job : Type 0 → Type 0 → Type 0
Job W A = W → Result Text A × W

-- The entry's third field, of the first line whose first field is the name.
id_in : List Text → Option ℕ
id_in (n ∷ password ∷ id ∷ more) = parse_word u32_max id
id_in other = none

is_entry : Text → List Text → Bool
is_entry name [] = false
is_entry name (n ∷ more) = text_eq n name

unfoldable pub find_entry : Text → List Text → Option ℕ
unfolding id_in is_entry
find_entry name [] = none
find_entry name (l ∷ ls) =
    let rest = find_entry name ls in
    if is_entry name (split_on b':' l) then id_in (split_on b':' l) else rest

abbrev vdsm_id_path : Text
vdsm_id_path = codes "/etc/vdsm/vdsm.id"

-- `{:?}` of an exit code.
code_text : Option ℤ → Text
code_text none = codes "None"
code_text (some (pos n)) = codes "Some(" ++ (to_string n ++ codes ")")
code_text (some (negsuc n)) = codes "Some(-" ++ (to_string (suc n) ++ codes ")")

module _ {W : Type 0} (host : Host W) where
  found_in : Text → Result Text Text → Option ℕ
  found_in name (err e) = none
  found_in name (ok raw) = find_entry name (lines raw)

  -- `read_passwd_uid` and `read_group_gid`
  unfoldable pub read_passwd_uid : Text → W → Option ℕ
  unfolding found_in
  read_passwd_uid name w = found_in name (host.read_to_string (codes "/etc/passwd") w)

  unfoldable pub read_group_gid : Text → W → Option ℕ
  unfolding found_in
  read_group_gid name w = found_in name (host.read_to_string (codes "/etc/group") w)

  both_ids : Option ℕ → Option ℕ → Option (ℕ × ℕ)
  both_ids (some u) (some g) = some (u, g)
  both_ids none g = none
  both_ids (some u) none = none

  -- `lookup_vdsm_kvm`
  unfoldable pub lookup_vdsm_kvm : W → Option (ℕ × ℕ)
  unfolding both_ids
  lookup_vdsm_kvm w = both_ids (read_passwd_uid (codes "vdsm") w) (read_group_gid (codes "kvm") w)

  trimmed : Result Text Text → Option Text
  trimmed (err e) = none
  trimmed (ok s) = if is_empty (trim s) then none else some (trim s)

  printed_uuid : Text → Result Text Text
  printed_uuid s =
      if is_empty s then err (codes "dmidecode returned an empty system-uuid") else ok s

  decoded : Result Text Output → Result Text Text
  decoded (err e) = err e
  decoded (ok o) =
      if o.success
      then printed_uuid (trim (host.lossy o.out))
      else err (codes "dmidecode -s system-uuid failed: " ++ host.lossy o.error_out)

  ask_dmidecode : Job W Text
  ask_dmidecode w =
      let (r, w') = host.output (codes "dmidecode") (codes "-s" ∷ codes "system-uuid" ∷ []) w in
      (decoded r, w')

  uuid_or : Option Text → Option Text → Job W Text
  uuid_or (some a) b w = (ok a, w)
  uuid_or none (some b) w = (ok b, w)
  uuid_or none none w = ask_dmidecode w

  -- `read_system_uuid`
  unfoldable pub read_system_uuid : Job W Text
  unfolding uuid_or ask_dmidecode decoded printed_uuid trimmed
  read_system_uuid w =
      uuid_or (trimmed (host.read_to_string (codes "/sys/class/dmi/id/product_uuid") w))
        (trimmed (host.read_to_string (codes "/proc/device-tree/system-id") w)) w

  kept_id : Result Text Text × W → Result Text Text × W
  kept_id (err e, w) = (err e, w)
  kept_id (ok id, w) = (
    ok id,
    (host.write vdsm_id_path (id ++ b'\n' ∷ []) (host.create_dir_all (codes "/etc/vdsm") w).1).1,
  )

  id_or_new : Option Text → Job W Text
  id_or_new (some id) w = (ok id, w)
  id_or_new none w = kept_id (read_system_uuid w)

  -- `ensure_vdsm_id`: an id that cannot be kept is returned all the same.
  unfoldable pub ensure_vdsm_id : Job W Text
  unfolding id_or_new kept_id trimmed vdsm_id_path
  ensure_vdsm_id w = id_or_new (trimmed (host.read_to_string vdsm_id_path w)) w

-- The tool's changes of modes, and the directory of a path: `Path::parent`.
pub record Owner (W : Type 0) : Type 0 where
  pub chmod : Text → ℕ → W → Option Text × W
  pub is_root : Bool
  pub parent : Text → Option Text

module _ {W : Type 0} (host : Host W) (own : Owner W) where
  make_parent : Option Text → W → W
  make_parent none w = w
  make_parent (some d) w = (host.create_dir_all d w).1

  openssl_request : Text → Text → Text → ℕ → List Text
  openssl_request cert key cn days =
      codes "req"
      ∷ codes "-x509"
      ∷ codes "-newkey"
      ∷ codes "rsa:2048"
      ∷ codes "-keyout"
      ∷ key
      ∷ codes "-out"
      ∷ cert
      ∷ codes "-days"
      ∷ to_string days
      ∷ codes "-nodes"
      ∷ codes "-subj"
      ∷ (codes "/CN=" ++ cn)
      ∷ codes "-addext"
      ∷ (codes "subjectAltName=DNS:" ++ (cn ++ codes ",DNS:localhost,IP:127.0.0.1"))
      ∷ []

  -- `chown_path`
  unfoldable pub chown_path : Text → ℕ → ℕ → W → W
  chown_path path uid gid w =
      (host.output (codes "/usr/bin/chown") ((to_string uid ++ (b':' ∷ to_string gid)) ∷ path ∷ [])
        w).1

  chown_both : Text → Text → Option (ℕ × ℕ) → W → W
  chown_both cert key none w = w
  chown_both cert key (some (uid, gid)) w = chown_path key uid gid (chown_path cert uid gid w)

  own_both : Text → Text → W → W
  own_both cert key w = if own.is_root then chown_both cert key (lookup_vdsm_kvm host w) w else w

  after_key : Text → Text → Option Text × W → Result Text Unit × W
  after_key cert key (some e, w) = (err e, w)
  after_key cert key (none, w) = (ok tt, own_both cert key w)

  after_cert : Text → Text → Option Text × W → Result Text Unit × W
  after_cert cert key (some e, w) = (err e, w)
  after_cert cert key (none, w) = after_key cert key (own.chmod key 288 w)

  after_openssl : Text → Text → Result Text Output × W → Result Text Unit × W
  after_openssl cert key (err e, w) = (err e, w)
  after_openssl cert key (ok o, w) =
      if o.success
      then after_cert cert key (own.chmod cert 416 w)
      else (err (codes "openssl req failed (rc=" ++ (code_text o.status ++ codes ")")), w)

  name_of : Option Text → W → Text
  name_of (some cn) w = cn
  name_of none w = elim (host.read_to_string (codes "/proc/sys/kernel/hostname") w) [
    | ok s ↦ trim s
    | err e ↦ codes "localhost"
  ]

  -- `gen_test_certs`; the modes are 0o640 and 0o440.
  unfoldable pub gen_test_certs : Text → Text → Option Text → ℕ → Job W Unit
  unfolding after_openssl after_cert after_key own_both chown_both name_of openssl_request
      make_parent code_text
  gen_test_certs cert key cn days w =
      let w' = make_parent (own.parent key) (make_parent (own.parent cert) w) in
      after_openssl cert key
        (host.output (codes "openssl") (openssl_request cert key (name_of cn w) days) w')
