-- ===== src/Storage/Connections.antt =====
-- crates/vdsm-storage/src/verbs.rs: the connections to storage servers.
use vdsm_rs.Base.{
  ℕ, ◌==◌, Bool, true, false, ◌||◌, Option, none, some, List, [], ◌∷◌, ◌++◌, if◌then◌else◌, Text,
  codes, is_empty, text_eq, get_elem?, Result, ok, err, ℤ, pos, negsuc,
}
use vdsm_rs.Encoding.Split.{lines}
use vdsm_rs.Encoding.Trim.{split_whitespace}
use vdsm_rs.Storage.Paths.{StorageServerConnection, mountpoint}
use vdsm_rs.Storage.{Host, run_privileged}
use vdsm_rs.Supervdsm.{mount, umount, iscsi_discover, iscsi_login, PrivResult}

-- The file system of a domain type, if the connection names none.
unfoldable pub default_vfs : ℤ → Text
default_vfs (pos n) =
    if n == 5
    then codes "cifs"
    else if n == 7
    then codes "auto"
    else if n == 4
    then codes "none"
    else if n == 8
    then codes "glusterfs"
    else codes "nfs"
default_vfs (negsuc n) = codes "nfs"

unfoldable pub choose_vfs : StorageServerConnection → ℤ → Text
choose_vfs spec domain_type =
    if is_empty spec.vfs_type then default_vfs domain_type else spec.vfs_type

-- The fifth word of a line of mountinfo is the mountpoint.
is_mount_line : Text → Text → Bool
is_mount_line mp line = elim (get_elem? (split_whitespace line) 4) [
  | none ↦ false
  | some p ↦ text_eq p mp
]

any_mount_line : Text → List Text → Bool
any_mount_line mp [] = false
any_mount_line mp (l ∷ ls) = is_mount_line mp l || any_mount_line mp ls

-- The second words of the lines of a discovery.
second_words : List Text → List Text
second_words [] = []
second_words (l ∷ ls) =
    let rest = second_words ls in
    elim (get_elem? (split_whitespace l) 1) [ none ↦ rest | some w ↦ w ∷ rest ]

-- The registry of connections, the statuses that are answered, and the machine.
pub record Connected (W : Type 0) : Type 0 where
  pub registry : List StorageServerConnection
  pub statuses : List (Text × ℕ)
  pub world : W

-- `retain(|c| c.id != spec.id)`
unfoldable pub forget : Text → List StorageServerConnection → List StorageServerConnection
forget id [] = []
forget id (c ∷ cs) = let rest = forget id cs in if text_eq c.id id then rest else c ∷ rest

module _ {W : Type 0} (host : Host W) where
  listed : Text → Result Text Text → Bool
  listed mp (err e) = false
  listed mp (ok s) = any_mount_line mp (lines s)

  -- `is_mounted`
  unfoldable pub is_mounted : Text → W → Bool
  unfolding listed any_mount_line is_mount_line
  is_mounted mp w = listed mp (host.read_to_string (codes "/proc/self/mountinfo") w)

  -- The logins to each target: whether one of them succeeded.
  login_all : Text → List Text → Bool → W → Bool × W
  login_all portal [] good w = (good, w)
  login_all portal (iqn ∷ iqns) good w =
      let (r, w') = run_privileged host (iscsi_login iqn portal) w in
      login_all portal iqns (elim r [ none ↦ good | some out ↦ true ]) w'

  login_result : Bool × W → ℕ × W
  login_result (good, w) = (if good then 0 else 101, w)

  discovered : Text → Option Text × W → ℕ × W
  discovered portal (none, w) = (101, w)
  discovered portal (some raw, w) =
      let iqns = second_words (lines raw) in
      if is_empty iqns then (101, w) else login_result (login_all portal iqns false w)

  -- `iscsi_login_one`
  unfoldable pub iscsi_login_one : StorageServerConnection → W → ℕ × W
  unfolding discovered login_result login_all second_words
  iscsi_login_one spec w =
      if is_empty spec.connection
      then (22, w)
      else discovered spec.connection (run_privileged host (iscsi_discover spec.connection) w)

  mount_status : Result Text PrivResult × W → ℕ × W
  mount_status (ok r, w) = (if r.succeeded then 0 else 100, w)
  mount_status (err e, w) = (13, w)

  mount_made : StorageServerConnection → ℤ → Option Text × W → ℕ × W
  mount_made spec domain_type (some e, w) = (13, w)
  mount_made spec domain_type (none, w) =
      if is_mounted (mountpoint spec) w
      then (0, w)
      else mount_status (
          host.call
            (mount (choose_vfs spec domain_type) spec.connection (mountpoint spec) spec.mnt_options)
            w)

  mount_files : StorageServerConnection → ℤ → W → ℕ × W
  mount_files spec domain_type w =
      mount_made spec domain_type (host.create_dir_all (mountpoint spec) w)

  -- `mount_one`: the status of a connection, 0 for success.
  unfoldable pub mount_one : StorageServerConnection → ℤ → W → ℕ × W
  unfolding mount_files mount_made mount_status
  mount_one spec (negsuc n) w = mount_files spec (negsuc n) w
  mount_one spec (pos n) w =
      if n == 2
      then (0, w)
      else if n == 3
      then iscsi_login_one spec w
      else mount_files spec (pos n) w

  -- `connect_storage_server`, over the connections that were read from the parameters.
  unfoldable pub connect_storage_server :
      ℤ → List StorageServerConnection → Connected W → Connected W
  connect_storage_server domain_type [] s = s
  connect_storage_server domain_type (spec ∷ specs) s =
      let (status, w) = mount_one spec domain_type s.world in
      connect_storage_server domain_type specs record {
        registry = if status == 0 then s.registry ++ spec ∷ [] else s.registry;
        statuses = s.statuses ++ (spec.id, status) ∷ [];
        world = w;
      }

  unmount_status : Result Text PrivResult × W → ℕ × W
  unmount_status (ok r, w) = (if r.succeeded then 0 else 16, w)
  unmount_status (err e, w) = (16, w)

  unfoldable pub unmount_one : StorageServerConnection → W → ℕ × W
  unfolding unmount_status
  unmount_one spec w =
      if is_mounted (mountpoint spec) w
      then unmount_status (host.call (umount (mountpoint spec)) w)
      else (0, w)

  -- `disconnect_storage_server`, likewise.
  unfoldable pub disconnect_storage_server :
      List StorageServerConnection → Connected W → Connected W
  disconnect_storage_server [] s = s
  disconnect_storage_server (spec ∷ specs) s =
      let (status, w) = unmount_one spec s.world in
      disconnect_storage_server specs record {
        registry = forget spec.id s.registry;
        statuses = s.statuses ++ (spec.id, status) ∷ [];
        world = w;
      }
