-- ===== src/Storage/Paths.antt =====
-- Paths as the storage crate builds them: `Path::join`, and crates/vdsm-storage/src/connection.rs.
use vdsm_rs.Base.{[], ◌∷◌, ◌++◌, ◌==◌, if◌then◌else◌, Text, codes}

-- A separator is added unless there is one; an empty path takes none.
with_separator : Text → Text
with_separator [] = []
with_separator (c ∷ []) = if c == b'/' then c ∷ [] else c ∷ b'/' ∷ []
with_separator (c ∷ d ∷ s) = c ∷ with_separator (d ∷ s)

-- `Path::join`: an absolute path replaces what is before it.
unfoldable pub join : Text → Text → Text
unfolding with_separator
join p [] = with_separator p
join p (c ∷ s) = if c == b'/' then c ∷ s else with_separator p ++ (c ∷ s)

-- `MNT_BASE`
abbrev pub mnt_base : Text
mnt_base = codes "/rhev/data-center/mnt"

-- `BLOCK_SD_STATE_BASE`
abbrev pub block_sd_state_base : Text
block_sd_state_base = codes "/var/lib/vdsm/sd"

-- `connection.replace('/', "_")`
unfoldable pub escape_slashes : Text → Text
escape_slashes [] = []
escape_slashes (c ∷ s) = (if c == b'/' then b'_' else c) ∷ escape_slashes s

-- `StorageServerConnection`
pub record StorageServerConnection : Type 0 where
  pub id : Text
  pub connection : Text
  pub vfs_type : Text
  pub mnt_options : Text
  pub protocol_version : Text

-- `StorageServerConnection::mountpoint`
unfoldable pub mountpoint : StorageServerConnection → Text
unfolding join escape_slashes
mountpoint c = join mnt_base (escape_slashes c.connection)

-- `<dir>/images/<img_id>`
unfoldable pub image_dir : Text → Text → Text
unfolding join
image_dir dir img_id = join (join dir (codes "images")) img_id

-- `format!("{vol_id}.meta")` in an image's directory.
unfoldable pub meta_file : Text → Text → Text
unfolding join
meta_file dir vol_id = join dir (vol_id ++ codes ".meta")

unfoldable pub lease_file : Text → Text → Text
unfolding join
lease_file dir vol_id = join dir (vol_id ++ codes ".lease")

-- `/dev/<vg>/<lv>`
unfoldable pub device : Text → Text → Text
device vg lv = codes "/dev/" ++ (vg ++ (codes "/" ++ lv))
