-- ===== src/Supervdsm/Valid.antt =====
-- crates/supervdsm/src/exec.rs: the tests on the fields of an operation. A `str` is its UTF-8 bytes,
-- and every byte of a character that is not ASCII fails the tests that `chars().all` makes.
use vdsm_rs.Base.{
  ℕ, Bool, not, ◌&&◌, ◌||◌, leb, ◌==◌, Text, codes, text_eq, starts_with, contains_byte,
  contains_text, is_ascii_alphanumeric, is_empty, all, length,
}

abbrev pub mount_root : Text
mount_root = codes "/rhev/data-center/mnt/"

abbrev pub dash : Text
dash = codes "-"

unfoldable pub lvm_char : ℕ → Bool
lvm_char c = is_ascii_alphanumeric c || (c == b'-' || c == b'_' || c == b'.' || c == b'+')

unfoldable pub valid_lvm_name : Text → Bool
unfolding lvm_char
valid_lvm_name s =
    not (is_empty s) && (not (starts_with s dash) && (leb (length s) 128 && all lvm_char s))

unfoldable pub valid_device : Text → Bool
valid_device s =
    starts_with s (codes "/dev/")
    && (not (contains_text s (codes "..")) && (not (contains_byte s 0) && leb (length s) 4096))

unfoldable pub valid_target : Text → Bool
valid_target s =
    starts_with s mount_root && (not (contains_text s (codes "..")) && not (contains_byte s 0))

unfoldable pub valid_fstype : Text → Bool
valid_fstype s =
    text_eq s (codes "nfs")
    || text_eq s (codes "nfs4")
    || text_eq s (codes "cifs")
    || text_eq s (codes "glusterfs")
    || text_eq s (codes "none")
    || text_eq s (codes "auto")
    || text_eq s (codes "ext4")
    || text_eq s (codes "xfs")
    || text_eq s (codes "ext3")

unfoldable pub portal_char : ℕ → Bool
portal_char c =
    is_ascii_alphanumeric c || (c == b'.' || c == b':' || c == b'-' || c == b'[' || c == b']')

unfoldable pub valid_portal : Text → Bool
unfolding portal_char
valid_portal s =
    not (is_empty s)
    && (not (starts_with s dash)
        && (not (contains_byte s 0) && (leb (length s) 256 && all portal_char s)))

unfoldable pub iqn_char : ℕ → Bool
iqn_char c = is_ascii_alphanumeric c || (c == b'.' || c == b':' || c == b'-')

unfoldable pub valid_iqn : Text → Bool
unfolding iqn_char
valid_iqn s =
    not (is_empty s)
    && (not (starts_with s dash)
        && (not (contains_byte s 0) && (leb (length s) 256 && all iqn_char s)))

-- `spec.is_empty() || spec.starts_with('-') || spec.contains('\0')`, negated.
unfoldable pub valid_spec : Text → Bool
valid_spec s = not (is_empty s || (starts_with s dash || contains_byte s 0))

-- `options.starts_with('-') || options.contains('\0')`, negated.
unfoldable pub valid_options : Text → Bool
valid_options s = not (starts_with s dash || contains_byte s 0)
