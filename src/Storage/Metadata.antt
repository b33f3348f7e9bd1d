-- ===== src/Storage/Metadata.antt =====
-- crates/vdsm-storage/src/volumes.rs and domain.rs: the key=value texts kept beside volumes and
-- domains, as they are written and read.
use vdsm_rs.Base.{
  ℕ, Option, none, some, List, [], ◌∷◌, ◌++◌, ◌==◌, if◌then◌else◌, Text, codes, ℤ, pos, negsuc,
}
use vdsm_rs.Encoding.Decimal.{to_string}
use vdsm_rs.Encoding.Split.{lines}
use vdsm_rs.Encoding.TextMap
use vdsm_rs.Encoding.TextMap.{TextMap}
use vdsm_rs.Encoding.Trim.{trim}

-- `vol_format_str`
unfoldable pub vol_format_str : ℤ → Text
vol_format_str (pos n) = if n == 4 then codes "COW" else codes "RAW"
vol_format_str (negsuc n) = codes "RAW"

-- `vol_alloc_str`
unfoldable pub vol_alloc_str : ℤ → Text
vol_alloc_str (pos n) = if n == 1 then codes "PREALLOCATED" else codes "SPARSE"
vol_alloc_str (negsuc n) = codes "SPARSE"

-- The lines of `format!`, each a key, an equals sign and a value.
unfoldable pub print_entries : List (Text × Text) → Text → Text
print_entries [] tail = tail
print_entries ((k, v) ∷ es) tail = k ++ (b'=' ∷ (v ++ (b'\n' ∷ print_entries es tail)))

-- What a volume's metadata is built from.
pub record VolumeMeta : Type 0 where
  pub size_bytes : ℕ
  pub ctime : ℕ
  pub desc : Text
  pub disk_type : Text
  pub sd_id : Text
  pub fmt_str : Text
  pub img_id : Text
  pub src_vol : Text
  pub alloc_str : Text

abbrev pub entries_of : VolumeMeta → List (Text × Text)
entries_of m =
    (codes "CAP", to_string m.size_bytes)
    ∷ (codes "CTIME", to_string m.ctime)
    ∷ (codes "DESCRIPTION", m.desc)
    ∷ (codes "DISKTYPE", m.disk_type)
    ∷ (codes "DOMAIN", m.sd_id)
    ∷ (codes "FORMAT", m.fmt_str)
    ∷ (codes "GEN", codes "0")
    ∷ (codes "IMAGE", m.img_id)
    ∷ (codes "LEGALITY", codes "LEGAL")
    ∷ (codes "PUUID", m.src_vol)
    ∷ (codes "TYPE", m.alloc_str)
    ∷ (codes "VOLTYPE", codes "LEAF")
    ∷ []

-- `build_meta`
unfoldable pub build_meta : VolumeMeta → Text
unfolding print_entries
build_meta m = print_entries (entries_of m) (codes "EOF\n")

unfoldable pub cons_key : ℕ → Option (Text × Text) → Option (Text × Text)
cons_key c none = none
cons_key c (some (k, v)) = some (c ∷ k, v)

-- `line.split_once('=')`
unfoldable pub split_once : Text → Option (Text × Text)
unfolding cons_key
split_once [] = none
split_once (c ∷ s) = let rest = split_once s in if c == b'=' then some ([], s) else cons_key c rest

unfoldable pub insert_entry : Option (Text × Text) → TextMap Text → TextMap Text
insert_entry none m = m
insert_entry (some (k, v)) m = TextMap.insert (trim k) (trim v) m

unfoldable pub insert_lines : List Text → TextMap Text → TextMap Text
insert_lines [] m = m
insert_lines (l ∷ ls) m = insert_lines ls (insert_entry (split_once l) m)

-- The loop over `content.lines()`: a later line replaces an earlier one of its key.
unfoldable pub read_meta : Text → TextMap Text
unfolding insert_lines insert_entry
read_meta content = insert_lines (lines content) []

-- `m.get(k).cloned().unwrap_or_default()`
unfoldable pub meta_value : TextMap Text → Text → Text
meta_value m k = elim (TextMap.get k m) [ none ↦ [] | some v ↦ v ]
