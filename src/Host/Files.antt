-- ===== src/Host/Files.antt =====
-- crates/vdsm-host/src/sysinfo.rs: what is read from single files.
use vdsm_rs.Base.{
  ℕ, Bool, false, ◌||◌, Option, none, some, List, [], ◌∷◌, ◌++◌, if◌then◌else◌, ◌==◌, Text, codes,
  text_eq, is_empty, leb, ℤ, pos, negsuc,
}
use mathlib.Core.List.{reverse}
use vdsm_rs.Encoding.Affix.{strip_prefix, strip_suffix}
use vdsm_rs.Encoding.Decimal.{parse_usize}
use vdsm_rs.Encoding.Split.{lines}
use vdsm_rs.Encoding.TextMap
use vdsm_rs.Encoding.TextMap.{TextMap}
use vdsm_rs.Encoding.Trim.{trim, split_whitespace}
use vdsm_rs.Host.{Probe, read_or, read_or_empty}
use vdsm_rs.Supervdsm.Exec.{Output}

non_empty : Option Text → Option Text
non_empty none = none
non_empty (some s) = if is_empty (trim s) then none else some (trim s)

first_of : Text → Option Text → Option Text → Text
first_of d (some a) b = a
first_of d none (some b) = b
first_of d none none = d

-- `s.split_once(sep)` for a byte.
unfoldable pub split_at : ℕ → Text → Option (Text × Text)
split_at sep [] = none
split_at sep (c ∷ s) =
    let rest = split_at sep s in
    if c == sep then some ([], s) else elim rest [ none ↦ none | some (k, v) ↦ some (c ∷ k, v) ]

drop_quotes : Text → Text
drop_quotes [] = []
drop_quotes (c ∷ s) = let rest = drop_quotes s in if c == b'"' then rest else c ∷ s

-- `s.trim_matches('"')`
unfoldable pub trim_quotes : Text → Text
unfolding drop_quotes
trim_quotes s = reverse (drop_quotes (reverse (drop_quotes s)))

insert_release : Option (Text × Text) → TextMap Text → TextMap Text
insert_release none m = m
insert_release (some (k, v)) m = TextMap.insert (trim k) (trim_quotes (trim v)) m

release_lines : List Text → TextMap Text → TextMap Text
release_lines [] m = m
release_lines (l ∷ ls) m = release_lines ls (insert_release (split_at b'=' l) m)

-- `MemInfo`
pub record MemInfo : Type 0 where
  pub total_kb : ℕ
  pub free_kb : ℕ
  pub available_kb : ℕ
  pub buffers_kb : ℕ
  pub cached_kb : ℕ
  pub swap_total_kb : ℕ
  pub swap_free_kb : ℕ

first_number : List Text → ℕ
first_number [] = 0
first_number (w ∷ ws) = elim (parse_usize w) [ none ↦ 0 | some n ↦ n ]

set_counter : Text → ℕ → MemInfo → MemInfo
set_counter k n m =
    if text_eq k (codes "MemTotal")
    then record m { total_kb = n }
    else if text_eq k (codes "MemFree")
    then record m { free_kb = n }
    else if text_eq k (codes "MemAvailable")
    then record m { available_kb = n }
    else if text_eq k (codes "Buffers")
    then record m { buffers_kb = n }
    else if text_eq k (codes "Cached")
    then record m { cached_kb = n }
    else if text_eq k (codes "SwapTotal")
    then record m { swap_total_kb = n }
    else if text_eq k (codes "SwapFree")
    then record m { swap_free_kb = n }
    else m

counter_line : Option (Text × Text) → MemInfo → MemInfo
counter_line none m = m
counter_line (some (k, v)) m = set_counter k (first_number (split_whitespace (trim v))) m

counter_lines : List Text → MemInfo → MemInfo
counter_lines [] m = m
counter_lines (l ∷ ls) m = counter_lines ls (counter_line (split_at b':' l) m)

insert_number : ℕ → List ℕ → List ℕ
insert_number n [] = n ∷ []
insert_number n (k ∷ ks) = let rest = insert_number n ks in if leb n k then n ∷ k ∷ ks else k ∷ rest

-- `sort` on numbers.
unfoldable pub sort_numbers : List ℕ → List ℕ
unfolding insert_number
sort_numbers [] = []
sort_numbers (n ∷ ns) = insert_number n (sort_numbers ns)

number_before : Option Text → Option ℕ
number_before none = none
number_before (some num) = parse_usize num

size_of_rest : Option Text → Option ℕ
size_of_rest none = none
size_of_rest (some rest) = number_before (strip_suffix (codes "kB") rest)

page_sizes : List Text → List ℕ
page_sizes [] = []
page_sizes (n ∷ ns) =
    let rest = page_sizes ns in
    elim (size_of_rest (strip_prefix (codes "hugepages-") n)) [ none ↦ rest | some kb ↦ kb ∷ rest ]

sorted_sizes : Option (List Text) → List ℕ
sorted_sizes none = []
sorted_sizes (some names) = sort_numbers (page_sizes names)

boot_line : List Text → ℕ
boot_line [] = 0
boot_line (l ∷ ls) =
    let rest = boot_line ls in
    elim (strip_prefix (codes "btime ") l) [
      | none ↦ rest
      | some t ↦ elim (parse_usize (trim t)) [ none ↦ 0 | some n ↦ n ]
    ]

-- The mode that `enforce` holds, if it holds one.
enforce_mode : Option Text → Option ℤ
enforce_mode none = none
enforce_mode (some s) =
    if text_eq (trim s) (codes "1")
    then some (pos 1)
    else if text_eq (trim s) (codes "0")
    then some (pos 0)
    else none

printed_mode : Text → ℤ
printed_mode s =
    if text_eq s (codes "Enforcing")
    then pos 1
    else if text_eq s (codes "Permissive")
    then pos 0
    else negsuc 0

module _ (probe : Probe) where
  -- `hostname` and `kernel_release`
  unfoldable pub hostname : Text
  hostname = read_or probe (codes "unknown") (codes "/proc/sys/kernel/hostname")

  unfoldable pub kernel_release : Text
  kernel_release = read_or probe (codes "unknown") (codes "/proc/sys/kernel/osrelease")

  -- `vdsm_id`
  unfoldable pub vdsm_id : Text
  unfolding first_of non_empty
  vdsm_id =
      first_of (codes "00000000-0000-0000-0000-000000000000")
        (non_empty (probe.read (codes "/etc/vdsm/vdsm.id")))
        (non_empty (probe.read (codes "/sys/class/dmi/id/product_uuid")))

  -- `kvm_enabled`
  unfoldable pub kvm_enabled : Bool
  kvm_enabled = probe.exists (codes "/sys/module/kvm") || probe.exists (codes "/dev/kvm")

  -- `mem_info`
  unfoldable pub mem_info : MemInfo
  unfolding counter_lines counter_line set_counter first_number
  mem_info = counter_lines (lines (read_or_empty probe (codes "/proc/meminfo"))) (record {
    total_kb = 0;
    free_kb = 0;
    available_kb = 0;
    buffers_kb = 0;
    cached_kb = 0;
    swap_total_kb = 0;
    swap_free_kb = 0;
  })

  -- `os_release`
  unfoldable pub os_release : TextMap Text
  unfolding release_lines insert_release
  os_release = release_lines (lines (read_or_empty probe (codes "/etc/os-release"))) []

  run_field : Option Text → Text → Text
  run_field none field = read_or probe [] (codes "/run/vdsm/" ++ field)
  run_field (some t) field = t

  -- `dmi_field`
  unfoldable pub dmi_field : Text → Text
  unfolding run_field non_empty
  dmi_field field = run_field (non_empty (probe.read (codes "/sys/class/dmi/id/" ++ field))) field

  flag_file : Option Text → Bool
  flag_file none = false
  flag_file (some s) = text_eq (trim s) (codes "1")

  -- `fips_enabled`
  unfoldable pub fips_enabled : Bool
  unfolding flag_file
  fips_enabled = flag_file (probe.read (codes "/proc/sys/crypto/fips_enabled"))

  -- `hugepage_sizes_kb`
  unfoldable pub hugepage_sizes_kb : List ℕ
  unfolding sorted_sizes page_sizes size_of_rest number_before
  hugepage_sizes_kb = sorted_sizes (probe.read_dir (codes "/sys/kernel/mm/hugepages"))

  boot_of : Option Text → ℕ
  boot_of none = 0
  boot_of (some s) = boot_line (lines s)

  -- `boot_time_secs`
  unfoldable pub boot_time_secs : ℕ
  unfolding boot_of boot_line
  boot_time_secs = boot_of (probe.read (codes "/proc/stat"))

  asked_mode : Option Output → ℤ
  asked_mode none = negsuc 0
  asked_mode (some o) = if o.success then printed_mode (trim (probe.lossy o.out)) else negsuc 0

  -- `selinux_mode`, whose file is one of at most sixteen bytes.
  unfoldable pub selinux_mode : ℤ
  unfolding enforce_mode asked_mode printed_mode
  selinux_mode = elim (enforce_mode (probe.read (codes "/sys/fs/selinux/enforce"))) [
    | some n ↦ n
    | none ↦ asked_mode (probe.output (codes "/usr/sbin/getenforce") [])
  ]

  feature_files : List Text → TextMap Text → TextMap Text
  feature_files [] m = m
  feature_files (n ∷ ns) m =
      feature_files ns (elim (probe.read (codes "/sys/devices/system/cpu/vulnerabilities/" ++ n)) [
        | none ↦ m
        | some v ↦ TextMap.insert n (trim v) m
      ])

  -- `kernel_features`
  unfoldable pub kernel_features : TextMap Text
  unfolding feature_files
  kernel_features = elim (probe.read_dir (codes "/sys/devices/system/cpu/vulnerabilities")) [
    | none ↦ []
    | some names ↦ feature_files names []
  ]
