-- ===== src/Vm/Reconcile.antt =====
-- crates/vdsm-virt/src/verbs.rs: `reconcile_from_libvirt`, which every poll of the statistics runs first
-- (crates/vdsm-host/src/vm_stats.rs).
use vdsm_rs.Base.{
  ℕ, ◌/◌, Bool, true, false, ◌||◌, not, Option, none, some, List, [], ◌∷◌, if◌then◌else◌, Text,
  codes, Result, ok, err, text_eq, map, filter, is_empty,
}
use vdsm_rs.Encoding.Affix.{strip_prefix}
use vdsm_rs.Encoding.Decimal.{parse_usize, parse_word, u32_max}
use vdsm_rs.Encoding.Split.{lines}
use vdsm_rs.Encoding.TextMap
use vdsm_rs.Encoding.TextMap.{TextMap}
use vdsm_rs.Encoding.Trim.{trim, split_whitespace}
use vdsm_rs.Storage.{Json, Verb}
use vdsm_rs.Vm.Virsh.{Libvirt, virsh, record_to_stats}
use vdsm_rs.Vm.{VmRecord, Vms, up}

-- The names that `virsh list` prints.
unfoldable pub names_of : Text → List Text
names_of out = filter (λ l. not (is_empty l)) (map trim (lines out))

-- `names.contains(&name)`
unfoldable pub lists_name : List Text → Text → Bool
lists_name [] n = false
lists_name (m ∷ ms) n = text_eq m n || lists_name ms n

-- `reg.retain(|_, r| names.contains(&r.vm_name))`
unfoldable pub retain_listed : List Text → TextMap VmRecord → TextMap VmRecord
retain_listed names [] = []
retain_listed names ((k, r) ∷ m) =
    let rest = retain_listed names m in if lists_name names r.vm_name then (k, r) ∷ rest else rest

-- `info.lines().find_map(|l| l.strip_prefix(label).map(str::trim))`
unfoldable pub labelled : Text → List Text → Option Text
labelled label [] = none
labelled label (l ∷ ls) =
    let rest = labelled label ls in
    elim (strip_prefix label l) [ none ↦ rest | some v ↦ some (trim v) ]

first_word : Option Text → Option Text
first_word none = none
first_word (some s) = elim (split_whitespace s) [ [] ↦ none | w ∷ ws ↦ some w ]

number_in : ℕ → Option Text → Option ℕ
number_in max none = none
number_in max (some s) = parse_word max s

or_number : ℕ → Option ℕ → ℕ
or_number d none = d
or_number d (some n) = n

-- `… .parse::<u64>().ok().map(|kb| kb / 1024).unwrap_or(0)`
unfoldable pub memory_of : Text → ℕ
unfolding first_word or_number
memory_of info = elim (first_word (labelled (codes "Used memory:") (lines info))) [
  | none ↦ 0
  | some w ↦ or_number 0 (parse_usize w) / 1024
]

unfoldable pub cpus_of : Text → ℕ
unfolding number_in or_number
cpus_of info = or_number 1 (number_in u32_max (labelled (codes "CPU(s):") (lines info)))

module _ {W : Type 0} (lib : Libvirt W) where
  unfoldable pub text_or_none : Result Text Text → Text
  text_or_none (ok out) = out
  text_or_none (err e) = []

  -- The record of a domain that the registry does not have.
  unfoldable pub add_found : Text → Text → Vms W → Vms W
  unfolding text_or_none
  add_found uuid name s =
      let (r, s') = virsh lib (codes "dominfo" ∷ name ∷ []) none s in
      record s' {
        registry =
            TextMap.insert uuid
              (record {
                vm_id = uuid;
                vm_name = name;
                mem_size_mb = memory_of (text_or_none r);
                vcpus = cpus_of (text_or_none r);
                state = up;
                created_secs = lib.now s'.world;
              })
              s'.registry;
      }

  unfoldable pub is_known : Option VmRecord → Bool
  is_known none = false
  is_known (some r) = true

  unfoldable pub add_keyed : Text → Text → Vms W → Vms W
  add_keyed uuid name s =
      if is_empty uuid || is_known (TextMap.get uuid s.registry) then s else add_found uuid name s

  unfoldable pub add_named : Text → Result Text Text → Vms W → Vms W
  add_named name (err e) s = s
  add_named name (ok out) s = add_keyed (trim out) name s

  -- One turn of the loop over the names.
  unfoldable pub add_missing : Text → Vms W → Vms W
  unfolding add_named add_keyed is_known
  add_missing name s =
      let (r, s') = virsh lib (codes "domuuid" ∷ name ∷ []) none s in add_named name r s'

  unfoldable pub add_all : List Text → Vms W → Vms W
  add_all [] s = s
  add_all (n ∷ ns) s = add_all ns (add_missing n s)

  unfoldable pub reconcile_listed : Result Text Text → Vms W → Vms W
  reconcile_listed (err e) s = s
  reconcile_listed (ok out) s =
      add_all (names_of out) (record s { registry = retain_listed (names_of out) s.registry })

  -- `reconcile_from_libvirt`
  unfoldable pub reconcile_from_libvirt : Vms W → Vms W
  unfolding reconcile_listed
  reconcile_from_libvirt s =
      let (r, s') =
        virsh lib (codes "list" ∷ codes "--name" ∷ codes "--state-running" ∷ []) none s in
      reconcile_listed r s'

-- `get_all_vm_stats`: the answer lists the records in the map's order of iteration.
unfoldable pub get_all_vm_stats :
    {V W : Type 0} → Json V → Libvirt W → (TextMap VmRecord → List VmRecord) → V → Verb V (Vms W) V
get_all_vm_stats json lib values params s =
    let s' = reconcile_from_libvirt lib s in
    (ok (json.array (map (record_to_stats json (lib.now s'.world)) (values s'.registry))), s')
