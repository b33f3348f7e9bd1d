-- ===== src/Vm/Migration.antt =====
-- crates/vdsm-virt/src/verbs.rs: live migration, on the source and on the destination.
use vdsm_rs.Base.{
  ℕ, ◌-◌, ◌*◌, ◌/◌, ◌%◌, ◌^◌, ltb, Option, none, some, List, [], ◌∷◌, ◌++◌, if◌then◌else◌, Text,
  codes, Result, ok, err, ℤ, pos, negsuc,
}
use vdsm_rs.Encoding.Affix.{strip_prefix}
use vdsm_rs.Encoding.Decimal.{to_string, parse_usize}
use vdsm_rs.Encoding.Split.{lines}
use vdsm_rs.Encoding.Trim.{trim, split_whitespace}
use vdsm_rs.Rpc.Protocol.{invalid_params}
use vdsm_rs.Storage.{Json, Verb, return, throw, ◌>>=◌, effect, empty_object}
use vdsm_rs.Vm.DomainXml.{from_vm_params}
use vdsm_rs.Vm.Virsh.{Libvirt, virsh, virsh_ignored, vm_id_from, name_of}
use vdsm_rs.Vm.Verbs.{enter, by_id}
use vdsm_rs.Vm.{Vms, migration, wait_for_launch}

-- The counters of `virsh domjobinfo`.
pub record JobInfo : Type 0 where
  pub total : ℕ
  pub processed : ℕ
  pub remaining : ℕ

or_zero : Option ℕ → ℕ
or_zero none = 0
or_zero (some n) = n

first_number : List Text → Option ℕ
first_number [] = none
first_number (w ∷ ws) = parse_usize w

-- `v.split_whitespace().next().and_then(|s| s.parse().ok()).unwrap_or(0)`
unfoldable pub counter : Text → ℕ
unfolding or_zero first_number
counter v = or_zero (first_number (split_whitespace v))

no_counter : Option Text → JobInfo → JobInfo
no_counter none j = j
no_counter (some v) j = record j { remaining = counter v }

not_total : Option Text → Option Text → JobInfo → JobInfo
not_total none r j = no_counter r j
not_total (some v) r j = record j { processed = counter v }

is_total : Option Text → Option Text → Option Text → JobInfo → JobInfo
is_total none p r j = not_total p r j
is_total (some v) p r j = record j { total = counter v }

-- One line, with the first prefix that fits.
unfoldable pub job_line : Text → JobInfo → JobInfo
unfolding is_total not_total no_counter
job_line line j =
    is_total (strip_prefix (codes "Data total:") line) (strip_prefix (codes "Data processed:") line)
      (strip_prefix (codes "Data remaining:") line) j

unfoldable pub job_lines : List Text → JobInfo → JobInfo
job_lines [] j = j
job_lines (l ∷ ls) j = job_lines ls (job_line (trim l) j)

abbrev pub no_job : JobInfo
no_job = record { total = 0; processed = 0; remaining = 0 }

unfoldable pub job_info : Text → JobInfo
job_info out = job_lines (lines out) no_job

-- A `u64` read as an `i64`.
unfoldable pub as_i64 : ℕ → ℤ
as_i64 n = if ltb n (2 ^ 63) then pos n else negsuc (2 ^ 64 - 1 - n)

-- The percentage: the product is one of 64 bits.
unfoldable pub progress : JobInfo → ℤ
progress j = if ltb 0 j.total then as_i64 (j.processed * 100 % 2 ^ 64 / j.total) else pos 0

-- The migration that `tokio::spawn` is given.
unfoldable pub start_migration : {W : Type 0} → Text → Text → Vms W → Vms W
start_migration vm_id dst s = record s {
  tasks = s.tasks ++ migration (name_of vm_id s.registry) dst ∷ [];
}

module _ {V W : Type 0} (json : Json V) (lib : Libvirt W) where
  unfoldable pub dst_field : Option V → Option V → Option V → Option V
  dst_field (some a) b c = some a
  dst_field none (some b) c = some b
  dst_field none none c = c

  unfoldable pub text_or_missing : Option Text → Verb V (Vms W) Text
  text_or_missing none = throw (invalid_params (codes "dst (destination host) required"))
  text_or_missing (some s) = return s

  unfoldable pub str_of : Option V → Option Text
  str_of none = none
  str_of (some v) = json.as_str v

  -- The destination's name.
  unfoldable pub dst_of : V → Verb V (Vms W) Text
  unfolding dst_field text_or_missing str_of
  dst_of params = text_or_missing (
      str_of (
        dst_field (json.field (codes "dst") params) (json.field (codes "hostname") params)
          (json.field (codes "dstHost") params)))

  status_done : Text → V
  status_done text =
      json.object ((codes "code", json.integer (pos 0)) ∷ (codes "message", json.string text) ∷ [])

  migrate_answer : V
  migrate_answer = json.object (
      (codes "status", status_done (codes "Migration started"))
      ∷ (codes "progress", json.integer (pos 0))
      ∷ [])

  -- `vm_migrate`
  unfoldable pub vm_migrate : V → Verb V (Vms W) V
  unfolding migrate_answer status_done
  vm_migrate params = do
    vm_id ← vm_id_from json params
    dst ← dst_of params
    spawned ← effect (start_migration vm_id dst)
    return migrate_answer

  create_answer : V
  create_answer =
      json.object (
        (codes "migrationPort", json.integer (pos 49152))
        ∷ (codes "params", empty_object json)
        ∷ [])

  -- `vm_migration_create`
  unfoldable pub vm_migration_create : V → Verb V (Vms W) V
  unfolding create_answer
  vm_migration_create params = do
    vm_id ← vm_id_from json params
    entered ← effect (enter lib vm_id (from_vm_params json vm_id params) wait_for_launch)
    return create_answer

  abort_job : Text → Vms W → Vms W
  abort_job vm_id s = virsh_ignored lib (codes "domjobabort" ∷ name_of vm_id s.registry ∷ []) s

  -- `vm_migration_cancel`
  unfoldable pub vm_migration_cancel : V → Verb V (Vms W) V
  unfolding abort_job
  vm_migration_cancel = by_id json lib abort_job

  or_nothing : Result Text Text → Text
  or_nothing (ok out) = out
  or_nothing (err e) = []

  -- `run_virsh(&["domjobinfo", &name], None).await.unwrap_or_default()`, read.
  unfoldable pub ask_job : Text → Verb V (Vms W) JobInfo
  unfolding or_nothing
  ask_job vm_id s =
      let (r, s') = virsh lib (codes "domjobinfo" ∷ name_of vm_id s.registry ∷ []) none s in
      (ok (job_info (or_nothing r)), s')

  status_answer : JobInfo → V
  status_answer j = json.object (
      (codes "status", status_done (codes "Done"))
      ∷ (codes "progress", json.integer (progress j))
      ∷ (codes "downtime", json.integer (pos 0))
      ∷ (codes "dataTotal", json.string (to_string j.total))
      ∷ (codes "dataProcessed", json.string (to_string j.processed))
      ∷ (codes "dataRemaining", json.string (to_string j.remaining))
      ∷ [])

  -- `vm_migrate_status`
  unfoldable pub vm_migrate_status : V → Verb V (Vms W) V
  unfolding status_answer status_done
  vm_migrate_status params = do
    vm_id ← vm_id_from json params
    job ← ask_job vm_id
    return (status_answer job)

-- `vm_migrate_change_params` and `vm_update_device`
unfoldable pub vm_nothing : {V S : Type 0} → Json V → V → Verb V S V
vm_nothing json params = return (empty_object json)
