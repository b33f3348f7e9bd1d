-- ===== src/Examples/Machines.antt =====
-- crates/vdsm-virt/src: verbs on a libvirt with one domain, which runs or does not.
use vdsm_rs.Base.{
  ℕ, ◌≡◌, ◌↔◌, refl, ◌≤◌, ◌<◌, Bool, true, false, List, [], ◌∷◌, ◌++◌, some, none, Text, codes,
  Result, ok, pos, text_eq, if◌then◌else◌, arith, All, flatten, map,
}
use vdsm_rs.Encoding.Affix.{eq_ignore_ascii_case}
use vdsm_rs.Encoding.TextMap
use vdsm_rs.Encoding.TextMap.{TextMap}
use vdsm_rs.Encoding.Trim.{trim}
use vdsm_rs.Storage.{Json, str_param}
use vdsm_rs.Supervdsm.Exec.{Output}
use vdsm_rs.Vm.Create.{EndsFor, vm_create_is_atomic}
use vdsm_rs.Vm.DomainXml.{xml_escape, from_vm_params}
use vdsm_rs.Vm.Escaping.{entity, IsPlain, unescape, xml_escape-unescape}
use vdsm_rs.Vm.Keyed.{IsKeyed, reachable-IsKeyed}
use vdsm_rs.Vm.Listed.{AreListed, reconcile_keeps_running}
use vdsm_rs.Vm.Migration.{JobInfo, progress}
use vdsm_rs.Vm.Progress.{progress_bounds}
use vdsm_rs.Vm.Reconcile.{names_of, lists_name, reconcile_from_libvirt}
use vdsm_rs.Vm.Steps.{VmMethod, here, step, calls, call_all, called, create}
use vdsm_rs.Vm.Verbs.{run_task, vm_create}
use vdsm_rs.Vm.Virsh.{Libvirt, RunError, run_virsh, name_of}
use vdsm_rs.Vm.Watchdog.{Truthful, shutdown_ends}
use vdsm_rs.Vm.{VmRecord, Vms, Task, watchdog, down}

abbrev printing : Text → Result RunError Output
printing text = ok (record { success = true; status = some (pos 0); out = text; error_out = [] })

-- virsh on the state of the only domain.
abbrev virsh_answer : List Text → Bool → Result RunError Output × Bool
virsh_answer (c ∷ uri ∷ command ∷ rest) runs =
    if text_eq command (codes "destroy")
    then (printing [], false)
    else if text_eq command (codes "start")
    then (printing [], true)
    else if text_eq command (codes "domstate")
    then (printing (if runs then codes "running\n\n" else codes "shut off\n\n"), runs)
    else if text_eq command (codes "list")
    then (printing (if runs then codes "a\n\n" else codes "\n"), runs)
    else (printing [], runs)
virsh_answer other runs = (printing [], runs)

abbrev one_domain : Libvirt Bool
one_domain = record {
  exec = λ bin args input runs. virsh_answer args runs;
  lossy = λ s. s;
  now = λ runs. 7;
}

abbrev with_id : Json Text
with_id = record {
  field = λ k v. if text_eq k (codes "vmID") then some v else none;
  as_str = λ v. some v;
  as_i64 = λ v. none;
  as_u64 = λ v. none;
  parse = λ s. none;
  boolean = λ b. [];
  keys = λ v. none;
  elements = λ v. none;
  string = λ s. s;
  integer = λ n. [];
  array = λ vs. [];
  object = λ es. codes "{}";
}

abbrev no_values : TextMap VmRecord → List VmRecord
no_values m = []

abbrev empty : Vms Bool
empty = record { registry = []; tasks = []; world = false }

reachable-IsKeyed_example :
    IsKeyed (called with_id one_domain no_values create (codes "a") empty).registry
reachable-IsKeyed_example =
    reachable-IsKeyed with_id one_domain no_values [] false
      (called with_id one_domain no_values create (codes "a") empty)
      (step here (calls create (codes "a")))

vm_create_is_atomic_example :
    EndsFor with_id one_domain empty
      (str_param with_id (codes "vmID") (codes "a"))
      (λ id. from_vm_params with_id id (codes "a"))
      (vm_create with_id one_domain (codes "a") empty)
vm_create_is_atomic_example = vm_create_is_atomic with_id one_domain (codes "a") empty

one_domain-Truthful : Truthful one_domain (λ n runs. runs)
unfolding run_virsh text_eq eq_ignore_ascii_case trim
one_domain-Truthful = record {
  asks = λ n w. refl;
  prints = λ n w h. (codes "running\n\n", rw h refl, refl);
  stops = λ n w. refl;
}

shutdown_ends_example :
    let s : Vms Bool = called with_id one_domain no_values create (codes "a") empty in
    let u =
      call_all with_id one_domain no_values
        ((VmMethod.destroy, codes "a") ∷ (create, codes "a") ∷ [])
        (called with_id one_domain no_values VmMethod.shutdown (codes "a") s) in
    let name = name_of (codes "a") s.registry in
    (before : List Task) × (after : List Task) × (u.tasks
      ≡ before ++ watchdog (codes "a") name ∷ after)
    × (let fired =
          run_task one_domain (watchdog (codes "a") name) (record u { tasks = before ++ after }) in
        (fired.world ≡ false)
        × ((r : VmRecord)
            → u.world ≡ true
            → TextMap.get (codes "a") u.registry ≡ some r
            → TextMap.get (codes "a") fired.registry ≡ some (record r { state = down })))
unfolding str_param text_eq
shutdown_ends_example =
    shutdown_ends one_domain (λ n runs. runs) one_domain-Truthful with_id no_values (codes "a")
      (codes "a") (called with_id one_domain no_values create (codes "a") empty)
      ((VmMethod.destroy, codes "a") ∷ (create, codes "a") ∷ []) refl

-- The machine is registered, and its domain does not run.
abbrev halted : Vms Bool
halted = record (called with_id one_domain no_values create (codes "a") empty) { world = false }

reconcile_keeps_running_example :
    AreListed (names_of (codes "\n")) (reconcile_from_libvirt one_domain halted).registry
    × ((id : Text) (r : VmRecord)
        → TextMap.get id halted.registry ≡ some r
        → (TextMap.get id (reconcile_from_libvirt one_domain halted).registry ≡ some r)
          ↔ (lists_name (names_of (codes "\n")) r.vm_name ≡ true))
unfolding run_virsh text_eq
reconcile_keeps_running_example = reconcile_keeps_running one_domain halted (codes "\n") refl

xml_escape-unescape_example :
    (xml_escape (codes "<&>") ≡ flatten (map entity (codes "<&>")))
    × All IsPlain (xml_escape (codes "<&>"))
    × (unescape 0 (xml_escape (codes "<&>")) ≡ codes "<&>")
xml_escape-unescape_example = xml_escape-unescape (codes "<&>")

abbrev half : JobInfo
half = record { total = 8; processed = 4; remaining = 4 }

progress_bounds_example :
    (n : ℕ) × (progress half ≡ pos n)
    × (n ≤ 100)
    × (half.total ≡ 0 → n ≡ 0)
    × (0 < half.total → (n ≡ 100) ↔ (half.processed ≡ half.total))
progress_bounds_example = progress_bounds half (omega arith) (omega arith)
