-- ===== src/Vm/Keyed.antt =====
-- crates/vdsm-virt/src: each record is filed under the id that it carries.
use vdsm_rs.Base.{
  inl, inr, ◌≡◌, refl, Bool, true, false, List, [], ◌∷◌, All, Text, codes, text_eq, Result, ok, err,
  Bool-cases, is_empty, ◌||◌,
}
use vdsm_rs.Encoding.TextMap
use vdsm_rs.Encoding.TextMap.{TextMap}
use vdsm_rs.Encoding.Trim.{trim}
use vdsm_rs.Storage.{Json}
use vdsm_rs.Vm.Migration.{start_migration}
use vdsm_rs.Vm.Reconcile.{
  reconcile_from_libvirt, add_all, add_missing, add_found, add_keyed, add_named, reconcile_listed,
  is_known, retain_listed, lists_name, names_of,
}
use vdsm_rs.Vm.Keeps.{IsKept, call-Keeps}
use vdsm_rs.Vm.Steps.{Step, Reach, calls, fires, here, step}
use vdsm_rs.Vm.Verbs.{
  destroy, shutdown, enter, command_then, run_watchdog, run_migration, run_task, force_off,
}
use vdsm_rs.Vm.Virsh.{Libvirt, virsh, virsh_ignored, set_state}
use vdsm_rs.Vm.DomainXml.{DomainSpec}
use vdsm_rs.Vm.{down, powering_down, VmRecord, VmState, Task, Vms, watchdog, migration}

abbrev pub IsKeyed : TextMap VmRecord → Type 0
IsKeyed = All (λ e. e.1.vm_id ≡ e.0)

insert-IsKeyed :
    (id : Text) (r : VmRecord) (m : TextMap VmRecord)
    → r.vm_id ≡ id
    → IsKeyed m
    → IsKeyed (TextMap.insert id r m)
unfolding TextMap.insert
insert-IsKeyed id r [] e h = (e, tt)
insert-IsKeyed id r ((j, w) ∷ m) e h = elim (Bool-cases (text_eq j id)) [
  | inl q ↦ rw q (e, h.1)
  | inr q ↦ rw q (h.0, insert-IsKeyed id r m e h.1)
]

remove-IsKeyed : (id : Text) (m : TextMap VmRecord) → IsKeyed m → IsKeyed (TextMap.remove id m)
unfolding TextMap.remove
remove-IsKeyed id [] h = tt
remove-IsKeyed id ((j, w) ∷ m) h = elim (Bool-cases (text_eq j id)) [
  | inl q ↦ rw q (remove-IsKeyed id m h.1)
  | inr q ↦ rw q (h.0, remove-IsKeyed id m h.1)
]

set_state-IsKeyed :
    (id : Text) (st : VmState) (m : TextMap VmRecord) → IsKeyed m → IsKeyed (set_state id st m)
unfolding set_state
set_state-IsKeyed id st [] h = tt
set_state-IsKeyed id st ((j, w) ∷ m) h = elim (Bool-cases (text_eq j id)) [
  | inl q ↦ rw q (h.0, h.1)
  | inr q ↦ rw q (h.0, set_state-IsKeyed id st m h.1)
]

retain_listed-IsKeyed :
    (names : List Text) (m : TextMap VmRecord) → IsKeyed m → IsKeyed (retain_listed names m)
unfolding retain_listed
retain_listed-IsKeyed names [] h = tt
retain_listed-IsKeyed names ((j, w) ∷ m) h = elim (Bool-cases (lists_name names w.vm_name)) [
  | inl q ↦ rw q (h.0, retain_listed-IsKeyed names m h.1)
  | inr q ↦ rw q (retain_listed-IsKeyed names m h.1)
]

module _ {W : Type 0} (lib : Libvirt W) where
  enter-IsKeyed :
      (id : Text) (d : DomainSpec) (st : VmState) (s : Vms W)
      → IsKeyed s.registry
      → IsKeyed (enter lib id d st s).registry
  unfolding enter
  enter-IsKeyed id d st s h = insert-IsKeyed id _ s.registry refl h

  destroy-IsKeyed :
      (id : Text) (s : Vms W) → IsKeyed s.registry → IsKeyed (destroy lib id s).registry
  unfolding destroy virsh_ignored virsh
  destroy-IsKeyed id s h = remove-IsKeyed id s.registry h

  command_then-IsKeyed :
      (cmd : Text) (st : VmState) (id : Text) (s : Vms W)
      → IsKeyed s.registry
      → IsKeyed (command_then lib cmd st id s).registry
  unfolding command_then virsh_ignored virsh
  command_then-IsKeyed cmd st id s h = set_state-IsKeyed id st s.registry h

  shutdown-IsKeyed :
      (id : Text) (s : Vms W) → IsKeyed s.registry → IsKeyed (shutdown lib id s).registry
  unfolding shutdown
  shutdown-IsKeyed id s h = command_then-IsKeyed (codes "shutdown") powering_down id s h

  force_off-IsKeyed :
      (id name : Text) (b : Bool) (s : Vms W)
      → IsKeyed s.registry
      → IsKeyed (force_off lib id name b s).registry
  unfolding force_off virsh_ignored virsh
  force_off-IsKeyed id name false s h = h
  force_off-IsKeyed id name true s h = set_state-IsKeyed id down s.registry h

  run_task-IsKeyed :
      (t : Task) (s : Vms W) → IsKeyed s.registry → IsKeyed (run_task lib t s).registry
  unfolding run_task run_watchdog run_migration virsh virsh_ignored
  run_task-IsKeyed (watchdog id name) s h = force_off-IsKeyed id name _ _ h
  run_task-IsKeyed (migration name dst) s h = h

  add_keyed-IsKeyed :
      (id name : Text) (s : Vms W) → IsKeyed s.registry → IsKeyed (add_keyed lib id name s).registry
  unfolding add_keyed add_found virsh
  add_keyed-IsKeyed id name s h =
      elim (Bool-cases (is_empty id || is_known lib (TextMap.get id s.registry))) [
        | inl q ↦ rw q h
        | inr q ↦ rw q (insert-IsKeyed id _ s.registry refl h)
      ]

  add_named-IsKeyed :
      (name : Text) (r : Result Text Text) (s : Vms W)
      → IsKeyed s.registry
      → IsKeyed (add_named lib name r s).registry
  unfolding add_named
  add_named-IsKeyed name (err e) s h = h
  add_named-IsKeyed name (ok out) s h = add_keyed-IsKeyed (trim out) name s h

  add_all-IsKeyed :
      (names : List Text) (s : Vms W) → IsKeyed s.registry → IsKeyed (add_all lib names s).registry
  unfolding add_all add_missing virsh
  add_all-IsKeyed [] s h = h
  add_all-IsKeyed (n ∷ ns) s h = add_all-IsKeyed ns _ (add_named-IsKeyed n _ _ h)

  reconcile_listed-IsKeyed :
      (r : Result Text Text) (s : Vms W)
      → IsKeyed s.registry
      → IsKeyed (reconcile_listed lib r s).registry
  unfolding reconcile_listed
  reconcile_listed-IsKeyed (err e) s h = h
  reconcile_listed-IsKeyed (ok out) s h =
      add_all-IsKeyed (names_of out) _ (retain_listed-IsKeyed (names_of out) s.registry h)

  reconcile-IsKeyed :
      (s : Vms W) → IsKeyed s.registry → IsKeyed (reconcile_from_libvirt lib s).registry
  unfolding reconcile_from_libvirt virsh
  reconcile-IsKeyed s h = reconcile_listed-IsKeyed _ _ h

  -- Each change of the state keeps the registry keyed.
  IsKeyed-IsKept : IsKept lib (λ s. IsKeyed s.registry)
  unfolding virsh start_migration
  IsKeyed-IsKept = record {
    at_virsh = λ args input s h. h;
    at_enter = enter-IsKeyed;
    at_destroy = destroy-IsKeyed;
    at_command = command_then-IsKeyed;
    at_shutdown = shutdown-IsKeyed;
    at_migration = λ id dst s h. h;
    at_reconcile = reconcile-IsKeyed;
  }

module _ {V W : Type 0} (json : Json V) (lib : Libvirt W) where
  Step-IsKeyed :
      (values : TextMap VmRecord → List VmRecord) (s u : Vms W)
      → Step json lib values s u
      → IsKeyed s.registry
      → IsKeyed u.registry
  Step-IsKeyed values s u (calls v params) h =
      (call-Keeps json lib (IsKeyed-IsKept lib) values v params).keeps s h
  Step-IsKeyed values s u (fires before t after e) h = run_task-IsKeyed lib t _ h

  -- Whatever verbs are called and whatever tasks run, in any order, from an empty registry: each record
  -- stays filed under the id that it carries.
  pub reachable-IsKeyed :
      (values : TextMap VmRecord → List VmRecord) (tasks : List Task) (w : W) (u : Vms W)
      → Reach json lib values (record { registry = []; tasks = tasks; world = w }) u
      → IsKeyed u.registry
  reachable-IsKeyed values tasks w u here = tt
  reachable-IsKeyed values tasks w u (step {u = v} r e) =
      Step-IsKeyed values v u e (reachable-IsKeyed values tasks w v r)
