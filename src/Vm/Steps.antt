-- ===== src/Vm/Steps.antt =====
-- crates/vdsm-virt/src and the registrations of crates/vdsmd/src/main.rs: the verbs by their names, the
-- steps of the machines' state, and what is reachable. A verb or a task is one step: the waits inside
-- it are not interleaved with other verbs.
use vdsm_rs.Base.{◌≡◌, List, ◌∷◌, ◌++◌}
use vdsm_rs.Encoding.TextMap.{TextMap}
use vdsm_rs.Storage.{Json, Verb}
use vdsm_rs.Vm.Migration.{
  vm_migrate, vm_migration_create, vm_migration_cancel, vm_migrate_status, vm_nothing,
}
use vdsm_rs.Vm.Reconcile.{get_all_vm_stats}
use vdsm_rs.Vm.Verbs.{
  run_task, vm_create, vm_destroy, vm_shutdown, vm_cont, vm_pause, vm_get_stats, vm_set_ticket,
  dump_xmls,
}
use vdsm_rs.Vm.Virsh.{Libvirt}
use vdsm_rs.Vm.{VmRecord, Task, Vms}

-- The methods that the daemon registers for machines; the last one stands for those that do nothing.
pub data VmMethod : Type 0 where
  create destroy shutdown cont pause get_stats get_all_stats set_ticket dump : VmMethod
  migrate migration_create migration_cancel migrate_status update_device : VmMethod

module _ {V W : Type 0} (json : Json V) (lib : Libvirt W)
    (values : TextMap VmRecord → List VmRecord) where
  unfoldable pub call : VmMethod → V → Verb V (Vms W) V
  call create = vm_create json lib
  call destroy = vm_destroy json lib
  call shutdown = vm_shutdown json lib
  call cont = vm_cont json lib
  call pause = vm_pause json lib
  call get_stats = vm_get_stats json lib
  call get_all_stats = get_all_vm_stats json lib values
  call set_ticket = vm_set_ticket json lib
  call dump = dump_xmls json lib
  call migrate = vm_migrate json lib
  call migration_create = vm_migration_create json lib
  call migration_cancel = vm_migration_cancel json lib
  call migrate_status = vm_migrate_status json lib
  call update_device = vm_nothing json

  -- The state after a verb.
  abbrev pub called : VmMethod → V → Vms W → Vms W
  called v params s = (call v params s).1

  -- A verb is called, or a task that waits is run.
  pub data Step (s : Vms W) : Vms W → Type 0 where
    calls : (v : VmMethod) (params : V) → Step s (called v params s)
    fires :
        (before : List Task) (t : Task) (after : List Task)
        → s.tasks ≡ before ++ t ∷ after
        → Step s (run_task lib t (record s { tasks = before ++ after }))

  pub data Reach (s : Vms W) : Vms W → Type 0 where
    here : Reach s s
    step : {u w : Vms W} → Reach s u → Step u w → Reach s w

  -- Verbs only, one behind the other.
  unfoldable pub call_all : List (VmMethod × V) → Vms W → Vms W
  call_all List.[] s = s
  call_all ((v, params) ∷ vs) s = call_all vs (called v params s)
