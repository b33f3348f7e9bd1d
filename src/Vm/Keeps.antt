-- ===== src/Vm/Keeps.antt =====
-- crates/vdsm-virt/src: what every verb keeps, if the changes that verbs are made of keep it.
use vdsm_rs.Base.{ℕ, List, [], ◌∷◌, Option, none, some, Text, codes, Result, ok, err}
use vdsm_rs.Encoding.TextMap.{TextMap}
use vdsm_rs.Rpc.Protocol.{JsonRpcError}
use vdsm_rs.Storage.{Json, Verb, and_then, ◌>>=◌, return, effect}
use vdsm_rs.Vm.DomainXml.{DomainSpec}
use vdsm_rs.Vm.Migration.{
  vm_migrate, vm_migration_create, vm_migration_cancel, vm_migrate_status, vm_nothing, dst_of,
  text_or_missing, start_migration, ask_job,
}
use vdsm_rs.Vm.Reconcile.{get_all_vm_stats, reconcile_from_libvirt}
use vdsm_rs.Vm.Steps.{
  VmMethod, create, get_stats, get_all_stats, migrate, migration_create, migration_cancel,
  migrate_status, update_device, cont, pause, dump, call,
}
use vdsm_rs.Vm.Verbs.{
  destroy, shutdown, enter, command_then, must, by_id, fail_as, dump_all, dump_ids, vm_create,
  vm_destroy, vm_shutdown, vm_cont, vm_pause, vm_get_stats, set_ticket, vm_set_ticket, dump_xmls,
}
use vdsm_rs.Vm.Virsh.{Libvirt, virsh, virsh_ignored, vm_id_from}
use vdsm_rs.Vm.{up, paused, wait_for_launch, VmRecord, VmState, Vms}

-- What the changes of the state keep: the calls of virsh, and those of the registry and the tasks.
pub record IsKept {W : Type 0} (lib : Libvirt W) (P : Vms W → Type 0) : Type 0 where
  pub at_virsh :
      (args : List Text) (input : Option Text) (s : Vms W) → P s → P (virsh lib args input s).1
  pub at_enter :
      (id : Text) (d : DomainSpec) (st : VmState) (s : Vms W) → P s → P (enter lib id d st s)
  pub at_destroy : (id : Text) (s : Vms W) → P s → P (destroy lib id s)
  pub at_command :
      (cmd : Text) (st : VmState) (id : Text) (s : Vms W) → P s → P (command_then lib cmd st id s)
  pub at_shutdown : (id : Text) (s : Vms W) → P s → P (shutdown lib id s)
  pub at_migration : (id dst : Text) (s : Vms W) → P s → P (start_migration id dst s)
  pub at_reconcile : (s : Vms W) → P s → P (reconcile_from_libvirt lib s)

-- A verb, or a part of one, that keeps a predicate.
pub record Keeps {V W A : Type 0} (P : Vms W → Type 0) (m : Verb V (Vms W) A) : Type 0 where
  pub keeps : (s : Vms W) → P s → P (m s).1

module _ {V W : Type 0} {P : Vms W → Type 0} where
  and_then-Keeps :
      {A B : Type 0} (f : A → Verb V (Vms W) B) (p : Result (JsonRpcError V) A × Vms W)
      → ((a : A) → Keeps P (f a))
      → P p.1
      → P (and_then p f).1
  and_then-Keeps f (ok a, w) k h = (k a).keeps w h
  and_then-Keeps f (err e, w) k h = h

  bind-Keeps :
      {A B : Type 0} {m : Verb V (Vms W) A} {f : A → Verb V (Vms W) B}
      → Keeps P m
      → ((a : A) → Keeps P (f a))
      → Keeps P (m >>= f)
  bind-Keeps {m = m} {f = f} h k = record { keeps = λ s e. and_then-Keeps f (m s) k (h.keeps s e) }

  -- The same behind a step whose result is not used.
  then-Keeps :
      {B : Type 0} {m : Verb V (Vms W) Unit} {n : Verb V (Vms W) B}
      → Keeps P m
      → Keeps P n
      → Keeps P (m >>= (λ u. n))
  then-Keeps h k = bind-Keeps h (λ u. k)

  return-Keeps : {A : Type 0} (a : A) → Keeps P (return {V = V} {W = Vms W} a)
  return-Keeps a = record { keeps = λ s e. e }

  effect-Keeps :
      (act : Vms W → Vms W)
      → ((s : Vms W) → P s → P (act s))
      → Keeps P (effect {V = V} {W = Vms W} act)
  effect-Keeps act h = record { keeps = h }

module _ {V W : Type 0} (json : Json V) (lib : Libvirt W) {P : Vms W → Type 0}
    (k : IsKept lib P) where
  id-Keeps : (params : V) → Keeps P (vm_id_from json params)
  unfolding vm_id_from
  id-Keeps params = record { keeps = λ s e. e }

  by_id-Keeps :
      (act : Text → Vms W → Vms W) (params : V)
      → ((id : Text) (s : Vms W) → P s → P (act id s))
      → Keeps P (by_id json lib act params)
  unfolding by_id
  by_id-Keeps act params e =
      bind-Keeps (id-Keeps params)
        (λ id. then-Keeps (effect-Keeps (act id) (e id)) (return-Keeps _))

  fail_as-Keeps :
      (what : Text) (r : Result Text Text) (w : Vms W) → P w → P (fail_as json lib what r w).1
  unfolding fail_as
  fail_as-Keeps what (ok out) w h = h
  fail_as-Keeps what (err e) w h = h

  must-Keeps :
      (what : Text) (args : List Text) (input : Option Text)
      → Keeps P (must json lib what args input)
  unfolding must
  must-Keeps what args input = record {
    keeps = λ s h. fail_as-Keeps what (virsh lib args input s).0 _ (k.at_virsh args input s h);
  }

  enter-Keeps :
      (id : Text) (d : DomainSpec) (st : VmState) → Keeps {V = V} P (effect (enter lib id d st))
  enter-Keeps id d st = record { keeps = k.at_enter id d st }

  vm_create-Keeps : (params : V) → Keeps P (vm_create json lib params)
  unfolding vm_create
  vm_create-Keeps params = bind-Keeps (id-Keeps params) (λ id.
      then-Keeps (must-Keeps _ _ _)
        (then-Keeps (must-Keeps _ _ _) (then-Keeps (enter-Keeps id _ up) (return-Keeps _))))

  vm_migration_create-Keeps : (params : V) → Keeps P (vm_migration_create json lib params)
  unfolding vm_migration_create
  vm_migration_create-Keeps params =
      bind-Keeps (id-Keeps params)
        (λ id. then-Keeps (enter-Keeps id _ wait_for_launch) (return-Keeps _))

  text_or_missing-Keeps : (t : Option Text) (s : Vms W) → P s → P (text_or_missing json lib t s).1
  unfolding text_or_missing
  text_or_missing-Keeps none s h = h
  text_or_missing-Keeps (some t) s h = h

  dst_of-Keeps : (params : V) → Keeps P (dst_of json lib params)
  unfolding dst_of
  dst_of-Keeps params = record { keeps = text_or_missing-Keeps _ }

  vm_migrate-Keeps : (params : V) → Keeps P (vm_migrate json lib params)
  unfolding vm_migrate
  vm_migrate-Keeps params = bind-Keeps (id-Keeps params) (λ id.
      bind-Keeps (dst_of-Keeps params)
        (λ dst. then-Keeps (effect-Keeps _ (k.at_migration id dst)) (return-Keeps _)))

  dump_all-Keeps :
      (ids : List Text) (out : TextMap V) (s : Vms W) → P s → P (dump_all json lib ids out s).1
  unfolding dump_all
  dump_all-Keeps [] out s h = h
  dump_all-Keeps (id ∷ ids) out s h = dump_all-Keeps ids _ _ (k.at_virsh _ none s h)

  set_ticket-Keeps :
      (password : Text) (ttl : ℕ) (id : Text) (s : Vms W)
      → P s
      → P (set_ticket json lib password ttl id s)
  unfolding set_ticket virsh_ignored
  set_ticket-Keeps password ttl id s h = k.at_virsh _ none _ (k.at_virsh _ none s h)

  pub call-Keeps :
      (values : TextMap VmRecord → List VmRecord) (v : VmMethod) (params : V)
      → Keeps P (call json lib values v params)
  unfolding call vm_get_stats vm_migrate_status ask_job dump_xmls get_all_vm_stats vm_nothing
      vm_destroy vm_shutdown vm_cont vm_pause vm_set_ticket vm_migration_cancel virsh_ignored
  call-Keeps values create params = vm_create-Keeps params
  call-Keeps values VmMethod.destroy params = by_id-Keeps _ params k.at_destroy
  call-Keeps values VmMethod.shutdown params = by_id-Keeps _ params k.at_shutdown
  call-Keeps values cont params = by_id-Keeps _ params (k.at_command (codes "resume") up)
  call-Keeps values pause params = by_id-Keeps _ params (k.at_command (codes "suspend") paused)
  call-Keeps values get_stats params =
      bind-Keeps (id-Keeps params) (λ id. record { keeps = λ s h. h })
  call-Keeps values get_all_stats params = record { keeps = k.at_reconcile }
  call-Keeps values VmMethod.set_ticket params = by_id-Keeps _ params (set_ticket-Keeps _ _)
  call-Keeps values dump params = record { keeps = dump_all-Keeps (dump_ids json lib params) [] }
  call-Keeps values migrate params = vm_migrate-Keeps params
  call-Keeps values migration_create params = vm_migration_create-Keeps params
  call-Keeps values migration_cancel params = by_id-Keeps _ params (λ id s h. k.at_virsh _ none s h)
  call-Keeps values migrate_status params =
      bind-Keeps (id-Keeps params) (λ id. record { keeps = λ s h. k.at_virsh _ none s h })
  call-Keeps values update_device params = record { keeps = λ s h. h }
