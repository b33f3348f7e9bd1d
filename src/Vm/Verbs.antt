-- ===== src/Vm/Verbs.antt =====
-- crates/vdsm-virt/src/verbs.rs: the verbs of a machine's life, and the watchdog of a shutdown. A verb
-- is one step on the state; the tasks that it spawns are steps of their own.
use vdsm_rs.Base.{
  ℕ, Bool, true, false, Option, none, some, List, [], ◌∷◌, ◌++◌, Text, codes, Result, ok, err,
}
use vdsm_rs.Encoding.Affix.{eq_ignore_ascii_case}
use vdsm_rs.Encoding.Decimal.{to_string, parse_usize}
use vdsm_rs.Encoding.TextMap
use vdsm_rs.Encoding.TextMap.{TextMap}
use vdsm_rs.Encoding.Trim.{trim}
use vdsm_rs.Rpc.Protocol.{internal}
use vdsm_rs.Storage.Pool.{texts_of}
use vdsm_rs.Storage.{Json, Verb, return, throw, ◌>>=◌, effect, ask, str_param, str_or, empty_object}
use vdsm_rs.Vm.DomainXml.{DomainSpec, from_vm_params, to_xml}
use vdsm_rs.Vm.Virsh.{
  Libvirt, virsh, virsh_ignored, vm_id_from, name_of, set_state, record_to_stats,
}
use vdsm_rs.Vm.{
  VmState, VmRecord, Task, Vms, up, down, paused, powering_down, watchdog, migration, as_engine_str,
}

-- What the registry holds of a machine that is made to a specification.
abbrev pub record_of : Text → DomainSpec → VmState → ℕ → VmRecord
record_of vm_id d st now = record {
  vm_id = vm_id;
  vm_name = d.name;
  mem_size_mb = d.mem_mb;
  vcpus = d.vcpus;
  state = st;
  created_secs = now;
}

module _ {W : Type 0} (lib : Libvirt W) where
  -- `registry().write().await.insert(…)`, at the time of the clock.
  unfoldable pub enter : Text → DomainSpec → VmState → Vms W → Vms W
  enter vm_id d st s = record s {
    registry = TextMap.insert vm_id (record_of vm_id d st (lib.now s.world)) s.registry;
  }

  -- A virsh command on a machine, and the state that its record is then given.
  unfoldable pub command_then : Text → VmState → Text → Vms W → Vms W
  command_then cmd st vm_id s =
      let s' = virsh_ignored lib (cmd ∷ name_of vm_id s.registry ∷ []) s in
      record s' { registry = set_state vm_id st s'.registry }

  unfoldable pub destroy : Text → Vms W → Vms W
  destroy vm_id s =
      let name = name_of vm_id s.registry in
      let s' =
        virsh_ignored lib (codes "undefine" ∷ name ∷ [])
          (virsh_ignored lib (codes "destroy" ∷ name ∷ []) s) in
      record s' { registry = TextMap.remove vm_id s'.registry }

  unfoldable pub shutdown : Text → Vms W → Vms W
  unfolding command_then
  shutdown vm_id s =
      let s' = command_then (codes "shutdown") powering_down vm_id s in
      record s' { tasks = s'.tasks ++ watchdog vm_id (name_of vm_id s.registry) ∷ [] }

  unfoldable pub is_running : Result Text Text → Bool
  is_running (err e) = false
  is_running (ok out) = eq_ignore_ascii_case (trim out) (codes "running")

  unfoldable pub force_off : Text → Text → Bool → Vms W → Vms W
  force_off vm_id name false s = s
  force_off vm_id name true s =
      let s' = virsh_ignored lib (codes "destroy" ∷ name ∷ []) s in
      record s' { registry = set_state vm_id down s'.registry }

  -- The watchdog when its thirty seconds are over.
  unfoldable pub run_watchdog : Text → Text → Vms W → Vms W
  unfolding is_running force_off
  run_watchdog vm_id name s =
      let (r, s') = virsh lib (codes "domstate" ∷ name ∷ []) none s in
      force_off vm_id name (is_running r) s'

  unfoldable pub run_migration : Text → Text → Vms W → Vms W
  run_migration name dst s =
      virsh_ignored lib
        (codes "migrate"
          ∷ codes "--live"
          ∷ codes "--persistent"
          ∷ codes "--undefinesource"
          ∷ codes "--verbose"
          ∷ codes "--auto-converge"
          ∷ name
          ∷ (codes "qemu+tls://" ++ (dst ++ codes "/system"))
          ∷ [])
        s

  -- What a spawned task does.
  unfoldable pub run_task : Task → Vms W → Vms W
  run_task (watchdog vm_id name) s = run_watchdog vm_id name s
  run_task (migration name dst) s = run_migration name dst s

-- The answer of `vm_create`.
unfoldable pub created_answer : {V : Type 0} → Json V → Text → V
created_answer json vm_id = json.object (
    (
      codes "vmList",
      json.object (
          (codes "vmId", json.string vm_id)
          ∷ (codes "status", json.string (as_engine_str up))
          ∷ []),
    )
    ∷ [])

module _ {V W : Type 0} (json : Json V) (lib : Libvirt W) where
  unfoldable pub fail_as : Text → Result Text Text → Verb V (Vms W) Unit
  fail_as what (ok out) = return tt
  fail_as what (err e) = throw (internal (what ++ (codes ": " ++ e)))

  -- A virsh command whose failure is the verb's.
  unfoldable pub must : Text → List Text → Option Text → Verb V (Vms W) Unit
  unfolding fail_as
  must what args input s = let (r, s') = virsh lib args input s in fail_as what r s'

  -- `vm_create`
  unfoldable pub vm_create : V → Verb V (Vms W) V
  vm_create params = do
    vm_id ← vm_id_from json params
    let d = from_vm_params json vm_id params
    defined ←
        must (codes "virsh define") (codes "define" ∷ codes "/dev/stdin" ∷ []) (some (to_xml d))
    started ← must (codes "virsh start") (codes "start" ∷ d.name ∷ []) none
    entered ← effect (enter lib vm_id d up)
    return (created_answer json vm_id)

  -- A verb that changes the state by the id of its machine, and answers `{}`.
  unfoldable pub by_id : (Text → Vms W → Vms W) → V → Verb V (Vms W) V
  by_id act params = do
    vm_id ← vm_id_from json params
    done ← effect (act vm_id)
    return (empty_object json)

  unfoldable pub vm_destroy : V → Verb V (Vms W) V
  vm_destroy = by_id (destroy lib)

  unfoldable pub vm_shutdown : V → Verb V (Vms W) V
  vm_shutdown = by_id (shutdown lib)

  unfoldable pub vm_cont : V → Verb V (Vms W) V
  vm_cont = by_id (command_then lib (codes "resume") up)

  unfoldable pub vm_pause : V → Verb V (Vms W) V
  vm_pause = by_id (command_then lib (codes "suspend") paused)

  stats_or_down : Text → ℕ → Option VmRecord → V
  stats_or_down vm_id now none =
      json.object
        ((codes "vmId", json.string vm_id) ∷ (codes "status", json.string (codes "Down")) ∷ [])
  stats_or_down vm_id now (some r) = record_to_stats json now r

  -- `vm_get_stats`
  unfoldable pub vm_get_stats : V → Verb V (Vms W) V
  unfolding stats_or_down
  vm_get_stats params = do
    vm_id ← vm_id_from json params
    reg ← ask (λ s. s.registry)
    now ← ask (λ s. lib.now s.world)
    return (
        json.object (
          (codes "statsList", json.array (stats_or_down vm_id now (TextMap.get vm_id reg) ∷ []))
          ∷ []))

  ttl_of : Option Text → ℕ
  ttl_of none = 120
  ttl_of (some s) = elim (parse_usize s) [ none ↦ 120 | some n ↦ n ]

  -- `virsh qemu-monitor-command <name> --hmp <text>`
  monitor : Text → Text → List Text
  monitor name text = codes "qemu-monitor-command" ∷ name ∷ codes "--hmp" ∷ text ∷ []

  -- The two monitor commands of `vm_set_ticket`.
  unfoldable pub set_ticket : Text → ℕ → Text → Vms W → Vms W
  unfolding monitor
  set_ticket password ttl vm_id s =
      let name = name_of vm_id s.registry in
      virsh_ignored lib (monitor name (codes "expire_password vnc +" ++ to_string ttl))
        (virsh_ignored lib (monitor name (codes "set_password vnc " ++ password)) s)

  -- `vm_set_ticket`
  unfoldable pub vm_set_ticket : V → Verb V (Vms W) V
  unfolding ttl_of
  vm_set_ticket params =
      by_id
        (set_ticket (str_or json [] (codes "password") params)
          (ttl_of (str_param json (codes "ttl") params)))
        params

  -- The machines whose description virsh prints.
  unfoldable pub dump_all : List Text → TextMap V → Vms W → TextMap V × Vms W
  dump_all [] out s = (out, s)
  dump_all (id ∷ ids) out s =
      let (r, s') = virsh lib (codes "dumpxml" ∷ id ∷ []) none s in
      dump_all ids (elim r [ ok xml ↦ TextMap.insert id (json.string xml) out | err e ↦ out ]) s'

  ids_of : Option V → List Text
  ids_of none = []
  ids_of (some v) = elim (json.elements v) [ none ↦ [] | some vs ↦ texts_of json vs ]

  either_field : Text → Text → V → Option V
  either_field a b params = elim (json.field a params) [
    | some v ↦ some v
    | none ↦ json.field b params
  ]

  -- The ids that `dump_xmls` is asked for.
  unfoldable pub dump_ids : V → List Text
  unfolding ids_of either_field
  dump_ids params = ids_of (either_field (codes "vmList") (codes "vmIds") params)

  -- `dump_xmls`
  unfoldable pub dump_xmls : V → Verb V (Vms W) V
  dump_xmls params s = let (out, s') = dump_all (dump_ids params) [] s in (ok (json.object out), s')
