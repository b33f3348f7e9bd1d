-- ===== src/Vm/Watchdog.antt =====
-- crates/vdsm-virt/src/verbs.rs: `vm_shutdown` and its watchdog, with the verbs that are called in between.
use vdsm_rs.Base.{
  ◌≡◌, refl, sym, ◌∙◌, ap, Bool, true, false, none, some, List, [], ◌∷◌, ◌++◌, append-nil,
  append_assoc, arith, inl, inr, Bool-cases, Text, codes, Result, ok, err, is_empty, ◌||◌,
}
use vdsm_rs.Encoding.Affix.{eq_ignore_ascii_case}
use vdsm_rs.Encoding.TextMap
use vdsm_rs.Encoding.TextMap.{TextMap}
use vdsm_rs.Encoding.Trim.{trim}
use vdsm_rs.Storage.{Json, str_param}
use vdsm_rs.Vm.Keeps.{IsKept, call-Keeps}
use vdsm_rs.Vm.Migration.{start_migration}
use vdsm_rs.Vm.Reconcile.{
  reconcile_from_libvirt, reconcile_listed, add_all, add_missing, add_named, add_keyed, add_found,
  is_known, names_of,
}
use vdsm_rs.Vm.Steps.{VmMethod, call, call_all, called}
use vdsm_rs.Vm.Verbs.{
  destroy, shutdown, enter, command_then, vm_shutdown, by_id, run_task, run_watchdog, force_off,
  is_running,
}
use vdsm_rs.Vm.Virsh.{
  Libvirt, run_virsh, virsh, virsh_ignored, vm_id_from, id_or_missing, name_of, set_state,
}
use vdsm_rs.Vm.{VmRecord, VmState, Task, Vms, watchdog, down}

-- The tasks that wait are these ones and, it may be, more behind them.
abbrev HasTasks : {W : Type 0} → List Task → Vms W → Type 0
HasTasks base s = (more : List Task) × (s.tasks ≡ base ++ more)

module _ {W : Type 0} (lib : Libvirt W) (base : List Task) where
  append-HasTasks :
      (t : Task) (ts : List Task)
      → (more : List Task) × (ts ≡ base ++ more)
      → (more : List Task) × (ts ++ t ∷ [] ≡ base ++ more)
  append-HasTasks t ts (more, e) = (more ++ t ∷ [], rw e (append_assoc base more (t ∷ [])))

  add_keyed-HasTasks :
      (id name : Text) (s : Vms W) → HasTasks base s → HasTasks base (add_keyed lib id name s)
  unfolding add_keyed add_found virsh
  add_keyed-HasTasks id name s h =
      elim (Bool-cases (is_empty id || is_known lib (TextMap.get id s.registry))) [
        | inl q ↦ rw q h
        | inr q ↦ rw q h
      ]

  add_named-HasTasks :
      (name : Text) (r : Result Text Text) (s : Vms W)
      → HasTasks base s
      → HasTasks base (add_named lib name r s)
  unfolding add_named
  add_named-HasTasks name (err e) s h = h
  add_named-HasTasks name (ok out) s h = add_keyed-HasTasks (trim out) name s h

  add_all-HasTasks :
      (names : List Text) (s : Vms W) → HasTasks base s → HasTasks base (add_all lib names s)
  unfolding add_all add_missing virsh
  add_all-HasTasks [] s h = h
  add_all-HasTasks (n ∷ ns) s h = add_all-HasTasks ns _ (add_named-HasTasks n _ _ h)

  reconcile_listed-HasTasks :
      (r : Result Text Text) (s : Vms W)
      → HasTasks base s
      → HasTasks base (reconcile_listed lib r s)
  unfolding reconcile_listed
  reconcile_listed-HasTasks (err e) s h = h
  reconcile_listed-HasTasks (ok out) s h = add_all-HasTasks (names_of out) _ h

  -- No verb takes a task away.
  HasTasks-IsKept : IsKept lib (HasTasks base)
  unfolding virsh virsh_ignored enter destroy shutdown command_then start_migration
      reconcile_from_libvirt
  HasTasks-IsKept = record {
    at_virsh = λ args input s h. h;
    at_enter = λ id d st s h. h;
    at_destroy = λ id s h. h;
    at_command = λ cmd st id s h. h;
    at_shutdown = λ id s h. append-HasTasks _ s.tasks h;
    at_migration = λ id dst s h. append-HasTasks _ s.tasks h;
    at_reconcile = λ s h. reconcile_listed-HasTasks _ _ h;
  }

module _ {V W : Type 0} (json : Json V) (lib : Libvirt W)
    (values : TextMap VmRecord → List VmRecord) where
  call_all-HasTasks :
      (base : List Task) (vs : List (VmMethod × V)) (s : Vms W)
      → HasTasks base s
      → HasTasks base (call_all json lib values vs s)
  unfolding call_all
  call_all-HasTasks base [] s h = h
  call_all-HasTasks base ((v, params) ∷ vs) s h =
      call_all-HasTasks base vs _
        ((call-Keeps json lib (HasTasks-IsKept lib base) values v params).keeps s h)

  by_id-some :
      (act : Text → Vms W → Vms W) (params : V) (id : Text) (s : Vms W)
      → str_param json (codes "vmID") params ≡ some id
      → (by_id json lib act params s).1 ≡ act id s
  unfolding by_id vm_id_from id_or_missing
  by_id-some act params id s h = rw h refl

  shutdown-tasks :
      (params : V) (id : Text) (s : Vms W)
      → str_param json (codes "vmID") params ≡ some id
      → (called json lib values VmMethod.shutdown params s).tasks
        ≡ s.tasks ++ watchdog id (name_of id s.registry) ∷ []
  unfolding call vm_shutdown shutdown command_then virsh_ignored virsh
  shutdown-tasks params id s h =
      ap (λ (u : Vms W). u.tasks) (by_id-some (shutdown lib) params id s h)

-- What libvirt promises of a domain's name: the state that it prints is the domain's, to ask changes
-- nothing, and a domain that is destroyed does not run.
pub record Truthful {W : Type 0} (lib : Libvirt W) (runs : Text → W → Bool) : Type 0 where
  pub asks :
      (n : Text) (w : W) → runs n (run_virsh lib (codes "domstate" ∷ n ∷ []) none w).1 ≡ runs n w
  pub prints :
      (n : Text) (w : W)
      → runs n w ≡ true
      → (out : Text) × ((run_virsh lib (codes "domstate" ∷ n ∷ []) none w).0 ≡ ok out)
        × (eq_ignore_ascii_case (trim out) (codes "running") ≡ true)
  pub stops :
      (n : Text) (w : W) → runs n (run_virsh lib (codes "destroy" ∷ n ∷ []) none w).1 ≡ false

get-set_state :
    (id : Text) (st : VmState) (m : TextMap VmRecord) (r : VmRecord)
    → TextMap.get id m ≡ some r
    → TextMap.get id (set_state id st m) ≡ some (record r { state = st })
unfolding TextMap.get set_state
get-set_state id st [] r h = cc
get-set_state id st ((j, w) ∷ m) r h = ground (arith, get-set_state id st m r)

module _ {W : Type 0} (lib : Libvirt W) (runs : Text → W → Bool) (t : Truthful lib runs) where
  force_off-stops :
      (id name : Text) (b : Bool) (s : Vms W)
      → (b ≡ false → runs name s.world ≡ false)
      → runs name (force_off lib id name b s).world ≡ false
  unfolding force_off virsh_ignored virsh
  force_off-stops id name false s h = h refl
  force_off-stops id name true s h = t.stops name s.world

  not_running :
      (name : Text) (w : W)
      → is_running lib (run_virsh lib (codes "domstate" ∷ name ∷ []) none w).0 ≡ false
      → runs name w ≡ false
  unfolding is_running
  not_running name w h = elim (Bool-cases (runs name w)) [
    | inr q ↦ q
    | inl q ↦ (let (out, e, p) = t.prints name w q in cc)
  ]

  watchdog-stops :
      (id name : Text) (s : Vms W) → runs name (run_task lib (watchdog id name) s).world ≡ false
  unfolding run_task run_watchdog virsh
  watchdog-stops id name s =
      force_off-stops id name _ _ (λ e. t.asks name s.world ∙ not_running name s.world e)

  watchdog-downs :
      (id name : Text) (s : Vms W) (r : VmRecord)
      → runs name s.world ≡ true
      → TextMap.get id s.registry ≡ some r
      → TextMap.get id (run_task lib (watchdog id name) s).registry
        ≡ some (record r { state = down })
  unfolding run_task run_watchdog virsh force_off virsh_ignored is_running
  watchdog-downs id name s r run h =
      let (out, e, p) = t.prints name s.world run in
      rw (e, run_watchdog) (rw p (get-set_state id down s.registry r h))

  -- A shutdown ends, for a libvirt that prints its domains' states truthfully and whose destroy stops a
  -- domain. Whatever verbs are called after a shutdown with an id, its watchdog still waits, and when it
  -- has run, the domain that had the machine's name does not run. If a domain of this name was running
  -- and the id was registered at that time, the record is given the state Down, of whatever state it was,
  -- also where the machine had been destroyed and made again.
  pub shutdown_ends :
      {V : Type 0} (json : Json V) (values : TextMap VmRecord → List VmRecord) (params : V)
      (id : Text) (s : Vms W) (vs : List (VmMethod × V))
      → str_param json (codes "vmID") params ≡ some id
      → let u = call_all json lib values vs (called json lib values VmMethod.shutdown params s) in
        let name = name_of id s.registry in
        (before : List Task) × (after : List Task) × (u.tasks ≡ before ++ watchdog id name ∷ after)
        × (let fired = run_task lib (watchdog id name) (record u { tasks = before ++ after }) in
            (runs name fired.world ≡ false)
            × ((r : VmRecord)
                → runs name u.world ≡ true
                → TextMap.get id u.registry ≡ some r
                → TextMap.get id fired.registry ≡ some (record r { state = down })))
  shutdown_ends json values params id s vs h =
      let t : Task = watchdog id (name_of id s.registry) in
      let first = called json lib values VmMethod.shutdown params s in
      let start : HasTasks (s.tasks ++ t ∷ []) first =
        ([], shutdown-tasks json lib values params id s h ∙ sym (append-nil (s.tasks ++ t ∷ []))) in
      let (more, e) = call_all-HasTasks json lib values (s.tasks ++ t ∷ []) vs first start in
      (
        s.tasks,
        more,
        e ∙ append_assoc s.tasks (t ∷ []) more,
        (watchdog-stops id _ _, (λ r run g. watchdog-downs id _ _ r run g)),
      )
