-- ===== src/Vm/Create.antt =====
-- crates/vdsm-virt/src/verbs.rs: how `vm_create` can end.
use vdsm_rs.Base.{
  ◌≡◌, refl, ◌⊎◌, inl, inr, Option, none, some, [], ◌∷◌, ◌++◌, if◌then◌else◌, Text, text_eq, codes,
  Result, ok, err,
}
use vdsm_rs.Encoding.TextMap
use vdsm_rs.Rpc.Protocol.{JsonRpcError, invalid_params, internal}
use vdsm_rs.Storage.{Json, Verb, and_then, str_param}
use vdsm_rs.Vm.DomainXml.{DomainSpec, from_vm_params, to_xml}
use vdsm_rs.Vm.Verbs.{vm_create, must, fail_as, enter, record_of, created_answer}
use vdsm_rs.Vm.Virsh.{Libvirt, run_virsh, virsh, vm_id_from, id_or_missing}
use vdsm_rs.Vm.{Vms, up}

-- The two commands of a creation.
abbrev pub defines : {W : Type 0} → Libvirt W → DomainSpec → W → Result Text Text × W
defines lib d = run_virsh lib (codes "define" ∷ codes "/dev/stdin" ∷ []) (some (to_xml d))

abbrev pub starts : {W : Type 0} → Libvirt W → DomainSpec → W → Result Text Text × W
starts lib d = run_virsh lib (codes "start" ∷ d.name ∷ []) none

-- What a call of `vm_create` in the state `s` has done.
abbrev pub Outcome : Type 0 → Type 0 → Type 0
Outcome V W = Result (JsonRpcError V) V × Vms W

module _ {V W : Type 0} (json : Json V) (lib : Libvirt W) (s : Vms W) where
  -- Both commands succeeded, and the record is entered at the time behind them.
  abbrev pub IsEntered : Text → DomainSpec → Outcome V W → Type 0
  IsEntered id d p =
      (defined : Text) × (w : W) × (started : Text) × (u : W) × (defines lib d s.world
        ≡ (ok defined, w))
      × (starts lib d w ≡ (ok started, u))
      × (p.0 ≡ ok (created_answer json id))
      × (p.1.world ≡ u)
      × (p.1.tasks ≡ s.tasks)
      × ((j : Text)
          → TextMap.get j p.1.registry ≡ (
              if text_eq id j
              then some (record_of id d up (lib.now u))
              else TextMap.get j s.registry))

  -- The definition failed, and nothing else was run.
  abbrev pub IsUndefined : DomainSpec → Outcome V W → Type 0
  IsUndefined d p =
      (m : Text) × (w : W) × (defines lib d s.world ≡ (err m, w))
      × (p ≡ (err (internal (codes "virsh define: " ++ m)), record s { world = w }))

  -- The domain is defined, but did not start.
  abbrev pub IsUnstarted : DomainSpec → Outcome V W → Type 0
  IsUnstarted d p =
      (defined : Text) × (w : W) × (m : Text) × (u : W) × (defines lib d s.world ≡ (ok defined, w))
      × (starts lib d w ≡ (err m, u))
      × (p ≡ (err (internal (codes "virsh start: " ++ m)), record s { world = u }))

  abbrev pub Ends : Text → DomainSpec → Outcome V W → Type 0
  Ends id d p = IsEntered id d p ⊎ (IsUndefined d p ⊎ IsUnstarted d p)

  -- Without an id there is an error and no change.
  abbrev pub EndsFor : Option Text → (Text → DomainSpec) → Outcome V W → Type 0
  EndsFor none spec p = p ≡ (err (invalid_params (codes "vmID missing")), s)
  EndsFor (some id) spec p = Ends id (spec id) p

  created-IsEntered :
      (id : Text) (d : DomainSpec) (defined started : Text) (w u : W)
      → defines lib d s.world ≡ (ok defined, w)
      → starts lib d w ≡ (ok started, u)
      → IsEntered id d (ok (created_answer json id), enter lib id d up (record s { world = u }))
  unfolding enter
  created-IsEntered id d defined started w u e f =
      (defined, w, started, u, e, f, refl, refl, refl, (λ j. TextMap.get-insert id j _ s.registry))

  -- The rest of `vm_create` behind the result of the start, and behind that of the definition.
  started-Ends :
      (id : Text) (d : DomainSpec) (defined : Text) (w : W) (r : Result Text Text) (u : W)
      → defines lib d s.world ≡ (ok defined, w)
      → starts lib d w ≡ (r, u)
      → Ends id d (
          and_then
            (fail_as json lib (codes "virsh start") r (record s { world = u }))
            (λ started v. (ok (created_answer json id), enter lib id d up v)))
  unfolding fail_as
  started-Ends id d defined w (ok out) u e f = inl (created-IsEntered id d defined out w u e f)
  started-Ends id d defined w (err m) u e f = inr (inr (defined, w, m, u, e, f, refl))

  defined-Ends :
      (id : Text) (d : DomainSpec) (r : Result Text Text) (w : W)
      → defines lib d s.world ≡ (r, w)
      → Ends id d (
          and_then
            (fail_as json lib (codes "virsh define") r (record s { world = w }))
            (λ defined v.
              and_then
                (must json lib (codes "virsh start") (codes "start" ∷ d.name ∷ []) none v)
                (λ started v'. (ok (created_answer json id), enter lib id d up v'))))
  unfolding fail_as must virsh
  defined-Ends id d (ok out) w e = started-Ends id d out w _ _ e refl
  defined-Ends id d (err m) w e = inr (inl (m, w, e, refl))

  asked-EndsFor :
      (o : Option Text) (spec : Text → DomainSpec) (k : Text → Verb V (Vms W) V)
      → ((id : Text) → Ends id (spec id) (k id s))
      → EndsFor o spec (and_then (id_or_missing o, s) k)
  unfolding id_or_missing
  asked-EndsFor none spec k h = refl
  asked-EndsFor (some id) spec k h = h id

module _ {V W : Type 0} (json : Json V) (lib : Libvirt W) where
  -- Without an id in the parameters `vm_create` fails and changes nothing. With one, either virsh has
  -- defined the specification and started its domain, and then the record of that id is the
  -- specification's, Up, entered at the time behind the start, and no other record changes; or one of
  -- the two failed, and then the error carries its message, nothing was run behind it, and the registry
  -- and the tasks are as they were. No end spawns a task.
  pub vm_create_is_atomic :
      (params : V) (s : Vms W)
      → EndsFor json lib s
          (str_param json (codes "vmID") params)
          (λ id. from_vm_params json id params)
          (vm_create json lib params s)
  unfolding vm_create vm_id_from must virsh
  vm_create_is_atomic params s =
      asked-EndsFor json lib s _ _ _
        (λ id. defined-Ends json lib s id (from_vm_params json id params) _ _ refl)
