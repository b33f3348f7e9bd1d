-- ===== src/Vm/Listed.antt =====
-- crates/vdsm-virt/src/verbs.rs: what the registry holds after a reconciliation.
use vdsm_rs.Base.{
  ◌≡◌, refl, ap, true, false, Option, none, some, List, [], ◌∷◌, arith, inl, inr, Bool-cases, All,
  ◌↔◌, Text, codes, text_eq, text_eq_refl, text_eq_sound, Result, ok, err, is_empty, ◌||◌,
}
use vdsm_rs.Encoding.TextMap
use vdsm_rs.Encoding.TextMap.{TextMap}
use vdsm_rs.Encoding.Trim.{trim}
use vdsm_rs.Vm.Reconcile.{
  reconcile_from_libvirt, reconcile_listed, add_all, add_missing, add_named, add_keyed, add_found,
  is_known, names_of, retain_listed, lists_name,
}
use vdsm_rs.Vm.Virsh.{Libvirt, run_virsh, virsh}
use vdsm_rs.Vm.{VmRecord, Vms}

-- The names of the records are all among these.
abbrev pub AreListed : List Text → TextMap VmRecord → Type 0
AreListed names = All (λ e. lists_name names e.1.vm_name ≡ true)

retain_listed-AreListed :
    (names : List Text) (m : TextMap VmRecord) → AreListed names (retain_listed names m)
unfolding retain_listed
retain_listed-AreListed names [] = tt
retain_listed-AreListed names ((k, r) ∷ m) = elim (Bool-cases (lists_name names r.vm_name)) [
  | inl q ↦ rw q (q, retain_listed-AreListed names m)
  | inr q ↦ rw q (retain_listed-AreListed names m)
]

insert-AreListed :
    (names : List Text) (k : Text) (r : VmRecord) (m : TextMap VmRecord)
    → lists_name names r.vm_name ≡ true
    → AreListed names m
    → AreListed names (TextMap.insert k r m)
unfolding TextMap.insert
insert-AreListed names k r [] e h = (e, tt)
insert-AreListed names k r ((j, w) ∷ m) e h = elim (Bool-cases (text_eq j k)) [
  | inl q ↦ rw q (e, h.1)
  | inr q ↦ rw q (h.0, insert-AreListed names k r m e h.1)
]

-- The names `ns` are all among `names`.
AreNames : List Text → List Text → Type 0
AreNames names = All (λ n. lists_name names n ≡ true)

lists_name-cons :
    (m : Text) (names ns : List Text)
    → All (λ n. lists_name names n ≡ true) ns
    → All (λ n. lists_name (m ∷ names) n ≡ true) ns
unfolding lists_name
lists_name-cons m names [] h = tt
lists_name-cons m names (n ∷ ns) h = (ground (arith, h.0), lists_name-cons m names ns h.1)

lists_own_names : (names : List Text) → All (λ n. lists_name names n ≡ true) names
unfolding lists_name
lists_own_names [] = tt
lists_own_names (n ∷ ns) = (rw (text_eq_refl n) refl, lists_name-cons n ns ns (lists_own_names ns))

-- What a key that is found after a step was before it, or is found by the step: a record stays.
module _ {W : Type 0} (lib : Libvirt W) (names : List Text) where
  add_keyed-AreListed :
      (id name : Text) (s : Vms W)
      → lists_name names name ≡ true
      → AreListed names s.registry
      → AreListed names (add_keyed lib id name s).registry
  unfolding add_keyed add_found virsh
  add_keyed-AreListed id name s e h =
      elim (Bool-cases (is_empty id || is_known lib (TextMap.get id s.registry))) [
        | inl q ↦ rw q h
        | inr q ↦ rw q (insert-AreListed names id _ s.registry e h)
      ]

  add_named-AreListed :
      (name : Text) (r : Result Text Text) (s : Vms W)
      → lists_name names name ≡ true
      → AreListed names s.registry
      → AreListed names (add_named lib name r s).registry
  unfolding add_named
  add_named-AreListed name (err e) s k h = h
  add_named-AreListed name (ok out) s k h = add_keyed-AreListed (trim out) name s k h

  add_all-AreListed :
      (ns : List Text) (s : Vms W)
      → All (λ n. lists_name names n ≡ true) ns
      → AreListed names s.registry
      → AreListed names (add_all lib ns s).registry
  unfolding add_all add_missing virsh
  add_all-AreListed [] s k h = h
  add_all-AreListed (n ∷ ns) s k h = add_all-AreListed ns _ k.1 (add_named-AreListed n _ _ k.0 h)

-- A record that was found before is found still.
abbrev Finds : Text → VmRecord → TextMap VmRecord → Type 0
Finds id r m = TextMap.get id m ≡ some r

retain_listed-Finds :
    (names : List Text) (id : Text) (r : VmRecord) (m : TextMap VmRecord)
    → lists_name names r.vm_name ≡ true
    → Finds id r m
    → Finds id r (retain_listed names m)
unfolding retain_listed TextMap.get
retain_listed-Finds names id r [] e h = h
retain_listed-Finds names id r ((j, w) ∷ m) e h = ground (arith, retain_listed-Finds names id r m e)

insert-Finds :
    (id k : Text) (r w : VmRecord) (m : TextMap VmRecord)
    → TextMap.get k m ≡ none
    → Finds id r m
    → Finds id r (TextMap.insert k w m)
insert-Finds id k r w m e h =
    ground (arith, TextMap.get-insert k id w m, text_eq_sound k id, ap (λ i. TextMap.get i m))

module _ {W : Type 0} (lib : Libvirt W) (id : Text) (r : VmRecord) where
  is_known-none : (o : Option VmRecord) → is_known lib o ≡ false → o ≡ none
  unfolding is_known
  is_known-none none h = refl
  is_known-none (some w) h = cc

  add_keyed-Finds :
      (k name : Text) (s : Vms W)
      → Finds id r s.registry
      → Finds id r (add_keyed lib k name s).registry
  unfolding add_keyed add_found virsh
  add_keyed-Finds k name s h =
      elim (Bool-cases (is_empty k || is_known lib (TextMap.get k s.registry))) [
        | inl q ↦ rw q h
        | inr q ↦ rw q (
            insert-Finds id k r _ s.registry
              (is_known-none (TextMap.get k s.registry) (ground (arith, q))) h)
      ]

  add_named-Finds :
      (name : Text) (o : Result Text Text) (s : Vms W)
      → Finds id r s.registry
      → Finds id r (add_named lib name o s).registry
  unfolding add_named
  add_named-Finds name (err e) s h = h
  add_named-Finds name (ok out) s h = add_keyed-Finds (trim out) name s h

  add_all-Finds :
      (ns : List Text) (s : Vms W) → Finds id r s.registry → Finds id r (add_all lib ns s).registry
  unfolding add_all add_missing virsh
  add_all-Finds [] s h = h
  add_all-Finds (n ∷ ns) s h = add_all-Finds ns _ (add_named-Finds n _ _ h)

Finds-AreListed :
    (names : List Text) (id : Text) (r : VmRecord) (m : TextMap VmRecord)
    → AreListed names m
    → Finds id r m
    → lists_name names r.vm_name ≡ true
unfolding TextMap.get
Finds-AreListed names id r [] h f = cc
Finds-AreListed names id r ((j, w) ∷ m) h f = ground (arith, h.0, Finds-AreListed names id r m h.1)

abbrev pub list_running : List Text
list_running = codes "list" ∷ codes "--name" ∷ codes "--state-running" ∷ []

module _ {W : Type 0} (lib : Libvirt W) where
  listed-AreListed :
      (o : Result Text Text) (out : Text) (s : Vms W)
      → o ≡ ok out
      → AreListed (names_of out) (reconcile_listed lib o s).registry
  unfolding reconcile_listed
  listed-AreListed o out s h =
      rw (h, reconcile_listed)
        (add_all-AreListed lib (names_of out) (names_of out) _ (lists_own_names (names_of out))
          (retain_listed-AreListed (names_of out) s.registry))

  listed-Finds :
      (o : Result Text Text) (out : Text) (s : Vms W) (id : Text) (r : VmRecord)
      → o ≡ ok out
      → Finds id r s.registry
      → lists_name (names_of out) r.vm_name ≡ true
      → Finds id r (reconcile_listed lib o s).registry
  unfolding reconcile_listed
  listed-Finds o out s id r h f k =
      rw (h, reconcile_listed)
        (add_all-Finds lib id r (names_of out) _
          (retain_listed-Finds (names_of out) id r s.registry k f))

  -- If virsh lists the running domains, then after a reconciliation a record that was found under an id
  -- is found under it, unchanged, exactly when its name is listed, whatever its state; and every record
  -- is of a listed name.
  pub reconcile_keeps_running :
      (s : Vms W) (out : Text)
      → (run_virsh lib list_running none s.world).0 ≡ ok out
      → AreListed (names_of out) (reconcile_from_libvirt lib s).registry
        × ((id : Text) (r : VmRecord)
            → TextMap.get id s.registry ≡ some r
            → (TextMap.get id (reconcile_from_libvirt lib s).registry ≡ some r)
              ↔ (lists_name (names_of out) r.vm_name ≡ true))
  unfolding reconcile_from_libvirt virsh
  reconcile_keeps_running s out h =
      let a = listed-AreListed _ out _ h in
      (a, λ id r f. (Finds-AreListed (names_of out) id r _ a, listed-Finds _ out _ id r h f))
