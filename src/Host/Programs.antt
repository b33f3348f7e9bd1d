-- ===== src/Host/Programs.antt =====
-- crates/vdsm-host/src/sysinfo.rs: what is read from the output of programs.
use vdsm_rs.Base.{
  ℕ, zero, suc, ◌-◌, length, true, false, not, ◌&&◌, ◌||◌, Option, none, some, List, [], ◌∷◌, ◌++◌,
  if◌then◌else◌, ◌==◌, Text, codes, text_eq, is_empty, any, starts_with, contains_byte,
  is_ascii_digit,
}
use mathlib.Core.List.{reverse}
use vdsm_rs.Encoding.Affix.{strip_prefix}
use vdsm_rs.Encoding.Split.{lines}
use vdsm_rs.Encoding.Trim.{trim, split_whitespace}
use vdsm_rs.Host.Files.{split_at}
use vdsm_rs.Host.{Probe}

-- The text before the first occurrence of a pattern: `&s[..s.find(p)?]`.
unfoldable pub before_text : Text → Text → Option Text
before_text p [] = if is_empty p then some [] else none
before_text p (c ∷ s) =
    let rest = before_text p s in
    if starts_with (c ∷ s) p then some [] else elim rest [ none ↦ none | some t ↦ some (c ∷ t) ]

cons_piece : ℕ → List Text → List Text
cons_piece c [] = (c ∷ []) ∷ []
cons_piece c (p ∷ ps) = (c ∷ p) ∷ ps

-- `s.split(p)` for a pattern that is not empty; so many bytes of an occurrence are still to be skipped.
unfoldable pub split_text : Text → ℕ → Text → List Text
unfolding cons_piece
split_text p k [] = [] ∷ []
split_text p (suc k) (c ∷ s) = split_text p k s
split_text p zero (c ∷ s) = elim (starts_with (c ∷ s) p) [
  | true ↦ [] ∷ split_text p (length p - 1) s
  | false ↦ cons_piece c (split_text p 0 s)
]

push_new : Text → List Text → List Text
push_new m ms = if any (text_eq m) ms then ms else ms ++ m ∷ []

push_all : List Text → List Text → List Text
push_all [] ms = ms
push_all (a ∷ rest) ms = push_all rest (push_new a ms)

push_machine : Text → List Text → List Text
push_machine name ms =
    if starts_with name (codes "pc-") || text_eq name (codes "q35") || text_eq name (codes "pc")
    then push_new name ms
    else ms

inner_name : Option Text → Option Text
inner_name none = none
inner_name (some inner) = elim (split_at b'>' inner) [
  | none ↦ none
  | some (attributes, name) ↦ some (trim name)
]

push_named : Option Text → List Text → List Text
push_named none ms = ms
push_named (some name) ms = push_machine name ms

machines_in : List Text → List Text → List Text
machines_in [] ms = ms
machines_in (tag ∷ tags) ms =
    machines_in tags (push_named (inner_name (before_text (codes "</machine>") tag)) ms)

rhel_aliases : List Text
rhel_aliases =
    codes "pc-q35-rhel9.6.0"
    ∷ codes "pc-q35-rhel9.4.0"
    ∷ codes "pc-q35-rhel9.2.0"
    ∷ codes "pc-q35-rhel8.6.0"
    ∷ codes "pc-q35-rhel8.4.0"
    ∷ codes "pc-i440fx-rhel7.6.0"
    ∷ codes "pc-i440fx-rhel7.5.0"
    ∷ []

default_emulated_machines : List Text
default_emulated_machines =
    codes "q35" ∷ codes "pc" ∷ codes "pc-q35-rhel9.6.0" ∷ codes "pc-i440fx-rhel7.6.0" ∷ []

-- The first word that looks like a version, without the marks around it.
drop_marks : Text → Text
drop_marks [] = []
drop_marks (c ∷ s) =
    let rest = drop_marks s in if not (is_ascii_digit c) && not (c == b'.') then rest else c ∷ s

unfoldable pub find_version : List Text → Text
unfolding drop_marks
find_version [] = []
find_version (t ∷ ts) =
    let rest = find_version ts in
    if any is_ascii_digit t && contains_byte t b'.'
    then reverse (drop_marks (reverse (drop_marks t)))
    else rest

-- What stands behind a label at the front of a line.
unfoldable pub behind_label : Text → List Text → Text
behind_label label [] = []
behind_label label (l ∷ ls) =
    let rest = behind_label label ls in
    elim (strip_prefix label (trim l)) [ none ↦ rest | some t ↦ trim t ]

with_aliases : List Text → List Text
with_aliases [] = default_emulated_machines
with_aliases (m ∷ ms) = push_all rhel_aliases (m ∷ ms)

module _ (probe : Probe) where
  -- `emulated_machines`
  unfoldable pub emulated_machines : List Text
  unfolding with_aliases push_all push_new rhel_aliases machines_in push_named push_machine
      inner_name default_emulated_machines
  emulated_machines =
      elim (probe.output (codes "/usr/bin/virsh")
        (codes "-c" ∷ codes "qemu:///system" ∷ codes "capabilities" ∷ [])) [
          | none ↦ default_emulated_machines
          | some o ↦
              if o.success
              then with_aliases
                  (machines_in (split_text (codes "<machine") 0 (probe.lossy o.out)) [])
              else default_emulated_machines
        ]

  -- `first_word_version`
  unfoldable pub first_word_version : Text → List Text → Text
  first_word_version cmd args = elim (probe.output cmd args) [
    | none ↦ []
    | some o ↦ if o.success then find_version (split_whitespace (probe.lossy o.out)) else []
  ]

  unfoldable pub virsh_label : Text → List Text → Text
  virsh_label label args =
      elim (probe.output (codes "/usr/bin/virsh") (codes "-c" ∷ codes "qemu:///system" ∷ args)) [
        | none ↦ []
        | some o ↦ behind_label label (lines (probe.lossy o.out))
      ]

  -- `libvirt_version` and `kvm_version`
  unfoldable pub libvirt_version : Text
  libvirt_version =
      virsh_label (codes "Using library: libvirt ") (codes "version" ∷ codes "--daemon" ∷ [])

  unfoldable pub kvm_version : Text
  kvm_version = virsh_label (codes "Running hypervisor: QEMU ") (codes "version" ∷ [])

  unfoldable pub spice_version : Text
  spice_version =
      first_word_version (codes "pkg-config") (codes "--modversion" ∷ codes "spice-server" ∷ [])

  unfoldable pub gluster_version : Text
  gluster_version = first_word_version (codes "/usr/sbin/gluster") (codes "--version" ∷ [])

  unfoldable pub ceph_version : Text
  ceph_version = first_word_version (codes "/usr/bin/ceph") (codes "--version" ∷ [])

  unfoldable pub openvswitch_version : Text
  openvswitch_version = first_word_version (codes "/usr/sbin/ovs-vsctl") (codes "--version" ∷ [])

  unfoldable pub nmstate_version : Text
  nmstate_version = first_word_version (codes "/usr/bin/nmstatectl") (codes "--version" ∷ [])
