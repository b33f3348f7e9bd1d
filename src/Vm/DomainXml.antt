-- ===== src/Vm/DomainXml.antt =====
-- crates/vdsm-virt/src/domain_xml.rs: the domain that is defined for a virtual machine.
use vdsm_rs.Base.{
  ℕ, ◌^◌, ◌%◌, ◌==◌, Option, none, some, List, [], ◌∷◌, if◌then◌else◌, Text, codes, flatten,
}
use vdsm_rs.Encoding.Affix.{replace_byte}
use vdsm_rs.Encoding.Decimal.{to_string, parse_usize}
use vdsm_rs.Storage.{Json, str_param}

module _ {V : Type 0} (json : Json V) where
  -- `first_str`
  unfoldable pub first_str : V → List Text → Option Text
  first_str p [] = none
  first_str p (k ∷ ks) =
      let rest = first_str p ks in elim (str_param json k p) [ none ↦ rest | some s ↦ some s ]

  parsed_text : Option Text → Option ℕ
  parsed_text none = none
  parsed_text (some s) = parse_usize s

  -- A number, or a text that `parse` reads as one.
  number_of : V → Option ℕ
  number_of v = elim (json.as_u64 v) [ some n ↦ some n | none ↦ parsed_text (json.as_str v) ]

  field_number : Option V → Option ℕ
  field_number none = none
  field_number (some v) = number_of v

  -- `first_u64`
  unfoldable pub first_u64 : V → List Text → Option ℕ
  unfolding field_number number_of parsed_text
  first_u64 p [] = none
  first_u64 p (k ∷ ks) =
      let rest = first_u64 p ks in
      elim (field_number (json.field k p)) [ none ↦ rest | some n ↦ some n ]

-- `DomainSpec`
pub record DomainSpec : Type 0 where
  pub uuid : Text
  pub name : Text
  pub mem_mb : ℕ
  pub vcpus : ℕ

-- `smp.max(1)` of an `u64` that is cut to 32 bits.
unfoldable pub vcpus_of : ℕ → ℕ
vcpus_of n = if n % 2 ^ 32 == 0 then 1 else n % 2 ^ 32

module _ {V : Type 0} (json : Json V) where
  or_number : ℕ → Option ℕ → ℕ
  or_number d none = d
  or_number d (some n) = n

  or_name : Text → Option Text → Text
  or_name d none = d
  or_name d (some s) = s

  vm_params : V → V
  vm_params params = elim (json.field (codes "vmParams") params) [ none ↦ params | some p ↦ p ]

  -- `DomainSpec::from_vm_params`
  unfoldable pub from_vm_params : Text → V → DomainSpec
  unfolding or_number or_name vm_params
  from_vm_params vm_id params =
      let p = vm_params params in
      record {
        uuid = vm_id;
        name = or_name vm_id (first_str json p (codes "vmName" ∷ []));
        mem_mb = or_number 1024 (first_u64 json p (codes "memSize" ∷ []));
        vcpus = vcpus_of (or_number 1 (first_u64 json p (codes "smp" ∷ codes "maxVCpus" ∷ [])));
      }

-- `xml_escape`: five replacements, one behind the other.
unfoldable pub xml_escape : Text → Text
unfolding replace_byte
xml_escape s = replace_byte b'\'' (codes "&apos;") (
    replace_byte b'"' (codes "&quot;") (
      replace_byte b'>' (codes "&gt;")
        (replace_byte b'<' (codes "&lt;") (replace_byte b'&' (codes "&amp;") s))))

-- `DomainSpec::to_xml`
unfoldable pub to_xml : DomainSpec → Text
to_xml d = flatten (
    (codes "<domain type='kvm'>\n")
    ∷ (codes "  <name>")
    ∷ (xml_escape d.name)
    ∷ (codes "</name>\n")
    ∷ (codes "  <uuid>")
    ∷ d.uuid
    ∷ (codes "</uuid>\n")
    ∷ (codes "  <memory unit='MiB'>")
    ∷ (to_string d.mem_mb)
    ∷ (codes "</memory>\n")
    ∷ (codes "  <currentMemory unit='MiB'>")
    ∷ (to_string d.mem_mb)
    ∷ (codes "</currentMemory>\n")
    ∷ (codes "  <vcpu placement='static'>")
    ∷ (to_string d.vcpus)
    ∷ (codes "</vcpu>\n")
    ∷ (codes "  <os>\n")
    ∷ (codes "    <type arch='x86_64' machine='q35'>hvm</type>\n")
    ∷ (codes "    <boot dev='hd'/>\n")
    ∷ (codes "    <boot dev='cdrom'/>\n")
    ∷ (codes "    <boot dev='network'/>\n")
    ∷ (codes "  </os>\n")
    ∷ (codes "  <features>\n")
    ∷ (codes "    <acpi/>\n")
    ∷ (codes "    <apic/>\n")
    ∷ (codes "  </features>\n")
    ∷ (codes "  <cpu mode='host-passthrough' check='none'/>\n")
    ∷ (codes "  <clock offset='utc'/>\n")
    ∷ (codes "  <on_poweroff>destroy</on_poweroff>\n")
    ∷ (codes "  <on_reboot>restart</on_reboot>\n")
    ∷ (codes "  <on_crash>destroy</on_crash>\n")
    ∷ (codes "  <devices>\n")
    ∷ (codes "    <emulator>/usr/bin/qemu-system-x86_64</emulator>\n")
    ∷ (codes "    <controller type='usb' model='qemu-xhci'/>\n")
    ∷ (codes "    <serial type='pty'><target port='0'/></serial>\n")
    ∷ (codes "    <console type='pty'><target type='serial' port='0'/></console>\n")
    ∷ (codes "    <input type='tablet' bus='usb'/>\n")
    ∷ (codes "    <graphics type='vnc' port='-1' autoport='yes' listen='127.0.0.1'/>\n")
    ∷ (codes "    <video><model type='virtio'/></video>\n")
    ∷ (codes "    <memballoon model='virtio'/>\n")
    ∷ (codes "  </devices>\n")
    ∷ (codes "</domain>\n")
    ∷ [])
