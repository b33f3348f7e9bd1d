-- ===== src/Vm/Virsh.antt =====
-- crates/vdsm-virt/src/verbs.rs: `run_virsh`, and what the verbs on one machine share.
use vdsm_rs.Base.{
  ℕ, ◌-◌, Option, none, some, List, [], ◌∷◌, ◌++◌, if◌then◌else◌, Text, codes, Result, ok, err,
  Bytes, text_eq, pos, negsuc,
}
use vdsm_rs.Encoding.Decimal.{to_string}
use vdsm_rs.Encoding.TextMap
use vdsm_rs.Encoding.TextMap.{TextMap}
use vdsm_rs.Encoding.Trim.{trim}
use vdsm_rs.Rpc.Protocol.{JsonRpcError, invalid_params}
use vdsm_rs.Storage.{Json, Verb, str_param}
use vdsm_rs.Supervdsm.Exec.{Output}
use vdsm_rs.Vm.{VmState, VmRecord, Vms, as_engine_str}

-- Why a program gave no output: it did not start, did not take its input, or could not be waited for.
pub data RunError : Type 0 where
  no_start no_input no_wait : Text → RunError

-- libvirt and the machine in a state `W`: a program that is run with arguments and, it may be, an
-- input; its output as text; the clock in seconds.
pub record Libvirt (W : Type 0) : Type 0 where
  pub exec : Text → List Text → Option Text → W → Result RunError Output × W
  pub lossy : Bytes → Text
  pub now : W → ℕ

module _ {W : Type 0} (lib : Libvirt W) where
  printed : Result RunError Output → Result Text Text
  printed (err (no_start e)) = err (codes "spawn virsh: " ++ e)
  printed (err (no_input e)) = err (codes "virsh stdin: " ++ e)
  printed (err (no_wait e)) = err e
  printed (ok o) = if o.success then ok (lib.lossy o.out) else err (trim (lib.lossy o.error_out))

  -- `run_virsh`
  unfoldable pub run_virsh : List Text → Option Text → W → Result Text Text × W
  unfolding printed
  run_virsh args input w =
      let (r, w') =
        lib.exec (codes "/usr/bin/virsh") (codes "-c" ∷ codes "qemu:///system" ∷ args) input w in
      (printed r, w')

  -- The same for the state of the verbs.
  unfoldable pub virsh : List Text → Option Text → Vms W → Result Text Text × Vms W
  virsh args input s = let (r, w) = run_virsh args input s.world in (r, record s { world = w })

  -- `let _ = run_virsh(…)`
  unfoldable pub virsh_ignored : List Text → Vms W → Vms W
  virsh_ignored args s = (virsh args none s).1

unfoldable pub id_or_missing : {V : Type 0} → Option Text → Result (JsonRpcError V) Text
id_or_missing none = err (invalid_params (codes "vmID missing"))
id_or_missing (some id) = ok id

-- `vm_id_from`
unfoldable pub vm_id_from : {V S : Type 0} → Json V → V → Verb V S Text
unfolding id_or_missing
vm_id_from json params s = (id_or_missing (str_param json (codes "vmID") params), s)

name_or : Text → Option VmRecord → Text
name_or id none = id
name_or id (some r) = r.vm_name

-- `registry().read().await.get(&vm_id).map(|r| r.vm_name.clone()).unwrap_or_else(|| vm_id.clone())`
unfoldable pub name_of : Text → TextMap VmRecord → Text
unfolding name_or
name_of id reg = name_or id (TextMap.get id reg)

-- `if let Some(rec) = reg.get_mut(id) { rec.state = … }`
unfoldable pub set_state : Text → VmState → TextMap VmRecord → TextMap VmRecord
set_state id st [] = []
set_state id st ((k, r) ∷ m) =
    let rest = set_state id st m in
    if text_eq k id then (k, record r { state = st }) ∷ m else (k, r) ∷ rest

-- `record_to_stats`
unfoldable pub record_to_stats : {V : Type 0} → Json V → ℕ → VmRecord → V
record_to_stats json now r = json.object (
    (codes "vmId", json.string r.vm_id)
    ∷ (codes "vmName", json.string r.vm_name)
    ∷ (codes "status", json.string (as_engine_str r.state))
    ∷ (codes "memSize", json.integer (pos r.mem_size_mb))
    ∷ (codes "vcpuCount", json.integer (pos r.vcpus))
    ∷ (codes "elapsedTime", json.string (to_string (now - r.created_secs)))
    ∷ (codes "monitorResponse", json.string (codes "0"))
    ∷ (
      codes "displayInfo",
      json.array (
          json.object (
            (codes "type", json.string (codes "vnc"))
            ∷ (codes "port", json.string (codes "5900"))
            ∷ (codes "ipAddress", json.string (codes "127.0.0.1"))
            ∷ [])
          ∷ []),
    )
    ∷ (codes "kvmEnable", json.string (codes "true"))
    ∷ (codes "exitCode", json.integer (pos 0))
    ∷ (codes "exitMessage", json.string [])
    ∷ (codes "guestCPUCount", json.integer (negsuc 0))
    ∷ (codes "vmType", json.string (codes "kvm"))
    ∷ (codes "session", json.string (codes "Unknown"))
    ∷ (codes "clientIp", json.string [])
    ∷ (codes "username", json.string [])
    ∷ (codes "appsList", json.array [])
    ∷ (codes "guestIPs", json.string [])
    ∷ (codes "guestFQDN", json.string [])
    ∷ [])
