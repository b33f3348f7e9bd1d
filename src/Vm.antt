-- ===== src/Vm.antt =====
-- crates/vdsm-virt/src/lib.rs: the states of virtual machines and the registry, and the parts that the
-- verbs share. virsh is a parameter; tasks that a verb spawns wait in a list until they run.
pub mod DomainXml
pub mod Virsh
pub mod Verbs
pub mod Migration
pub mod Reconcile
pub mod Steps
pub mod Keeps
pub mod Keyed
pub mod Watchdog
pub mod Listed
pub mod Create
pub mod Progress
pub mod Escaping
use vdsm_rs.Base.{ℕ, List, [], Text, codes}
use vdsm_rs.Encoding.TextMap.{TextMap}

-- `VmState`
pub data VmState : Type 0 where
  wait_for_launch powering_up up down paused powering_down : VmState

-- `VmState::as_engine_str`
unfoldable pub as_engine_str : VmState → Text
as_engine_str wait_for_launch = codes "WaitForLaunch"
as_engine_str powering_up = codes "Powering up"
as_engine_str up = codes "Up"
as_engine_str down = codes "Down"
as_engine_str paused = codes "Paused"
as_engine_str powering_down = codes "Powering down"

-- `VmRecord`
pub record VmRecord : Type 0 where
  pub vm_id : Text
  pub vm_name : Text
  pub mem_size_mb : ℕ
  pub vcpus : ℕ
  pub state : VmState
  pub created_secs : ℕ

-- What `tokio::spawn` is given: the watchdog of a shutdown, for an id and a name, and an outgoing
-- migration, for a name and a destination.
pub data Task : Type 0 where
  watchdog migration : Text → Text → Task

-- The registry, the tasks that have been spawned and have not run, and libvirt with the clock.
pub record Vms (W : Type 0) : Type 0 where
  pub registry : TextMap VmRecord
  pub tasks : List Task
  pub world : W
