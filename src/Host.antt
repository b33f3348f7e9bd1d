-- ===== src/Host.antt =====
-- crates/vdsm-host/src: what the host's inventory is read from. A probe is a state of the machine: its
-- files, and what a program prints when it is run; nothing is changed.
pub mod Files
pub mod Network
pub mod Cpu
pub mod Numa
pub mod Programs
pub mod Dates
pub mod Calendar
pub mod Caps
use vdsm_rs.Base.{Bool, Option, none, some, List, [], Text, Bytes}
use vdsm_rs.Encoding.Trim.{trim}
use vdsm_rs.Supervdsm.Exec.{Output}

pub record Probe : Type 0 where
  pub read : Text → Option Text
  pub read_dir : Text → Option (List Text)
  pub exists : Text → Bool
  pub output : Text → List Text → Option Output
  pub lossy : Bytes → Text

trimmed_or : Text → Option Text → Text
trimmed_or d none = d
trimmed_or d (some s) = trim s

-- `fs::read_to_string(path).map(|s| s.trim().to_string()).unwrap_or_else(|_| d)`
unfoldable pub read_or : Probe → Text → Text → Text
unfolding trimmed_or
read_or probe d path = trimmed_or d (probe.read path)

content : Option Text → Text
content none = []
content (some s) = s

-- `fs::read_to_string(path).unwrap_or_default()`
unfoldable pub read_or_empty : Probe → Text → Text
unfolding content
read_or_empty probe path = content (probe.read path)
