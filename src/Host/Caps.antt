-- ===== src/Host/Caps.antt =====
-- crates/vdsm-host/src/caps.rs: the parts of the capabilities that are computed.
use vdsm_rs.Base.{
  ℕ, Option, none, some, List, [], ◌∷◌, ◌++◌, if◌then◌else◌, Text, codes, is_empty, pos,
}
use vdsm_rs.Encoding.Decimal.{to_string}
use vdsm_rs.Encoding.Split.{lines}
use vdsm_rs.Encoding.Trim.{trim}
use vdsm_rs.Host.Files.{split_at}
use vdsm_rs.Host.Numa.{count_up, numa_node_count}
use vdsm_rs.Host.{Probe}
use vdsm_rs.Storage.{Json}

first_line : List Text → Option Text
first_line [] = none
first_line (l ∷ ls) = some (trim l)

-- `fs_first_line`
unfoldable pub fs_first_line : Probe → Text → Option Text
unfolding first_line
fs_first_line probe path = elim (probe.read path) [ none ↦ none | some s ↦ first_line (lines s) ]

-- `current_iso_datetime`, at a number of seconds.
unfoldable pub current_iso_datetime : ℕ → Text
current_iso_datetime secs = to_string secs ++ codes "Z"

module _ {V : Type 0} (json : Json V) where
  version_json : Text → Text → V
  version_json version release =
      json.object
        ((codes "version", json.string version) ∷ (codes "release", json.string release) ∷ [])

  -- `pkg_version`
  unfoldable pub pkg_version : Text → V
  unfolding version_json
  pkg_version v = if is_empty v then json.object [] else version_json v []

  -- `pkg_split`
  unfoldable pub pkg_split : Text → V
  unfolding version_json
  pkg_split v = if is_empty v then json.object [] else elim (split_at b'-' v) [
    | some (ver, rel) ↦ version_json ver rel
    | none ↦ version_json v []
  ]

  cpus_json : List ℕ → List V
  cpus_json [] = []
  cpus_json (i ∷ is) =
      json.object (
        (codes "cpu_id", json.integer (pos i))
        ∷ (codes "core_id", json.integer (pos i))
        ∷ (codes "socket_id", json.integer (pos 0))
        ∷ (codes "numa_cell_id", json.integer (pos 0))
        ∷ [])
      ∷ cpus_json is

  -- `cpu_topology`
  unfoldable pub cpu_topology : ℕ → List V
  unfolding cpus_json
  cpu_topology logical_cpus = cpus_json (count_up 0 logical_cpus)

  nodes_json : List ℕ → List (Text × V)
  nodes_json [] = []
  nodes_json (i ∷ is) =
      (
        to_string i,
        json.object
            ((codes "cpus", json.array []) ∷ (codes "totalMemory", json.string (codes "0")) ∷ []),
      )
      ∷ nodes_json is

  -- `numa_topology`
  unfoldable pub numa_topology : Probe → List (Text × V)
  unfolding nodes_json
  numa_topology probe = nodes_json (count_up 0 (numa_node_count probe))
