-- ===== src/Host/Numa.antt =====
-- crates/vdsm-host/src/sysinfo.rs: the nodes of memory, their processors and distances.
use vdsm_rs.Base.{
  ℕ, suc, zero, ◌+◌, ◌-◌, ◌/◌, Bool, false, Option, none, some, List, [], ◌∷◌, ◌++◌, if◌then◌else◌,
  ◌==◌, Text, codes, leb, map, all, is_ascii_digit, contains_text,
}
use mathlib.Core.List.{reverse}
use vdsm_rs.Encoding.Affix.{strip_prefix}
use vdsm_rs.Encoding.Decimal.{parse_word, parse_usize, u32_max, to_string}
use vdsm_rs.Encoding.Split.{lines, split_on}
use vdsm_rs.Encoding.Trim.{trim, split_whitespace}
use vdsm_rs.Host.Files.{split_at}
use vdsm_rs.Host.{Probe, read_or_empty}

-- `a, a + 1, …`, of so many numbers.
unfoldable pub count_up : ℕ → ℕ → List ℕ
count_up a zero = []
count_up a (suc n) = a ∷ count_up (a + 1) n

-- `for c in a..=b`
unfoldable pub inclusive : ℕ → ℕ → List ℕ
inclusive a b = count_up a (b + 1 - a)

both_ends : Option ℕ → Option ℕ → List ℕ
both_ends (some a) (some b) = inclusive a b
both_ends none b = []
both_ends (some a) none = []

single : Option ℕ → List ℕ
single none = []
single (some c) = c ∷ []

-- A part of a list of processors: a range or a number.
unfoldable pub cpu_part : Text → List ℕ
unfolding both_ends single
cpu_part part = elim (split_at b'-' part) [
  | some (a, b) ↦ both_ends (parse_word u32_max a) (parse_word u32_max b)
  | none ↦ single (parse_word u32_max part)
]

cpu_parts : List Text → List ℕ
cpu_parts [] = []
cpu_parts (p ∷ ps) = cpu_part p ++ cpu_parts ps

-- The processors of a `cpulist`.
unfoldable pub cpu_list : Text → List ℕ
unfolding cpu_parts
cpu_list text = cpu_parts (split_on b',' (trim text))

-- The last word but one, as a number.
second_last : List Text → ℕ
second_last [] = 0
second_last (unit ∷ []) = 0
second_last (unit ∷ num ∷ ws) = elim (parse_usize num) [ none ↦ 0 | some n ↦ n ]

total_kb_of : List Text → ℕ
total_kb_of [] = 0
total_kb_of (l ∷ ls) =
    let rest = total_kb_of ls in
    if contains_text l (codes "MemTotal:") then second_last (reverse (split_whitespace l)) else rest

-- A node's number, its processors and its memory in MB.
pub record NumaNode : Type 0 where
  pub index : ℕ
  pub cpus : List ℕ
  pub memory_mb : ℕ

insert_node : NumaNode → List NumaNode → List NumaNode
insert_node n [] = n ∷ []
insert_node n (k ∷ ks) =
    let rest = insert_node n ks in if leb n.index k.index then n ∷ k ∷ ks else k ∷ rest

-- `sort_by_key(|(i, _, _)| *i)`, which keeps the order of equal keys.
unfoldable pub sort_nodes : List NumaNode → List NumaNode
unfolding insert_node
sort_nodes [] = []
sort_nodes (n ∷ ns) = insert_node n (sort_nodes ns)

numbers : List Text → List ℕ
numbers [] = []
numbers (w ∷ ws) =
    let rest = numbers ws in elim (parse_word u32_max w) [ none ↦ rest | some n ↦ n ∷ rest ]

node_suffix : Option Text → Bool
node_suffix none = false
node_suffix (some s) = all is_ascii_digit s

count_nodes : List Text → ℕ
count_nodes [] = 0
count_nodes (n ∷ ns) =
    (if node_suffix (strip_prefix (codes "node") n) then 1 else 0) + count_nodes ns

module _ (probe : Probe) where
  node_file : Text → Text → Text
  node_file name file = codes "/sys/devices/system/node/" ++ (name ++ (b'/' ∷ file))

  cpus_of : Text → List ℕ
  cpus_of name = elim (probe.read (node_file name (codes "cpulist"))) [
    | none ↦ []
    | some list ↦ cpu_list list
  ]

  named_node : Text → Option Text → Option NumaNode
  named_node name none = none
  named_node name (some idx_str) = elim (parse_word u32_max idx_str) [
    | none ↦ none
    | some idx ↦ some (record {
      index = idx;
      cpus = cpus_of name;
      memory_mb =
          total_kb_of (lines (read_or_empty probe (node_file name (codes "meminfo")))) / 1024;
    })
  ]

  nodes_of : List Text → List NumaNode
  nodes_of [] = []
  nodes_of (n ∷ ns) =
      let rest = nodes_of ns in
      elim (named_node n (strip_prefix (codes "node") n)) [ none ↦ rest | some node ↦ node ∷ rest ]

  -- `numa_nodes`
  unfoldable pub numa_nodes : List NumaNode
  unfolding nodes_of named_node cpus_of node_file total_kb_of second_last
  numa_nodes = elim (probe.read_dir (codes "/sys/devices/system/node")) [
    | none ↦ []
    | some names ↦ sort_nodes (nodes_of names)
  ]

  distance : NumaNode → ℕ × List ℕ
  distance n = (
    n.index,
    numbers (
        split_whitespace (
          trim (
            read_or_empty probe
              (node_file (codes "node" ++ to_string n.index) (codes "distance"))))),
  )

  -- `numa_distances`
  unfoldable pub numa_distances : List (ℕ × List ℕ)
  unfolding distance numbers node_file
  numa_distances = map distance numa_nodes

  -- `numa_node_count`
  unfoldable pub numa_node_count : ℕ
  unfolding count_nodes node_suffix
  numa_node_count = elim (probe.read_dir (codes "/sys/devices/system/node")) [
    | none ↦ 1
    | some names ↦ if count_nodes names == 0 then 1 else count_nodes names
  ]
