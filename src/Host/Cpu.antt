-- ===== src/Host/Cpu.antt =====
-- crates/vdsm-host/src/sysinfo.rs: the processor, without its clock rate, and the tokens of its models.
use vdsm_rs.Base.{
  ℕ, ◌+◌, Bool, true, false, ◌&&◌, Option, none, some, List, [], ◌∷◌, if◌then◌else◌, ◌==◌, Text,
  codes, text_eq, is_empty, any, length, flatten,
}
use vdsm_rs.Encoding.Decimal.{parse_word, u32_max}
use vdsm_rs.Encoding.Split.{lines}
use vdsm_rs.Encoding.Trim.{trim, split_whitespace}
use vdsm_rs.Host.Files.{split_at}
use vdsm_rs.Host.{Probe, read_or_empty}

-- `CpuInfo`, without `mhz`, a number in floating point.
pub record CpuInfo : Type 0 where
  pub model_name : Text
  pub flags : List Text
  pub physical_cores : ℕ
  pub logical_cpus : ℕ
  pub sockets : ℕ

-- The variables of `cpu_info` between blocks; the sets are lists without repetition.
pub record CpuScan : Type 0 where
  pub model : Text
  pub found_flags : List Text
  pub logical : ℕ
  pub current_phys : Option ℕ
  pub physical_ids : List ℕ
  pub core_ids : List (ℕ × ℕ)

-- Those of one block.
pub record BlockScan : Type 0 where
  pub phys : Option ℕ
  pub core : Option ℕ
  pub saw_processor : Bool

set_field : Text → Text → CpuScan × BlockScan → CpuScan × BlockScan
set_field k v (s, b) =
    if text_eq k (codes "processor")
    then (record s { logical = s.logical + 1 }, record b { saw_processor = true })
    else if text_eq k (codes "model name") && is_empty s.model
    then (record s { model = v }, b)
    else if text_eq k (codes "flags") && is_empty s.found_flags
    then (record s { found_flags = split_whitespace v }, b)
    else if text_eq k (codes "physical id")
    then (
      record s { current_phys = parse_word u32_max v },
      record b { phys = parse_word u32_max v },
    )
    else if text_eq k (codes "core id")
    then (s, record b { core = parse_word u32_max v })
    else (s, b)

cpu_line : Option (Text × Text) → CpuScan × BlockScan → CpuScan × BlockScan
cpu_line none sb = sb
cpu_line (some (k, v)) sb = set_field (trim k) (trim v) sb

cpu_lines : List Text → CpuScan × BlockScan → CpuScan × BlockScan
cpu_lines [] sb = sb
cpu_lines (l ∷ ls) sb = cpu_lines ls (cpu_line (split_at b':' l) sb)

add_id : Option ℕ → List ℕ → List ℕ
add_id none ids = ids
add_id (some p) ids = if any (λ q. q == p) ids then ids else p ∷ ids

add_core : Option ℕ → Option ℕ → Option ℕ → List (ℕ × ℕ) → List (ℕ × ℕ)
add_core a b none ids = ids
add_core none none (some c) ids = ids
add_core (some p) b (some c) ids =
    if any (λ q. (q.0 == p) && (q.1 == c)) ids then ids else (p, c) ∷ ids
add_core none (some p) (some c) ids =
    if any (λ q. (q.0 == p) && (q.1 == c)) ids then ids else (p, c) ∷ ids

end_block : CpuScan × BlockScan → CpuScan
end_block (s, b) =
    if b.saw_processor
    then record s {
      physical_ids = add_id b.phys s.physical_ids;
      core_ids = add_core b.phys s.current_phys b.core s.core_ids;
    }
    else s

-- `s.split("\n\n")`: the pieces, the last one included.
cons_piece : ℕ → List Text → List Text
cons_piece c [] = (c ∷ []) ∷ []
cons_piece c (p ∷ ps) = (c ∷ p) ∷ ps

unfoldable pub blocks : Text → List Text
unfolding cons_piece
blocks [] = [] ∷ []
blocks (c ∷ []) = (c ∷ []) ∷ []
blocks (c ∷ d ∷ s) = elim ((c == b'\n') && (d == b'\n')) [
  | true ↦ [] ∷ blocks s
  | false ↦ cons_piece c (blocks (d ∷ s))
]

unfoldable pub cpu_blocks : List Text → CpuScan → CpuScan
unfolding cpu_lines cpu_line set_field end_block add_id add_core
cpu_blocks [] s = s
cpu_blocks (b ∷ bs) s = cpu_blocks bs (
    end_block (cpu_lines (lines b) (s, record { phys = none; core = none; saw_processor = false })))

at_least_one : ℕ → ℕ
at_least_one n = if n == 0 then 1 else n

-- `cpu_info`
unfoldable pub cpu_info : Probe → CpuInfo
unfolding at_least_one
cpu_info probe =
    let s = cpu_blocks (blocks (read_or_empty probe (codes "/proc/cpuinfo"))) (record {
      model = [];
      found_flags = [];
      logical = 0;
      current_phys = none;
      physical_ids = [];
      core_ids = [];
    }) in
    record {
      model_name = if is_empty s.model then codes "unknown" else s.model;
      flags = s.found_flags;
      physical_cores = if is_empty s.core_ids then at_least_one s.logical else length s.core_ids;
      logical_cpus = at_least_one s.logical;
      sockets = at_least_one (length s.physical_ids);
    }

-- The tokens of one step of the ladder.
tokens_if : Bool → List Text → List Text
tokens_if b ts = if b then ts else []

-- `model_tokens_from_flags`
unfoldable pub model_tokens_from_flags : List Text → List Text
unfolding tokens_if
model_tokens_from_flags flags =
    let has : Text → Bool = λ f. any (text_eq f) flags in
    let amd = has (codes "svm") in
    flatten (
      tokens_if (has (codes "ssse3")) (codes "model_Conroe" ∷ codes "model_Penryn" ∷ [])
      ∷ tokens_if (has (codes "sse4_2") && has (codes "popcnt")) (codes "model_Nehalem" ∷ [])
      ∷ tokens_if (has (codes "aes") && has (codes "pclmulqdq")) (codes "model_Westmere" ∷ [])
      ∷ tokens_if (has (codes "avx")) (codes "model_SandyBridge" ∷ [])
      ∷ tokens_if (has (codes "f16c") && has (codes "rdrand")) (codes "model_IvyBridge" ∷ [])
      ∷ tokens_if (has (codes "avx2") && has (codes "bmi2"))
          (codes "model_Haswell-noTSX" ∷ codes "model_Haswell" ∷ [])
      ∷ tokens_if (has (codes "adx") && has (codes "rdseed"))
          (codes "model_Broadwell-noTSX" ∷ codes "model_Broadwell" ∷ [])
      ∷ tokens_if (has (codes "xsavec") && has (codes "xsaves"))
          (codes "model_Skylake-Client-noTSX-IBRS" ∷ codes "model_Skylake-Client" ∷ [])
      ∷ tokens_if (has (codes "clwb"))
          (codes "model_Skylake-Server-noTSX-IBRS" ∷ codes "model_Skylake-Server" ∷ [])
      ∷ tokens_if (has (codes "avx512vnni"))
          (codes "model_Cascadelake-Server-noTSX" ∷ codes "model_Cascadelake-Server" ∷ [])
      ∷ tokens_if (has (codes "gfni") && has (codes "vaes"))
          (codes "model_Icelake-Server-noTSX" ∷ [])
      ∷ tokens_if (has (codes "amx_tile")) (codes "model_SapphireRapids" ∷ [])
      ∷ tokens_if amd (codes "model_Opteron_G1" ∷ codes "model_Opteron_G2" ∷ [])
      ∷ tokens_if (amd && has (codes "sse4a")) (codes "model_Opteron_G3" ∷ [])
      ∷ tokens_if (amd && has (codes "avx")) (codes "model_Opteron_G4" ∷ [])
      ∷ tokens_if (amd && (has (codes "avx") && has (codes "xop"))) (codes "model_Opteron_G5" ∷ [])
      ∷ tokens_if (amd && has (codes "avx2")) (codes "model_EPYC" ∷ codes "model_EPYC-Rome" ∷ [])
      ∷ tokens_if (amd && has (codes "avx512f")) (codes "model_EPYC-Genoa" ∷ [])
      ∷ [])
