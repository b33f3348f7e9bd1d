-- ===== src/Storage.antt =====
-- crates/vdsm-storage/src: what the verbs are given, and how their parts are put together. The JSON
-- library and the machine, with its programs, files and privileged daemon, are parameters.
pub mod Paths
pub mod Metadata
pub mod Backend
pub mod Create
pub mod Volumes
pub mod Pool
pub mod Domain
pub mod DomainInfo
pub mod Connections
pub mod Extents
pub mod Rollback
pub mod Members
pub mod Escapes
pub mod MetaRoundTrip
pub mod Registry
pub mod Iscsi
pub mod Groups
pub mod NewGroup
pub mod Devices
use vdsm_rs.Base.{
  ℕ, Bool, true, false, ◌&&◌, Option, none, some, List, [], ◌∷◌, ◌++◌, if◌then◌else◌, Text, Bytes,
  codes, Result, ok, err, ℤ,
}
use vdsm_rs.Rpc.Protocol.{JsonRpcError, internal}
use vdsm_rs.Supervdsm.Exec.{Output}
use vdsm_rs.Supervdsm.{PrivOp, PrivResult, run_result}

-- `serde_json::Value`: its accessors, and what `json!` builds.
pub record Json (V : Type 0) : Type 0 where
  pub field : Text → V → Option V
  pub as_str : V → Option Text
  pub as_i64 : V → Option ℤ
  pub as_u64 : V → Option ℕ
  pub parse : Text → Option V
  pub boolean : Bool → V
  pub keys : V → Option (List Text)
  pub elements : V → Option (List V)
  pub string : Text → V
  pub integer : ℤ → V
  pub array : List V → V
  pub object : List (Text × V) → V

-- The machine in a state `W`: programs, calls of the privileged daemon, files and the clock. An error
-- is its text; `read_dir` gives the names in their order.
pub record Host (W : Type 0) : Type 0 where
  pub output : Text → List Text → W → Result Text Output × W
  pub lossy : Bytes → Text
  pub call : PrivOp → W → Result Text PrivResult × W
  pub create_dir_all : Text → W → Option Text × W
  pub write : Text → Bytes → W → Option Text × W
  pub read_to_string : Text → W → Result Text Text
  pub read_dir : Text → W → Result Text (List Text)
  pub exists : Text → W → Bool
  pub is_dir : Text → W → Bool
  pub file_len : Text → W → Option ℕ
  pub remove_file : Text → W → W
  pub remove_dir_all : Text → W → W
  pub now : W → ℕ

-- A verb, or a part of one: it changes the machine and returns a value or an error.
abbrev pub Verb : Type 0 → Type 0 → Type 0 → Type 0
Verb V W A = W → Result (JsonRpcError V) A × W

module _ {V W : Type 0} where
  abbrev pub return : {A : Type 0} → A → Verb V W A
  return a w = (ok a, w)

  abbrev pub throw : {A : Type 0} → JsonRpcError V → Verb V W A
  throw e w = (err e, w)

  abbrev pub and_then :
      {A B : Type 0}
      → Result (JsonRpcError V) A × W
      → (A → Verb V W B)
      → Result (JsonRpcError V) B × W
  and_then (ok a, w) f = f a w
  and_then (err e, w) f = (err e, w)

  infixl 5 ◌>>=◌
  abbrev pub ◌>>=◌ : {A B : Type 0} → Verb V W A → (A → Verb V W B) → Verb V W B
  (m >>= f) w = and_then (m w) f

  -- A step whose result is thrown away.
  abbrev pub ignore : {E : Type 0} → (W → E × W) → Verb V W Unit
  ignore act w = (ok tt, (act w).1)

  abbrev pub effect : (W → W) → Verb V W Unit
  effect act w = (ok tt, act w)

  abbrev pub ask : {A : Type 0} → (W → A) → Verb V W A
  ask q w = (ok (q w), w)

  tried : Text → Option Text × W → Result (JsonRpcError V) Unit × W
  tried what (none, w) = (ok tt, w)
  tried what (some e, w) = (err (internal (what ++ (codes ": " ++ e))), w)

  -- `.map_err(|e| internal(format!("{what}: {e}")))?`
  unfoldable pub attempt : Text → (W → Option Text × W) → Verb V W Unit
  unfolding tried
  attempt what act w = tried what (act w)

module _ {V : Type 0} (json : Json V) where
  strings_of : Option V → Option Text
  strings_of none = none
  strings_of (some v) = json.as_str v

  -- `params.get(k).and_then(Value::as_str)`
  unfoldable pub str_param : Text → V → Option Text
  unfolding strings_of
  str_param k params = strings_of (json.field k params)

  or_text : Text → Option Text → Text
  or_text d none = d
  or_text d (some s) = s

  -- The same with `unwrap_or(d)`.
  unfoldable pub str_or : Text → Text → V → Text
  unfolding or_text
  str_or d k params = or_text d (str_param k params)

  integers_of : ℤ → Option V → ℤ
  integers_of d none = d
  integers_of d (some v) = elim (json.as_i64 v) [ none ↦ d | some n ↦ n ]

  -- `params.get(k).and_then(Value::as_i64).unwrap_or(d)`
  unfoldable pub int_or : ℤ → Text → V → ℤ
  unfolding integers_of
  int_or d k params = integers_of d (json.field k params)

  abbrev pub empty_object : V
  empty_object = json.object []

-- `run`: the privileged call, and its stdout if it succeeded.
unfoldable pub run_privileged : {W : Type 0} → Host W → PrivOp → W → Option Text × W
run_privileged host op w = let (r, w') = host.call op w in (run_result r, w')
