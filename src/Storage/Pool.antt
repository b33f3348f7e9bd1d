-- ===== src/Storage/Pool.antt =====
-- crates/vdsm-storage/src/domain.rs: the pool that the host takes part in. Each verb takes the
-- parameters and the state under the lock, and leaves the state that it writes; all answer `{}`.
use vdsm_rs.Base.{
  ◌==◌, Bool, false, ◌||◌, Option, none, some, List, [], ◌∷◌, ◌++◌, if◌then◌else◌, Text, codes,
  text_eq, ltb, ℤ, pos, negsuc,
}
use vdsm_rs.Storage.{Json, str_or, int_or}

-- `PoolState`
pub record PoolState : Type 0 where
  pub pool_id : Text
  pub master_sd : Text
  pub master_ver : ℤ
  pub domains : List Text

-- `PoolState::default()`
abbrev pub no_pool : PoolState
no_pool = record { pool_id = []; master_sd = []; master_ver = pos 0; domains = [] }

-- `domains.contains(&d)`
unfoldable pub contains : List Text → Text → Bool
contains [] d = false
contains (x ∷ xs) d = text_eq x d || contains xs d

-- `if !s.domains.contains(&d) { s.domains.push(d); }`
unfoldable pub add_domain : Text → List Text → List Text
add_domain d ds = if contains ds d then ds else ds ++ d ∷ []

unfoldable pub add_domains : List Text → List Text → List Text
add_domains [] ds = ds
add_domains (d ∷ more) ds = add_domains more (add_domain d ds)

-- `a.max(b)` on `i64`
unfoldable pub max : ℤ → ℤ → ℤ
max (pos a) (pos b) = if ltb b a then pos a else pos b
max (pos a) (negsuc b) = pos a
max (negsuc a) (pos b) = pos b
max (negsuc a) (negsuc b) = if ltb a b then negsuc a else negsuc b

-- `if !new.is_empty() { old = new }`
unfoldable pub replace_text : Text → Text → Text
replace_text [] old = old
replace_text (c ∷ s) old = c ∷ s

first_version : ℤ → ℤ
first_version (pos n) = if n == 0 then pos 1 else pos n
first_version (negsuc n) = negsuc n

-- What `connect_storage_pool` does with the values that it read.
unfoldable pub connect_pool : Text → Text → ℤ → List Text → PoolState → PoolState
connect_pool pool_id master_sd master_ver domains s = record {
  pool_id = replace_text pool_id s.pool_id;
  master_sd = replace_text master_sd s.master_sd;
  master_ver = max master_ver s.master_ver;
  domains = add_domains domains s.domains;
}

-- The same for `create_storage_pool`.
unfoldable pub create_pool : Text → Text → List Text → PoolState → PoolState
unfolding first_version
create_pool pool_id master_sd domains s = record {
  pool_id = replace_text pool_id s.pool_id;
  master_sd = replace_text master_sd s.master_sd;
  master_ver = first_version s.master_ver;
  domains = add_domains domains s.domains;
}

module _ {V : Type 0} (json : Json V) where
  or_no_texts : Option (List Text) → List Text
  or_no_texts none = []
  or_no_texts (some ts) = ts

  keys_of : Option V → List Text
  keys_of none = []
  keys_of (some v) = or_no_texts (json.keys v)

  -- `filter_map(Value::as_str)`
  unfoldable pub texts_of : List V → List Text
  texts_of [] = []
  texts_of (v ∷ vs) =
      let rest = texts_of vs in elim (json.as_str v) [ none ↦ rest | some t ↦ t ∷ rest ]

  or_no_values : Option (List V) → List Text
  or_no_values none = []
  or_no_values (some vs) = texts_of vs

  elements_of : Option V → List Text
  elements_of none = []
  elements_of (some v) = or_no_values (json.elements v)

  -- `params.get(a).or_else(|| params.get(b)).and_then(Value::as_str).unwrap_or("")`
  unfoldable pub str_either : Text → Text → V → Text
  str_either a b params = elim (json.field a params) [
    | some v ↦ elim (json.as_str v) [ none ↦ [] | some t ↦ t ]
    | none ↦ str_or json [] b params
  ]

  -- `connect_storage_pool`
  unfoldable pub connect_storage_pool : V → PoolState → PoolState
  unfolding keys_of or_no_texts
  connect_storage_pool params =
      connect_pool (str_or json [] (codes "storagepoolID") params)
        (str_or json [] (codes "masterSdUUID") params)
        (int_or json (pos 1) (codes "masterVersion") params)
        (keys_of (json.field (codes "domainsMap") params))

  -- `create_storage_pool`
  unfoldable pub create_storage_pool : V → PoolState → PoolState
  unfolding elements_of or_no_values texts_of
  create_storage_pool params =
      create_pool (str_either (codes "poolID") (codes "storagepoolID") params)
        (str_either (codes "masterDom") (codes "masterSdUUID") params)
        (elements_of (json.field (codes "domList") params))

  -- `spm_start`
  unfoldable pub spm_start : V → PoolState → PoolState
  spm_start params s = record s {
    pool_id = replace_text (str_or json [] (codes "storagepoolID") params) s.pool_id;
  }
