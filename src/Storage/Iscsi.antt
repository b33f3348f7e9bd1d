-- ===== src/Storage/Iscsi.antt =====
-- crates/vdsm-storage/src/block.rs: the iSCSI verbs. The target's fields are read by serde, which is a
-- parameter.
use vdsm_rs.Base.{
  ◌||◌, Option, none, some, List, [], ◌∷◌, ◌++◌, if◌then◌else◌, Text, codes, is_empty, ok, map,
}
use vdsm_rs.Encoding.Split.{lines}
use vdsm_rs.Encoding.Trim.{split_whitespace}
use vdsm_rs.Rpc.Protocol.{invalid_params}
use vdsm_rs.Storage.{Json, Host, Verb, return, throw, ◌>>=◌, run_privileged, empty_object}
use vdsm_rs.Supervdsm.{PrivOp, iscsi_discover, iscsi_login, iscsi_logout, iscsi_rescan, fc_scan}

-- `IscsiTargetSpec`
pub record IscsiTargetSpec : Type 0 where
  pub iqn : Text
  pub portal : Text
  pub port : Text
  pub user : Text
  pub password : Text
  pub tpgt : Text

abbrev default_spec : IscsiTargetSpec
default_spec = record { iqn = []; portal = []; port = []; user = []; password = []; tpgt = [] }

-- The portal with its port, 3260 if there is none.
unfoldable pub portal_of : IscsiTargetSpec → Text
portal_of s = s.portal ++ (b':' ∷ (if is_empty s.port then codes "3260" else s.port))

-- The first two words of a line.
address_words : List Text → Option (Text × Text)
address_words (addr ∷ iqn ∷ more) = some (addr, iqn)
address_words other = none

unfoldable pub targets_in : List Text → List (Text × Text)
unfolding address_words
targets_in [] = []
targets_in (l ∷ ls) =
    let rest = targets_in ls in
    elim (address_words (split_whitespace l)) [ none ↦ rest | some t ↦ t ∷ rest ]

module _ {V W : Type 0} (json : Json V) (host : Host W) (decode : V → Option IscsiTargetSpec) where
  or_params : V → Option V → V
  or_params params none = params
  or_params params (some con) = con

  or_default : Option IscsiTargetSpec → IscsiTargetSpec
  or_default none = default_spec
  or_default (some s) = s

  -- `serde_json::from_value(params.get("con")…).unwrap_or_default()`
  unfoldable pub spec_of : V → IscsiTargetSpec
  unfolding or_params or_default default_spec
  spec_of params = or_default (decode (or_params params (json.field (codes "con") params)))

  target_json : Text × Text → V
  target_json (addr, iqn) =
      json.object ((codes "portal", json.string addr) ∷ (codes "iqn", json.string iqn) ∷ [])

  iqn_json : Text × Text → V
  iqn_json (addr, iqn) = json.string iqn

  targets_json : List (Text × Text) → V
  targets_json ts = json.object (
      (codes "fullTargets", json.array (map target_json ts))
      ∷ (codes "targets", json.array (map iqn_json ts))
      ∷ [])

  or_empty : Option Text → Text
  or_empty none = []
  or_empty (some raw) = raw

  -- `run(op).await`
  unfoldable pub asked : PrivOp → Verb V W (Option Text)
  asked op w = let (out, w') = run_privileged host op w in (ok out, w')

  -- `let _ = run(op).await`
  unfoldable pub run_op : PrivOp → Verb V W V
  run_op op = do out ← asked op; return (empty_object json)

  -- `iscsi_discover_send_targets`
  unfoldable pub iscsi_discover_send_targets : V → Verb V W V
  unfolding targets_json target_json iqn_json or_empty
  iscsi_discover_send_targets params =
      if is_empty (spec_of params).portal
      then return (targets_json [])
      else (asked (iscsi_discover (portal_of (spec_of params)))
          >>= (λ out. return (targets_json (targets_in (lines (or_empty out))))))

  -- `iscsi_login`
  unfoldable pub iscsi_login_verb : V → Verb V W V
  iscsi_login_verb params =
      let s = spec_of params in
      if is_empty s.iqn || is_empty s.portal
      then throw (invalid_params (codes "iqn + portal required"))
      else run_op (iscsi_login s.iqn (portal_of s))

  -- `iscsi_logout`
  unfoldable pub iscsi_logout_verb : V → Verb V W V
  iscsi_logout_verb params =
      let s = spec_of params in
      if is_empty s.iqn
      then return (empty_object json)
      else run_op (iscsi_logout s.iqn (portal_of s))

  -- `iscsi_rescan` and `fc_scan`
  unfoldable pub iscsi_rescan_verb : V → Verb V W V
  iscsi_rescan_verb params = run_op iscsi_rescan

  unfoldable pub fc_scan_verb : V → Verb V W V
  fc_scan_verb params = run_op fc_scan
