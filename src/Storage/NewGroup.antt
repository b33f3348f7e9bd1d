-- ===== src/Storage/NewGroup.antt =====
-- crates/vdsm-storage/src/block.rs: how `create_vg` can end.
use vdsm_rs.Base.{
  ◌≡◌, refl, ap, ◌⊎◌, inl, inr, Option, none, some, List, [], ◌∷◌, ◌++◌, Text, codes, Result, ok,
  err, is_empty, ◌||◌, if◌then◌else◌,
}
use vdsm_rs.Rpc.Protocol.{JsonRpcError, invalid_params, internal}
use vdsm_rs.Storage.Groups.{
  create_vg, create_group, create_pvs, needed, succeeded_or, new_group, either_text, devices_of,
}
use vdsm_rs.Storage.{Json, Host, and_then, throw, run_privileged}
use vdsm_rs.Supervdsm.{pvcreate, vgcreate}

module _ {W : Type 0} (host : Host W) where
  -- From the state `w`, `pvcreate` succeeds on each device in turn, and `u` is the state behind.
  abbrev pub AreCreated : List Text → W → W → Type 0
  AreCreated [] w u = u ≡ w
  AreCreated (d ∷ ds) w u =
      (out : Text) × (v : W) × (run_privileged host (pvcreate d) w ≡ (some out, v))
      × AreCreated ds v u

  -- The first device on which `pvcreate` fails, and the states before and behind that.
  abbrev pub FailsAt : List Text → Text → W → W → Type 0
  FailsAt devices d w u =
      (before : List Text) × (after : List Text) × (v : W) × (devices ≡ before ++ d ∷ after)
      × AreCreated before w v
      × (run_privileged host (pvcreate d) v ≡ (none, u))

  fails_later :
      (d : Text) (ds : List Text) (b : Text) (out : Text) (w v u : W)
      → run_privileged host (pvcreate d) w ≡ (some out, v)
      → FailsAt ds b v u
      → FailsAt (d ∷ ds) b w u
  fails_later d ds b out w v u e (before, after, x, h, c, f) =
      (d ∷ before, after, x, ap (λ r. d ∷ r) h, (out, v, e, c), f)

module _ {V W : Type 0} (json : Json V) (host : Host W) where
  abbrev pub pvcreate_failed : Text → JsonRpcError V
  pvcreate_failed d = internal (codes "pvcreate " ++ (d ++ codes " failed"))

  -- How the loop over the devices ends.
  abbrev pub LoopEnds : List Text → W → Result (JsonRpcError V) Unit × W → Type 0
  LoopEnds ds w p =
      ((u : W) × AreCreated host ds w u × (p ≡ (ok tt, u)))
      ⊎ ((d : Text) × (u : W) × FailsAt host ds d w u × (p ≡ (err (pvcreate_failed d), u)))

  then-LoopEnds :
      (d : Text) (ds : List Text) (out : Text) (w v : W) (p : Result (JsonRpcError V) Unit × W)
      → run_privileged host (pvcreate d) w ≡ (some out, v)
      → LoopEnds ds v p
      → LoopEnds (d ∷ ds) w p
  then-LoopEnds d ds out w v p e (inl (u, c, h)) = inl (u, (out, v, e, c), h)
  then-LoopEnds d ds out w v p e (inr (b, u, f, h)) =
      inr (b, u, fails_later host d ds b out w v u e f, h)

  create_pvs-LoopEnds : (ds : List Text) (w : W) → LoopEnds ds w (create_pvs json host ds w)
  unfolding create_pvs needed succeeded_or
  create_pvs-LoopEnds [] w = inl (w, refl, refl)
  create_pvs-LoopEnds (d ∷ ds) w = go (λ v. create_pvs-LoopEnds ds v) _ _ refl
    where
      go :
          ((v : W) → LoopEnds ds v (create_pvs json host ds v))
          → (r : Option Text) (v : W) → run_privileged host (pvcreate d) w ≡ (r, v)
          → LoopEnds (d ∷ ds) w (
              and_then
                (succeeded_or json host (codes "pvcreate " ++ (d ++ codes " failed")) r v)
                (λ u. create_pvs json host ds))
      go ends none v e = inr (d, v, ([], ds, w, refl, refl, e), refl)
      go ends (some out) v e = then-LoopEnds d ds out w v _ e (ends v)

  -- How a creation with a name and devices ends.
  abbrev pub GroupEnds : Text → List Text → W → Result (JsonRpcError V) V × W → Type 0
  GroupEnds name ds w p =
      ((d : Text) × (u : W) × FailsAt host ds d w u × (p ≡ (err (pvcreate_failed d), u)))
      ⊎ (((v : W) × (u : W) × AreCreated host ds w v
            × (run_privileged host (vgcreate name ds) v ≡ (none, u))
            × (p ≡ (err (internal (codes "vgcreate failed")), u)))
          ⊎ ((v : W) × (out : Text) × (u : W) × AreCreated host ds w v
              × (run_privileged host (vgcreate name ds) v ≡ (some out, u))
              × (p ≡ new_group json host name u)))

  created-GroupEnds :
      (name : Text) (ds : List Text) (w v : W) (r : Option Text) (u : W)
      → AreCreated host ds w v
      → run_privileged host (vgcreate name ds) v ≡ (r, u)
      → GroupEnds name ds w (
          and_then
            (succeeded_or json host (codes "vgcreate failed") r u)
            (λ t. new_group json host name))
  unfolding succeeded_or
  created-GroupEnds name ds w v none u c e = inr (inl (v, u, c, e, refl))
  created-GroupEnds name ds w v (some out) u c e = inr (inr (v, out, u, c, e, refl))

  create_group-GroupEnds :
      (name : Text) (ds : List Text) (w : W)
      → GroupEnds name ds w (create_group json host name ds w)
  unfolding create_group needed
  create_group-GroupEnds name ds w = go _ (create_pvs-LoopEnds ds w)
    where
      go :
          (p : Result (JsonRpcError V) Unit × W)
          → LoopEnds ds w p
          → GroupEnds name ds w (
              and_then p (λ created v.
                and_then
                  (needed json host (codes "vgcreate failed") (vgcreate name ds) v)
                  (λ grouped. new_group json host name)))
      go p (inl (v, c, h)) = rw h (created-GroupEnds name ds w v _ _ c refl)
      go p (inr (d, u, f, h)) = rw h (inl (d, u, f, refl))

  -- A creation without a name or without devices is an error and no change.
  abbrev pub CreationEnds : Text → List Text → W → Result (JsonRpcError V) V × W → Type 0
  CreationEnds [] ds w p = p ≡ (err (invalid_params (codes "vgName + devlist required")), w)
  CreationEnds (c ∷ cs) [] w p = p ≡ (err (invalid_params (codes "vgName + devlist required")), w)
  CreationEnds (c ∷ cs) (d ∷ ds) w p = GroupEnds (c ∷ cs) (d ∷ ds) w p

  -- Without a name or without devices `create_vg` fails and does nothing. Else it makes a physical
  -- volume of each device in turn, and stops at the first that fails, with an error that names it and
  -- with nothing done behind it; only when all have succeeded does it create the group, whose failure is
  -- its error, and behind whose success it answers with what it then finds under the group's name.
  pub create_vg_ends :
      (params : V) (w : W)
      → CreationEnds
          (either_text json host (codes "vgName") (codes "name") params)
          (devices_of json host params)
          w
          (create_vg json host params w)
  unfolding create_vg
  create_vg_ends params w =
      go (either_text json host (codes "vgName") (codes "name") params)
        (devices_of json host params)
    where
      go :
          (name : Text) (ds : List Text)
          → CreationEnds name ds w (
              (if is_empty name || is_empty ds
                  then throw (invalid_params (codes "vgName + devlist required"))
                  else create_group json host name ds)
                w)
      go [] ds = refl
      go (c ∷ cs) [] = refl
      go (c ∷ cs) (d ∷ ds) = create_group-GroupEnds (c ∷ cs) (d ∷ ds) w
