-- ===== src/Supervdsm/Access.antt =====
-- crates/supervdsm/src/main.rs: what has to hold for the daemon to act.
use vdsm_rs.Base.{
  ℕ, ◌≡◌, ◌⊎◌, inl, inr, refl, true, false, some, ◌==◌, ==_iff, Text, Result, ok, err, is_empty,
  Bool-cases,
}
use vdsm_rs.Encoding.Trim.{trim}
use vdsm_rs.Supervdsm.{PrivOp}
use vdsm_rs.Supervdsm.Exec.{System, execute}
use vdsm_rs.Supervdsm.Daemon.{handle}

module _ {W : Type 0} (sys : System W) (decode : Text → Result Text PrivOp) where
  -- The peer is the allowed user and its line, trimmed, decodes to an operation, which is then executed
  -- and whose result is the reply.
  abbrev pub IsExecuted : ℕ → ℕ → Text → W → Type 0
  IsExecuted allowed_uid uid req w =
      (uid ≡ allowed_uid)
      × ((op : PrivOp) × (decode (trim req) ≡ ok op)
          × (handle sys decode allowed_uid uid req w
              ≡ record { world = (execute sys op w).1; reply = some (execute sys op w).0 }))

  -- A connection either leaves the machine as it was, or it comes from the allowed user, its trimmed
  -- line decodes to an operation, and the daemon executes just that and replies with its result.
  pub handle-IsExecuted :
      (allowed_uid uid : ℕ) (req : Text) (w : W)
      → ((handle sys decode allowed_uid uid req w).world ≡ w) ⊎ IsExecuted allowed_uid uid req w
  unfolding handle
  handle-IsExecuted allowed_uid uid req w = elim (Bool-cases (uid == allowed_uid)) [
    | inr e ↦ inl (rw e refl)
    | inl e ↦ elim (Bool-cases (is_empty (trim req))) [
      | inl f ↦ inl (rw (e, f) refl)
      | inr f ↦ decoded (decode (trim req)) refl ((==_iff uid allowed_uid).0 e) e f
    ]
  ]
    where
      decoded :
          (r : Result Text PrivOp)
          → decode (trim req) ≡ r
          → uid ≡ allowed_uid
          → (uid == allowed_uid) ≡ true
          → is_empty (trim req) ≡ false
          → ((handle sys decode allowed_uid uid req w).world ≡ w) ⊎ IsExecuted allowed_uid uid req w
      decoded (err m) d u e f = inl (rw (e, f, d) refl)
      decoded (ok op) d u e f = inr (u, (op, d, rw (e, f, d) refl))
