-- ===== src/Supervdsm/Daemon.antt =====
-- crates/supervdsm/src/main.rs: `lookup_user` and `handle`. Set-up of the socket and the accept loop,
-- which spawns a task for each connection, are not modelled.
use vdsm_rs.Base.{
  ℕ, ◌==◌, not, Option, none, some, List, [], ◌∷◌, ◌++◌, if◌then◌else◌, Text, codes, text_eq,
  Result, ok, err, is_empty,
}
use vdsm_rs.Encoding.Decimal.{parse_word, u32_max}
use vdsm_rs.Encoding.Split.{split_on, lines}
use vdsm_rs.Encoding.Trim.{trim}
use vdsm_rs.Supervdsm.{PrivOp, PrivResult, failure}
use vdsm_rs.Supervdsm.Exec.{System, execute}

both : Option ℕ → Option ℕ → Option (ℕ × ℕ)
both (some uid) (some gid) = some (uid, gid)
both _ _ = none

-- The uid and gid of a line of /etc/passwd, if it is the user's.
unfoldable pub user_entry : Text → List Text → Option (ℕ × ℕ)
unfolding both
user_entry name (n ∷ password ∷ uid ∷ gid ∷ more) =
    if text_eq n name then both (parse_word u32_max uid) (parse_word u32_max gid) else none
user_entry name _ = none

unfoldable pub find_user : Text → List Text → Option (ℕ × ℕ)
find_user name [] = none
find_user name (line ∷ rest) = elim (user_entry name (split_on b':' line)) [
  | some ids ↦ some ids
  | none ↦ find_user name rest
]

-- `lookup_user`, on what was read from /etc/passwd; `none` is the error "user not found".
unfoldable pub lookup_user : Text → Text → Option (ℕ × ℕ)
unfolding find_user user_entry
lookup_user name passwd = find_user name (lines passwd)

-- What a connection leaves behind: the state of the machine and the result that is written back.
pub record Served (W : Type 0) : Type 0 where
  pub world : W
  pub reply : Option PrivResult

abbrev pub denied : PrivResult
denied = failure (codes "unauthorized: peer uid not permitted")

module _ {W : Type 0} (sys : System W) (decode : Text → Result Text PrivOp) where
  serve_op : Result Text PrivOp → W → Served W
  serve_op (ok op) w = let (r, w') = execute sys op w in record { world = w'; reply = some r }
  serve_op (err e) w = record {
    world = w;
    reply = some (failure (codes "malformed request: " ++ e));
  }

  -- `handle`, for a peer's uid and the line that it sent; `serde_json::from_str` is a parameter. The
  -- result is written as one line, which may be lost if the peer has gone.
  unfoldable pub handle : ℕ → ℕ → Text → W → Served W
  unfolding serve_op
  handle allowed_uid uid req w =
      if not (uid == allowed_uid)
      then record { world = w; reply = some denied }
      else if is_empty (trim req)
      then record { world = w; reply = none }
      else serve_op (decode (trim req)) w
