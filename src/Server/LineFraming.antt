-- ===== src/Server/LineFraming.antt =====
-- crates/vdsm-rpc/src/server.rs: `process_one` and `serve_lines`, the newline-delimited framing.
use vdsm_rs.Base.{
  Bool, true, false, if◌then◌else◌, Option, none, some, List, [], ◌∷◌, ◌++◌, Text, Bytes, Result,
  ok, err,
}
use vdsm_rs.Encoding.Trim.{trim}
use vdsm_rs.Encoding.Utf8.{from_utf8, Utf8Error}
use vdsm_rs.Rpc.Dispatch
use vdsm_rs.Rpc.Protocol.{Request, Response, response_err, parse_error}
use vdsm_rs.Server.Reply.{outcome, envelope_error}
use vdsm_rs.Server.{Env}
use vdsm_rs.Stomp.Lines.{newline}

-- A notification, which has no id, gets no response.
unfoldable pub answer : {V : Type 0} → Option V → Response V → Option (Response V)
answer none r = none
answer (some id) r = some r

-- The state of the host, and the lines written.
pub record LineSession (W : Type 0) : Type 0 where
  pub world : W
  pub out : List Bytes

module _ {V W : Type 0} (env : Env V W) where
  process_request : Result Text (Request V) → W → Option (Response V) × W
  process_request (err e) w = (some (response_err none (parse_error (envelope_error e))), w)
  process_request (ok req) w =
      let (result, w') = Dispatch.invoke env.dispatcher req.method req.params w in
      (answer req.id (outcome req.id result), w')

  -- `process_one`
  unfoldable pub process_one : Text → W → Option (Response V) × W
  unfolding process_request answer
  process_one line w = process_request (env.decode line) w

  -- What is written behind a request: a line or nothing, and the loop goes on, or `?` ends the
  -- connection. What the request has changed stays changed.
  unfoldable pub write_line : Option (Response V) → LineSession W → Bool × LineSession W
  write_line none s = (true, s)
  write_line (some r) s = elim (env.encode r) [
    | none ↦ (false, s)
    | some body ↦ (true, record s { out = s.out ++ (body ++ (newline ∷ [])) ∷ [] })
  ]

  -- A line without its white space.
  unfoldable pub on_trimmed : Text → LineSession W → Bool × LineSession W
  on_trimmed [] s = (true, s)
  on_trimmed (c ∷ cs) s =
      let (response, w) = process_one (c ∷ cs) s.world in
      write_line response (record s { world = w })

  -- One line that `read_line` returned, which fails if it is not UTF-8; whether the loop goes on.
  unfoldable pub on_line : Result Utf8Error Text → LineSession W → Bool × LineSession W
  on_line (err e) s = (false, s)
  on_line (ok text) s = on_trimmed (trim text) s

  -- `serve_lines`, over the lines up to the end of the stream; the session that is left.
  unfoldable pub serve_lines : List Bytes → LineSession W → LineSession W
  unfolding write_line on_trimmed on_line
  serve_lines [] s = s
  serve_lines (line ∷ rest) s =
      let (goes_on, s') = on_line (from_utf8 line) s in
      let after = serve_lines rest s' in if goes_on then after else s'
