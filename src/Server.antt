-- ===== src/Server.antt =====
-- crates/vdsm-rpc/src/server.rs: the parts of the server that both framings share. The children model
-- the two framings and prove what they keep.
pub mod Reply
pub mod Session
pub mod Stream
pub mod Chunks
pub mod EndToEnd
pub mod LineFraming
pub mod Handshake
pub mod Routing
pub mod Answers
pub mod Agreement
use vdsm_rs.Base.{
  ℕ, ◌+◌, ◌≡◌, refl, Bool, true, false, ◌&&◌, Option, none, some, List, [], ◌∷◌, map, leb,
  if◌then◌else◌, Text, Bytes, codes, text_eq, Result,
}
use vdsm_rs.Encoding.TextMap.{TextMap}
use vdsm_rs.Encoding.Trim.{trim}
use vdsm_rs.Rpc.Dispatch.{Dispatcher}
use vdsm_rs.Rpc.Protocol.{Request, Response}

-- What a connection is given: the dispatcher; `serde_json`, which reads a request from a text and
-- writes a response; the order in which a hash map is iterated; the peer's address and the version
-- of the crate as they are printed.
pub record Env (V W : Type 0) : Type 0 where
  pub dispatcher : Dispatcher V W
  pub decode : Text → Result Text (Request V)
  pub encode : Response V → Option Bytes
  pub iter : TextMap Text → List (Text × Text)
  pub peer : Text
  pub version : Text

pub data Framing : Type 0 where
  line stomp : Framing

to_ascii_lowercase : ℕ → ℕ
to_ascii_lowercase c = if leb b'A' c && leb c b'Z' then c + 32 else c

-- `Framing::from_str_lossy`
unfoldable pub from_str_lossy : Text → Framing
unfolding to_ascii_lowercase
from_str_lossy s =
    let word = map to_ascii_lowercase (trim s) in
    if text_eq word (codes "stomp")
    then stomp
    else if text_eq word (codes "line")
    then line
    else line
