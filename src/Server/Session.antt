-- ===== src/Server/Session.antt =====
-- crates/vdsm-rpc/src/server.rs: one frame in `serve_stomp`. The frames written are kept in order;
-- what the peer receives is their bytes one after the other. Writes to the socket are taken to
-- succeed.
use vdsm_rs.Base.{
  Bool, true, false, not, ◌&&◌, ◌||◌, Option, none, some, List, [], ◌∷◌, ◌++◌, if◌then◌else◌, Text,
  codes, text_eq,
}
use vdsm_rs.Encoding.TextMap
use vdsm_rs.Encoding.TextMap.{TextMap}
use vdsm_rs.Server.{Env}
use vdsm_rs.Server.Reply.{Sent, silent, wrote, broken, handle_stomp_send, unwrap_or, default_queue}
use vdsm_rs.Stomp.Build
use vdsm_rs.Stomp.{Frame, header}

-- The variables of the loop but the buffer, the state of the host and the frames written.
pub record Session (W : Type 0) : Type 0 where
  pub subscriptions : TextMap Text
  pub connected : Bool
  pub world : W
  pub sent : List Frame

abbrev pub new_session : {W : Type 0} → W → Session W
new_session w = record { subscriptions = []; connected = false; world = w; sent = [] }

-- The next round of the loop, or `return`.
pub data Next (W : Type 0) : Type 0 where
  go : Session W → Next W
  stop : Session W → Next W

abbrev pub is_connect : Frame → Bool
is_connect f = text_eq f.command (codes "CONNECT") || text_eq f.command (codes "STOMP")

module _ {W : Type 0} where
  -- `write_all(&frame.to_bytes())`
  abbrev pub write : Frame → Session W → Session W
  write f s = record s { sent = s.sent ++ f ∷ [] }

  unfoldable pub after_send : Session W → Sent → W → Next W
  after_send s silent w = go (record s { world = w })
  after_send s (wrote f) w = go (write f (record s { world = w }))
  after_send s broken w = stop (record s { world = w })

  unfoldable pub on_subscribe : Frame → Session W → Session W
  on_subscribe f s = record s {
    subscriptions =
        TextMap.insert (unwrap_or (codes "0") (header f (codes "id")))
          (unwrap_or default_queue (header f (codes "destination"))) s.subscriptions;
  }

  remove_id : Option Text → Session W → Session W
  remove_id none s = s
  remove_id (some id) s = record s { subscriptions = TextMap.remove id s.subscriptions }

  unfoldable pub on_unsubscribe : Frame → Session W → Session W
  unfolding remove_id
  on_unsubscribe f s = remove_id (header f (codes "id")) s

  write_receipt : Option Text → Session W → Session W
  write_receipt none s = s
  write_receipt (some id) s = write (Build.receipt id) s

  unfoldable pub on_disconnect : Frame → Session W → Session W
  unfolding write_receipt
  on_disconnect f s = write_receipt (header f (codes "receipt")) s

module _ {V W : Type 0} (env : Env V W) where
  -- The reply to the first `CONNECT` or `STOMP` frame.
  abbrev pub connected_frame : Frame
  connected_frame =
      Build.connected (codes "1.2") (codes "vdsm-rs/" ++ env.version)
        (some (codes "vdsm-rs-" ++ env.peer))

  unfoldable pub on_connect : Session W → Next W
  on_connect s =
      if s.connected
      then stop (write (Build.error (codes "already connected") []) s)
      else go (write connected_frame (record s { connected = true }))

  unfoldable pub on_send : Frame → Session W → Next W
  on_send f s =
      let (sent, w) = handle_stomp_send env f s.subscriptions s.world in after_send s sent w

  -- The match on the command.
  unfoldable pub on_command : Frame → Session W → Next W
  on_command f s =
      if is_connect f
      then on_connect s
      else if text_eq f.command (codes "SUBSCRIBE")
      then go (on_subscribe f s)
      else if text_eq f.command (codes "UNSUBSCRIBE")
      then go (on_unsubscribe f s)
      else if text_eq f.command (codes "SEND")
      then on_send f s
      else if text_eq f.command (codes "DISCONNECT")
      then stop (on_disconnect f s)
      else go s

  -- One frame, behind `buf.drain(..consumed)`.
  unfoldable pub on_frame : Frame → Session W → Next W
  on_frame f s =
      if not s.connected && not (is_connect f)
      then stop (write (Build.error (codes "expected CONNECT") []) s)
      else on_command f s
