-- ===== src/Server/Reply.antt =====
-- crates/vdsm-rpc/src/server.rs: `handle_stomp_send`. The wire trace only logs, and is left out.
use vdsm_rs.Base.{
  ◌≡◌, ◌⊎◌, inl, inr, refl, Bool, true, false, ◌&&◌, Option, none, some, List, [], ◌∷◌, ◌++◌,
  if◌then◌else◌, Text, Bytes, codes, text_eq, Result, ok, err,
}
use vdsm_rs.Encoding.TextMap.{TextMap}
use vdsm_rs.Encoding.Utf8.{from_utf8, Utf8Error}
use vdsm_rs.Rpc.Dispatch
use vdsm_rs.Rpc.Protocol.{Request, Response, JsonRpcError, response_ok, response_err, parse_error}
use vdsm_rs.Server.{Env}
use vdsm_rs.Stomp.Build.{message}
use vdsm_rs.Stomp.{Frame, header}

abbrev pub is_none {ℓ} : {A : Type ℓ} → Option A → Bool
is_none none = true
is_none (some a) = false

abbrev pub unwrap_or {ℓ} : {A : Type ℓ} → A → Option A → A
unwrap_or d none = d
unwrap_or d (some a) = a

abbrev pub default_queue : Text
default_queue = codes "/queue/_local/vdsm/responses"

-- `subscriptions.values().next()`, on the entries in the order of iteration.
unfoldable pub first_destination : List (Text × Text) → Option Text
first_destination [] = none
first_destination ((id, d) ∷ es) = some d

-- `subscriptions.iter().find(|(_, d)| d == reply_dest)`, and its id.
unfoldable pub find_subscription : Text → List (Text × Text) → Option Text
find_subscription dest [] = none
find_subscription dest ((id, d) ∷ es) =
    if text_eq d dest then some id else find_subscription dest es

abbrev or_else {ℓ} : {A : Type ℓ} → Option A → Option A → Option A
or_else none b = b
or_else (some a) b = some a

-- Where the reply goes, from the `reply-to` header and the subscriptions in the order of iteration.
unfoldable pub reply_destination : Option Text → List (Text × Text) → Text
unfolding first_destination
reply_destination reply_to entries =
    unwrap_or default_queue (or_else reply_to (first_destination entries))

-- The outcome of a SEND: nothing is written, a frame is written, or `?` ends the connection.
pub data Sent : Type 0 where
  silent : Sent
  wrote : Frame → Sent
  broken : Sent

abbrev pub outcome : {V : Type 0} → Option V → Result (JsonRpcError V) V → Response V
outcome id (ok value) = response_ok id value
outcome id (err e) = response_err id e

abbrev pub envelope_error : Text → Text
envelope_error e = codes "invalid JSON-RPC envelope: " ++ e

module _ {V W : Type 0} (env : Env V W) where
  -- The match on `parsed`: the response, the id of the request, and the state behind the handler.
  unfoldable pub respond : Result Text (Request V) → W → Response V × Option V × W
  respond (ok req) w =
      let (result, w') = Dispatch.invoke env.dispatcher req.method req.params w in
      (outcome req.id result, req.id, w')
  respond (err e) w = (response_err none (parse_error (envelope_error e)), none, w)

  write_reply : Frame → List (Text × Text) → Option Bytes → Sent
  write_reply frame entries none = broken
  write_reply frame entries (some body) =
      let dest = reply_destination (header frame (codes "reply-to")) entries in
      wrote (message dest (unwrap_or (codes "0") (find_subscription dest entries)) body)

  -- What is written for a response; a success with no id is a notification's, and is dropped.
  unfoldable pub reply_to : Frame → TextMap Text → Response V → Option V → Sent
  unfolding write_reply
  reply_to frame subscriptions response id =
      if is_none id && is_none response.error
      then silent
      else write_reply frame (env.iter subscriptions) (env.encode response)

  send_text : Frame → TextMap Text → Result Utf8Error Text → W → Sent × W
  send_text frame subscriptions (err e) w = (silent, w)
  send_text frame subscriptions (ok body) w =
      let (response, id, w') = respond (env.decode body) w in
      (reply_to frame subscriptions response id, w')

  -- `handle_stomp_send`
  unfoldable pub handle_stomp_send : Frame → TextMap Text → W → Sent × W
  unfolding send_text
  handle_stomp_send frame subscriptions w = send_text frame subscriptions (from_utf8 frame.body) w

  -- What is done with a body that is text.
  abbrev pub answered : Frame → TextMap Text → Response V × Option V × W → Sent × W
  answered frame subscriptions (response, id, w) = (reply_to frame subscriptions response id, w)

  -- A body that is not UTF-8 is dropped; the outcome of any other is that of its request.
  pub handle_stomp_send-cases :
      (f : Frame) (m : TextMap Text) (w : W)
      → (handle_stomp_send f m w ≡ (silent, w))
        ⊎ ((t : Text) × (from_utf8 f.body ≡ ok t)
            × (handle_stomp_send f m w ≡ answered f m (respond (env.decode t) w)))
  unfolding handle_stomp_send
  handle_stomp_send-cases f m w = by_body (from_utf8 f.body) refl
    where
      by_body :
          (r : Result Utf8Error Text)
          → from_utf8 f.body ≡ r
          → (handle_stomp_send f m w ≡ (silent, w))
            ⊎ ((t : Text) × (from_utf8 f.body ≡ ok t)
                × (handle_stomp_send f m w ≡ answered f m (respond (env.decode t) w)))
      by_body (err e) q = inl (rw q)
      by_body (ok t) q = inr (t, q, rw q)
