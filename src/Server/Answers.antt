-- ===== src/Server/Answers.antt =====
-- crates/vdsm-rpc/src/server.rs: which requests are answered, in either framing, and with what.
use vdsm_rs.Base.{◌≡◌, refl, ◌∙◌, true, none, some, Bytes, Text, codes, Result, ok, err}
use mathlib.Core.List.{Perm}
use vdsm_rs.Encoding.TextMap.{TextMap}
use vdsm_rs.Encoding.Utf8.{IsUtf8, from_utf8-IsUtf8}
use vdsm_rs.Rpc.Dispatch
use vdsm_rs.Rpc.Protocol.{Request, Response, JsonRpcError, response_ok, response_err, parse_error}
use vdsm_rs.Server.{Env}
use vdsm_rs.Server.LineFraming.{process_one}
use vdsm_rs.Server.Reply.{
  silent, wrote, handle_stomp_send, respond, reply_to, outcome, envelope_error, answered, is_none,
}
use vdsm_rs.Server.Routing.{IsDestination, IsSubscription, reply_to-wrote}
use vdsm_rs.Stomp.Build.{message}
use vdsm_rs.Stomp.{Frame, header}

module _ {V W : Type 0} (env : Env V W) where
  handle_stomp_send-utf8 :
      (f : Frame) (m : TextMap Text) (w : W)
      → IsUtf8 f.body
      → handle_stomp_send env f m w ≡ answered env f m (respond env (env.decode f.body) w)
  unfolding handle_stomp_send
  handle_stomp_send-utf8 f m w h = rw (from_utf8-IsUtf8 f.body h)

  respond-request :
      (t : Text) (w w' : W) (req : Request V) (r : Result (JsonRpcError V) V)
      → env.decode t ≡ ok req
      → Dispatch.invoke env.dispatcher req.method req.params w ≡ (r, w')
      → respond env (env.decode t) w ≡ (outcome req.id r, req.id, w')
  unfolding respond
  respond-request t w w' req r d v = rw (d, v)

  reply_to_silent :
      (f : Frame) (m : TextMap Text) (r : Response V)
      → is_none r.error ≡ true
      → reply_to env f m r none ≡ silent
  unfolding reply_to
  reply_to_silent f m r e = rw e

  process_one_notification :
      (t : Text) (w w' : W) (req : Request V) (r : Result (JsonRpcError V) V)
      → env.decode t ≡ ok req
      → req.id ≡ none
      → Dispatch.invoke env.dispatcher req.method req.params w ≡ (r, w')
      → process_one env t w ≡ (none, w')
  unfolding process_one
  process_one_notification t w w' req r d e v = rw (d, v, e)

  -- A notification in a body that is UTF-8 and that succeeds is run once and answered in neither
  -- framing.
  pub notification_silent :
      (f : Frame) (m : TextMap Text) (w w' : W) (req : Request V) (value : V)
      → IsUtf8 f.body
      → env.decode f.body ≡ ok req
      → req.id ≡ none
      → Dispatch.invoke env.dispatcher req.method req.params w ≡ (ok value, w')
      → (handle_stomp_send env f m w ≡ (silent, w')) × (process_one env f.body w ≡ (none, w'))
  unfolding response_ok
  notification_silent f m w w' req value h d e v = (
    handle_stomp_send-utf8 f m w h
        ∙ rw (
          respond-request f.body w w' req (ok value) d v,
          e,
          reply_to_silent f m (response_ok none value) refl,
        ),
    process_one_notification f.body w w' req (ok value) d e v,
  )

-- A hash map is iterated over its own entries, each once, in some order.
module _ {V W : Type 0} (env : Env V W) (visits : (m : TextMap Text) → Perm (env.iter m) m) where
  -- A request with an id, in a body that is UTF-8 and with a response that can be encoded, is run
  -- once, and its result or error, under the request's id, is the body of
  -- one MESSAGE, which is routed to the `reply-to` queue, else to a subscribed queue, else to the
  -- default queue, under the id of a subscription to that queue, or "0" if there is none. The line
  -- framing has the same response and effect for the same text.
  pub request_answered :
      (f : Frame) (m : TextMap Text) (w w' : W) (req : Request V) (i : V)
      (r : Result (JsonRpcError V) V) (b : Bytes)
      → IsUtf8 f.body
      → env.decode f.body ≡ ok req
      → req.id ≡ some i
      → Dispatch.invoke env.dispatcher req.method req.params w ≡ (r, w')
      → env.encode (outcome (some i) r) ≡ some b
      → (dest sub : Text) × (handle_stomp_send env f m w ≡ (wrote (message dest sub b), w'))
        × IsDestination (header f (codes "reply-to")) m dest
        × IsSubscription m dest sub
        × (process_one env f.body w ≡ (some (outcome (some i) r), w'))
  unfolding process_one
  request_answered f m w w' req i r b h d e v q =
      let (dest, sub, sent, to, under) =
        reply_to-wrote env visits f m (outcome (some i) r) (some i) b refl q in
      (
        dest,
        sub,
        handle_stomp_send-utf8 env f m w h
            ∙ rw (respond-request env f.body w w' req r d v, e, sent),
        to,
        under,
        rw (d, v, e),
      )

  -- A notification in a body that is UTF-8 that fails, and whose error can be encoded, is run once and
  -- answered over STOMP by a MESSAGE with its error and no id, and is not
  -- answered by the line framing.
  pub failed_notification_answered :
      (f : Frame) (m : TextMap Text) (w w' : W) (req : Request V) (e : JsonRpcError V) (b : Bytes)
      → IsUtf8 f.body
      → env.decode f.body ≡ ok req
      → req.id ≡ none
      → Dispatch.invoke env.dispatcher req.method req.params w ≡ (err e, w')
      → env.encode (response_err none e) ≡ some b
      → ((dest sub : Text) × (handle_stomp_send env f m w ≡ (wrote (message dest sub b), w')))
        × (process_one env f.body w ≡ (none, w'))
  unfolding response_err
  failed_notification_answered f m w w' req e b h d n v q =
      let (dest, sub, sent, to, under) =
        reply_to-wrote env visits f m (response_err none e) none b refl q in
      (
        (
          dest,
          sub,
          handle_stomp_send-utf8 env f m w h
              ∙ rw (respond-request env f.body w w' req (err e) d v, n, sent),
        ),
        process_one_notification env f.body w w' req (err e) d n v,
      )

  -- A text in UTF-8 that is no JSON-RPC request runs no handler, and is answered in both framings by a
  -- parse error with no id, if that can be encoded.
  pub bad_envelope_answered :
      (f : Frame) (m : TextMap Text) (w : W) (why : Text) (b : Bytes)
      → IsUtf8 f.body
      → env.decode f.body ≡ err why
      → env.encode (response_err none (parse_error (envelope_error why))) ≡ some b
      → ((dest sub : Text) × (handle_stomp_send env f m w ≡ (wrote (message dest sub b), w)))
        × (process_one env f.body w
            ≡ (some (response_err none (parse_error (envelope_error why))), w))
  unfolding response_err respond process_one
  bad_envelope_answered f m w why b h d q =
      let (dest, sub, sent, to, under) =
        reply_to-wrote env visits f m (response_err none (parse_error (envelope_error why))) none b
          refl q in
      ((dest, sub, handle_stomp_send-utf8 env f m w h ∙ rw (d, sent)), rw d)
