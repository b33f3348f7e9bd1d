-- ===== src/Examples/Connection.antt =====
-- crates/vdsm-rpc/src: the dispatcher and the server's two framings on concrete requests.
use vdsm_rs.Base.{
  ℕ, suc, ◌≡◌, refl, List, [], ◌∷◌, ◌++◌, some, none, Option, Text, Bytes, codes, Result, ok, err,
  arith, text_eq, if◌then◌else◌, map, true,
}
use mathlib.Core.List.Perm
use vdsm_rs.Encoding.TextMap
use vdsm_rs.Encoding.Trim.{trim}
use vdsm_rs.Encoding.Utf8.{IsAscii-IsUtf8}
use vdsm_rs.Rpc.Dispatch.{Dispatcher, Handler, builder, register, invoke}
use vdsm_rs.Rpc.Protocol.{Request, method_not_found, response_err, parse_error}
use vdsm_rs.Server.{Env}
use vdsm_rs.Server.Agreement.{Exchange, IsSameText, AreServed, framings_agree}
use vdsm_rs.Server.Answers.{
  request_answered, notification_silent, failed_notification_answered, bad_envelope_answered,
}
use vdsm_rs.Server.Chunks.{feed_all-chunks}
use vdsm_rs.Server.EndToEnd.{serve-frames}
use vdsm_rs.Server.Handshake.{IsOrderly, serve_stomp-IsOrderly}
use vdsm_rs.Server.LineFraming.{process_one, serve_lines}
use vdsm_rs.Server.Reply.{silent, wrote, handle_stomp_send, outcome, envelope_error}
use vdsm_rs.Server.Routing.{IsDestination, IsSubscription}
use vdsm_rs.Server.Session.{new_session, connected_frame}
use vdsm_rs.Server.Stream.{live, feed_all, serve_stomp, run_frames, session_of}
use vdsm_rs.Stomp.Build.{message}
use vdsm_rs.Stomp.RoundTrip.{IsSendable}
use vdsm_rs.Stomp.Wire.{header_bytes, to_bytes}
use vdsm_rs.Stomp.Escape.{escape_header}
use vdsm_rs.Stomp.{Frame, header, find_header}

-- A verb that counts its calls and answers with its parameter.
abbrev count : Handler ℕ ℕ
count v n = (ok v, suc n)

abbrev dispatcher : Dispatcher ℕ ℕ
dispatcher = register (codes "count") count builder

abbrev request : Text → Option ℕ → Request ℕ
request method id = record { jsonrpc = codes "2.0"; method = method; params = 5; id = id }

-- Three requests are understood.
abbrev decode : Text → Result Text (Request ℕ)
decode t =
    if text_eq t (codes "call")
    then ok (request (codes "count") (some 1))
    else if text_eq t (codes "notify")
    then ok (request (codes "count") none)
    else if text_eq t (codes "lost")
    then ok (request (codes "nope") none)
    else err (codes "eof")

abbrev env : Env ℕ ℕ
env = record {
  dispatcher = dispatcher;
  decode = decode;
  encode = λ r. some (codes "{}");
  iter = λ m. m;
  peer = codes "local";
  version = codes "0.1";
}

-- A frame without headers that sends a text.
abbrev send : Text → Frame
send body = record { command = codes "SEND"; headers = []; body = body }

abbrev subscriptions : TextMap.TextMap Text
subscriptions = (codes "sub-1", codes "jms.queue.x") ∷ []

invoke_counts : (n : ℕ) → invoke dispatcher (codes "count") 5 n ≡ (ok 5, suc n)
unfolding text_eq invoke register TextMap.get TextMap.insert builder
invoke_counts n = refl

invoke_count : invoke dispatcher (codes "count") 5 7 ≡ (ok 5, 8)
invoke_count = invoke_counts 7

invoke_nope : invoke dispatcher (codes "nope") 5 7 ≡ (err (method_not_found (codes "nope")), 7)
unfolding text_eq invoke register TextMap.get TextMap.insert builder
invoke_nope = refl

request_answered_example :
    (dest sub : Text) × (handle_stomp_send env (send (codes "call")) subscriptions 7
      ≡ (wrote (message dest sub (codes "{}")), 8))
    × IsDestination (header (send (codes "call")) (codes "reply-to")) subscriptions dest
    × IsSubscription subscriptions dest sub
    × (process_one env (codes "call") 7 ≡ (some (outcome (some 1) (ok 5)), 8))
unfolding text_eq
request_answered_example =
    request_answered env Perm.refl (send (codes "call")) subscriptions 7 8
      (request (codes "count") (some 1)) 1 (ok 5) (codes "{}")
      (IsAscii-IsUtf8 (codes "call") (omega arith)) refl refl invoke_count refl

notification_silent_example :
    (handle_stomp_send env (send (codes "notify")) subscriptions 7 ≡ (silent, 8))
    × (process_one env (codes "notify") 7 ≡ (none, 8))
unfolding text_eq
notification_silent_example =
    notification_silent env (send (codes "notify")) subscriptions 7 8 (request (codes "count") none)
      5 (IsAscii-IsUtf8 (codes "notify") (omega arith)) refl refl invoke_count

failed_notification_answered_example :
    ((dest sub : Text) × (handle_stomp_send env (send (codes "lost")) subscriptions 7
        ≡ (wrote (message dest sub (codes "{}")), 7)))
    × (process_one env (codes "lost") 7 ≡ (none, 7))
unfolding text_eq
failed_notification_answered_example =
    failed_notification_answered env Perm.refl (send (codes "lost")) subscriptions 7 7
      (request (codes "nope") none) (method_not_found (codes "nope")) (codes "{}")
      (IsAscii-IsUtf8 (codes "lost") (omega arith)) refl refl invoke_nope refl

bad_envelope_answered_example :
    ((dest sub : Text) × (handle_stomp_send env (send (codes "{")) subscriptions 7
        ≡ (wrote (message dest sub (codes "{}")), 7)))
    × (process_one env (codes "{") 7
        ≡ (some (response_err none (parse_error (envelope_error (codes "eof")))), 7))
unfolding text_eq
bad_envelope_answered_example =
    bad_envelope_answered env Perm.refl (send (codes "{")) subscriptions 7 (codes "eof")
      (codes "{}") (IsAscii-IsUtf8 (codes "{") (omega arith)) refl refl

-- A handshake.
abbrev hello : Frame
hello = record { command = codes "CONNECT"; headers = []; body = [] }

hello-IsSendable : IsSendable hello
unfolding find_header
hello-IsSendable = record {
  head = record {
    command_utf8 = IsAscii-IsUtf8 _ (omega arith);
    command_ne_nil = cc;
    one_line = omega arith;
    no_cr = omega arith;
    headers_utf8 = tt;
  };
  body_fits = tt;
}

call-IsSendable : IsSendable (send (codes "call"))
unfolding find_header
call-IsSendable = record {
  head = record {
    command_utf8 = IsAscii-IsUtf8 _ (omega arith);
    command_ne_nil = cc;
    one_line = omega arith;
    no_cr = omega arith;
    headers_utf8 = tt;
  };
  body_fits = omega arith;
}

-- The two frames in three reads, the second of which ends in the first line of the request.
abbrev reads : List Bytes
reads = codes "CONN" ∷ (codes "ECT\n\n" ++ (0 ∷ codes "SE")) ∷ (codes "ND\n\ncall" ++ (0 ∷ [])) ∷ []

serve-frames_example :
    serve_stomp env 7 reads ≡ run_frames env (hello ∷ send (codes "call") ∷ []) (new_session 7)
unfolding to_bytes header_bytes escape_header
serve-frames_example =
    serve-frames env 7 (hello ∷ send (codes "call") ∷ []) reads
      (hello-IsSendable, (call-IsSendable, tt)) (cc, (cc, (cc, tt))) refl

abbrev two_reads : List Bytes
two_reads = (codes "CONNECT\n\n" ++ (0 ∷ [])) ∷ (codes "SEND\n\ncall" ++ (0 ∷ [])) ∷ []

feed_all-chunks_example :
    feed_all env (live [] (new_session 7)) reads ≡ feed_all env (live [] (new_session 7)) two_reads
feed_all-chunks_example =
    feed_all-chunks env (live [] (new_session 7)) reads two_reads (cc, (cc, (cc, tt)))
      (cc, (cc, tt)) refl

serve_stomp-IsOrderly_example : IsOrderly env 7 (session_of (serve_stomp env 7 reads))
serve_stomp-IsOrderly_example = serve_stomp-IsOrderly env 7 reads

-- The request once as a line and once as a frame.
abbrev call_exchange : Exchange
call_exchange = record {
  line = codes " call\n";
  frame = send (codes "call");
  response = codes "{}";
}

call_exchange-IsSameText : IsSameText call_exchange
unfolding trim
call_exchange-IsSameText = record {
  sends = refl;
  line_utf8 = IsAscii-IsUtf8 _ (omega arith);
  body_utf8 = IsAscii-IsUtf8 _ (omega arith);
  trimmed = refl;
  body_ne_nil = cc;
}

calls-AreServed : AreServed env 7 (call_exchange ∷ call_exchange ∷ []) 9
unfolding text_eq
calls-AreServed =
    let req = request (codes "count") (some 1) in
    let last : AreServed env 8 (call_exchange ∷ []) 9 =
      (call_exchange-IsSameText, (9, (req, 1, ok 5, refl, refl, invoke_counts 8, refl), refl)) in
    (call_exchange-IsSameText, (8, (req, 1, ok 5, refl, refl, invoke_counts 7, refl), last))

abbrev two_calls : List Bytes
two_calls = reads ++ (codes "SEND\n\nca" ∷ (codes "ll" ++ (0 ∷ [])) ∷ [])

framings_agree_example :
    ((gs : List Frame) × (map (λ g. g.body) gs ≡ codes "{}" ∷ codes "{}" ∷ [])
      × (serve_stomp env 7 two_calls
          ≡ live [] (record {
            subscriptions = [];
            connected = true;
            world = 9;
            sent = connected_frame env ∷ gs;
          })))
    × (serve_lines env (codes " call\n" ∷ codes " call\n" ∷ []) (record { world = 7; out = [] })
        ≡ record { world = 9; out = codes "{}\n" ∷ codes "{}\n" ∷ [] })
unfolding to_bytes header_bytes escape_header
framings_agree_example =
    framings_agree env Perm.refl 7 9 hello (call_exchange ∷ call_exchange ∷ []) two_calls refl
      hello-IsSendable (call-IsSendable, (call-IsSendable, tt)) calls-AreServed
      (cc, (cc, (cc, (cc, (cc, tt))))) refl
