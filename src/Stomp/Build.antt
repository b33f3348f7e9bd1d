-- ===== src/Stomp/Build.antt =====
-- crates/vdsm-rpc/src/stomp.rs: `mod build`, the frames that the server sends, and that they can be
-- read back.
use vdsm_rs.Base.{
  ℕ, ◌<◌, ◌≡◌, Option, none, some, [], ◌∷◌, ◌++◌, arith, Bytes, Text, codes, text_eq, length, All,
}
use vdsm_rs.Encoding.Decimal.{
  usize_max, to_string, to_string-IsDigit, parse_usize-to_string, IsDigit,
}
use vdsm_rs.Encoding.Utf8.{IsUtf8, IsAscii, IsAscii-IsUtf8}
use vdsm_rs.Stomp.{Frame, done, new_frame, with_header, with_body, find_header}
use vdsm_rs.Stomp.Parser.{content_length, parse_frame}
use vdsm_rs.Stomp.RoundTrip.{IsSendable, IsUtf8Header, parse-to_bytes}
use vdsm_rs.Stomp.Wire.{to_bytes}

add_session : Frame → Option Text → Frame
add_session f none = f
add_session f (some s) = with_header f (codes "session") s

-- `CONNECTED` reply to a client `CONNECT` / `STOMP` frame.
unfoldable pub connected : Text → Text → Option Text → Frame
unfolding new_frame with_header add_session
connected version server session =
    add_session
      (with_header
        (with_header (with_header (new_frame (codes "CONNECTED")) (codes "version") version)
          (codes "server") server)
        (codes "heart-beat") (codes "0,0"))
      session

-- `MESSAGE` frame carrying a JSON-RPC response body.
unfoldable pub message : Text → Text → Bytes → Frame
unfolding new_frame with_header with_body
message destination subscription body =
    with_body
      (with_header
        (with_header
          (with_header (with_header (new_frame (codes "MESSAGE")) (codes "destination") destination)
            (codes "subscription") subscription)
          (codes "content-type") (codes "application/json"))
        content_length (to_string (length body)))
      body

-- `ERROR` frame.
unfoldable pub error : Text → Text → Frame
unfolding new_frame with_header with_body
error message body =
    with_body
      (with_header
        (with_header (with_header (new_frame (codes "ERROR")) (codes "message") message)
          (codes "content-type") (codes "text/plain"))
        content_length (to_string (length body)))
      body

-- `RECEIPT` ack.
unfoldable pub receipt : Text → Frame
unfolding new_frame with_header
receipt receipt_id = with_header (new_frame (codes "RECEIPT")) (codes "receipt-id") receipt_id

IsDigit-IsAscii : (s : Text) → All IsDigit s → IsAscii s
IsDigit-IsAscii [] h = tt
IsDigit-IsAscii (c ∷ s) h = (omega arith, IsDigit-IsAscii s h.1)

to_string-IsUtf8 : (n : ℕ) → IsUtf8 (to_string n)
to_string-IsUtf8 n = IsAscii-IsUtf8 _ (IsDigit-IsAscii _ (to_string-IsDigit n))

ascii : (s : Text) → IsAscii s → IsUtf8 s
ascii = IsAscii-IsUtf8

IsUtf8-content_length : (n : ℕ) → IsUtf8Header (content_length, to_string n)
IsUtf8-content_length n = (ascii _ (omega arith), to_string-IsUtf8 n)

message-IsSendable :
    (destination subscription : Text) (body : Bytes)
    → IsUtf8 destination
    → IsUtf8 subscription
    → length body < usize_max
    → IsSendable (message destination subscription body)
unfolding message find_header text_eq
message-IsSendable destination subscription body hd hs small = record {
  head = record {
    command_utf8 = ascii _ (omega arith);
    command_ne_nil = cc;
    one_line = omega arith;
    no_cr = omega arith;
    headers_utf8 = (
      (ascii _ (omega arith), hd),
      (
        (ascii _ (omega arith), hs),
        ((ascii _ (omega arith), ascii _ (omega arith)), (IsUtf8-content_length (length body), tt)),
      ),
    );
  };
  body_fits = (parse_usize-to_string (length body) (omega arith), small);
}

error-IsSendable :
    (text body : Text) → IsUtf8 text → length body < usize_max → IsSendable (error text body)
unfolding error find_header text_eq
error-IsSendable text body h small = record {
  head = record {
    command_utf8 = ascii _ (omega arith);
    command_ne_nil = cc;
    one_line = omega arith;
    no_cr = omega arith;
    headers_utf8 = (
      (ascii _ (omega arith), h),
      ((ascii _ (omega arith), ascii _ (omega arith)), (IsUtf8-content_length (length body), tt)),
    );
  };
  body_fits = (parse_usize-to_string (length body) (omega arith), small);
}

receipt-IsSendable : (id : Text) → IsUtf8 id → IsSendable (receipt id)
unfolding receipt find_header text_eq
receipt-IsSendable id h = record {
  head = record {
    command_utf8 = ascii _ (omega arith);
    command_ne_nil = cc;
    one_line = omega arith;
    no_cr = omega arith;
    headers_utf8 = ((ascii _ (omega arith), h), tt);
  };
  body_fits = tt;
}

connected-IsSendable :
    (version server session : Text)
    → IsUtf8 version
    → IsUtf8 server
    → IsUtf8 session
    → IsSendable (connected version server (some session))
unfolding connected find_header text_eq
connected-IsSendable version server session hv hs hn = record {
  head = record {
    command_utf8 = ascii _ (omega arith);
    command_ne_nil = cc;
    one_line = omega arith;
    no_cr = omega arith;
    headers_utf8 = (
      (ascii _ (omega arith), hv),
      (
        (ascii _ (omega arith), hs),
        ((ascii _ (omega arith), ascii _ (omega arith)), ((ascii _ (omega arith), hn), tt)),
      ),
    );
  };
  body_fits = tt;
}

-- Each frame that the server builds from texts, with a body below the largest word, is read back
-- whole by the parser with nothing of what follows it; the body may hold any bytes, NULs included.
pub parse-built :
    (a b c : Text) (body rest : Bytes)
    → IsUtf8 a
    → IsUtf8 b
    → IsUtf8 c
    → length body < usize_max
    → (parse_frame (to_bytes (message a b body) ++ rest) ≡ done (message a b body, rest))
      × (parse_frame (to_bytes (error a body) ++ rest) ≡ done (error a body, rest))
      × (parse_frame (to_bytes (receipt a) ++ rest) ≡ done (receipt a, rest))
      × (parse_frame (to_bytes (connected a b (some c)) ++ rest)
          ≡ done (connected a b (some c), rest))
parse-built a b c body rest ha hb hc small = (
  parse-to_bytes _ rest (message-IsSendable a b body ha hb small),
  parse-to_bytes _ rest (error-IsSendable a body ha small),
  parse-to_bytes _ rest (receipt-IsSendable a ha),
  parse-to_bytes _ rest (connected-IsSendable a b c ha hb hc),
)
