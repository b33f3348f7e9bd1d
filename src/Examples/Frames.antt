-- ===== src/Examples/Frames.antt =====
-- crates/vdsm-rpc/src/stomp.rs: the parser and the printer on concrete frames.
use vdsm_rs.Base.{
  ◌≡◌, ◌↔◌, ◌<◌, refl, [], ◌∷◌, ◌++◌, some, Text, Bytes, codes, All, length, arith, text_eq,
}
use vdsm_rs.Encoding.Decimal.{parse_usize, usize_max}
use vdsm_rs.Encoding.Utf8.{IsAscii-IsUtf8}
use vdsm_rs.Stomp.{Frame, done, more, panic, find_header}
use vdsm_rs.Stomp.Build.{message, error, receipt, connected, parse-built}
use vdsm_rs.Stomp.Escape.{escape_header, escape-IsInert, unescape-escape, unescape_header, IsInert}
use vdsm_rs.Stomp.Panics.{read_body-panic_iff, parse_max_length-panic}
use vdsm_rs.Stomp.Parser.{content_length, parse_frame, read_body}
use vdsm_rs.Stomp.Prefixes.{parse_prefix, parse_frame-shorter}
use vdsm_rs.Stomp.RoundTrip.{HasHead, IsSendable, parse-to_bytes}
use vdsm_rs.Stomp.Streaming.{Grows, parse_frame-extend}
use vdsm_rs.Stomp.Wire.{header_bytes, to_bytes}

-- A request with a header whose value has to be escaped, and a NUL in the body.
abbrev request : Frame
request = record {
  command = codes "SEND";
  headers = (codes "destination", codes "jms:topic") ∷ (content_length, codes "3") ∷ [];
  body = b'a' ∷ 0 ∷ b'b' ∷ [];
}

request-HasHead : HasHead request
request-HasHead = record {
  command_utf8 = IsAscii-IsUtf8 _ (omega arith);
  command_ne_nil = cc;
  one_line = omega arith;
  no_cr = omega arith;
  headers_utf8 = (
    (IsAscii-IsUtf8 _ (omega arith), IsAscii-IsUtf8 _ (omega arith)),
    ((IsAscii-IsUtf8 _ (omega arith), IsAscii-IsUtf8 _ (omega arith)), tt),
  );
}

request-IsSendable : IsSendable request
unfolding find_header text_eq parse_usize
request-IsSendable = record { head = request-HasHead; body_fits = (refl, omega arith) }

parse-to_bytes_example :
    parse_frame (to_bytes request ++ codes "\nSEND") ≡ done (request, codes "\nSEND")
parse-to_bytes_example = parse-to_bytes request (codes "\nSEND") request-IsSendable

abbrev first_bytes : Bytes
first_bytes = codes "SEND\ndestination:jms\\ctopic\ncontent-length:3\n\na"

parse_prefix_example : parse_frame first_bytes ≡ more
unfolding to_bytes escape_header header_bytes
parse_prefix_example =
    parse_prefix request first_bytes (0 ∷ b'b' ∷ 0 ∷ []) request-IsSendable refl cc

abbrev disconnect_frame : Frame
disconnect_frame = record { command = codes "DISCONNECT"; headers = []; body = [] }

disconnect-IsSendable : IsSendable disconnect_frame
unfolding find_header
disconnect-IsSendable = record {
  head = record {
    command_utf8 = IsAscii-IsUtf8 _ (omega arith);
    command_ne_nil = cc;
    one_line = omega arith;
    no_cr = omega arith;
    headers_utf8 = tt;
  };
  body_fits = tt;
}

abbrev disconnect_bytes : Bytes
disconnect_bytes = to_bytes disconnect_frame ++ codes "X"

parse_disconnect : parse_frame disconnect_bytes ≡ done (disconnect_frame, codes "X")
parse_disconnect = parse-to_bytes disconnect_frame (codes "X") disconnect-IsSendable

parse_frame-shorter_example : length (codes "X") < length disconnect_bytes
parse_frame-shorter_example =
    parse_frame-shorter disconnect_bytes (codes "X") disconnect_frame parse_disconnect

parse_frame-extend_example :
    Grows (codes "YZ") (parse_frame disconnect_bytes) (parse_frame (disconnect_bytes ++ codes "YZ"))
parse_frame-extend_example = parse_frame-extend disconnect_bytes (codes "YZ")

abbrev largest : Frame
largest = record {
  command = codes "CONNECT";
  headers = (content_length, codes "18446744073709551615") ∷ [];
  body = [];
}

largest-HasHead : HasHead largest
largest-HasHead = record {
  command_utf8 = IsAscii-IsUtf8 _ (omega arith);
  command_ne_nil = cc;
  one_line = omega arith;
  no_cr = omega arith;
  headers_utf8 = ((IsAscii-IsUtf8 _ (omega arith), IsAscii-IsUtf8 _ (omega arith)), tt);
}

parse_max_length-panic_example : parse_frame (to_bytes largest ++ []) ≡ panic
unfolding find_header text_eq parse_usize
parse_max_length-panic_example =
    parse_max_length-panic largest [] (codes "18446744073709551615") largest-HasHead refl refl

abbrev one_byte_body : Bytes
one_byte_body = b'x' ∷ 0 ∷ []

read_body-panic_iff_example : (read_body (some 1) one_byte_body ≡ panic) ↔ (some 1 ≡ some usize_max)
read_body-panic_iff_example = read_body-panic_iff (some 1) one_byte_body

parse-built_example :
    (parse_frame (to_bytes (message (codes "q") (codes "1") (0 ∷ [])) ++ codes "M")
      ≡ done (message (codes "q") (codes "1") (0 ∷ []), codes "M"))
    × (parse_frame (to_bytes (error (codes "q") (0 ∷ [])) ++ codes "M")
        ≡ done (error (codes "q") (0 ∷ []), codes "M"))
    × (parse_frame (to_bytes (receipt (codes "q")) ++ codes "M")
        ≡ done (receipt (codes "q"), codes "M"))
    × (parse_frame (to_bytes (connected (codes "q") (codes "1") (some (codes "s"))) ++ codes "M")
        ≡ done (connected (codes "q") (codes "1") (some (codes "s")), codes "M"))
parse-built_example =
    parse-built (codes "q") (codes "1") (codes "s") (0 ∷ []) (codes "M")
      (IsAscii-IsUtf8 (codes "q") (omega arith)) (IsAscii-IsUtf8 (codes "1") (omega arith))
      (IsAscii-IsUtf8 (codes "s") (omega arith)) (omega arith)

-- A backslash, a colon and both ends of a line.
abbrev awkward : Text
awkward = codes "a\\b:c\r\n"

unescape-escape_example : unescape_header (escape_header awkward) ≡ awkward
unescape-escape_example = unescape-escape awkward

escape-IsInert_example : All IsInert (escape_header awkward)
escape-IsInert_example = escape-IsInert awkward
