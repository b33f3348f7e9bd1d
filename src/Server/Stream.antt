-- ===== src/Server/Stream.antt =====
-- crates/vdsm-rpc/src/server.rs: the loops of `serve_stomp`, which buffer what `read` returns and take
-- off as many frames as the buffer holds.
use vdsm_rs.Base.{ℕ, zero, suc, none, some, List, [], ◌∷◌, ◌++◌, Text, Bytes, codes, length}
use vdsm_rs.Encoding.Decimal.{to_string}
use vdsm_rs.Encoding.Utf8.{Utf8Error}
use vdsm_rs.Server.{Env}
use vdsm_rs.Server.Session.{Session, new_session, Next, go, stop, write, on_frame}
use vdsm_rs.Stomp.Build
use vdsm_rs.Stomp.Parser.{parse_frame}
use vdsm_rs.Stomp.{
  Frame, Parse, ParseError, malformed, utf8, content_length_mismatch, bad_content_length, done,
  more, fail, panic,
}

-- `Display` of `Utf8Error`, which belongs to the standard library.
display_utf8 : Utf8Error → Text
display_utf8 e = elim e.error_len [
  | none ↦ codes "incomplete utf-8 byte sequence from index " ++ to_string e.valid_up_to
  | some n ↦
      codes "invalid utf-8 sequence of "
      ++ (to_string n ++ (codes " bytes from index " ++ to_string e.valid_up_to))
]

-- `Display` of `ParseError`, from its `#[error(…)]` attributes in stomp.rs.
unfoldable pub display_error : ParseError → Text
unfolding display_utf8
display_error (malformed m) = codes "malformed frame: " ++ m
display_error (utf8 e) = codes "invalid utf-8 in command or header: " ++ display_utf8 e
display_error (content_length_mismatch declared actual) =
    codes "declared content-length "
    ++ (to_string declared ++ (codes " disagrees with body terminator at " ++ to_string actual))
display_error (bad_content_length v) = codes "invalid content-length header: " ++ v

-- A connection: its loop waits for bytes, or has returned, or its task has panicked.
pub data Conn (W : Type 0) : Type 0 where
  live : Bytes → Session W → Conn W
  closed : Session W → Conn W
  crashed : Session W → Conn W

-- The session that a connection has, or that it ended with.
abbrev pub session_of : {W : Type 0} → Conn W → Session W
session_of (live buf s) = s
session_of (closed s) = s
session_of (crashed s) = s

module _ {V W : Type 0} (env : Env V W) where
  -- What the match on a command does to the loop: the next round, or `return`.
  unfoldable pub proceed : (Bytes → Session W → Conn W) → Bytes → Next W → Conn W
  proceed again rest (go s) = again rest s
  proceed again rest (stop s) = closed s

  -- The match on the outcome of `parse_frame`.
  unfoldable pub round :
      (Bytes → Session W → Conn W) → Bytes → Session W → Parse (Frame × Bytes) → Conn W
  round again buf s (done (frame, rest)) = proceed again rest (on_frame env frame s)
  round again buf s more = live buf s
  round again buf s (fail e) =
      closed (write (Build.error (codes "malformed frame") (display_error e)) s)
  round again buf s panic = crashed s

  -- The inner loop. The fuel is one more than the bytes in the buffer, and a frame takes at least one
  -- byte, so it never runs out.
  unfoldable pub run : ℕ → Bytes → Session W → Conn W
  run zero buf s = live buf s
  run (suc f) buf s = round (run f) buf s (parse_frame buf)

  unfoldable pub drain : Bytes → Session W → Conn W
  drain buf s = run (suc (length buf)) buf s

  -- One round of the outer loop: what `read` returned, where no byte is the end of the stream.
  unfoldable pub feed : Conn W → Bytes → Conn W
  feed (live buf s) [] = closed s
  feed (live buf s) (c ∷ cs) = drain (buf ++ (c ∷ cs)) s
  feed (closed s) chunk = closed s
  feed (crashed s) chunk = crashed s

  unfoldable pub feed_all : Conn W → List Bytes → Conn W
  feed_all c [] = c
  feed_all c (chunk ∷ chunks) = feed_all (feed c chunk) chunks

  -- `serve_stomp`, over what the reads return.
  unfoldable pub serve_stomp : W → List Bytes → Conn W
  serve_stomp w chunks = feed_all (live [] (new_session w)) chunks

  -- The same loop over frames that have already been read.
  unfoldable pub run_frames : List Frame → Session W → Conn W
  run_frames [] s = live [] s
  run_frames (f ∷ fs) s = elim (on_frame env f s) [ go s' ↦ run_frames fs s' | stop s' ↦ closed s' ]
