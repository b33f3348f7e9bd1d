-- ===== src/Stomp/Parser.antt =====
-- crates/vdsm-rpc/src/stomp.rs: `parse_frame`. An early `return Ok(None)` or `return Err(_)` is an
-- outcome of `Parse`, and `?` is its bind. Each round of the header loop takes a line off the cursor;
-- its fuel is one more than the bytes that are left, so it never runs out.
use vdsm_rs.Base.{
  ℕ, zero, suc, ◌≡◌, refl, sym, Option, none, some, List, [], ◌∷◌, ◌++◌, ltb, ◌==◌, if◌then◌else◌,
  Result, ok, err, Bytes, Text, codes, text_eq, position, length, take, drop, get_elem?,
}
use vdsm_rs.Encoding.Utf8.{Utf8Error, from_utf8}
use vdsm_rs.Encoding.Decimal.{usize_max, parse_usize}
use vdsm_rs.Stomp.{
  Frame, malformed, utf8, content_length_mismatch, bad_content_length, Parse, done, more, fail,
  panic, ◌>>=◌, or_more, or_fail,
}
use vdsm_rs.Stomp.Escape.{unescape_header}
use vdsm_rs.Stomp.Lines.{skip_heartbeats, memchr, next_line}

abbrev pub colon : ℕ
colon = b':'

abbrev pub content_length : Text
content_length = codes "content-length"

-- `std::str::from_utf8(_)?`
abbrev pub check_utf8 : Result Utf8Error Text → Parse Text
check_utf8 (ok s) = done s
check_utf8 (err e) = fail (utf8 e)

-- The name and the value of a header line.
unfoldable pub parse_header : Bytes → Parse (Text × Text)
parse_header raw_line = do
  at ← or_fail (malformed (codes "header line missing ':'")) (position colon raw_line)
  key ← check_utf8 (from_utf8 (take at raw_line))
  val ← check_utf8 (from_utf8 (drop (suc at) raw_line))
  done (unescape_header key, unescape_header val)

-- `if key == "content-length" && content_length.is_none() { … }`
unfoldable pub note_length : Text → Text → Option ℕ → Parse (Option ℕ)
note_length key val (some n) = done (some n)
note_length key val none =
    if text_eq key content_length
    then (do n ← or_fail (bad_content_length val) (parse_usize val); done (some n))
    else done none

abbrev pub Headers : Type 0
Headers = List (Text × Text)

-- The header loop; it ends at a blank line.
unfoldable pub header_lines : ℕ → Bytes → Headers → Option ℕ → Parse (Headers × Option ℕ × Bytes)
header_lines zero cursor headers len = more
header_lines (suc f) cursor headers len = do
  (raw_line, rest) ← next_line cursor
  elim raw_line [
    | [] ↦ done (headers, len, rest)
    | c ∷ cs ↦ do
      (key, val) ← parse_header (c ∷ cs)
      len' ← note_length key val len
      header_lines f rest (headers ++ (key, val) ∷ []) len'
  ]

-- `n + 1` on `usize`. It overflows at the largest word only: a debug build panics at the addition;
-- a release build wraps to 0, passes the length test and panics at the slice `cursor[..n]`.
unfoldable pub checked_succ : ℕ → Option ℕ
checked_succ n = if n == usize_max then none else some (suc n)

abbrev pub or_panic {ℓ} : {A : Type ℓ} → Option A → Parse A
or_panic none = panic
or_panic (some a) = done a

abbrev pub or_length : ℕ → Option ℕ → ℕ
or_length n none = n
or_length n (some i) = i

-- `if cursor[n] != 0 { … }`: the mandatory NUL behind `n` bytes of body.
unfoldable pub terminated : ℕ → Bytes → ℕ → Parse (Bytes × Bytes)
terminated n cursor b =
    if b == 0
    then done (take n cursor, drop (suc n) cursor)
    else fail (content_length_mismatch n (or_length n (position 0 (take n cursor))))

-- The match on `content_length`: a body of known length with a NUL behind it, or up to the first NUL.
unfoldable pub read_body : Option ℕ → Bytes → Parse (Bytes × Bytes)
read_body (some n) cursor = do
  end ← or_panic (checked_succ n)
  if ltb (length cursor) end then more else or_panic (get_elem? cursor n) >>= terminated n cursor
read_body none cursor = do
  nul ← or_more (memchr 0 cursor)
  done (take nul cursor, drop (suc nul) cursor)

-- The command line, which may not be empty.
unfoldable pub parse_command : Bytes → Parse Text
parse_command [] = fail (malformed (codes "empty command line"))
parse_command (c ∷ cs) = check_utf8 (from_utf8 (c ∷ cs))

-- What follows the heartbeats. On an empty cursor there is no line, which is `Ok(None)` too.
unfoldable pub parse_rest : Bytes → Parse (Frame × Bytes)
parse_rest cursor = do
  (command_line, behind) ← next_line cursor
  command ← parse_command command_line
  (headers, len, body_at) ← header_lines (suc (length behind)) behind [] none
  (body, remaining) ← read_body len body_at
  done (record { command = command; headers = headers; body = body }, remaining)

unfoldable pub parse_frame : Bytes → Parse (Frame × Bytes)
unfolding parse_rest
parse_frame input =
    let cursor = skip_heartbeats input in elim cursor [ [] ↦ more | c ∷ cs ↦ parse_rest (c ∷ cs) ]

parse_rest-nil : parse_rest [] ≡ more
unfolding parse_rest next_line memchr
parse_rest-nil = refl

parse_cursor :
    (cursor : Bytes)
    → (elim cursor [ [] ↦ more | c ∷ cs ↦ parse_rest (c ∷ cs) ]) ≡ parse_rest cursor
parse_cursor [] = sym parse_rest-nil
parse_cursor (c ∷ cs) = refl

-- The test for an empty cursor changes nothing.
pub parse_frame_lem : (input : Bytes) → parse_frame input ≡ parse_rest (skip_heartbeats input)
unfolding parse_frame
parse_frame_lem input = parse_cursor (skip_heartbeats input)

pub parse_frame-nil : parse_frame [] ≡ more
unfolding parse_frame skip_heartbeats
parse_frame-nil = refl
