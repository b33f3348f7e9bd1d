-- ===== src/Stomp.antt =====
-- crates/vdsm-rpc/src/stomp.rs: STOMP frames, their builder methods, and the outcomes of the parser.
-- A `String` is its UTF-8 bytes. The parser and the printer are in the children, with the proofs.
pub mod Escape
pub mod Lines
pub mod Parser
pub mod Wire
pub mod RoundTrip
pub mod Streaming
pub mod Prefixes
pub mod Panics
pub mod Build
use vdsm_rs.Base.{
  ℕ, zero, suc, ◌≡◌, refl, Bool, true, false, Option, none, some, List, [], ◌∷◌, ◌++◌,
  if◌then◌else◌, Bytes, Text, text_eq, arith,
}
use vdsm_rs.Encoding.Utf8.{Utf8Error}

pub record Frame : Type 0 where
  pub command : Text
  pub headers : List (Text × Text)
  pub body : Bytes

-- `Frame::new`
unfoldable pub new_frame : Text → Frame
new_frame command = record { command = command; headers = []; body = [] }

unfoldable pub with_header : Frame → Text → Text → Frame
with_header f k v = record f { headers = f.headers ++ (k, v) ∷ [] }

unfoldable pub with_body : Frame → Bytes → Frame
with_body f b = record f { body = b }

-- `iter().find(|(k, _)| k == name)`: the first match wins.
unfoldable pub find_header : Text → List (Text × Text) → Option Text
find_header name [] = none
find_header name ((k, v) ∷ hs) = if text_eq k name then some v else find_header name hs

-- `Frame::header`
unfoldable pub header : Frame → Text → Option Text
unfolding find_header
header f name = find_header name f.headers

pub data ParseError : Type 0 where
  malformed : Text → ParseError
  utf8 : Utf8Error → ParseError
  content_length_mismatch : ℕ → ℕ → ParseError
  bad_content_length : Text → ParseError

-- `Result<Option<A>, ParseError>`: `done` is `Ok(Some(_))`, `more` is `Ok(None)`, `fail` is `Err(_)`,
-- and `panic` is a panic of the thread.
pub data Parse {ℓ} (A : Type ℓ) : Type ℓ where
  done : A → Parse A
  more : Parse A
  fail : ParseError → Parse A
  panic : Parse A

infixl 5 ◌>>=◌
abbrev pub ◌>>=◌ {ℓ κ} : {A : Type ℓ} {B : Type κ} → Parse A → (A → Parse B) → Parse B
done a >>= f = f a
more >>= f = more
fail e >>= f = fail e
panic >>= f = panic

-- Inversion of a bind that reached its end.
pub >>=-eq-done {ℓ κ} :
    {A : Type ℓ} {B : Type κ} (m : Parse A) (f : A → Parse B) {b : B}
    → (m >>= f) ≡ done b
    → (a : A) × (m ≡ done a) × (f a ≡ done b)
>>=-eq-done (done a) f h = (a, refl, h)
>>=-eq-done more f h = cc
>>=-eq-done (fail e) f h = cc
>>=-eq-done panic f h = cc

-- `let … else { return Ok(None) }`
abbrev pub or_more {ℓ} : {A : Type ℓ} → Option A → Parse A
or_more none = more
or_more (some a) = done a

abbrev pub or_fail {ℓ} : {A : Type ℓ} → ParseError → Option A → Parse A
or_fail e none = fail e
or_fail e (some a) = done a
