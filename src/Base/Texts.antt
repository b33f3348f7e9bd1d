-- ===== src/Base/Texts.antt =====
-- Rust's `&[u8]`, and `String`, which is its UTF-8 bytes: both are lists of bytes.
use Prim.Native.Nat.{ℕ, suc}
use Prim.Native.Char.{code}
use Prim.Native.String.{String}
use mathlib.Core.Path.{◌≡◌, refl, ap₂}
use mathlib.Core.Logic.{◌↔◌, ◌≢◌}
use mathlib.Core.Bool.{Bool, true, false, ◌&&◌, ◌||◌}
use mathlib.Core.List.{List, [], ◌∷◌, ◌++◌}
use mathlib.Core.Option.{Option, none, some}
use mathlib.Core.Option
use native.Mathlib.Omega.{arith}
use vdsm_rs.Base.Tests.{◌==◌, leb, ==_iff, if◌then◌else◌, &&-eq-true}
use vdsm_rs.Base.Lists.{All}

abbrev pub Bytes : Type 0
Bytes = List ℕ

abbrev pub Text : Type 0
Text = List ℕ

-- The bytes of a literal, which is ASCII.
abbrev pub codes : String → Text
codes String.[] = []
codes (String.◌∷◌ c s) = code c ∷ codes s

-- `a == b` on byte slices and strings.
unfoldable pub text_eq : Text → Text → Bool
text_eq [] [] = true
text_eq [] (d ∷ t) = false
text_eq (c ∷ s) [] = false
text_eq (c ∷ s) (d ∷ t) = (c == d) && text_eq s t

pub text_eq_refl : (s : Text) → text_eq s s ≡ true
unfolding text_eq
text_eq_refl [] = refl
text_eq_refl (c ∷ s) = ground (arith, text_eq_refl s)

pub text_eq_sound : (s t : Text) → text_eq s t ≡ true → s ≡ t
unfolding text_eq
text_eq_sound [] [] h = refl
text_eq_sound [] (d ∷ t) h = cc
text_eq_sound (c ∷ s) [] h = cc
text_eq_sound (c ∷ s) (d ∷ t) h =
    let (p, q) = &&-eq-true (c == d) (text_eq s t) h in
    ap₂ (λ x r. x ∷ r) ((==_iff c d).0 p) (text_eq_sound s t q)

pub text_eq_iff : (s t : Text) → (text_eq s t ≡ true) ↔ (s ≡ t)
text_eq_iff s t = (text_eq_sound s t, λ e. rw e (text_eq_refl t))

-- `s.starts_with(p)` on strings.
unfoldable pub starts_with : Text → Text → Bool
starts_with s [] = true
starts_with [] (d ∷ p) = false
starts_with (c ∷ s) (d ∷ p) = (c == d) && starts_with s p

pub starts_with_sound : (s p : Text) → starts_with s p ≡ true → (r : Text) × (s ≡ p ++ r)
unfolding starts_with
starts_with_sound s [] h = (s, refl)
starts_with_sound [] (d ∷ p) h = cc
starts_with_sound (c ∷ s) (d ∷ p) h =
    let (e, q) = &&-eq-true (c == d) (starts_with s p) h in
    let (r, w) = starts_with_sound s p q in (r, ap₂ (λ x l. x ∷ l) ((==_iff c d).0 e) w)

-- `s.contains(b)` for one byte.
unfoldable pub contains_byte : Text → ℕ → Bool
contains_byte [] b = false
contains_byte (c ∷ s) b = (c == b) || contains_byte s b

-- `s.contains(p)` for a pattern text.
unfoldable pub contains_text : Text → Text → Bool
unfolding starts_with
contains_text [] p = starts_with [] p
contains_text (c ∷ s) p = starts_with (c ∷ s) p || contains_text s p

abbrev pub Lacks : ℕ → Bytes → Type 0
Lacks b = All (λ c. c ≢ b)

pub contains_byte-Lacks : (s : Text) (b : ℕ) → contains_byte s b ≡ false → Lacks b s
unfolding contains_byte
contains_byte-Lacks [] b h = tt
contains_byte-Lacks (c ∷ s) b h =
    (ground (arith, ==_iff c b), contains_byte-Lacks s b (ground arith))

pub contains_byte-append :
    (s t : Text) (b : ℕ)
    → contains_byte t b ≡ false
    → contains_byte s b ≡ false
    → contains_byte (s ++ t) b ≡ false
unfolding contains_byte
contains_byte-append [] t b h k = h
contains_byte-append (c ∷ s) t b h k = ground (arith, contains_byte-append s t b)

-- `iter().position(|&x| x == b)`
unfoldable pub position : ℕ → Bytes → Option ℕ
position b [] = none
position b (c ∷ s) = if c == b then some 0 else Option.map suc (position b s)

-- `char::is_ascii_digit` and `is_ascii_alphanumeric` on a byte.
abbrev pub is_ascii_digit : ℕ → Bool
is_ascii_digit c = leb b'0' c && leb c b'9'

abbrev pub is_ascii_alphanumeric : ℕ → Bool
is_ascii_alphanumeric c =
    is_ascii_digit c || ((leb b'A' c && leb c b'Z') || (leb b'a' c && leb c b'z'))
