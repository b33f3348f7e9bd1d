-- ===== src/Supervdsm/Operands.antt =====
-- crates/supervdsm/src/exec.rs: a field that passes its test is an argument that no program
-- takes for an option.
use vdsm_rs.Base.{
  ℕ, ◌≡◌, ◌≢◌, inl, inr, refl, ap, ◌∙◌, Bool, true, false, not, ◌&&◌, ◌||◌, [], ◌∷◌, arith, Text,
  codes, text_eq, text_eq_sound, is_empty, all, Bool-cases, starts_with, contains_byte, Lacks,
  contains_byte-Lacks, ◌==◌, ==_iff, &&-eq-true,
}
use vdsm_rs.Supervdsm.Valid.{
  lvm_char, dash, valid_lvm_name, valid_device, valid_target, valid_fstype, valid_portal, valid_iqn,
  valid_spec, valid_options,
}

-- An argument that is no option and cannot end early: it is not empty, does not begin with a dash
-- and holds no NUL.
abbrev pub IsOperand : Text → Type 0
IsOperand [] = ⊥
IsOperand (c ∷ s) = (c ≢ b'-') × Lacks 0 (c ∷ s)

-- Not empty, no dash in front, and no NUL, as tests.
unfoldable pub operand : Text → Bool
operand s = not (is_empty s) && (not (starts_with s dash) && not (contains_byte s 0))

pub operand-IsOperand : (s : Text) → operand s ≡ true → IsOperand s
unfolding operand starts_with
operand-IsOperand [] h = cc
operand-IsOperand (c ∷ s) h = (ground arith, contains_byte-Lacks (c ∷ s) 0 (ground arith))

all-contains_byte :
    (p : ℕ → Bool) (s : Text) → p 0 ≡ false → all p s ≡ true → contains_byte s 0 ≡ false
unfolding contains_byte
all-contains_byte p [] z h = refl
all-contains_byte p (c ∷ s) z h = elim (Bool-cases (c == 0)) [
  | inl e ↦ not_both (p c) (all p s) (ap p ((==_iff c 0).0 e) ∙ z) h
  | inr e ↦ rw e (all-contains_byte p s z (&&-eq-true (p c) (all p s) h).1)
]
  where
    not_both : {P : Type 0} (a b : Bool) → a ≡ false → (a && b) ≡ true → P
    not_both a b e q = ground arith

starts_with-operand :
    (s p : Text) (c : ℕ)
    → starts_with s (c ∷ p) ≡ true
    → (c == b'-') ≡ false
    → contains_byte s 0 ≡ false
    → operand s ≡ true
unfolding operand starts_with
starts_with-operand [] p c h e z = cc
starts_with-operand (d ∷ s) p c h e z = ground arith

pub valid_lvm_name-operand : (s : Text) → valid_lvm_name s ≡ true → operand s ≡ true
unfolding valid_lvm_name operand
valid_lvm_name-operand s h = ground (arith, all-contains_byte lvm_char s)

pub valid_device-operand : (s : Text) → valid_device s ≡ true → operand s ≡ true
unfolding valid_device
valid_device-operand s h =
    starts_with-operand s (codes "dev/") b'/' (ground arith) refl (ground arith)

pub valid_target-operand : (s : Text) → valid_target s ≡ true → operand s ≡ true
unfolding valid_target
valid_target-operand s h =
    starts_with-operand s (codes "rhev/data-center/mnt/") b'/' (ground arith) refl (ground arith)

pub valid_portal-operand : (s : Text) → valid_portal s ≡ true → operand s ≡ true
unfolding valid_portal operand
valid_portal-operand s h = ground arith

pub valid_iqn-operand : (s : Text) → valid_iqn s ≡ true → operand s ≡ true
unfolding valid_iqn operand
valid_iqn-operand s h = ground arith

pub valid_spec-operand : (s : Text) → valid_spec s ≡ true → operand s ≡ true
unfolding valid_spec operand
valid_spec-operand s h = ground arith

pub valid_options-operand :
    (s : Text) → is_empty s ≡ false → valid_options s ≡ true → operand s ≡ true
unfolding valid_options operand
valid_options-operand s e h = ground arith

pub if-or : {P : Type 0} {a b : Bool} → (a ≡ true → P) → (b ≡ true → P) → (a || b) ≡ true → P
if-or {P} {a} {b} h k e = elim (Bool-cases a) [ inl p ↦ h p | inr p ↦ k (ground arith) ]

operand_of_eq : (s t : Text) → operand t ≡ true → text_eq s t ≡ true → operand s ≡ true
operand_of_eq s t h e = ap operand (text_eq_sound s t e) ∙ h

pub valid_fstype-operand : (s : Text) → valid_fstype s ≡ true → operand s ≡ true
unfolding valid_fstype operand starts_with contains_byte
valid_fstype-operand s h =
    let of_word = λ (t : Text) (k : operand t ≡ true). operand_of_eq s t k in
    if-or
      (if-or
        (if-or
          (if-or
            (if-or
              (if-or
                (if-or (if-or (of_word (codes "nfs") refl) (of_word (codes "nfs4") refl))
                  (of_word (codes "cifs") refl))
                (of_word (codes "glusterfs") refl))
              (of_word (codes "none") refl))
            (of_word (codes "auto") refl))
          (of_word (codes "ext4") refl))
        (of_word (codes "xfs") refl))
      (of_word (codes "ext3") refl) h
