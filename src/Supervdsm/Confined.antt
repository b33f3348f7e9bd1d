-- ===== src/Supervdsm/Confined.antt =====
-- crates/supervdsm/src/exec.rs: which programs the root daemon can be made to run, and with which
-- arguments.
use vdsm_rs.Base.{
  ℕ, ◌≡◌, ◌≢◌, ◌⊎◌, inl, inr, refl, Bool, true, false, not, ◌&&◌, ◌||◌, List, [], ◌∷◌, ◌++◌, arith,
  Text, codes, text_eq, is_empty, all, All, All-append, starts_with, contains_byte,
  contains_byte-append, &&-eq-true, ◌==◌, ◌==◌, &&-eq-true,
}
use vdsm_rs.Supervdsm.{
  PrivOp, mount, umount, iscsi_discover, iscsi_login, iscsi_logout, iscsi_rescan, pvcreate,
  vgcreate, vgextend, vgremove, lvcreate, lvchange, lvremove, fc_scan, multipath_list, PrivResult,
}
use vdsm_rs.Supervdsm.Exec.{System, execute, run, require, invalid, option_args}
use vdsm_rs.Supervdsm.Operands.{
  operand, valid_lvm_name-operand, valid_device-operand, valid_target-operand, valid_portal-operand,
  valid_iqn-operand, valid_spec-operand, valid_options-operand, valid_fstype-operand,
}
use vdsm_rs.Encoding.Decimal.{to_string, to_string-ne-nil, to_string-IsDigit, IsDigit}
use vdsm_rs.Supervdsm.Valid.{
  valid_lvm_name, valid_device, valid_target, valid_fstype, valid_portal, valid_iqn, valid_spec,
  valid_options,
}

is_word : List Text → Text → Bool
is_word [] s = false
is_word (t ∷ ts) s = text_eq t s || is_word ts s

-- The programs that are run.
unfoldable pub is_program : Text → Bool
unfolding is_word text_eq
is_program = is_word (
    codes "/usr/bin/mount"
    ∷ codes "/usr/bin/umount"
    ∷ codes "/usr/sbin/iscsiadm"
    ∷ codes "/usr/sbin/pvcreate"
    ∷ codes "/usr/sbin/vgcreate"
    ∷ codes "/usr/sbin/vgextend"
    ∷ codes "/usr/sbin/vgremove"
    ∷ codes "/usr/sbin/lvcreate"
    ∷ codes "/usr/sbin/lvchange"
    ∷ codes "/usr/sbin/lvremove"
    ∷ codes "/usr/sbin/multipath"
    ∷ [])

-- The options that the daemon itself writes.
unfoldable pub is_option : Text → Bool
unfolding is_word text_eq
is_option = is_word (
    codes "-t"
    ∷ codes "-o"
    ∷ codes "-m"
    ∷ codes "-p"
    ∷ codes "-T"
    ∷ codes "--login"
    ∷ codes "--logout"
    ∷ codes "--rescan"
    ∷ codes "-ff"
    ∷ codes "-y"
    ∷ codes "-s"
    ∷ codes "-f"
    ∷ codes "-W"
    ∷ codes "-Z"
    ∷ codes "-n"
    ∷ codes "-L"
    ∷ codes "-a"
    ∷ codes "-K"
    ∷ codes "-ll"
    ∷ codes "-j"
    ∷ [])

abbrev pub IsArgument : Text → Type 0
IsArgument a = (is_option a ≡ true) ⊎ (operand a ≡ true)

option_args-IsArgument :
    (s : Text) → (is_empty s || valid_options s) ≡ true → All IsArgument (option_args s)
unfolding option_args is_option
option_args-IsArgument [] h = tt
option_args-IsArgument (c ∷ s) h = (inl refl, (inr (valid_options-operand (c ∷ s) refl h), tt))

devices-IsArgument : (ds : List Text) → all valid_device ds ≡ true → All IsArgument ds
devices-IsArgument [] h = tt
devices-IsArgument (d ∷ ds) h =
    let (p, q) = &&-eq-true (valid_device d) (all valid_device ds) h in
    (inr (valid_device-operand d p), devices-IsArgument ds q)

-- More behind an operand leaves it one, when it holds no NUL.
operand-append :
    (s t : Text) → operand s ≡ true → contains_byte t 0 ≡ false → operand (s ++ t) ≡ true
unfolding operand starts_with
operand-append [] t h z = cc
operand-append (c ∷ s) t h z = ground (arith, contains_byte-append (c ∷ s) t 0)

operand-no_nul : (s : Text) → operand s ≡ true → contains_byte s 0 ≡ false
unfolding operand
operand-no_nul s h = ground arith

path-operand :
    (vg lv : Text)
    → operand vg ≡ true
    → operand lv ≡ true
    → operand (vg ++ (codes "/" ++ lv)) ≡ true
unfolding contains_byte
path-operand vg lv h k = operand-append vg (codes "/" ++ lv) h (operand-no_nul lv k)

digits-no_nul : (s : Text) → All IsDigit s → contains_byte s 0 ≡ false
unfolding contains_byte
digits-no_nul [] d = refl
digits-no_nul (c ∷ s) d = ground (arith, digits-no_nul s d.1)

digits-operand : (s : Text) → s ≢ [] → All IsDigit s → operand s ≡ true
unfolding operand starts_with contains_byte
digits-operand [] ne d = absurd (ne refl)
digits-operand (c ∷ s) ne d = ground (arith, digits-no_nul s)

size-operand : (n : ℕ) → operand (to_string n ++ codes "B") ≡ true
unfolding contains_byte
size-operand n =
    operand-append (to_string n) (codes "B")
      (digits-operand (to_string n) (to_string-ne-nil n) (to_string-IsDigit n)) refl

module _ {W : Type 0} (sys : System W) where
  -- The request is refused and nothing is done, or one program is run, and its arguments are options
  -- that the daemon wrote and operands.
  abbrev pub IsConfined : W → PrivResult × W → Type 0
  IsConfined w outcome =
      ((field : Text) × (outcome ≡ (invalid field, w)))
      ⊎ ((bin : Text) × (args : List Text) × (is_program bin ≡ true)
          × All IsArgument args
          × (outcome ≡ run sys bin args w))

  abbrev Confines : (W → PrivResult × W) → Type 0
  Confines action = (w : W) → IsConfined w (action w)

  require-IsConfined :
      (test : Bool) (field : Text) (next : W → PrivResult × W)
      → (test ≡ true → Confines next)
      → Confines (require sys test field next)
  require-IsConfined true field next h w = h refl w
  require-IsConfined false field next h w = inl (field, refl)

  run-IsConfined :
      (bin : Text) (args : List Text)
      → is_program bin ≡ true
      → All IsArgument args
      → Confines (run sys bin args)
  run-IsConfined bin args p h w = inr (bin, args, p, h, refl)

  execute-Confines : (op : PrivOp) → (op ≡ fc_scan) ⊎ Confines (execute sys op)
  unfolding execute is_program is_option operand starts_with contains_byte
  execute-Confines (mount fstype spec target options) = inr (
      require-IsConfined (valid_fstype fstype) _ _ λ f.
        require-IsConfined (valid_target target) _ _ λ t.
          require-IsConfined (valid_spec spec) _ _ λ s.
            require-IsConfined (is_empty options || valid_options options) _ _ λ o.
              run-IsConfined _ _ refl (
                inl refl,
                (
                  inr (valid_fstype-operand fstype f),
                  All-append IsArgument (option_args options) _ (option_args-IsArgument options o)
                      (inr (valid_spec-operand spec s), (inr (valid_target-operand target t), tt)),
                ),
              ))
  execute-Confines (umount target) = inr (
      require-IsConfined (valid_target target) _ _
        λ t. run-IsConfined _ _ refl (inr (valid_target-operand target t), tt))
  execute-Confines (iscsi_discover portal) = inr (
      require-IsConfined (valid_portal portal) _ _ λ p. run-IsConfined _ _ refl (
        inl refl,
        (inr refl, (inl refl, (inr refl, (inl refl, (inr (valid_portal-operand portal p), tt))))),
      ))
  execute-Confines (iscsi_login iqn portal) = inr (
      require-IsConfined (valid_iqn iqn) _ _ λ i. require-IsConfined (valid_portal portal) _ _ λ p.
        run-IsConfined _ _ refl (
          inl refl,
          (
            inr refl,
            (
              inl refl,
              (
                inr (valid_iqn-operand iqn i),
                (inl refl, (inr (valid_portal-operand portal p), (inl refl, tt))),
              ),
            ),
          ),
        ))
  execute-Confines (iscsi_logout iqn portal) = inr (
      require-IsConfined (valid_iqn iqn) _ _ λ i. require-IsConfined (valid_portal portal) _ _ λ p.
        run-IsConfined _ _ refl (
          inl refl,
          (
            inr refl,
            (
              inl refl,
              (
                inr (valid_iqn-operand iqn i),
                (inl refl, (inr (valid_portal-operand portal p), (inl refl, tt))),
              ),
            ),
          ),
        ))
  execute-Confines iscsi_rescan =
      inr (run-IsConfined _ _ refl (inl refl, (inr refl, (inl refl, tt))))
  execute-Confines (pvcreate device) = inr (
      require-IsConfined (valid_device device) _ _ λ d.
        run-IsConfined _ _ refl (inl refl, (inl refl, (inr (valid_device-operand device d), tt))))
  execute-Confines (vgcreate vg devices) = inr (
      require-IsConfined (valid_lvm_name vg) _ _ λ v.
        require-IsConfined (not (is_empty devices) && all valid_device devices) _ _ λ d.
          run-IsConfined _ _ refl (
            inl refl,
            (
              inr refl,
              (
                inl refl,
                (
                  inr (valid_lvm_name-operand vg v),
                  devices-IsArgument devices (&&-eq-true (not (is_empty devices)) _ d).1,
                ),
              ),
            ),
          ))
  execute-Confines (vgextend vg device) = inr (
      require-IsConfined (valid_lvm_name vg) _ _ λ v.
        require-IsConfined (valid_device device) _ _ λ d.
          run-IsConfined _ _ refl
            (inr (valid_lvm_name-operand vg v), (inr (valid_device-operand device d), tt)))
  execute-Confines (vgremove vg) = inr (
      require-IsConfined (valid_lvm_name vg) _ _ λ v.
        run-IsConfined _ _ refl (inl refl, (inl refl, (inr (valid_lvm_name-operand vg v), tt))))
  execute-Confines (lvcreate vg lv size_bytes) = inr (
      require-IsConfined (valid_lvm_name vg) _ _ λ v.
        require-IsConfined (valid_lvm_name lv) _ _ λ l.
          require-IsConfined (not (size_bytes == 0)) _ _ λ z. run-IsConfined _ _ refl (
            inl refl,
            (
              inr refl,
              (
                inl refl,
                (
                  inr refl,
                  (
                    inl refl,
                    (
                      inr (valid_lvm_name-operand lv l),
                      (
                        inl refl,
                        (inr (size-operand size_bytes), (inr (valid_lvm_name-operand vg v), tt)),
                      ),
                    ),
                  ),
                ),
              ),
            ),
          ))
  execute-Confines (lvchange vg lv true) = inr (
      require-IsConfined (valid_lvm_name vg) _ _ λ v.
        require-IsConfined (valid_lvm_name lv) _ _ λ l. run-IsConfined _ _ refl (
          inl refl,
          (
            inr refl,
            (
              inl refl,
              (
                inr (
                    path-operand vg lv (valid_lvm_name-operand vg v) (valid_lvm_name-operand lv l)),
                tt,
              ),
            ),
          ),
        ))
  execute-Confines (lvchange vg lv false) = inr (
      require-IsConfined (valid_lvm_name vg) _ _ λ v.
        require-IsConfined (valid_lvm_name lv) _ _ λ l. run-IsConfined _ _ refl (
          inl refl,
          (
            inr refl,
            (
              inr (path-operand vg lv (valid_lvm_name-operand vg v) (valid_lvm_name-operand lv l)),
              tt,
            ),
          ),
        ))
  execute-Confines (lvremove vg lv) = inr (
      require-IsConfined (valid_lvm_name vg) _ _ λ v.
        require-IsConfined (valid_lvm_name lv) _ _ λ l. run-IsConfined _ _ refl (
          inl refl,
          (
            inl refl,
            (
              inr (path-operand vg lv (valid_lvm_name-operand vg v) (valid_lvm_name-operand lv l)),
              tt,
            ),
          ),
        ))
  execute-Confines fc_scan = inl refl
  execute-Confines multipath_list = inr (run-IsConfined _ _ refl (inl refl, (inl refl, tt)))

  -- Every operation but the rescan of Fibre Channel hosts, which starts no program, either is refused
  -- with nothing done or runs one of eleven programs once, and each of its arguments is an option that
  -- the daemon itself writes, or is no option: it is not empty, has no dash in front and holds no NUL.
  pub execute-IsConfined : (op : PrivOp) (w : W) → op ≢ fc_scan → IsConfined w (execute sys op w)
  execute-IsConfined op w ne = elim (execute-Confines op) [ inl e ↦ absurd (ne e) | inr h ↦ h w ]
