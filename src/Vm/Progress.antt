-- ===== src/Vm/Progress.antt =====
-- crates/vdsm-virt/src/verbs.rs: the percentage that `vm_migrate_status` answers.
use vdsm_rs.Base.{ℕ, ◌≡◌, refl, ◌↔◌, ◌≤◌, ◌<◌, ◌*◌, ◌%◌, ◌/◌, ◌^◌, lt→ltb, ge→ltb, arith, pos}
use native.Mathlib.Decide.{dec_lt}
use native.Mathlib.Nat.{mod-eq_of_lt, div-le_of_le-mul, le-div_iff_mul-le, mul-div_cancel_left}
use vdsm_rs.Vm.Migration.{JobInfo, progress, as_i64}

-- The percentage as a number.
percent : ℕ → ℕ → ℕ
percent p t = p * 100 / t

percent_le : (p t : ℕ) → p ≤ t → percent p t ≤ 100
unfolding percent
percent_le p t h = div-le_of_le-mul t (omega (arith, h))

percent_full : (p t : ℕ) → 0 < t → p ≤ t → (percent p t ≡ 100) ↔ (p ≡ t)
unfolding percent
percent_full p t z h = (
  λ e. let f : 100 * t ≤ p * 100 = (le-div_iff_mul-le z).0 (rw e (omega arith)) in omega arith,
  λ e. rw e (mul-div_cancel_left 100 z),
)

percent_wraps_not :
    (p t : ℕ) → p ≤ t → p * 100 < 2 ^ 64 → as_i64 (p * 100 % 2 ^ 64 / t) ≡ pos (percent p t)
unfolding percent as_i64
percent_wraps_not p t h b =
    rw (mod-eq_of_lt b) (rw (lt→ltb (p * 100 / t) (2 ^ 63) (omega (arith, percent_le p t h))) refl)

-- If no more was moved than there is, and the product fits in 64 bits, the progress is a number from 0
-- to 100, and it is 100 exactly when everything was moved, where there is anything to move; else it is 0.
pub progress_bounds :
    (j : JobInfo)
    → j.processed ≤ j.total
    → j.processed * 100 < 2 ^ 64
    → (n : ℕ) × (progress j ≡ pos n)
      × (n ≤ 100)
      × (j.total ≡ 0 → n ≡ 0)
      × (0 < j.total → (n ≡ 100) ↔ (j.processed ≡ j.total))
unfolding progress
progress_bounds j h b = elim (dec_lt 0 j.total) [
  | yes z ↦ (
    percent j.processed j.total,
    rw (lt→ltb 0 j.total z) (percent_wraps_not j.processed j.total h b),
    percent_le j.processed j.total h,
    (λ e. absurd (omega arith)),
    λ k. percent_full j.processed j.total k h,
  )
  | no z ↦
      (0, rw (ge→ltb 0 j.total (omega arith)) refl, omega arith, (λ e. refl), (λ k. absurd (z k)))
]
