-- ===== src/Storage/Extents.antt =====
-- crates/vdsm-storage/src/volumes.rs: the size of a logical volume.
use vdsm_rs.Base.{ℕ, ◌+◌, ◌/◌, ◌%◌, ◌≤◌, ◌<◌, ◌≡◌, arith}
use vdsm_rs.Storage.Create.{div_ceil, rounded, extent_bytes}

div_ceil-cases : (n : ℕ) → div_ceil n extent_bytes ≡ (n + 134217727) / 134217728
unfolding div_ceil
div_ceil-cases n = ground arith

-- Up to one extent below the largest word, the size of a logical volume is a whole number of extents,
-- holds the requested size, and exceeds it by less than one extent.
pub rounded_bounds :
    (n : ℕ)
    → n + extent_bytes ≤ 18446744073709551616
    → (n ≤ rounded n) × (rounded n < n + extent_bytes) × (rounded n % extent_bytes ≡ 0)
unfolding rounded
rounded_bounds n h = rw div_ceil-cases (omega arith, omega arith, omega arith)
