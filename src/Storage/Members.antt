-- ===== src/Storage/Members.antt =====
-- crates/vdsm-storage/src/domain.rs: the domains of the pool, and its version.
use vdsm_rs.Base.{
  ◌≡◌, refl, true, false, ◌||◌, List, [], ◌∷◌, ◌++◌, arith, Text, text_eq, text_eq_iff, Bool-cases,
  inl, inr, ℤ,
}
use vdsm_rs.Storage.Pool.{PoolState, contains, add_domain, add_domains, connect_pool, create_pool}

-- Each text stands in the list once.
abbrev pub Distinct : List Text → Type 0
Distinct [] = Unit
Distinct (x ∷ xs) = (contains xs x ≡ false) × Distinct xs

contains-append :
    (xs : List Text) (d e : Text) → contains (xs ++ d ∷ []) e ≡ (contains xs e || text_eq d e)
unfolding contains
contains-append [] d e = ground arith
contains-append (x ∷ xs) d e = ground (arith, contains-append xs d e)

Distinct-append :
    (xs : List Text) (d : Text) → contains xs d ≡ false → Distinct xs → Distinct (xs ++ d ∷ [])
unfolding contains
Distinct-append [] d h k = (refl, tt)
Distinct-append (x ∷ xs) d h k = (
  ground (arith, contains-append xs d x, text_eq_iff x d, text_eq_iff d x),
  Distinct-append xs d (ground arith) k.1,
)

add_domain-Distinct : (d : Text) (ds : List Text) → Distinct ds → Distinct (add_domain d ds)
unfolding add_domain
add_domain-Distinct d ds h = elim (Bool-cases (contains ds d)) [
  | inl e ↦ rw e h
  | inr e ↦ rw e (Distinct-append ds d e h)
]

add_domains-Distinct : (more ds : List Text) → Distinct ds → Distinct (add_domains more ds)
unfolding add_domains
add_domains-Distinct [] ds h = h
add_domains-Distinct (d ∷ more) ds h = add_domains-Distinct more _ (add_domain-Distinct d ds h)

contains-add_domain :
    (d e : Text) (ds : List Text) → contains (add_domain d ds) e ≡ (contains ds e || text_eq d e)
unfolding add_domain
contains-add_domain d e ds = elim (Bool-cases (contains ds d)) [
  | inr h ↦ rw h (contains-append ds d e)
  | inl h ↦ elim (Bool-cases (text_eq d e)) [
    | inl k ↦ rw h (same k h)
    | inr k ↦ rw (h, k) (ground arith)
  ]
]
  where
    same :
        text_eq d e ≡ true → contains ds d ≡ true → contains ds e ≡ (contains ds e || text_eq d e)
    same k h = ground (arith, text_eq_iff d e)

-- The domains behind an addition are those before it and those that were added.
contains-add_domains :
    (more ds : List Text) (e : Text)
    → contains (add_domains more ds) e ≡ (contains ds e || contains more e)
unfolding add_domains contains
contains-add_domains [] ds e = ground arith
contains-add_domains (d ∷ more) ds e =
    ground (arith, contains-add_domains more (add_domain d ds) e, contains-add_domain d e ds)

-- Connecting to a pool and creating one both keep each domain once; the domains are then those
-- before and those that the request names, and none is lost.
pub pool_domains :
    (pool_id master_sd : Text) (version : ℤ) (named : List Text) (s : PoolState) (d : Text)
    → Distinct s.domains
    → Distinct (connect_pool pool_id master_sd version named s).domains
      × Distinct (create_pool pool_id master_sd named s).domains
      × (contains (connect_pool pool_id master_sd version named s).domains d
          ≡ (contains s.domains d || contains named d))
      × (contains (create_pool pool_id master_sd named s).domains d
          ≡ (contains s.domains d || contains named d))
unfolding connect_pool create_pool
pool_domains pool_id master_sd version named s d h = (
  add_domains-Distinct named s.domains h,
  add_domains-Distinct named s.domains h,
  contains-add_domains named s.domains d,
  contains-add_domains named s.domains d,
)
