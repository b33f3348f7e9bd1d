-- ===== src/Storage/Registry.antt =====
-- crates/vdsm-storage/src/verbs.rs: the registry of connections and the statuses that are answered.
use vdsm_rs.Base.{
  ℕ, ◌≡◌, refl, sym, ap, ◌∙◌, Bool, false, not, ◌&&◌, ◌||◌, List, [], ◌∷◌, ◌++◌, append-nil, arith,
  Text, text_eq, text_eq_iff, ℤ,
}
use vdsm_rs.Storage.Connections.{
  Connected, connect_storage_server, disconnect_storage_server, forget,
}
use vdsm_rs.Storage.Paths.{StorageServerConnection}
use vdsm_rs.Storage.{Host}

-- Whether a connection of this id is registered.
unfoldable pub has_id : List StorageServerConnection → Text → Bool
has_id [] id = false
has_id (c ∷ cs) id = text_eq c.id id || has_id cs id

abbrev pub ids : List StorageServerConnection → List Text
ids [] = []
ids (c ∷ cs) = c.id ∷ ids cs

abbrev pub answered_ids : List (Text × ℕ) → List Text
answered_ids [] = []
answered_ids ((id, status) ∷ rest) = id ∷ answered_ids rest

answered_ids-append :
    (xs : List (Text × ℕ)) (id : Text) (n : ℕ) (more : List Text)
    → answered_ids (xs ++ (id, n) ∷ []) ++ more ≡ answered_ids xs ++ id ∷ more
answered_ids-append [] id n more = refl
answered_ids-append ((i, k) ∷ xs) id n more = ap (λ r. i ∷ r) (answered_ids-append xs id n more)

module _ {W : Type 0} (host : Host W) where
  connect_answers :
      (t : ℤ) (specs : List StorageServerConnection) (s : Connected W)
      → answered_ids (connect_storage_server host t specs s).statuses
        ≡ answered_ids s.statuses ++ ids specs
  unfolding connect_storage_server
  connect_answers t [] s = sym (append-nil (answered_ids s.statuses))
  connect_answers t (c ∷ cs) s =
      connect_answers t cs _ ∙ answered_ids-append s.statuses c.id _ (ids cs)

  disconnect_answers :
      (specs : List StorageServerConnection) (s : Connected W)
      → answered_ids (disconnect_storage_server host specs s).statuses
        ≡ answered_ids s.statuses ++ ids specs
  unfolding disconnect_storage_server
  disconnect_answers [] s = sym (append-nil (answered_ids s.statuses))
  disconnect_answers (c ∷ cs) s =
      disconnect_answers cs _ ∙ answered_ids-append s.statuses c.id _ (ids cs)

  -- Both verbs answer each connection once, in the order of the request, whatever fails.
  pub each_is_answered :
      (t : ℤ) (specs : List StorageServerConnection) (s : Connected W)
      → (answered_ids (connect_storage_server host t specs s).statuses
          ≡ answered_ids s.statuses ++ ids specs)
        × (answered_ids (disconnect_storage_server host specs s).statuses
            ≡ answered_ids s.statuses ++ ids specs)
  each_is_answered t specs s = (connect_answers t specs s, disconnect_answers specs s)

  has_id-forget :
      (id j : Text) (cs : List StorageServerConnection)
      → has_id (forget id cs) j ≡ (has_id cs j && not (text_eq id j))
  unfolding has_id forget
  has_id-forget id j [] = refl
  has_id-forget id j (c ∷ cs) =
      ground
        (arith, has_id-forget id j cs, text_eq_iff c.id id, text_eq_iff c.id j, text_eq_iff id j)

  -- Behind `disconnect_storage_server`, just those ids are registered that were registered before and
  -- that the request does not name, whether or not the unmounts succeeded.
  pub disconnect_forgets :
      (specs : List StorageServerConnection) (s : Connected W) (j : Text)
      → has_id (disconnect_storage_server host specs s).registry j
        ≡ (has_id s.registry j && not (has_id specs j))
  unfolding disconnect_storage_server has_id
  disconnect_forgets [] s j = ground arith
  disconnect_forgets (c ∷ cs) s j =
      disconnect_forgets cs _ j
      ∙ rw has_id-forget (deny (has_id s.registry j) (text_eq c.id j) (has_id cs j))
    where
      deny : (a b d : Bool) → ((a && not b) && not d) ≡ (a && not (b || d))
      deny a b d = ground arith
