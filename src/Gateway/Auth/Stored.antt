-- ===== src/Gateway/Auth/Stored.antt =====
-- crates/pes-gateway/src/auth.rs: what storing a response makes of the cache.
use prometheus_entity_sync.Base.{
  Text, text_eq, get, insert, get-insert, All, Has, Result, ok, err, some, List, [], ◌∷◌, ℕ, ◌-◌,
  ◌<◌, lt→ltb, false, Bool-cases, ◌==◌, ==_iff, ◌≡◌, refl, sym, ◌∙◌, ◌⊎◌, inl, inr,
}
use mathlib.Core.Path.{subst}
use prometheus_entity_sync.Core.{SyncError}
use prometheus_entity_sync.Gateway.Auth.{
  Jwk, Jwt, jwks_cache_ttl, Cache, fresh_key, kid_or_empty, store_key, store_keys, look_up_stored,
}

module _ (J : Jwt) where
  open J use {Key}

  -- The ids that a response lists; a key with none stands under the empty id.
  abbrev pub kids : List Jwk → List Text
  kids [] = []
  kids (jwk ∷ keys) = kid_or_empty J jwk.kid ∷ kids keys

  -- At `now` the cache serves the key id without a request.
  abbrev pub Serves : ℕ → Text → Cache J → Type 0
  Serves now kid cache = (key : Key) × (fresh_key J now (get cache kid) ≡ some key)

  insert-Serves :
      (now : ℕ) (kid at : Text) (cache : Cache J) (key : Key) (t : ℕ)
      → now - t < jwks_cache_ttl
      → (at ≡ kid) ⊎ Serves now kid cache
      → Serves now kid (insert cache at (key, t))
  insert-Serves now kid at cache key t young h =
      subst (λ o. (k : Key) × (fresh_key J now o ≡ some k)) (sym (get-insert cache at (key, t) kid))
        (elim (Bool-cases (at == kid)) [
          | inl same ↦ rw same (key, rw (lt→ltb (now - t) jwks_cache_ttl young) refl)
          | inr apart ↦
              rw apart
                (elim h [ inl same ↦ cc ((==_iff at kid).1 same, apart) | inr serves ↦ serves ])
        ])

  module _ (now : ℕ) (kid : Text) (stored_at : Jwk → ℕ) where
    store_key-Serves :
        (keys : List Jwk) (jwk : Jwk) (cache : Cache J) (r : Result Text Key)
        → now - stored_at jwk < jwks_cache_ttl
        → Has kid (kids (jwk ∷ keys)) ⊎ Serves now kid cache
        → (store_key J (store_keys J stored_at keys) jwk (stored_at jwk) cache r).0 ≡ ok tt
        → ((c : Cache J)
            → Has kid (kids keys) ⊎ Serves now kid c
            → (store_keys J stored_at keys c).0 ≡ ok tt
            → Serves now kid (store_keys J stored_at keys c).1)
        → Serves now kid (store_key J (store_keys J stored_at keys) jwk (stored_at jwk) cache r).1
    store_key-Serves keys jwk cache (err e) young h done rest = cc
    store_key-Serves keys jwk cache (ok key) young (inl (inl same)) done rest =
        rest _
          (inr (
            insert-Serves now kid (kid_or_empty J jwk.kid) cache key (stored_at jwk) young
              (inl same)))
          done
    store_key-Serves keys jwk cache (ok key) young (inl (inr later)) done rest =
        rest _ (inl later) done
    store_key-Serves keys jwk cache (ok key) young (inr serves) done rest =
        rest _
          (inr (
            insert-Serves now kid (kid_or_empty J jwk.kid) cache key (stored_at jwk) young
              (inr serves)))
          done

    pub store_keys-Serves :
        (keys : List Jwk) (cache : Cache J)
        → All (λ jwk. now - stored_at jwk < jwks_cache_ttl) keys
        → Has kid (kids keys) ⊎ Serves now kid cache
        → (store_keys J stored_at keys cache).0 ≡ ok tt
        → Serves now kid (store_keys J stored_at keys cache).1
    unfolding store_keys
    store_keys-Serves [] cache young (inl h) done = absurd h
    store_keys-Serves [] cache young (inr h) done = h
    store_keys-Serves (jwk ∷ keys) cache young h done =
        store_key-Serves keys jwk cache (J.from_rsa_components jwk.n jwk.e) young.0 h done
          (λ c k d. store_keys-Serves keys c young.1 k d)

  -- A key that was looked up after a request: the response was stored.
  pub looked_up-ok :
      (url kid : Text) (r : Result SyncError (Unit {0}) × Cache J) (key : Key)
      → (look_up_stored J url kid r).result ≡ ok key
      → (r.0 ≡ ok tt) × ((look_up_stored J url kid r).jwks_cache ≡ r.1)
  looked_up-ok url kid (err e, cache) key h = cc
  looked_up-ok url kid (ok tt, cache) key h = (refl, refl)

  -- A response that neither lists the id nor has a bad key leaves the entry of the id as it was.
  pub unlisted-keeps :
      (stored_at : Jwk → ℕ) (keys : List Jwk) (cache : Cache J) (kid : Text)
      → All
          (λ jwk.
            ((kid_or_empty J jwk.kid == kid) ≡ false)
            × (key : Key) × (J.from_rsa_components jwk.n jwk.e ≡ ok key))
          keys
      → ((store_keys J stored_at keys cache).0 ≡ ok tt)
        × (get (store_keys J stored_at keys cache).1 kid ≡ get cache kid)
  unfolding store_keys
  unlisted-keeps stored_at [] cache kid h = (refl, refl)
  unlisted-keeps stored_at (jwk ∷ keys) cache kid h =
      let key = h.0.1 in
      let next = insert cache (kid_or_empty J jwk.kid) (key, stored_at jwk) in
      let rest = unlisted-keeps stored_at keys next kid h.1 in
      rw h.0.2 (
        rest.0,
        rest.1
            ∙ get-insert cache (kid_or_empty J jwk.kid) (key, stored_at jwk) kid
            ∙ (rw h.0.0 refl),
      )

  pub stale_stored :
      (url kid : Text) (r : Result SyncError (Unit {0}) × Cache J) (key : Key) (t : ℕ)
      → r.0 ≡ ok tt
      → get r.1 kid ≡ some (key, t)
      → (look_up_stored J url kid r).result ≡ ok key
  stale_stored url kid (err e, cache) key t h k = cc
  stale_stored url kid (ok u, cache) key t h k = rw k refl

  pub asked-url :
      (url kid : Text) (r : Result SyncError (Unit {0}) × Cache J)
      → (look_up_stored J url kid r).requests ≡ url ∷ []
  asked-url url kid (err e, cache) = refl
  asked-url url kid (ok u, cache) = refl
