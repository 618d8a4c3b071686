-- ===== src/Gateway/Auth/Fresh.antt =====
-- crates/pes-gateway/src/auth.rs: how long the cache of JWKS keys serves.
use prometheus_entity_sync.Base.{
  Text, text_eq, All, Has, ok, Option, none, some, List, [], ◌∷◌, ℕ, ◌-◌, ◌<◌, ◌≡◌, refl, sym, ap,
  ◌∙◌, inl, inr, Result-cases,
}
use mathlib.Core.Path.{subst}
use prometheus_entity_sync.Core.{TokenClaims}
use prometheus_entity_sync.Gateway.Auth.{
  rs256_jwks, Jwk, Jwt, JwksResponse, key_set, jwks_cache_ttl, Cache, Surroundings, Answer,
  store_keys, fetch_key, look_again, look_first, get_or_fetch_key, with_header, decode_with,
  validate_rs256, validate,
}
use prometheus_entity_sync.Gateway.Auth.Stored.{kids, Serves, store_keys-Serves, looked_up-ok}

module _ (J : Jwt) where
  open J use {Key}

  module _ (s : Surroundings J) (url kid : Text) (keys : List Jwk) (now : ℕ)
      (listed : Has kid (kids J keys))
      (young : All (λ jwk. now - s.stored_at jwk < jwks_cache_ttl) keys) where
    fetched-Serves :
        (cache : Cache J) (response : JwksResponse) (key : Key)
        → response ≡ key_set keys
        → (fetch_key J s url kid cache response).result ≡ ok key
        → Serves J now kid (fetch_key J s url kid cache response).jwks_cache
    fetched-Serves cache response key e h =
        subst
          (λ r.
            (fetch_key J s url kid cache r).result ≡ ok key
            → Serves J now kid (fetch_key J s url kid cache r).jwks_cache)
          (sym e)
          (λ h'.
            let stored = looked_up-ok J url kid (store_keys J s.stored_at keys cache) key h' in
            subst (Serves J now kid) (sym stored.1)
              (store_keys-Serves J now kid s.stored_at keys cache young (inl listed) stored.0))
          h

    again-Serves :
        (cache : Cache J) (o : Option Key) (key : Key)
        → s.response ≡ key_set keys
        → (look_again J s url kid cache o).requests ≡ url ∷ []
        → (look_again J s url kid cache o).result ≡ ok key
        → Serves J now kid (look_again J s url kid cache o).jwks_cache
    again-Serves cache (some k) key e asked h = cc
    again-Serves cache none key e asked h = fetched-Serves cache s.response key e h

    first-Serves :
        (cache : Cache J) (o : Option Key) (key : Key)
        → s.response ≡ key_set keys
        → (look_first J s url kid cache o).requests ≡ url ∷ []
        → (look_first J s url kid cache o).result ≡ ok key
        → Serves J now kid (look_first J s url kid cache o).jwks_cache
    first-Serves cache (some k) key e asked h = cc
    first-Serves cache none key e asked h = again-Serves (s.others cache) _ key e asked h

  Serves-silent :
      (s : Surroundings J) (url kid : Text) (cache : Cache J)
      → Serves J s.first_look kid cache
      → ((get_or_fetch_key J s url kid cache).requests ≡ [])
        × ((get_or_fetch_key J s url kid cache).jwks_cache ≡ cache)
  unfolding get_or_fetch_key
  Serves-silent s url kid cache (key, e) = rw e (refl, refl)

  headed :
      (s : Surroundings J) (url token kid : Text) (cache : Cache J)
      → J.decode_header token ≡ ok (some kid)
      → validate J s (rs256_jwks url) token cache
        ≡ decode_with J token (get_or_fetch_key J s url kid cache)
  unfolding validate validate_rs256
  headed s url token kid cache h = ap (with_header J s token url cache) h

  decoded-key :
      (token : Text) (a : Answer J Key) (claims : TokenClaims)
      → (decode_with J token a).result ≡ ok claims
      → (key : Key) × (a.result ≡ ok key)
  decoded-key token a claims h = elim (Result-cases a.result) [
    | inl good ↦ good
    | inr (e, bad) ↦ cc (rw bad at h)
  ]

  fetch-Serves :
      (s : Surroundings J) (url kid : Text) (keys : List Jwk) (now : ℕ)
      → Has kid (kids J keys)
      → All (λ jwk. now - s.stored_at jwk < jwks_cache_ttl) keys
      → (cache : Cache J) (token : Text) (claims : TokenClaims) → s.response ≡ key_set keys
      → (get_or_fetch_key J s url kid cache).requests ≡ url ∷ []
      → (decode_with J token (get_or_fetch_key J s url kid cache)).result ≡ ok claims
      → Serves J now kid (get_or_fetch_key J s url kid cache).jwks_cache
  unfolding get_or_fetch_key
  fetch-Serves s url kid keys now listed young cache token claims e asked valid =
      let given = decoded-key token (get_or_fetch_key J s url kid cache) claims valid in
      first-Serves s url kid keys now listed young cache _ given.0 e asked given.1

  validate-silent :
      (s : Surroundings J) (url token kid : Text) (cache : Cache J)
      → J.decode_header token ≡ ok (some kid)
      → Serves J s.first_look kid cache
      → ((validate J s (rs256_jwks url) token cache).requests ≡ [])
        × ((validate J s (rs256_jwks url) token cache).jwks_cache ≡ cache)
  validate-silent s url token kid cache h serves =
      let silent = Serves-silent s url kid cache serves in
      let same = headed s url token kid cache h in
      (ap (λ a. Answer.requests a) same ∙ silent.0, ap (λ a. Answer.jwks_cache a) same ∙ silent.1)

  -- If a validation asked the endpoint, was answered with keys that list the token's key id, and
  -- succeeded, then until the time to live of those keys is over the validation of any token with
  -- that key id asks nothing and leaves the cache as it is.
  pub validate-Serves :
      (s s' : Surroundings J) (url token token' kid : Text) (keys : List Jwk) (cache : Cache J)
      (claims : TokenClaims)
      → J.decode_header token ≡ ok (some kid)
      → J.decode_header token' ≡ ok (some kid)
      → s.response ≡ key_set keys
      → Has kid (kids J keys)
      → All (λ jwk. s'.first_look - s.stored_at jwk < jwks_cache_ttl) keys
      → (validate J s (rs256_jwks url) token cache).requests ≡ url ∷ []
      → (validate J s (rs256_jwks url) token cache).result ≡ ok claims
      → let a = validate J s (rs256_jwks url) token cache in
        let b = validate J s' (rs256_jwks url) token' a.jwks_cache in
        (b.requests ≡ []) × (b.jwks_cache ≡ a.jwks_cache)
  validate-Serves s s' url token token' kid keys cache claims h h' e listed young asked valid =
      let same = headed s url token kid cache h in
      validate-silent s' url token' kid _ h' (
        subst (λ a. Serves J s'.first_look kid a.jwks_cache) (sym same)
          (fetch-Serves s url kid keys s'.first_look listed young cache token claims e
            (sym (ap (λ a. Answer.requests a) same) ∙ asked)
            (sym (ap (λ a. Answer.result a) same) ∙ valid)))
