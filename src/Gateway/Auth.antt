-- ===== src/Gateway/Auth.antt =====
-- crates/pes-gateway/src/auth.rs: `JwtValidator`. A call takes the cache of JWKS keys and returns it
-- beside the result, with the requests that it made. `jsonwebtoken` and the endpoint's answer are
-- arguments, and so is what other tasks do to the cache while a call waits for the refresh lock.
pub mod Trust
pub mod Stored
pub mod Fresh
mod Tests
use prometheus_entity_sync.Base.{
  Text, codes, text_eq, Map, get, insert, Result, ok, err, map_err, ◌>>=◌, ok_or, Option, none,
  some, List, [], ◌∷◌, ◌++◌, ℕ, ◌-◌, ltb, if◌then◌else◌,
}
use prometheus_entity_sync.Core.{SyncError, auth_error, TokenClaims}

pub data JwtValidationConfig : Type 0 where
  hmac_sha256 : Text → JwtValidationConfig
  rs256_jwks : Text → JwtValidationConfig

pub data Algorithm : Type 0 where
  hs256 rs256 : Algorithm

-- In seconds.
abbrev pub jwks_cache_ttl : ℕ
jwks_cache_ttl = 300

pub record Jwk : Type 0 where
  pub kid : Option Text
  pub n : Text
  pub e : Text

-- What the validator calls of `jsonwebtoken`: `decode` checks the signature under the key, the
-- algorithm of the header against the given one, and the expiry.
pub record Jwt : Type 1 where
  pub Key : Type 0
  pub from_secret : Text → Key
  pub from_rsa_components : Text → Text → Result Text Key
  pub decode_header : Text → Result Text (Option Text)
  pub decode : Text → Key → Algorithm → Result Text TokenClaims

-- The answer of the endpoint.
pub data JwksResponse : Type 0 where
  unreachable unreadable : Text → JwksResponse
  key_set : List Jwk → JwksResponse

module _ (J : Jwt) where
  open J use {Key}

  abbrev pub Cache : Type 0
  Cache = Map Text (Key × ℕ)

  -- What a call meets: the readings of the clock at its two looks into the cache and when a key is
  -- stored, the other tasks, and the endpoint.
  pub record Surroundings : Type 0 where
    pub first_look : ℕ
    pub second_look : ℕ
    pub stored_at : Jwk → ℕ
    pub others : Cache → Cache
    pub response : JwksResponse

  pub record Answer (A : Type 0) : Type 0 where
    pub result : Result SyncError A
    pub requests : List Text
    pub jwks_cache : Cache

  -- `fetched_at.elapsed() < JWKS_CACHE_TTL`
  abbrev pub fresh_key : ℕ → Option (Key × ℕ) → Option Key
  fresh_key now none = none
  fresh_key now (some (key, fetched_at)) =
      if ltb (now - fetched_at) jwks_cache_ttl then some key else none

  abbrev pub kid_or_empty : Option Text → Text
  kid_or_empty none = []
  kid_or_empty (some kid) = kid

  -- The loop over the keys of the response; those before a bad one stay in the cache.
  abbrev pub store_key :
      (Cache → Result SyncError (Unit {0}) × Cache)
      → Jwk
      → ℕ
      → Cache
      → Result Text Key
      → Result SyncError (Unit {0}) × Cache
  store_key rest jwk t cache (err e) =
      (err (auth_error (codes "invalid JWK RSA components: " ++ e)), cache)
  store_key rest jwk t cache (ok key) = rest (insert cache (kid_or_empty jwk.kid) (key, t))

  unfoldable pub store_keys : (Jwk → ℕ) → List Jwk → Cache → Result SyncError (Unit {0}) × Cache
  store_keys stored_at [] cache = (ok tt, cache)
  store_keys stored_at (jwk ∷ keys) cache =
      store_key (store_keys stored_at keys) jwk (stored_at jwk) cache
        (J.from_rsa_components jwk.n jwk.e)

  pub not_found : Text → SyncError
  not_found kid = auth_error (codes "no JWK found for kid '" ++ (kid ++ codes "'"))

  abbrev pub cached_key : Option (Key × ℕ) → Option Key
  cached_key none = none
  cached_key (some (key, fetched_at)) = some key

  abbrev pub look_up_stored : Text → Text → Result SyncError (Unit {0}) × Cache → Answer Key
  look_up_stored url kid (err e, cache) = record {
    result = err e;
    requests = url ∷ [];
    jwks_cache = cache;
  }
  look_up_stored url kid (ok _, cache) = record {
    result = ok_or (cached_key (get cache kid)) (not_found kid);
    requests = url ∷ [];
    jwks_cache = cache;
  }

  abbrev pub fetch_key : Surroundings → Text → Text → Cache → JwksResponse → Answer Key
  fetch_key s url kid cache (unreachable e) = record {
    result = err (auth_error (codes "JWKS fetch failed: " ++ e));
    requests = url ∷ [];
    jwks_cache = cache;
  }
  fetch_key s url kid cache (unreadable e) = record {
    result = err (auth_error (codes "JWKS response parse failed: " ++ e));
    requests = url ∷ [];
    jwks_cache = cache;
  }
  fetch_key s url kid cache (key_set keys) =
      look_up_stored url kid (store_keys s.stored_at keys cache)

  abbrev pub found : Key → Cache → Answer Key
  found key cache = record { result = ok key; requests = []; jwks_cache = cache }

  abbrev pub look_again : Surroundings → Text → Text → Cache → Option Key → Answer Key
  look_again s url kid cache (some key) = found key cache
  look_again s url kid cache none = fetch_key s url kid cache s.response

  abbrev pub look_first : Surroundings → Text → Text → Cache → Option Key → Answer Key
  look_first s url kid cache (some key) = found key cache
  look_first s url kid cache none =
      let waited = s.others cache in
      look_again s url kid waited (fresh_key s.second_look (get waited kid))

  unfoldable pub get_or_fetch_key : Surroundings → Text → Text → Cache → Answer Key
  unfolding store_keys
  get_or_fetch_key s url kid cache =
      look_first s url kid cache (fresh_key s.first_look (get cache kid))

  pub rs256_failed : Text → SyncError
  rs256_failed e = auth_error (codes "RS256 validation failed: " ++ e)

  pub hmac_failed : Text → SyncError
  hmac_failed e = auth_error (codes "HMAC validation failed: " ++ e)

  abbrev pub decode_with : Text → Answer Key → Answer TokenClaims
  decode_with token a = record {
    result = a.result >>= λ key. map_err rs256_failed (J.decode token key rs256);
    requests = a.requests;
    jwks_cache = a.jwks_cache;
  }

  abbrev pub with_header :
      Surroundings → Text → Text → Cache → Result Text (Option Text) → Answer TokenClaims
  with_header s token url cache (err e) = record {
    result = err (auth_error (codes "malformed JWT header: " ++ e));
    requests = [];
    jwks_cache = cache;
  }
  with_header s token url cache (ok none) = record {
    result = err (auth_error (codes "JWT header missing kid"));
    requests = [];
    jwks_cache = cache;
  }
  with_header s token url cache (ok (some kid)) =
      decode_with token (get_or_fetch_key s url kid cache)

  unfoldable pub validate_rs256 : Surroundings → Text → Text → Cache → Answer TokenClaims
  unfolding get_or_fetch_key
  validate_rs256 s token url cache = with_header s token url cache (J.decode_header token)

  unfoldable pub validate_hmac : Text → Text → Cache → Answer TokenClaims
  validate_hmac token secret cache = record {
    result = map_err hmac_failed (J.decode token (J.from_secret secret) hs256);
    requests = [];
    jwks_cache = cache;
  }

  unfoldable pub validate : Surroundings → JwtValidationConfig → Text → Cache → Answer TokenClaims
  unfolding validate_rs256 validate_hmac
  validate s (hmac_sha256 secret) token cache = validate_hmac token secret cache
  validate s (rs256_jwks url) token cache = validate_rs256 s token url cache
