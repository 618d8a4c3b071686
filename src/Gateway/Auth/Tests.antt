-- ===== src/Gateway/Auth/Tests.antt =====
-- crates/pes-gateway/src/auth.rs: one endpoint with one key.
use prometheus_entity_sync.Base.{
  Text, codes, text_eq, Map, Has, All, Result, ok, err, ok-injective, Option, none, some, List, [],
  ◌∷◌, ℕ, ◌-◌, ◌<◌, ◌≡◌, refl, sym, inl, inr, arith, ◌==◌,
}
use prometheus_entity_sync.Core.{TokenClaims}
use prometheus_entity_sync.Gateway.Auth.{
  rs256_jwks, Jwk, Jwt, key_set, unreachable, Surroundings, Answer, validate,
}
use prometheus_entity_sync.Gateway.Auth.Trust.{IsCheckedAnswer, validate-IsChecked}
use prometheus_entity_sync.Gateway.Auth.Fresh.{validate-Serves}

abbrev claims : TokenClaims
claims = record { sub = codes "alice"; tenant_id = none; exp = 1000; custom = [] }

-- A token is its key id; a key is good for all tokens or for none.
abbrev library : Jwt
library = record {
  Key = Text;
  from_secret = λ s. s;
  from_rsa_components = λ n e. ok n;
  decode_header = λ token. ok (some token);
  decode = λ token key alg. ok claims;
}

abbrev jwk : Jwk
jwk = record { kid = some (codes "k1"); n = codes "good"; e = [] }

abbrev url : Text
url = codes "https://id.example"

abbrev world : Surroundings library
world = record {
  first_look = 100;
  second_look = 100;
  stored_at = λ j. 100;
  others = λ cache. cache;
  response = key_set (jwk ∷ []);
}

abbrev later : Surroundings library
later = record world { first_look = 399; response = unreachable [] }

-- The endpoint offers `k2` only, and 300 seconds have gone by.
abbrev rotated : Surroundings library
rotated = record world {
  first_look = 400;
  second_look = 400;
  response = key_set (record { kid = some (codes "k2"); n = codes "new"; e = [] } ∷ []);
}

abbrev asked : Answer library TokenClaims
asked = validate library world (rs256_jwks url) (codes "k1") []

validate-IsChecked_example :
    IsCheckedAnswer library (λ kid key. key ≡ codes "good") (rs256_jwks url) (codes "k1") asked
unfolding prometheus_entity_sync.Base.get
validate-IsChecked_example =
    validate-IsChecked library (λ kid key. key ≡ codes "good") world (rs256_jwks url) (codes "k1")
      [] (λ kid key t h. cc) (λ kid key t h. cc) ((λ key h. sym (ok-injective h)), tt)

validate-Serves_example :
    ((validate library later (rs256_jwks url) (codes "k1") asked.jwks_cache).requests ≡ [])
    × ((validate library later (rs256_jwks url) (codes "k1") asked.jwks_cache).jwks_cache
        ≡ asked.jwks_cache)
unfolding validate prometheus_entity_sync.Base.get prometheus_entity_sync.Base.insert
    prometheus_entity_sync.Base.text_beq
validate-Serves_example =
    validate-Serves library world later url (codes "k1") (codes "k1") (codes "k1") (jwk ∷ []) []
      claims refl refl refl (inl refl) (omega arith, tt) refl refl
