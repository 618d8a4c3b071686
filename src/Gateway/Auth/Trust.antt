-- ===== src/Gateway/Auth/Trust.antt =====
-- crates/pes-gateway/src/auth.rs: the keys that tokens are checked with.
use prometheus_entity_sync.Base.{
  Text, text_eq, get, insert, get-insert, All, Result, ok, err, map_err, >>=-eq-ok, ok_or,
  ok-injective, Option, none, some, List, [], ◌∷◌, ℕ, ◌-◌, ltb, Bool-cases, ◌==◌, ==_iff, ◌≡◌, refl,
  sym, ap, inl, inr,
}
use mathlib.Core.Path.{subst}
use prometheus_entity_sync.Core.{SyncError, TokenClaims}
use prometheus_entity_sync.Gateway.Auth.{
  JwtValidationConfig, hmac_sha256, rs256_jwks, hs256, rs256, Jwk, Jwt, JwksResponse, unreachable,
  unreadable, key_set, Cache, Surroundings, Answer, fresh_key, kid_or_empty, store_key, store_keys,
  cached_key, look_up_stored, fetch_key, look_again, look_first, get_or_fetch_key, with_header,
  validate,
}

module _ (J : Jwt) (Trusted : Text → Jwt.Key J → Type 0) where
  open J use {Key}

  -- Every key of the cache is trusted for the id it stands under.
  abbrev pub IsTrusted : Cache J → Type 0
  IsTrusted cache =
      (kid : Text) (key : Key) (t : ℕ) → get cache kid ≡ some (key, t) → Trusted kid key

  abbrev IsTrustedEntry : Text → Option (Key × ℕ) → Type 0
  IsTrustedEntry kid o = (key : Key) (t : ℕ) → o ≡ some (key, t) → Trusted kid key

  -- The keys that a response offers.
  abbrev pub OffersTrusted : JwksResponse → Type 0
  OffersTrusted (unreachable e) = Unit
  OffersTrusted (unreadable e) = Unit
  OffersTrusted (key_set keys) =
      All
        (λ jwk.
          (key : Key)
          → J.from_rsa_components jwk.n jwk.e ≡ ok key
          → Trusted (kid_or_empty J jwk.kid) key)
        keys

  insert-IsTrusted :
      (cache : Cache J) (kid : Text) (key : Key) (t : ℕ)
      → IsTrusted cache
      → Trusted kid key
      → IsTrusted (insert cache kid (key, t))
  insert-IsTrusted cache kid key t h trusted other =
      subst (IsTrustedEntry other) (sym (get-insert cache kid (key, t) other))
        (elim (Bool-cases (kid == other)) [
          | inl same ↦ rw same (λ k t' e.
              subst (λ i. Trusted i k) ((==_iff kid other).0 same)
                (subst (Trusted kid) (cc e) trusted))
          | inr apart ↦ rw apart (h other)
        ])

  store_key-IsTrusted :
      (stored_at : Jwk → ℕ) (keys : List Jwk) (jwk : Jwk) (cache : Cache J) (r : Result Text Key)
      → IsTrusted cache
      → ((key : Key) → r ≡ ok key → Trusted (kid_or_empty J jwk.kid) key)
      → ((c : Cache J) → IsTrusted c → IsTrusted (store_keys J stored_at keys c).1)
      → IsTrusted (store_key J (store_keys J stored_at keys) jwk (stored_at jwk) cache r).1
  store_key-IsTrusted stored_at keys jwk cache (err e) h offers rest = h
  store_key-IsTrusted stored_at keys jwk cache (ok key) h offers rest =
      rest _
        (insert-IsTrusted cache (kid_or_empty J jwk.kid) key (stored_at jwk) h (offers key refl))

  store_keys-IsTrusted :
      (stored_at : Jwk → ℕ) (keys : List Jwk) (cache : Cache J)
      → IsTrusted cache
      → OffersTrusted (key_set keys)
      → IsTrusted (store_keys J stored_at keys cache).1
  unfolding store_keys
  store_keys-IsTrusted stored_at [] cache h offers = h
  store_keys-IsTrusted stored_at (jwk ∷ keys) cache h offers =
      store_key-IsTrusted stored_at keys jwk cache (J.from_rsa_components jwk.n jwk.e) h offers.0
        (λ c k. store_keys-IsTrusted stored_at keys c k offers.1)

  -- A key that is given out is trusted for the id, and the cache is.
  record GivesTrusted (kid : Text) (a : Answer J Key) : Type 0 where
    given : (key : Key) → a.result ≡ ok key → Trusted kid key
    kept : IsTrusted a.jwks_cache

  cached-trusted :
      (kid : Text) (o : Option (Key × ℕ)) (e : SyncError) (key : Key)
      → IsTrustedEntry kid o
      → ok_or (cached_key J o) e ≡ ok key
      → Trusted kid key
  cached-trusted kid none e key h r = cc
  cached-trusted kid (some (k, t)) e key h r = subst (Trusted kid) (ok-injective r) (h k t refl)

  fresh-trusted :
      (now : ℕ) (kid : Text) (o : Option (Key × ℕ)) (key : Key)
      → IsTrustedEntry kid o
      → fresh_key J now o ≡ some key
      → Trusted kid key
  fresh-trusted now kid none key h r = cc
  fresh-trusted now kid (some (k, t)) key h r = elim (Bool-cases (ltb (now - t) 300)) [
    | inl young ↦ subst (Trusted kid) (cc (rw young at r)) (h k t refl)
    | inr old ↦ cc (rw old at r)
  ]

  look_up-GivesTrusted :
      (url kid : Text) (r : Result SyncError (Unit {0}) × Cache J)
      → IsTrusted r.1
      → GivesTrusted kid (look_up_stored J url kid r)
  look_up-GivesTrusted url kid (err e, cache) h = record { given = λ key r. cc; kept = h }
  look_up-GivesTrusted url kid (ok u, cache) h = record {
    given = λ key r. cached-trusted kid (get cache kid) _ key (h kid) r;
    kept = h;
  }

  fetch_key-GivesTrusted :
      (s : Surroundings J) (url kid : Text) (cache : Cache J) (response : JwksResponse)
      → IsTrusted cache
      → OffersTrusted response
      → GivesTrusted kid (fetch_key J s url kid cache response)
  fetch_key-GivesTrusted s url kid cache (unreachable e) h offers = record {
    given = λ key r. cc;
    kept = h;
  }
  fetch_key-GivesTrusted s url kid cache (unreadable e) h offers = record {
    given = λ key r. cc;
    kept = h;
  }
  fetch_key-GivesTrusted s url kid cache (key_set keys) h offers =
      look_up-GivesTrusted url kid _ (store_keys-IsTrusted s.stored_at keys cache h offers)

  look_again-GivesTrusted :
      (s : Surroundings J) (url kid : Text) (cache : Cache J) (o : Option Key)
      → fresh_key J s.second_look (get cache kid) ≡ o
      → IsTrusted cache
      → OffersTrusted s.response
      → GivesTrusted kid (look_again J s url kid cache o)
  look_again-GivesTrusted s url kid cache none e h offers =
      fetch_key-GivesTrusted s url kid cache s.response h offers
  look_again-GivesTrusted s url kid cache (some key) e h offers = record {
    given = λ k r.
        subst (Trusted kid) (ok-injective r)
          (fresh-trusted s.second_look kid (get cache kid) key (h kid) e);
    kept = h;
  }

  look_first-GivesTrusted :
      (s : Surroundings J) (url kid : Text) (cache : Cache J) (o : Option Key)
      → fresh_key J s.first_look (get cache kid) ≡ o
      → IsTrusted cache
      → IsTrusted (s.others cache)
      → OffersTrusted s.response
      → GivesTrusted kid (look_first J s url kid cache o)
  look_first-GivesTrusted s url kid cache none e h k offers =
      look_again-GivesTrusted s url kid (s.others cache) _ refl k offers
  look_first-GivesTrusted s url kid cache (some key) e h k offers = record {
    given = λ k' r.
        subst (Trusted kid) (ok-injective r)
          (fresh-trusted s.first_look kid (get cache kid) key (h kid) e);
    kept = h;
  }

  -- How the claims were obtained.
  abbrev pub IsChecked : JwtValidationConfig → Text → TokenClaims → Type 0
  IsChecked (hmac_sha256 secret) token claims =
      J.decode token (J.from_secret secret) hs256 ≡ ok claims
  IsChecked (rs256_jwks url) token claims =
      (kid : Text) × (key : Key) × (J.decode_header token ≡ ok (some kid))
      × Trusted kid key
      × (J.decode token key rs256 ≡ ok claims)

  abbrev pub IsCheckedAnswer : JwtValidationConfig → Text → Answer J TokenClaims → Type 0
  IsCheckedAnswer config token a =
      ((claims : TokenClaims) → a.result ≡ ok claims → IsChecked config token claims)
      × IsTrusted a.jwks_cache

  map_err-ok :
      {A : Type 0} (f : Text → SyncError) (r : Result Text A) (a : A)
      → map_err f r ≡ ok a
      → r ≡ ok a
  map_err-ok f (ok x) a h = ap ok (ok-injective h)
  map_err-ok f (err e) a h = cc

  header-IsChecked :
      (s : Surroundings J) (url token : Text) (cache : Cache J) (d : Result Text (Option Text))
      → J.decode_header token ≡ d
      → IsTrusted cache
      → IsTrusted (s.others cache)
      → OffersTrusted s.response
      → IsCheckedAnswer (rs256_jwks url) token (with_header J s token url cache d)
  unfolding get_or_fetch_key
  header-IsChecked s url token cache (err e) same h k offers = (λ c r. cc, h)
  header-IsChecked s url token cache (ok none) same h k offers = (λ c r. cc, h)
  header-IsChecked s url token cache (ok (some kid)) same h k offers =
      let gives =
        look_first-GivesTrusted s url kid cache (fresh_key J s.first_look (get cache kid)) refl h k
          offers in
      (
        λ claims r.
            let m = >>=-eq-ok (get_or_fetch_key J s url kid cache).result _ r in
            (
              kid,
              m.0,
              same,
              gives.given m.0 m.1,
              map_err-ok _ (J.decode token m.0 rs256) claims m.2,
            ),
        gives.kept,
      )

  -- If the keys of the cache are trusted for their ids, before and after what other tasks do while
  -- the call waits, and so are those that the endpoint offers, then the cache is trusted after a
  -- validation, and claims are accepted only if `decode` accepts the token: in HMAC mode under the
  -- shared secret and HS256, in JWKS mode under RS256 and a key that is trusted for the key id of
  -- the token's header.
  pub validate-IsChecked :
      (s : Surroundings J) (config : JwtValidationConfig) (token : Text) (cache : Cache J)
      → IsTrusted cache
      → IsTrusted (s.others cache)
      → OffersTrusted s.response
      → IsCheckedAnswer config token (validate J s config token cache)
  unfolding validate
  validate-IsChecked s (hmac_sha256 secret) token cache h k offers =
      (λ claims r. map_err-ok _ (J.decode token (J.from_secret secret) hs256) claims r, h)
  validate-IsChecked s (rs256_jwks url) token cache h k offers =
      header-IsChecked s url token cache (J.decode_header token) refl h k offers
