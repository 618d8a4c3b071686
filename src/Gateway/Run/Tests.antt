-- ===== src/Gateway/Run/Tests.antt =====
-- A whole connection of one user with one bucket: it subscribes, gets its snapshot,
-- deletes an entity, and a poll finds an op.
use prometheus_entity_sync.Base.{
  EmitsAt, Text, codes, text_eq, Result, ok, none, some, List, [], ◌∷◌, ℕ,
}
use prometheus_entity_sync.Core.{TokenClaims, delete}
use prometheus_entity_sync.Gateway.Effects.{Env}
use prometheus_entity_sync.Protocol.{ClientMessage, subscribe, write}
use prometheus_entity_sync.Oplog.Redb.Sample.{sample}
use prometheus_entity_sync.Gateway.Auth.{Jwt, Surroundings, hmac_sha256, unreachable, validate}
use prometheus_entity_sync.Gateway.Auth.Trust.{IsChecked}
use prometheus_entity_sync.Gateway.Connection.{binary}
use prometheus_entity_sync.Gateway.Serve.{Input, incoming, delta_tick, keepalive_tick}
use prometheus_entity_sync.Gateway.Run.{run}
use prometheus_entity_sync.Gateway.Run.Frames.{IsAllowed}
use prometheus_entity_sync.Gateway.Run.Authorized.{IsEntitled, run-IsAllowed}
use prometheus_entity_sync.Gateway.Tests.{env, world, at_ten, assigner, no_faults, log}

abbrev claims : TokenClaims
claims = record { sub = codes "alice"; tenant_id = none; exp = 1000; custom = [] }

abbrev library : Jwt
library = record {
  Key = Text;
  from_secret = λ s. s;
  from_rsa_components = λ n e. ok n;
  decode_header = λ token. ok (some token);
  decode = λ token key alg. ok claims;
}

abbrev surroundings : Surroundings library
surroundings = record {
  first_look = 100;
  second_look = 100;
  stored_at = λ j. 100;
  others = λ cache. cache;
  response = unreachable [];
}

-- The first frame subscribes, and the others ask for a deletion.
abbrev decode_frame : Text → Result Text ClientMessage
decode_frame [] = ok (subscribe (codes "todos" ∷ []) (codes "token") none 1)
decode_frame (c ∷ cs) = ok (write (codes "todos") (codes "5") delete)

abbrev writing : Env
writing = record env { decode_client = decode_frame }

abbrev inputs : List (ℕ × Input sample)
inputs =
    (0, incoming (some (ok (binary (codes "write")))))
    ∷ (0, keepalive_tick)
    ∷ (0, delta_tick (λ b. log) no_faults)
    ∷ []

run-IsAllowed_example :
    EmitsAt
      (IsAllowed writing sample
        (λ b. ok 0)
        inputs
        (IsEntitled writing world at_ten 10 assigner
          (some (ok (binary [])))
          (IsChecked library (λ kid key. Unit) (hmac_sha256 (codes "secret")))))
      []
      (run writing sample
        (λ b. ok 0)
        inputs
        world
        at_ten
        10
        assigner
        (λ token. (validate library surroundings (hmac_sha256 (codes "secret")) token []).result)
        (some (ok (binary [])))
        []).0.1
run-IsAllowed_example =
    run-IsAllowed library (λ kid key. Unit) surroundings (hmac_sha256 (codes "secret")) []
      (λ kid key t h. tt) (λ kid key t h. tt) tt writing sample (λ b. ok 0) inputs world at_ten 10
      assigner (some (ok (binary []))) []
