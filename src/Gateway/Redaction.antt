-- ===== src/Gateway/Redaction.antt =====
-- crates/pes-gateway/src/error.rs: what a client is told of an error.
use prometheus_entity_sync.Base.{Text, codes, ℕ, [], ◌≡◌, refl, sym, ap, ◌∙◌}
use prometheus_entity_sync.Core.{
  SyncError, bucket_assignment_failed, lsn_gap, checksum_mismatch, protocol_error, auth_error,
  database,
}

pub data GatewayErrorCode : Type 0 where
  auth_invalid bucket_denied protocol_violation internal : GatewayErrorCode

unfoldable pub wire_code : GatewayErrorCode → ℕ
wire_code auth_invalid = 4001
wire_code bucket_denied = 4002
wire_code protocol_violation = 4003
wire_code internal = 4099

pub record GatewayErrorResponse : Type 0 where
  pub code : GatewayErrorCode
  pub message : Text

unfoldable pub redact : SyncError → GatewayErrorResponse
redact (auth_error e) = record { code = auth_invalid; message = codes "authentication failed" }
redact (bucket_assignment_failed e) = record {
  code = bucket_denied;
  message = codes "bucket assignment could not be resolved";
}
redact (protocol_error e) = record { code = protocol_violation; message = codes "protocol error" }
redact (lsn_gap expected actual) = record { code = internal; message = codes "internal error" }
redact (checksum_mismatch expected actual) = record {
  code = internal;
  message = codes "internal error";
}
redact (database e) = record { code = internal; message = codes "internal error" }

-- Every detail of an error taken out, its variant kept.
abbrev without_detail : SyncError → SyncError
without_detail (bucket_assignment_failed e) = bucket_assignment_failed []
without_detail (lsn_gap expected actual) = lsn_gap 0 0
without_detail (checksum_mismatch expected actual) = checksum_mismatch 0 0
without_detail (protocol_error e) = protocol_error []
without_detail (auth_error e) = auth_error []
without_detail (database e) = database []

redact-without_detail : (e : SyncError) → redact (without_detail e) ≡ redact e
unfolding redact
redact-without_detail (bucket_assignment_failed e) = refl
redact-without_detail (lsn_gap expected actual) = refl
redact-without_detail (checksum_mismatch expected actual) = refl
redact-without_detail (protocol_error e) = refl
redact-without_detail (auth_error e) = refl
redact-without_detail (database e) = refl

-- Two errors of the same variant look alike to a client, whatever messages, LSNs or checksums they
-- carry.
pub redact_noninterference :
    (e f : SyncError) → without_detail e ≡ without_detail f → redact e ≡ redact f
redact_noninterference e f h = sym (redact-without_detail e) ∙ ap redact h ∙ redact-without_detail f
