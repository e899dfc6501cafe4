-- ===== src/Types/Codes.antt =====
-- facilitator/types.go: the scheme identifier and the error reason codes.
use cosmos_pay.Prelude.{String}

abbrev pub scheme_id : String
scheme_id = "exact_cosmos_authz"

abbrev pub err_invalid_signature : String
err_invalid_signature = "invalid_signature"

abbrev pub err_invalid_authorization : String
err_invalid_authorization = "invalid_authorization"

abbrev pub err_nonce_already_used : String
err_nonce_already_used = "nonce_already_used"

abbrev pub err_expired_authorization : String
err_expired_authorization = "expired_authorization"

abbrev pub err_insufficient_grant : String
err_insufficient_grant = "insufficient_grant"

abbrev pub err_insufficient_funds : String
err_insufficient_funds = "insufficient_funds"

abbrev pub err_broadcast_failed : String
err_broadcast_failed = "broadcast_failed"

abbrev pub err_unexpected : String
err_unexpected = "unexpected_settle_error"
