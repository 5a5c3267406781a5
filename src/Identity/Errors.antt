-- ===== src/Identity/Errors.antt =====
-- `IdentityError` of src/error.rs, without its messages.
use skyauth.Base.Text.{Str}
use skyauth.Ssrf.{SsrfError}

pub data IdentityError : Type 0 where
  invalid_handle_syntax invalid_did_syntax malformed_did_document invalid_pds_endpoint :
      IdentityError
  http json dns : IdentityError
  disallowed_handle_tld handle_resolution_failed ambiguous_handle_resolution : Str → IdentityError
  handle_did_mismatch unsupported_did_method did_not_found missing_pds_endpoint :
      Str → IdentityError
  did_document_id_mismatch : (expected actual : Str) → IdentityError
  ssrf : SsrfError → IdentityError
