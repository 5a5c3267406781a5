-- ===== src/Examples/Tower.antt =====
-- The properties of the middleware at a concrete request.
use skyauth.Kernels.HtuComponents.{parse, build_normalized_htu}
use skyauth.Dpop.Htu.{normalize_htu}
use skyauth.Maps.{get}
use skyauth.Crypto.{base64url_encode, sha256_digest}
use skyauth.Base.{
  arith, ℕ, ◌+◌, ◌≡◌, refl, Bool, true, false, Option, some, none, List, [], ◌∷◌, ok, err, Result,
}
use skyauth.Base.Text.{Str, codes, split, trim, eq_ignore_ascii_case, split_once}
use skyauth.Base.Utf8.{len}
use skyauth.Dpop.ReplayCache.{DpopReplayCache}
use skyauth.Dpop.ReplayCache
use skyauth.Dpop.ReplayCache.Laws.{new-IsWellFormed}
use skyauth.Dpop.ReplayCache.Replays.{Op, check_op, prune_op}
use skyauth.Dpop.Proof.{
  base64url_decode, header_str, verify_p256_raw, decode_proof, decode_parts, check_header,
  to_verifying_key, base64url_decode_fixed, verifying_key_from_coordinates,
}
use skyauth.Dpop.Verifier.{
  new, thumbprint, commit_replay_admission, jwk_thumbprint_ec_p256, admit_proof,
  verify_proof_deferred, verify_proof_no_replay, check_request, check_claim, time_of, check_times,
  admission_of,
}
use skyauth.Integrations.{AuthenticatedUser, IntegrationError, token, malformed_token}
use skyauth.Integrations.JwtValidator.{JwtAccessTokenClaims, verify_token_sync}
use skyauth.Integrations.JwtValidator.Laws.{IsSigned}
use skyauth.Integrations.JwtValidator.Claims.{IsValid}
use skyauth.Integrations.Tower.{
  Scheme, https, Request, Response, Pending, pending, NonceSource, credential_of, request_htu,
  default_htu_from_uri,
}
use skyauth.Integrations.Tower.Prepare.{OauthAuthService, Clock, prepare}
use skyauth.Integrations.Tower.Complete.{complete, Outcome}
use skyauth.Integrations.Tower.Checked.{IsChecked}
use skyauth.Integrations.Tower.Once.{others, complete-once}
use skyauth.Integrations.Tower.Refused.{IsRefusal, IsSpent, complete-refused}
use skyauth.Integrations.Tower.Authenticated.{complete-authenticated}
use skyauth.Examples.Instances.{crypto, subtle, hash}
use skyauth.Examples.Integrations.{jose, url, jkt, access_claims, tokens, user, as_array, token_ok}

abbrev nonces : NonceSource
nonces = record {
  State = ℕ;
  generate_nonce = λ s. (ok (codes "n"), s + 1);
  verify_nonce = λ s n. (true, s);
}

abbrev zero_body : ℕ
zero_body = 0

abbrev header_ok : Str → Bool
header_ok s = true

abbrev service : OauthAuthService ℕ
service = record { verifier = new; nonce_source = some 0; require_ath = false; htu_override = none }

abbrev request : Request
request = record {
  method = codes "POST";
  uri = record {
    scheme_str = some (codes "https");
    authority =
        some (record { as_str = codes "pds.example"; host = codes "pds.example"; port_u16 = none });
    host = some (codes "pds.example");
    port_u16 = none;
    path_and_query = some (codes "/");
  };
  authorization = some (some (codes "DPoP hhh.p.s"));
  dpop = some (some (codes "h.p.s"));
}

abbrev clock : Clock
clock = record { checked_at = some 1010; admitted_at = some 1010 }

abbrev parse_scheme : Str → Option Scheme
parse_scheme s = some https

abbrev waiting : Pending
waiting = record {
  access_token = codes "hhh.p.s";
  dpop_thumbprint = jkt;
  replay_admission = record { jkt = jkt; jti = codes "id"; expires_at = 1370; now = 1010 };
}

abbrev validator : (token jkt : Str) → Result IntegrationError AuthenticatedUser
validator = verify_token_sync jose subtle as_array (λ b. some access_claims) tokens (some 1010)

abbrev served : AuthenticatedUser → Result ℕ (Response ℕ)
served u = ok (record {
  status = 200;
  www_authenticate = none;
  dpop_nonce = none;
  retry_after = none;
  body = 1;
})

prepared_ok :
    (prepare zero_body header_ok nonces jose crypto subtle url parse_scheme service request clock).0
    ≡ pending waiting
unfolding prepare credential_of split_once eq_ignore_ascii_case request_htu default_htu_from_uri
    verify_proof_deferred verify_proof_no_replay decode_proof split trim decode_parts
    base64url_decode check_header header_str to_verifying_key base64url_decode_fixed
    verifying_key_from_coordinates verify_p256_raw check_request len normalize_htu parse
    build_normalized_htu check_claim time_of check_times new admission_of
prepared_ok = refl

forwarded_ok :
    (complete zero_body header_ok nonces hash validator served new
      (some 0)
      (pending waiting)).forwarded
    ≡ some user
unfolding complete commit_replay_admission admit_proof new ReplayCache.check_and_record
    ReplayCache.is_live get ReplayCache.new ReplayCache.shard_index ReplayCache.composite_key
    thumbprint jwk_thumbprint_ec_p256 base64url_encode sha256_digest ReplayCache.admit
    ReplayCache.record_proof ReplayCache.hinted_prune
forwarded_ok = rw token_ok refl

complete-authenticated_example :
    (p : Pending) × (checked : IsChecked zero_body header_ok nonces jose crypto subtle url
      parse_scheme service request clock p)
    × (claims : JwtAccessTokenClaims ℕ) × (now_secs : ℕ) × (some 1010 ≡ some now_secs)
    × IsSigned jose subtle as_array (λ b. some access_claims) tokens p.access_token claims
    × IsValid jose subtle as_array
        (λ b. some access_claims)
        tokens
        claims
        (thumbprint jose crypto subtle url checked.jwk)
        now_secs
    × (user.did ≡ claims.sub)
    × (user.dpop_thumbprint ≡ thumbprint jose crypto subtle url checked.jwk)
    × ((commit_replay_admission hash new p.replay_admission).0 ≡ ok tt)
complete-authenticated_example =
    complete-authenticated zero_body header_ok nonces jose crypto subtle url parse_scheme hash
      as_array (λ b. some access_claims) served service request clock tokens (some 1010) new
      (some 0) user (rw prepared_ok forwarded_ok)

abbrev refusing : (token jkt : Str) → Result IntegrationError AuthenticatedUser
refusing t k = err (token malformed_token)

refused_ok :
    (complete zero_body header_ok nonces hash refusing served new
      (some 0)
      (pending waiting)).forwarded
    ≡ none
unfolding complete
refused_ok = refl

-- The answer of the middleware when the validator refuses the token.
abbrev refused : Outcome ℕ ℕ ℕ
refused =
    complete zero_body header_ok nonces hash refusing served new (some 0)
      (prepare zero_body header_ok nonces jose crypto subtle url parse_scheme service request
        clock).0

complete-refused_example :
    ((r : Response ℕ) × (refused.response ≡ ok r) × IsRefusal r)
    × IsSpent zero_body header_ok nonces hash refusing served new refused.verifier
        (prepare zero_body header_ok nonces jose crypto subtle url parse_scheme service request
          clock).0
complete-refused_example =
    complete-refused zero_body header_ok nonces hash refusing served jose crypto subtle url
      parse_scheme service request clock new (some 0) (rw prepared_ok refused_ok)

abbrev repeated : Pending
repeated = record waiting {
  replay_admission = record { jkt = jkt; jti = codes "id"; expires_at = 1560; now = 1200 };
}

-- Another proof is admitted, the cache is pruned, and the first proof is tried again.
abbrev between : List Op
between = check_op jkt (codes "other") 1400 1100 ∷ prune_op 1150 ∷ []

complete-once_example :
    (complete zero_body header_ok nonces hash validator served
      (others hash between
        (complete zero_body header_ok nonces hash validator served new
          (some 0)
          (pending waiting)).verifier)
      (some 0)
      (pending repeated)).forwarded
    ≡ none
unfolding new
complete-once_example =
    complete-once zero_body header_ok nonces hash validator served new ReplayCache.new (some 0)
      (some 0) waiting repeated user between refl new-IsWellFormed forwarded_ok
      (omega arith, (omega arith, tt)) refl refl (omega arith) (omega arith)
