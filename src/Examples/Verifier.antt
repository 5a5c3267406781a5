-- ===== src/Examples/Verifier.antt =====
-- The properties of the proof verifier at a concrete proof: a header, claims and a key that a
-- constant parser reads from any bytes.
use skyauth.Base.{
  ℕ, ◌+◌, ◌≤◌, ◌≡◌, ◌>>◌, refl, Option, some, none, true, false, List, [], ok, arith, replicate,
  length, ◌==◌, list_eq, if◌then◌else◌, is_ok,
}
use skyauth.Base.Text.{Str, codes, split, is_empty, trim, eq_ignore_ascii_case}
use skyauth.Base.Utf8.{len}
use skyauth.Kernels.HtuComponents.{parse, build_normalized_htu}
use skyauth.Kernels.CtEq.{constant_time_eq}
use skyauth.Maps.{get}
use skyauth.Crypto.{base64url_encode, sha256_digest}
use skyauth.Url.{UrlParser}
use skyauth.Dpop.Htu.{normalize_htu}
use skyauth.Dpop.ReplayCache.{DpopReplayCache}
use skyauth.Dpop.ReplayCache
use skyauth.Dpop.ReplayCache.Laws.{new-IsWellFormed}
use skyauth.Dpop.Proof.{
  JwkEc, DpopProofClaims, Jose, decode_proof, decode_parts, base64url_decode, check_header,
  header_str, to_verifying_key, base64url_decode_fixed, verifying_key_from_coordinates,
  verify_p256_raw,
}
use skyauth.Dpop.Verifier.{
  DpopVerifier, Expected, ReplayAdmission, new, verify_proof_no_replay, verify_proof,
  verify_proof_deferred, commit_replay_admission, admission_of, time_of, check_request, check_claim,
  check_times, thumbprint, jwk_thumbprint_ec_p256, secs_of, admit_decoded, admit_proof,
}
use skyauth.Dpop.Verifier.Laws.{verify_proof_no_replay-timely, verify_proof-deferred}
use skyauth.Dpop.Verifier.Accepted.{
  Carries, IsSigned, verify_proof_no_replay-bound, decode_proof-IsSigned,
}
use skyauth.Dpop.Verifier.Replays.{after, verify_proof-once}
use skyauth.Examples.Instances.{crypto, subtle, hash}

abbrev jwk : JwkEc
jwk = record { kty = codes "EC"; crv = codes "P-256"; x = codes "xx"; y = codes "yy" }

abbrev claims : DpopProofClaims
claims = record {
  jti = codes "id";
  htm = codes "post";
  htu = codes "https://pds.example/";
  iat = 1000;
  exp = some 1100;
  nonce = some (codes "n");
  ath = none;
}

-- A value is 0 for the header, 1 and 2 for its texts, and 3 for its key.
abbrev field_of : ℕ → Str → Option ℕ
field_of v name =
    if v == 0
    then if list_eq name (codes "typ")
      then some 1
      else if list_eq name (codes "alg")
      then some 2
      else if list_eq name (codes "jwk")
      then some 3
      else none
    else none

abbrev jose : Jose
jose = record {
  Value = ℕ;
  from_slice = λ bytes. some 0;
  get = field_of;
  as_str = λ v. some (if v == 1 then codes "DPoP+JWT" else codes "ES256");
  jwk_from_value = λ v. some jwk;
  claims_from_slice = λ bytes. some claims;
  VerifyingKey = List ℕ;
  from_sec1_bytes = λ bytes. some bytes;
  Signature = List ℕ;
  signature_from_slice = λ bytes. some bytes;
  verify = λ key message signature. true;
  decode_no_pad = λ s. some (replicate (if length s == 2 then 32 else 64) 7);
  decode_padded = λ s. none;
}

abbrev url : UrlParser
url s = some (record {
  scheme = codes "https";
  host_str = some (codes "pds.example");
  port = none;
  port_or_known_default = some 443;
  path = codes "/";
  username = [];
  password = none;
  query = none;
  fragment = none;
  ascii_origin = codes "https://pds.example";
})

abbrev proof : Str
proof = codes "h.p.s"

abbrev expected : Expected
expected = record {
  htm = codes "POST";
  htu = codes "https://PDS.example";
  nonce = some (codes "n");
  ath = none;
}

abbrev decoded : DpopProofClaims × JwkEc
decoded = (claims, jwk)

decoded_ok : decode_proof jose proof ≡ ok decoded
unfolding decode_proof split trim decode_parts base64url_decode check_header header_str
    eq_ignore_ascii_case to_verifying_key base64url_decode_fixed verifying_key_from_coordinates
    verify_p256_raw
decoded_ok = refl

verified_ok :
    verify_proof_no_replay jose crypto subtle url new proof expected none (some 1010) ≡ ok decoded
unfolding verify_proof_no_replay check_request trim len eq_ignore_ascii_case normalize_htu parse
    build_normalized_htu check_claim constant_time_eq time_of check_times new
verified_ok = rw decoded_ok refl

decode_proof-IsSigned_example : IsSigned jose proof decoded
decode_proof-IsSigned_example = decode_proof-IsSigned jose proof decoded decoded_ok

verify_proof_no_replay-timely_example :
    (now : ℕ) × (time_of none (some 1010) ≡ ok now)
    × (decoded.0.iat ≤ now + new.max_clock_skew)
    × (now ≤ decoded.0.iat + new.max_proof_age)
    × ((exp : ℕ) → decoded.0.exp ≡ some exp → now ≤ exp + new.max_clock_skew)
verify_proof_no_replay-timely_example =
    verify_proof_no_replay-timely jose crypto subtle url new proof expected none (some 1010) decoded
      verified_ok

verify_proof_no_replay-bound_example :
    (is_empty (trim decoded.0.jti) ≡ false)
    × (len decoded.0.jti ≤ 256)
    × (eq_ignore_ascii_case decoded.0.htm expected.htm ≡ true)
    × ((u : Str) × (normalize_htu url expected.htu ≡ ok u)
        × (normalize_htu url decoded.0.htu ≡ ok u))
    × Carries expected.nonce decoded.0.nonce
    × Carries expected.ath decoded.0.ath
verify_proof_no_replay-bound_example =
    verify_proof_no_replay-bound jose crypto subtle url new proof expected none (some 1010) decoded
      verified_ok

abbrev admission : ReplayAdmission
admission = admission_of jose crypto subtle url new decoded 1010

deferred_ok :
    verify_proof_deferred jose crypto subtle url new proof expected none (some 1010) (some 1010)
    ≡ ok (claims, jwk, admission)
unfolding verify_proof_deferred secs_of
deferred_ok = rw verified_ok refl

verify_proof-deferred_example :
    verify_proof jose crypto subtle url hash new proof expected none (some 1010) (some 1010) ≡ (
      (commit_replay_admission hash new admission).0 >> ok (claims, jwk),
      (commit_replay_admission hash new admission).1,
    )
verify_proof-deferred_example =
    verify_proof-deferred jose crypto subtle url hash new proof expected none (some 1010)
      (some 1010) claims jwk admission deferred_ok

abbrev kept : DpopReplayCache
kept =
    (ReplayCache.check_and_record hash ReplayCache.new (thumbprint jose crypto subtle url jwk)
      (codes "id") 1370 1010).1

abbrev used : DpopVerifier
used = record { max_clock_skew = 60; max_proof_age = 300; replay_cache = some kept }

first_ok :
    verify_proof jose crypto subtle url hash new proof expected none (some 1010) (some 1010)
    ≡ (ok decoded, used)
unfolding verify_proof admit_decoded secs_of admit_proof new ReplayCache.check_and_record
    ReplayCache.is_live get ReplayCache.new ReplayCache.shard_index ReplayCache.composite_key
    thumbprint jwk_thumbprint_ec_p256 base64url_encode sha256_digest ReplayCache.admit
    ReplayCache.record_proof ReplayCache.hinted_prune
first_ok = rw verified_ok refl

verify_proof-once_example :
    is_ok
      (verify_proof jose crypto subtle url hash
        (after hash [] used kept)
        proof
        expected
        none
        (some 1200)
        (some 1200)).0
    ≡ false
unfolding new
verify_proof-once_example =
    verify_proof-once jose crypto subtle url hash new used ReplayCache.new kept proof expected
      expected 1010 1200 decoded [] refl new-IsWellFormed first_ok refl tt (omega arith)
      (λ e. omega arith) (omega arith)
