-- ===== src/Kernels/PkceBytes.antt =====
-- src/kernels/pkce_bytes.rs: which bytes may be a PKCE code verifier, and the specification of it
-- in src/verification/formal_models.rs (`PkceFormalSpec`).
pub mod Validation
use skyauth.Base.{
  ℕ, suc, ◌+◌, Bool, true, false, not, ◌&&◌, ◌||◌, List, [], ◌∷◌, length, ◌==◌, leb, if◌then◌else◌,
  Result, ok, err,
}
use skyauth.Base.Text.{is_ascii_alphanumeric}

abbrev pub verifier_min_length : ℕ
verifier_min_length = 43

abbrev pub verifier_max_length : ℕ
verifier_max_length = 128

unfoldable pub is_unreserved_byte : ℕ → Bool
unfolding is_ascii_alphanumeric
is_unreserved_byte byte =
    is_ascii_alphanumeric byte
    || (byte == b'-')
    || (byte == b'.')
    || (byte == b'_')
    || (byte == b'~')

unfoldable pub is_valid_verifier_length : ℕ → Bool
is_valid_verifier_length len = leb verifier_min_length len && leb len verifier_max_length

pub data VerifierByteError : Type 0 where
  invalid_length : ℕ → VerifierByteError
  invalid_character : (byte position : ℕ) → VerifierByteError

-- The loop over `verifier.iter().copied().enumerate()`, from a position on.
unfoldable pub check_bytes : ℕ → List ℕ → Result VerifierByteError (Unit {0})
check_bytes position [] = ok tt
check_bytes position (byte ∷ rest) =
    if not (is_unreserved_byte byte)
    then err (invalid_character byte position)
    else check_bytes (position + 1) rest

unfoldable pub validate_verifier_bytes : List ℕ → Result VerifierByteError (Unit {0})
unfolding check_bytes
validate_verifier_bytes verifier =
    if not (is_valid_verifier_length (length verifier))
    then err (invalid_length (length verifier))
    else check_bytes 0 verifier

-- `PkceFormalSpec`: the same domain by ranges.
unfoldable pub is_unreserved_char : ℕ → Bool
is_unreserved_char byte =
    (leb b'a' byte && leb byte b'z')
    || (leb b'A' byte && leb byte b'Z')
    || (leb b'0' byte && leb byte b'9')
    || (byte == b'-')
    || (byte == b'.')
    || (byte == b'_')
    || (byte == b'~')

unfoldable pub is_valid_verifier_len : ℕ → Bool
is_valid_verifier_len len = leb 43 len && leb len 128

-- The loop of `spec_validate_verifier`.
unfoldable pub spec_bytes : List ℕ → Bool
spec_bytes [] = true
spec_bytes (b ∷ rest) = if not (is_unreserved_char b) then false else spec_bytes rest

unfoldable pub spec_validate_verifier : List ℕ → Bool
unfolding spec_bytes
spec_validate_verifier verifier =
    if not (is_valid_verifier_len (length verifier)) then false else spec_bytes verifier
