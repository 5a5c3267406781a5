-- ===== src/Examples/Instances.antt =====
-- Concrete functions for the crates: a comparison of byte strings, a digest of zeros and an encoding
-- of the right length.
use skyauth.Base.{
  ℕ, zero, suc, ◌+◌, ◌*◌, ◌/◌, ◌≡◌, refl, true, length, all, replicate, length-replicate, list_eq,
  list_eq_refl, list_eq_sound, List, arith,
}
use skyauth.Crypto.{Crypto, is_base64url}
use skyauth.Kernels.CtEq.{Subtle}

abbrev pub subtle : Subtle
subtle = record {
  ct_eq = list_eq;
  ct_eq_iff = λ a b same. (list_eq_sound a b, λ e. rw e (list_eq_refl b));
}

pub all-replicate : (n : ℕ) → all is_base64url (replicate n b'A') ≡ true
unfolding is_base64url
all-replicate zero = refl
all-replicate (suc n) = ground (arith, all-replicate n)

abbrev pub crypto : Crypto
crypto = record {
  sha256 = λ bytes. replicate 32 0;
  length-sha256 = λ bytes. refl;
  encode = λ bytes. replicate ((length bytes * 4 + 2) / 3) b'A';
  length-encode = λ bytes. length-replicate ((length bytes * 4 + 2) / 3) b'A';
  all-encode = λ bytes. all-replicate ((length bytes * 4 + 2) / 3);
}

abbrev pub hash : List ℕ → ℕ
hash key = length key
