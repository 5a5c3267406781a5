-- ===== src/Examples/Session.antt =====
-- The properties of a session at concrete inputs.
use skyauth.Base.{
  ℕ, ◌≡◌, ◌↔◌, some, none, false, refl, ok, Option, List, [], ◌∷◌, ◌>>=◌, replicate, length,
}
use skyauth.Base.Text.{codes, is_empty, trim, eq_ignore_ascii_case}
use skyauth.Session.{OauthSession, RawSession, Codec, new, serialize, deserialize, expiry_of}
use skyauth.Session.Laws.{deserialize-new}

-- The key is a number here.
abbrev session : OauthSession ℕ
session = record {
  sub = codes "did:plc:a";
  access_token = codes "t";
  refresh_token = none;
  token_type = codes "dpop";
  scope = none;
  expires_at = some 5000000010;
  dpop_key = 1;
  pds_endpoint = none;
  auth_server_issuer = none;
  token_endpoint = none;
  created_at = 10;
}

abbrev last : ℕ
last = 9000000000

made :
    new last 10 (codes "did:plc:a") (codes "t") none (codes "dpop") none (some 5) 1 none none none
    ≡ ok session
unfolding new eq_ignore_ascii_case expiry_of
made = refl

abbrev first : List RawSession → Option RawSession
first [] = none
first (raw ∷ rest) = some raw

-- The document is the list of the fields, and the PEM has as many letters as the key.
abbrev codec : Codec ℕ
codec = record {
  Document = List RawSession;
  write = λ raw. raw ∷ [];
  read = first;
  to_pkcs8_pem = λ key. some (replicate key b'A');
  from_pkcs8_pem = λ s. some (length s);
}

deserialize-new_example :
    ((serialize codec session >>= λ document. deserialize codec document) ≡ ok session)
    ↔ ((is_empty (trim (codes "did:plc:a")) ≡ false) × (is_empty (trim (codes "t")) ≡ false))
deserialize-new_example =
    deserialize-new last codec 10 (codes "did:plc:a") (codes "t") none (codes "dpop") none (some 5)
      1 none none none session (codes "A") made refl refl refl
