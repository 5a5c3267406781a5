-- ===== src/Identity/Documents.antt =====
-- The checks that src/identity.rs makes on a DID document.
use skyauth.Base.{
  ◌∷◌, ◌++◌, Bool, not, ◌&&◌, ◌||◌, Option, none, some, List, [], any, list_eq, if◌then◌else◌,
  Result, ok, err, ◌>>◌, ◌>>=◌, fail_if, ok_or,
}
use skyauth.Base.Text.{
  Str, codes, ends_with, strip_prefix, to_ascii_lowercase, trim, trim_start_matches,
  trim_end_matches,
}
use skyauth.Url.{UrlParser}
use skyauth.Identity.{DidDocument, DidService}
use skyauth.Identity.Errors.{
  IdentityError, did_document_id_mismatch, handle_did_mismatch, missing_pds_endpoint,
  invalid_pds_endpoint,
}
use skyauth.Identity.Handles.{normalize_handle}

unfoldable pub validate_id : DidDocument → (expected_did : Str) → Result IdentityError (Unit {0})
validate_id doc expected_did =
    if list_eq doc.id expected_did
    then ok tt
    else err (did_document_id_mismatch expected_did doc.id)

unfoldable pub matches_handle : DidDocument → (handle : Str) → Bool
matches_handle doc handle =
    let expected_uri =
      codes "at://" ++ to_ascii_lowercase (trim_start_matches b'@' (trim handle)) in
    any (λ aka. list_eq (to_ascii_lowercase aka) expected_uri) doc.also_known_as

-- The closure of `find_map`.
unfoldable pub claimed_handle : (aka : Str) → Option Str
claimed_handle aka = elim (strip_prefix (codes "at://") aka) [
  | none ↦ none
  | some candidate ↦ elim (normalize_handle candidate) [ ok h ↦ some h | err e ↦ none ]
]

unfoldable pub first_handle : (also_known_as : List Str) → Option Str
unfolding claimed_handle
first_handle [] = none
first_handle (aka ∷ rest) =
    let later = first_handle rest in elim (claimed_handle aka) [ none ↦ later | some h ↦ some h ]

unfoldable pub extract_primary_handle : DidDocument → Option Str
unfolding first_handle
extract_primary_handle doc = first_handle doc.also_known_as

unfoldable pub verify_handle_bidirectional :
    DidDocument → (handle : Str) → Result IdentityError (Unit {0})
unfolding matches_handle
verify_handle_bidirectional doc handle =
    if matches_handle doc handle then ok tt else err (handle_did_mismatch handle)

unfoldable pub is_pds : DidService → Bool
is_pds s =
    (list_eq s.id (codes "#atproto_pds") || ends_with (codes "#atproto_pds") s.id)
    && list_eq s.service_type (codes "AtprotoPersonalDataServer")

unfoldable pub find_pds : List DidService → Option DidService
unfolding is_pds
find_pds [] = none
find_pds (s ∷ services) = let rest = find_pds services in if is_pds s then some s else rest

unfoldable pub is_web_scheme : (scheme : Str) → Bool
is_web_scheme scheme = list_eq scheme (codes "https") || list_eq scheme (codes "http")

unfoldable pub extract_pds_endpoint : UrlParser → DidDocument → Result IdentityError Str
unfolding find_pds is_web_scheme
extract_pds_endpoint parse doc =
    ok_or (find_pds doc.service) (missing_pds_endpoint doc.id) >>= λ svc.
    let trimmed = trim_end_matches b'/' (trim svc.service_endpoint) in
    ok_or (parse trimmed) invalid_pds_endpoint >>= λ parsed.
    fail_if (not (is_web_scheme parsed.scheme)) invalid_pds_endpoint >> ok trimmed
