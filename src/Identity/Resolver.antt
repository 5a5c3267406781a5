-- ===== src/Identity/Resolver.antt =====
-- `IdentityResolver` and `StandardDnsResolver` of src/identity.rs: handles to DIDs by DNS and by
-- HTTPS, DIDs to documents, and the two together. The network is a parameter, as are the client for
-- DNS over HTTPS and the deserializers.
pub mod Laws
use skyauth.Base.{
  ℕ, ◌*◌, ◌∷◌, ◌++◌, Bool, true, false, ◌&&◌, ◌||◌, ◌==◌, Option, none, some, List, [], leb, ltb,
  not, list_eq, if◌then◌else◌, Result, ok, err, ◌>>◌, ◌>>=◌, fail_if, ok_or, map_err,
}
use skyauth.Base.Text.{
  Str, codes, is_empty, join, replace, split, starts_with, strip_prefix, trim, trim_matches,
  trim_end_matches,
}
use skyauth.Base.Utf8.{from_utf8}
use skyauth.Ssrf.{SsrfError, SsrfFilter, http_status}
use skyauth.Ssrf.Fetch.{Response, read_bounded_body}
use skyauth.Ssrf.Network.{Network, handle_https, did_document, get_bytes, get_json}
use skyauth.Identity.{DidDocument}
use skyauth.Identity.Errors.{
  IdentityError, invalid_did_syntax, malformed_did_document, dns, handle_resolution_failed,
  ambiguous_handle_resolution, did_not_found, ssrf,
}
use skyauth.Identity.Handles.{normalize_handle, normalize_user_handle}
use skyauth.Identity.Dids.{DidMethod, plc, web, validate_did_syntax}
use skyauth.Identity.Documents.{
  validate_id, extract_pds_endpoint, extract_primary_handle, verify_handle_bidirectional,
}

abbrev pub default_plc_directory : Str
default_plc_directory = codes "https://plc.directory"

abbrev pub doh_max_response_bytes : ℕ
doh_max_response_bytes = 64 * 1024

-- The trait `DnsTxtResolver`.
abbrev pub DnsTxtResolver : Type 0
DnsTxtResolver = (query_name : Str) → Result IdentityError (List Str)

pub record DohAnswer : Type 0 where
  pub answer_type : ℕ
  pub data_text : Str

-- The client for DNS over HTTPS, and the deserializer of its answers.
pub record Doh : Type 0 where
  pub send : (doh_url : Str) → Result IdentityError Response
  pub answers : List ℕ → Option (List DohAnswer)

-- The filter on TXT answers, and the quotes taken off.
unfoldable pub txt_records : List DohAnswer → List Str
txt_records [] = []
txt_records (a ∷ answers) =
    let rest = txt_records answers in
    if a.answer_type == 16 then trim_matches b'"' a.data_text ∷ rest else rest

-- `StandardDnsResolver::resolve_txt`.
unfoldable pub resolve_txt : Doh → DnsTxtResolver
unfolding txt_records
resolve_txt doh query_name =
    doh.send
      (codes "https://cloudflare-dns.com/dns-query?name=" ++ (query_name ++ codes "&type=TXT"))
    >>= λ resp.
        fail_if (not (leb 200 resp.status && ltb resp.status 300)) dns
        >> (map_err (λ _. dns) (read_bounded_body resp doh_max_response_bytes) >>= λ bytes.
            ok_or (doh.answers bytes) dns >>= λ answers. ok (txt_records answers))

pub record IdentityResolver : Type 0 where
  pub ssrf_filter : SsrfFilter
  pub plc_directory_url : Str
  pub dns_resolver : Option DnsTxtResolver

pub record ResolvedIdentity : Type 0 where
  pub did : Str
  pub handle : Option Str
  pub did_doc : DidDocument
  pub pds_endpoint : Str

unfoldable pub new : SsrfFilter → IdentityResolver
new ssrf_filter = record {
  ssrf_filter = ssrf_filter;
  plc_directory_url = default_plc_directory;
  dns_resolver = none;
}

-- The texts after `did=` that are not empty.
unfoldable pub dids_of : (records : List Str) → List Str
dids_of [] = []
dids_of (r ∷ records) =
    let rest = dids_of records in
    elim (strip_prefix (codes "did=") r) [
      | none ↦ rest
      | some d ↦ if is_empty d then rest else d ∷ rest
    ]

unfoldable pub all_same : (first_did : Str) → List Str → Bool
all_same first_did [] = true
all_same first_did (did ∷ dids) = list_eq did first_did && all_same first_did dids

unfoldable pub select_did :
    (normalized : Str) → (dids : List Str) → Result IdentityError (Option Str)
unfolding all_same
select_did normalized [] = ok none
select_did normalized (first_did ∷ dids) = validate_did_syntax first_did >>= λ _.
    fail_if (not (all_same first_did dids)) (ambiguous_handle_resolution normalized)
    >> ok (some first_did)

-- The mapping of a failed fetch of a document.
unfoldable pub document_error : (did : Str) → SsrfError → IdentityError
document_error did (http_status status) =
    if status == 404 then did_not_found did else ssrf (http_status status)
document_error did SsrfError.json = malformed_did_document
document_error did e = ssrf e

module _ (net : Network) (doh : Doh) (from_slice : List ℕ → Option DidDocument)
    (resolver : IdentityResolver) where
  unfoldable pub query_txt :
      (query_name : Str) → Option DnsTxtResolver → Result IdentityError (List Str)
  query_txt query_name none = resolve_txt doh query_name
  query_txt query_name (some custom) = custom query_name

  unfoldable pub resolve_handle_dns : (handle : Str) → Result IdentityError (Option Str)
  resolve_handle_dns handle = normalize_handle handle >>= λ normalized.
      query_txt (codes "_atproto." ++ normalized) resolver.dns_resolver >>= λ records.
      select_did normalized (dids_of records)

  unfoldable pub https_scheme : (normalized : Str) → Str
  https_scheme normalized =
      if resolver.ssrf_filter.allow_insecure_localhost
        && (list_eq normalized (codes "localhost") || starts_with (codes "localhost:") normalized)
      then codes "http"
      else codes "https"

  unfoldable pub resolve_handle_https : (handle : Str) → Result IdentityError Str
  resolve_handle_https handle = normalize_handle handle >>= λ normalized.
      let url =
        https_scheme normalized
        ++ (codes "://" ++ (normalized ++ codes "/.well-known/atproto-did")) in
      map_err (λ _. handle_resolution_failed normalized)
        (get_bytes net resolver.ssrf_filter handle_https url 2048)
      >>= λ bytes. ok_or (from_utf8 bytes) (handle_resolution_failed normalized) >>= λ text.
          validate_did_syntax (trim text) >>= λ _. ok (trim text)

  -- The `match` on the answer of the DNS.
  unfoldable pub fall_back :
      (normalized : Str) → Result IdentityError (Option Str) → Result IdentityError Str
  fall_back normalized (ok (some did)) = ok did
  fall_back normalized (ok none) = resolve_handle_https normalized
  fall_back normalized (err IdentityError.dns) = resolve_handle_https normalized
  fall_back normalized (err e) = err e

  unfoldable pub resolve_handle : (handle : Str) → Result IdentityError Str
  resolve_handle handle =
      normalize_handle handle >>= λ normalized. fall_back normalized (resolve_handle_dns normalized)

  -- The fetch of a document and the test of its identifier.
  unfoldable pub fetch_document : (did url : Str) → Result IdentityError DidDocument
  fetch_document did url =
      map_err (document_error did) (get_json net resolver.ssrf_filter from_slice did_document url)
      >>= λ doc. validate_id doc did >> ok doc

  unfoldable pub plc_url : (did : Str) → Str
  plc_url did = trim_end_matches b'/' resolver.plc_directory_url ++ b'/' ∷ did

  unfoldable pub resolve_did_plc : (did : Str) → Result IdentityError DidDocument
  resolve_did_plc did = validate_did_syntax did >>= λ _. fetch_document did (plc_url did)

  unfoldable pub web_scheme : (domain : Str) → Str
  web_scheme domain =
      if resolver.ssrf_filter.allow_insecure_localhost
        && (starts_with (codes "localhost") domain || starts_with (codes "127.0.0.1") domain)
      then codes "http"
      else codes "https"

  -- The URL for the parts after `did:web:`.
  unfoldable pub web_url : (parts : List Str) → Str
  web_url [] = []
  web_url (domain_encoded ∷ []) =
      let domain =
        replace (codes "%3a") (codes ":") (replace (codes "%3A") (codes ":") domain_encoded) in
      web_scheme domain ++ (codes "://" ++ (domain ++ codes "/.well-known/did.json"))
  web_url (domain_encoded ∷ part ∷ parts) =
      let domain =
        replace (codes "%3a") (codes ":") (replace (codes "%3A") (codes ":") domain_encoded) in
      web_scheme domain
      ++ (codes "://" ++ (domain ++ b'/' ∷ (join b'/' (part ∷ parts) ++ codes "/did.json")))

  unfoldable pub resolve_did_web : (did : Str) → Result IdentityError DidDocument
  resolve_did_web did = validate_did_syntax did >>= λ _.
      ok_or (strip_prefix (codes "did:web:") did) invalid_did_syntax >>= λ stripped.
      fetch_document did (web_url (split b':' stripped))

  unfoldable pub by_method : (did : Str) → DidMethod → Result IdentityError DidDocument
  by_method did plc = resolve_did_plc did
  by_method did web = resolve_did_web did

  unfoldable pub resolve_did : (did : Str) → Result IdentityError DidDocument
  resolve_did did = validate_did_syntax did >>= by_method did

  unfoldable pub resolve_from_did : (did : Str) → Result IdentityError ResolvedIdentity
  resolve_from_did did = resolve_did did >>= λ doc.
      extract_pds_endpoint net.parse doc >>= λ pds_endpoint. ok (record {
        did = did;
        handle = extract_primary_handle doc;
        did_doc = doc;
        pds_endpoint = pds_endpoint;
      })

  unfoldable pub resolve_from_handle : (trimmed : Str) → Result IdentityError ResolvedIdentity
  resolve_from_handle trimmed = normalize_user_handle trimmed >>= λ handle.
      resolve_handle handle >>= λ did. resolve_did did >>= λ doc.
      verify_handle_bidirectional doc handle
      >> (extract_pds_endpoint net.parse doc >>= λ pds_endpoint.
          ok (record {
            did = did;
            handle = some handle;
            did_doc = doc;
            pds_endpoint = pds_endpoint;
          }))

  unfoldable pub resolve_ident : (handle_or_did : Str) → Result IdentityError ResolvedIdentity
  resolve_ident handle_or_did =
      let trimmed = trim handle_or_did in
      if starts_with (codes "did:") trimmed
      then resolve_from_did trimmed
      else resolve_from_handle trimmed
