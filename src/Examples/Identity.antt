-- ===== src/Examples/Identity.antt =====
-- The properties of identity resolution at a concrete handle, which DNS answers for.
use skyauth.Identity.Documents.{validate_id, verify_handle_bidirectional, extract_pds_endpoint}
use skyauth.Kernels.IpFilter.{is_restricted_ip, is_restricted_ipv4_octets}
use skyauth.Ssrf.Resolver.{checked_addrs}
use skyauth.Ssrf.{validate_url, is_blocked_hostname, validate_ip, is_ip_restricted}
use skyauth.Ssrf.Fetch.{safe_get_json, build_pinned_client, resolve_and_pin, read_bounded_body}
use skyauth.Net.{parse_ip}
use skyauth.Base.Utf8.{len}
use skyauth.Base.{ℕ, ◌≡◌, ◌↔◌, refl, false, Option, some, none, List, [], ◌∷◌, ◌++◌, ok}
use skyauth.Base.Text.{
  Str, codes, trim, join, to_ascii_lowercase, trim_start_matches, starts_with, split, ends_with,
  is_ascii_alphanumeric, contains_char, strip_prefix, trim_end_matches,
}
use skyauth.Ssrf.Network.{Network, get_json}
use skyauth.Identity.{DidDocument}
use skyauth.Identity.Handles.{
  normalize_handle, check_handle, is_ip_like, check_labels, is_disallowed, normalize_user_handle,
  normalize_handle_with_default_domain,
}
use skyauth.Identity.Handles.Laws.{normalize_handle-normalize_handle}
use skyauth.Identity.Dids.{validate_did_syntax, plc}
use skyauth.Identity.Dids.Laws.{IsPlcHash, validate_did_syntax-plc_iff}
use skyauth.Identity.Resolver.{
  Doh, IdentityResolver, ResolvedIdentity, resolve_ident, resolve_from_handle, resolve_handle,
  fall_back, resolve_handle_dns, query_txt, select_did, dids_of, resolve_did, by_method,
  resolve_did_plc, fetch_document,
}
use skyauth.Identity.Resolver.Laws.{IsSound, resolve_ident-IsSound}
use skyauth.Examples.Ssrf

abbrev pub net : Network
net = record {
  parse = Ssrf.parse;
  join = Ssrf.join;
  worlds = λ call n. Ssrf.world;
  pinned_ips = λ call. [];
}

abbrev pub doh : Doh
doh = record { send = λ u. ok Ssrf.response; answers = λ bytes. none }

abbrev pub did : Str
did = codes "did:plc:abcdefghijklmnopqrstuvwx"

abbrev pub document : DidDocument
document = record {
  id = did;
  also_known_as = codes "at://Alice.example.net" ∷ [];
  verification_method = [];
  service =
      record {
        id = codes "#atproto_pds";
        service_type = codes "AtprotoPersonalDataServer";
        service_endpoint = codes "https://pds.example";
      }
      ∷ [];
}

abbrev pub document_of : List ℕ → Option DidDocument
document_of bytes = some document

abbrev pub resolver : IdentityResolver
resolver = record {
  ssrf_filter = record { allow_insecure_localhost = false };
  plc_directory_url = codes "https://plc.directory";
  dns_resolver = some (λ name. ok ((codes "did=" ++ did) ∷ []));
}

abbrev pub alice : Str
alice = codes "@alice.example.net"

abbrev pub resolved : ResolvedIdentity
resolved = record {
  did = did;
  handle = some (codes "alice.example.net");
  did_doc = document;
  pds_endpoint = codes "https://pds.example";
}

normalized : normalize_handle alice ≡ ok (codes "alice.example.net")
unfolding normalize_handle check_handle to_ascii_lowercase trim_start_matches trim len is_ip_like
    parse_ip starts_with split check_labels ends_with is_ascii_alphanumeric is_disallowed
normalized = refl

pub resolved_ok : resolve_ident net doh document_of resolver alice ≡ ok resolved
unfolding resolve_ident starts_with trim resolve_from_handle normalize_user_handle
    normalize_handle_with_default_domain to_ascii_lowercase trim_start_matches contains_char
    normalize_handle check_handle len is_ip_like parse_ip split check_labels ends_with
    is_ascii_alphanumeric is_disallowed resolve_handle fall_back resolve_handle_dns query_txt
    select_did dids_of strip_prefix validate_did_syntax resolve_did by_method resolve_did_plc
    fetch_document get_json safe_get_json build_pinned_client resolve_and_pin validate_url
    is_blocked_hostname trim_end_matches checked_addrs validate_ip is_ip_restricted is_restricted_ip
    is_restricted_ipv4_octets read_bounded_body validate_id verify_handle_bidirectional
    extract_pds_endpoint
resolved_ok = refl

normalize_handle-normalize_handle_example :
    normalize_handle (codes "alice.example.net") ≡ ok (codes "alice.example.net")
normalize_handle-normalize_handle_example =
    normalize_handle-normalize_handle alice (codes "alice.example.net") normalized

resolve_ident-IsSound_example : IsSound net doh document_of resolver (trim alice) resolved
resolve_ident-IsSound_example =
    resolve_ident-IsSound net doh document_of resolver alice resolved resolved_ok

-- A tail after the identifier is accepted too.
validate_did_syntax-plc_iff_example :
    (validate_did_syntax (did ++ codes ":../../admin") ≡ ok plc) ↔ (
      (hash : Str) × (rest : List Str) × IsPlcHash hash
      × (trim (did ++ codes ":../../admin") ≡ join b':' (codes "did" ∷ codes "plc" ∷ hash ∷ rest)))
validate_did_syntax-plc_iff_example = validate_did_syntax-plc_iff (did ++ codes ":../../admin")
