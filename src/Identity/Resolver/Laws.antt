-- ===== src/Identity/Resolver/Laws.antt =====
-- What a resolved identity has been checked for.
use mathlib.Core.List.{Memᴰ}
use skyauth.Base.{
  ℕ, ◌≡◌, ◌⊎◌, refl, ap, subst, ◌∙◌, true, arith, some, Option, List, [], ◌∷◌, ◌++◌, any, list_eq,
  list_eq_sound, ok, Bool-cases, inl, inr, bind-ok, then-ok, ok-injective, ok_or, map_err-ok,
}
use skyauth.Base.Text.{
  Str, codes, trim, trim_start_matches, to_ascii_lowercase, starts_with, contains_char,
  strip_prefix, split,
}
use skyauth.Ssrf.Network.{Network, did_document, get_json}
use skyauth.Identity.{DidDocument}
use skyauth.Identity.Errors.{invalid_did_syntax}
use skyauth.Identity.Handles.{
  default_handle_domain, normalize_handle, normalize_handle_with_default_domain,
  normalize_user_handle,
}
use skyauth.Identity.Handles.Laws.{
  IsHandle, no_localhost, normalize_handle-IsHandle, normalize_handle-ok,
  normalize_handle-normalize_handle,
}
use skyauth.Identity.Dids.{DidMethod, plc, web, validate_did_syntax}
use skyauth.Identity.Documents.{
  validate_id, matches_handle, verify_handle_bidirectional, extract_pds_endpoint,
  extract_primary_handle,
}
use skyauth.Identity.Resolver.{
  Doh, IdentityResolver, ResolvedIdentity, resolve_handle, resolve_did, resolve_did_plc,
  resolve_did_web, by_method, fetch_document, document_error, resolve_from_did, resolve_from_handle,
  plc_url, web_url, resolve_ident, https_scheme,
}

-- The document names the handle, in any case.
abbrev pub Names : DidDocument → (handle : Str) → Type 0
Names doc handle =
    (aka : Str) × Memᴰ aka doc.also_known_as × (to_ascii_lowercase aka ≡ codes "at://" ++ handle)

any-Memᴰ :
    (uri : Str) (akas : List Str)
    → any (λ aka. list_eq (to_ascii_lowercase aka) uri) akas ≡ true
    → (aka : Str) × Memᴰ aka akas × (to_ascii_lowercase aka ≡ uri)
any-Memᴰ uri [] h = cc
any-Memᴰ uri (a ∷ akas) h = elim (Bool-cases (list_eq (to_ascii_lowercase a) uri)) [
  | inl e ↦ (a, Memᴰ.head refl, list_eq_sound (to_ascii_lowercase a) uri e)
  | inr e ↦ let (aka, m, q) = any-Memᴰ uri akas (ground arith) in (aka, Memᴰ.tail m, q)
]

-- The result of completing a handle is a normalized one.
normalize_user_handle-normalized :
    (raw h : Str) → normalize_user_handle raw ≡ ok h → (r : Str) × (normalize_handle r ≡ ok h)
unfolding normalize_user_handle normalize_handle_with_default_domain
normalize_user_handle-normalized raw h q =
    let n = to_ascii_lowercase (trim (trim_start_matches b'@' (trim raw))) in
    let suffix = trim_start_matches b'.' (trim default_handle_domain) in
    elim (Bool-cases (contains_char b'.' n)) [
      | inl dotted ↦ (raw, ground arith)
      | inr single ↦ (n ++ b'.' ∷ suffix, ground arith)
    ]

verify_handle_bidirectional-Names :
    (doc : DidDocument) (raw h : Str)
    → normalize_handle raw ≡ ok h
    → verify_handle_bidirectional doc h ≡ ok tt
    → Names doc h
unfolding verify_handle_bidirectional matches_handle
verify_handle_bidirectional-Names doc raw h q v =
    let stable = (normalize_handle-ok h h (normalize_handle-normalize_handle raw h q)).0 in
    let (aka, m, e) =
      any-Memᴰ (codes "at://" ++ to_ascii_lowercase (trim_start_matches b'@' (trim h)))
        doc.also_known_as (ground arith) in
    (aka, m, e ∙ ap (λ s. codes "at://" ++ s) stable)

validate_id-eq : (doc : DidDocument) (did : Str) → validate_id doc did ≡ ok tt → doc.id ≡ did
unfolding validate_id
validate_id-eq doc did h = list_eq_sound doc.id did (ground arith)

module _ (net : Network) (doh : Doh) (from_slice : List ℕ → Option DidDocument)
    (resolver : IdentityResolver) where
  abbrev pub IsFetched : (did : Str) → DidDocument → Type 0
  IsFetched did doc =
      (url : Str) × (get_json net resolver.ssrf_filter from_slice did_document url ≡ ok doc)
      × (doc.id ≡ did)

  fetch_document-IsFetched :
      (did url : Str) (doc : DidDocument)
      → fetch_document net doh from_slice resolver did url ≡ ok doc
      → IsFetched did doc
  unfolding fetch_document
  fetch_document-IsFetched did url doc h =
      let (d, got, rest) = bind-ok _ _ h in
      let (named, same) = then-ok (validate_id d did) (ok d) rest in
      let e : d ≡ doc = cc in
      (
        url,
        map_err-ok (document_error did)
              (get_json net resolver.ssrf_filter from_slice did_document url) got
            ∙ ap ok e,
        subst (λ (x : DidDocument). x.id ≡ did) e (validate_id-eq d did named),
      )

  -- How the subject of a resolved identity was found.
  abbrev pub IsSubject : (trimmed : Str) → ResolvedIdentity → Type 0
  IsSubject trimmed r =
      ((r.did ≡ trimmed) × (r.handle ≡ extract_primary_handle r.did_doc))
      ⊎ ((handle : Str) × (normalize_user_handle trimmed ≡ ok handle)
          × IsHandle handle
          × (r.handle ≡ some handle)
          × (resolve_handle net doh from_slice resolver handle ≡ ok r.did)
          × Names r.did_doc handle)

  pub record IsSound (trimmed : Str) (r : ResolvedIdentity) : Type 0 where
    pub method : DidMethod
    pub supported : validate_did_syntax r.did ≡ ok method
    pub fetched : IsFetched r.did r.did_doc
    pub endpoint : extract_pds_endpoint net.parse r.did_doc ≡ ok r.pds_endpoint
    pub subject : IsSubject trimmed r

  by_method-IsFetched :
      (did : Str) (doc : DidDocument) (m : DidMethod)
      → by_method net doh from_slice resolver did m ≡ ok doc
      → IsFetched did doc
  unfolding by_method resolve_did_plc resolve_did_web
  by_method-IsFetched did doc plc h =
      let (m, valid, rest) = bind-ok (validate_did_syntax did) _ h in
      fetch_document-IsFetched did (plc_url net doh from_slice resolver did) doc rest
  by_method-IsFetched did doc web h =
      let (m, valid, rest) = bind-ok (validate_did_syntax did) _ h in
      let (suffix, found, fetched) =
        bind-ok (ok_or (strip_prefix (codes "did:web:") did) invalid_did_syntax) _ rest in
      fetch_document-IsFetched did (web_url net doh from_slice resolver (split b':' suffix)) doc
        fetched

  resolve_did-IsFetched :
      (did : Str) (doc : DidDocument)
      → resolve_did net doh from_slice resolver did ≡ ok doc
      → (m : DidMethod) × (validate_did_syntax did ≡ ok m) × IsFetched did doc
  unfolding resolve_did
  resolve_did-IsFetched did doc h =
      let (m, valid, rest) =
        bind-ok (validate_did_syntax did) (by_method net doh from_slice resolver did) h in
      (m, valid, by_method-IsFetched did doc m rest)

  resolve_from_did-IsSound :
      (trimmed : Str) (r : ResolvedIdentity)
      → resolve_from_did net doh from_slice resolver trimmed ≡ ok r
      → IsSound trimmed r
  unfolding resolve_from_did
  resolve_from_did-IsSound trimmed r h =
      let (doc, got, rest) = bind-ok (resolve_did net doh from_slice resolver trimmed) _ h in
      let (pds_endpoint, endpoint, done) = bind-ok (extract_pds_endpoint net.parse doc) _ rest in
      let (m, valid, fetched) = resolve_did-IsFetched trimmed doc got in
      subst (IsSound trimmed) (ok-injective done) (record {
        method = m;
        supported = valid;
        fetched = fetched;
        endpoint = endpoint;
        subject = inl (refl, refl);
      })

  resolve_from_handle-IsSound :
      (trimmed : Str) (r : ResolvedIdentity)
      → resolve_from_handle net doh from_slice resolver trimmed ≡ ok r
      → IsSound trimmed r
  unfolding resolve_from_handle
  resolve_from_handle-IsSound trimmed r h =
      let (handle, normal, rest) = bind-ok (normalize_user_handle trimmed) _ h in
      let (did, found, rest) = bind-ok (resolve_handle net doh from_slice resolver handle) _ rest in
      let (doc, got, rest) = bind-ok (resolve_did net doh from_slice resolver did) _ rest in
      let (named, rest) = then-ok (verify_handle_bidirectional doc handle) _ rest in
      let (pds_endpoint, endpoint, done) = bind-ok (extract_pds_endpoint net.parse doc) _ rest in
      let (m, valid, fetched) = resolve_did-IsFetched did doc got in
      let (raw, normalized) = normalize_user_handle-normalized trimmed handle normal in
      subst (IsSound trimmed) (ok-injective done) (record {
        method = m;
        supported = valid;
        fetched = fetched;
        endpoint = endpoint;
        subject = inr (
          handle,
          normal,
          normalize_handle-IsHandle raw handle normalized,
          refl,
          found,
          verify_handle_bidirectional-Names doc raw handle normalized named,
        );
      })

  -- A resolved identity has a DID of a supported method, a document that was fetched over the
  -- filter and has that DID, and the endpoint of the document. If a DID was given, it is that one,
  -- and the handle is the first valid one that the document claims; if a handle was given, it was
  -- completed and normalized, it resolved to the DID, and the document names it.
  pub resolve_ident-IsSound :
      (handle_or_did : Str) (r : ResolvedIdentity)
      → resolve_ident net doh from_slice resolver handle_or_did ≡ ok r
      → IsSound (trim handle_or_did) r
  unfolding resolve_ident
  resolve_ident-IsSound handle_or_did r h =
      elim (Bool-cases (starts_with (codes "did:") (trim handle_or_did))) [
        | inl did ↦ resolve_from_did-IsSound (trim handle_or_did) r (ground arith)
        | inr handle ↦ resolve_from_handle-IsSound (trim handle_or_did) r (ground arith)
      ]

  -- No handle is asked for over plain HTTP, whatever the filter allows.
  https_scheme-normalize_handle :
      (raw handle : Str)
      → normalize_handle raw ≡ ok handle
      → https_scheme net doh from_slice resolver handle ≡ codes "https"
  unfolding https_scheme
  https_scheme-normalize_handle raw handle h =
      let off = no_localhost handle (normalize_handle-IsHandle raw handle h) in ground arith
