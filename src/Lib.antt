-- ===== src/Lib.antt =====
-- Verification library of skyauth, an OAuth 2.1 client and resource-server library for AT Protocol.
--
-- Parts of the program and the files that model them (paths from the repository's root):
--   Kernels/IpFilter            src/kernels/ip_filter.rs, and `SsrfFormalSpec` of
--                               src/verification/formal_models.rs: which addresses are off limits
--   Kernels/CtEq                src/kernels/ct_eq.rs, and `ConstantTimeEqSpec` of formal_models.rs
--   Kernels/PkceBytes           src/kernels/pkce_bytes.rs, and the verifier specification of
--                               formal_models.rs
--   Kernels/ServiceAuthBytes    src/kernels/service_auth_bytes.rs: Multikey headers, token expiry
--   Kernels/HtuComponents       src/kernels/htu_components.rs: assembly of target URIs
--   Kernels/NsidBytes           src/kernels/nsid_bytes.rs: the grammar of method names
--   Crypto, Pkce                src/crypto.rs (hash and encoding calls), src/pkce.rs
--   Store                       src/store.rs: the sharded store of pending OAuth states
--   Dpop/ReplayCache            `DPoPReplayCache` of src/dpop.rs
--   Dpop/NonceSource            `InMemoryServerNonceSource` of src/dpop.rs
--   Dpop/Htu                    `normalize_htu`, `extract_dpop_nonce`, `DPoPNonceCache`
--   Dpop/Key                    `DPoPKey` of src/dpop.rs: proofs and client assertions
--   Dpop/Proof                  the compact form, key and signature of a proof, with the calls into
--                               src/crypto.rs
--   Dpop/Verifier               `DPoPVerifier` of src/dpop.rs: the checks of claims, the admission
--   Session                     src/session.rs: `OAuthSession`
--   Ssrf                        src/ssrf.rs: the filter; Ssrf/Resolver the DNS hook and its pins,
--                               Ssrf/Hosts the names it blocks, Ssrf/Fetch the pinned requests,
--                               Ssrf/Network the calls of one run of resolution and discovery
--   Integrations/JwtValidator   `JwtAccessTokenValidator` of src/integrations/validator.rs
--   Integrations/TokenRegistry  `InMemoryTokenValidator` of the same file
--   Integrations/Tower          src/integrations/tower.rs: the service; Tower/Prepare is what it
--                               does when called, Tower/Complete the future that it returns
--   Identity                    src/identity.rs: `DidDocument` and its signing key; Identity/Handles
--                               and Identity/Dids the syntax, Identity/Documents the checks of a
--                               document, Identity/Resolver `IdentityResolver`
--   Discovery                   src/discovery.rs: Discovery/Origins the tests on URLs, Discovery/Fetch
--                               the metadata, its validation and the whole discovery
--   Client                      src/client.rs: Client/Retry the course of a request and its one
--                               retry, Client/Token and Client/Resource the two requests,
--                               Client/Callback the callback and the exchange of a code,
--                               Client/Refresh the refresh, Client/SingleFlight its locks,
--                               Client/Preview what is shown before a login
--   ServiceAuth/Base58          base58 and Multikey texts of src/service_auth.rs
--   ServiceAuth/KeyCache        `DidKeyCache` of src/service_auth.rs
--   ServiceAuth/Verifier        `ServiceAuthVerifier` of src/service_auth.rs
--   Net                         addresses, as the kernel's two functions take them
--   Base, Maps, Url             shared helpers: tests, results, texts and their pieces, maps as association lists,
--                               lists of locked maps, and what the `url` crate reports
--   Examples                    instances of the parameters and runs at concrete inputs
--
-- How the parts interact: `DPoPVerifier::verify_proof` decodes a proof, compares its claims with the
-- request by way of `normalize_htu` and the constant-time kernel, and records it in the replay
-- cache; `validate_verifier` and `verify_pkce` call the byte kernels. The middleware reads the
-- headers of a request, verifies the proof without recording it and checks the server nonce
-- (`prepare`); then the access token validator runs, and only for a valid token is the proof
-- recorded and the request passed on (`complete`). The SSRF filter asks the IP kernel about each
-- address, and a redirect is followed by a new validation, a new pin and a new client. The
-- service-token verifier looks for the issuer's key in its cache, reads one from a DID document by
-- way of base58 and the Multikey kernel, and asks the kernel about algorithm and expiry. The resolver
-- of identities asks DNS and, over the SSRF filter, the web; discovery goes from an identity to its
-- resource server and on to the authorization server. The client takes the entry of a login from
-- the store, sends its token request with a proof of `DPoPKey` and the nonce of the cache, and makes
-- a session of the answer; a refresh rotates the tokens of a session under the lock of its subject.
--
-- Conventions: a function keeps its name in the source. Numbers are natural; where a machine width
-- matters, the wrap or the saturation is written out. A text is its list of code points, and
-- `Base.Utf8` gives its bytes. A type with locks is a value that each operation takes and returns,
-- since every operation holds the lock of its shard to its end; an interleaving of threads is a
-- sequence of operations. Each reading of a clock, and each fill of random bytes, is an argument. A
-- panic is `none`. The hash of a sharded map is a parameter and nothing is assumed of it.
--
-- Parameters for other crates: `Crypto` (the lengths of a SHA-256 digest and of a base64url text, and
-- its alphabet), `Subtle` (on slices of one length the comparison decides equality), `Jose`
-- (serde_json, p256 and the base64 decoders, of which nothing is assumed in general), `UrlParser`, the network
-- of Ssrf/Fetch (DNS, and a request over a client with its resolver), `Network`, which gives each
-- call of resolution and discovery such a world, `Doh` (DNS over HTTPS), `Signer` (the keys of p256
-- and the text of a JSON value), `Codec` (the format that a session is stored in, and the PEM of a
-- key), `Codecs` of Client/Token, which adds the form encoders and the
-- deserializer of a token response, the editing of a URL, what a table of locks is asked, the curves of the service
-- tokens, the document of a DID that a service token names, and the nonce source and the `http` crate of the middleware. What a
-- theorem relies on stands among its hypotheses.
--
-- Bounds: the port loop of `decimal_port_str` has five rounds, enough for a 16-bit port. The redirect
-- loop is recursion on the redirects that remain, three at the start. The carry of base58 is pushed
-- on with itself as fuel, enough since each round divides it. No other function runs on fuel.
--
-- Not modelled: src/par.rs and the start of a login in src/client.rs, which push a request over the
-- network, with the builder of the client; the Axum and Actix extractors, which are framework code;
-- src/sealed.rs and the generation, import and export of keys, calls of cryptographic crates; the
-- harnesses of other tools; error messages, and the erasure of secrets from memory, which no function
-- of the program can observe.
pub mod Base
pub mod Maps
pub mod Kernels
pub mod Url
pub mod Client
pub mod Crypto
pub mod Net
pub mod Ssrf
pub mod Pkce
pub mod Store
pub mod Dpop
pub mod Session
pub mod Integrations
pub mod Identity
pub mod Discovery
pub mod ServiceAuth
pub mod Examples
