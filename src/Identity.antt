-- ===== src/Identity.antt =====
-- src/identity.rs: DID documents; the children have handles, DIDs and the resolver.
pub mod Errors
pub mod Handles
pub mod Dids
pub mod Documents
pub mod Resolver
use skyauth.Base.{◌∷◌, ◌||◌, Option, none, some, List, [], list_eq, if◌then◌else◌}
use skyauth.Base.Text.{Str, codes, ends_with}

pub record VerificationMethod : Type 0 where
  pub id : Str
  pub key_type : Str
  pub controller : Str
  pub public_key_multibase : Option Str

pub record DidService : Type 0 where
  pub id : Str
  pub service_type : Str
  pub service_endpoint : Str

pub record DidDocument : Type 0 where
  pub id : Str
  pub also_known_as : List Str
  pub verification_method : List VerificationMethod
  pub service : List DidService

unfoldable pub find_signing_key : List VerificationMethod → Option VerificationMethod
find_signing_key [] = none
find_signing_key (vm ∷ methods) =
    let rest = find_signing_key methods in
    if list_eq vm.id (codes "#atproto") || ends_with (codes "#atproto") vm.id then some vm else rest

unfoldable pub extract_signing_key : DidDocument → Option VerificationMethod
unfolding find_signing_key
extract_signing_key doc = find_signing_key doc.verification_method
