-- ===== src/Integrations/Tower/Forwarded.antt =====
-- What stands behind a request that reaches the inner service.
use skyauth.Base.{
  ℕ, ◌≡◌, refl, sym, Bool, Option, some, Result, ok, err, arith, Result-cases, inl, inr,
}
use skyauth.Base.Text.{Str}
use skyauth.Dpop.Errors.{DpopError}
use skyauth.Dpop.Verifier.{DpopVerifier, commit_replay_admission}
use skyauth.Integrations.{AuthenticatedUser, IntegrationError}
use skyauth.Integrations.Tower.{Response, Pending, Prepared, answered, pending, NonceSource}
use skyauth.Integrations.Tower.Complete.{Outcome, complete, admit_user, forward}

module _ {Body : Type 0} (default : Body) (is_header_value : Str → Bool) (ns : NonceSource)
    (hash : Str → ℕ) {E : Type 0}
    (validate_access_token : (token jkt : Str) → Result IntegrationError AuthenticatedUser)
    (inner : AuthenticatedUser → Result E (Response Body)) where
  abbrev run : DpopVerifier → Option ns.State → Prepared Body → Outcome E ns.State Body
  run v source prepared =
      complete default is_header_value ns hash validate_access_token inner v source prepared

  forward-forwarded :
      (source : Option ns.State) (user u : AuthenticatedUser)
      (committed : Result DpopError (Unit {0}) × DpopVerifier)
      → (forward default is_header_value ns hash validate_access_token inner source user
          committed).forwarded
        ≡ some u
      → (user ≡ u)
        × (committed.0 ≡ ok tt)
        × ((forward default is_header_value ns hash validate_access_token inner source user
              committed).verifier
            ≡ committed.1)
  unfolding forward
  forward-forwarded source user u (err e, v) h = cc
  forward-forwarded source user u (ok done, v) h = (ground arith, refl, refl)

  pub pending-forwarded :
      (v : DpopVerifier) (source : Option ns.State) (p : Pending) (user : AuthenticatedUser)
      → (run v source (pending p)).forwarded ≡ some user
      → (validate_access_token p.access_token p.dpop_thumbprint ≡ ok user)
        × ((commit_replay_admission hash v p.replay_admission).0 ≡ ok tt)
        × ((run v source (pending p)).verifier
            ≡ (commit_replay_admission hash v p.replay_admission).1)
  unfolding complete admit_user
  pending-forwarded v source p user h =
      elim (Result-cases (validate_access_token p.access_token p.dpop_thumbprint)) [
        | (inr (e, q)) ↦ ground arith
        | (inl (u, q)) ↦
            let (same, admitted, state) =
              forward-forwarded source u user (commit_replay_admission hash v p.replay_admission)
                (ground arith) in
            (rw (sym same) q, admitted, ground arith)
      ]

  -- The inner service is called only after the validator accepted the access token for the proof's
  -- key and the admission of the proof was committed; the verifier's state then is the committed one.
  pub complete-forwarded :
      (v : DpopVerifier) (source : Option ns.State) (prepared : Prepared Body)
      (user : AuthenticatedUser)
      → (run v source prepared).forwarded ≡ some user
      → (p : Pending) × (prepared ≡ pending p)
        × (validate_access_token p.access_token p.dpop_thumbprint ≡ ok user)
        × ((commit_replay_admission hash v p.replay_admission).0 ≡ ok tt)
        × ((run v source prepared).verifier ≡ (commit_replay_admission hash v p.replay_admission).1)
  unfolding complete
  complete-forwarded v source (answered response) user h = cc
  complete-forwarded v source (pending p) user h =
      let (valid, admitted, state) = pending-forwarded v source p user h in
      (p, refl, valid, admitted, state)
