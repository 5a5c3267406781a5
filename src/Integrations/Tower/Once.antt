-- ===== src/Integrations/Tower/Once.antt =====
-- A proof that has reached the inner service is refused while its admission lasts.
use mathlib.Core.Option
use skyauth.Base.{
  Bool, ℕ, ◌≤◌, ◌<◌, ◌≡◌, none, some, Option, List, Result, ok, err, arith, Option-cases, inl, inr,
  sym, subst,
}
use skyauth.Base.Text.{Str}
use skyauth.Dpop.Errors.{replay_detected}
use skyauth.Dpop.ReplayCache.{DpopReplayCache, check_and_record}
use skyauth.Dpop.ReplayCache.Laws.{IsWellFormed}
use skyauth.Dpop.ReplayCache.Replays.{Op, Until, run, check_and_record-once}
use skyauth.Dpop.Verifier.{DpopVerifier, ReplayAdmission, admit_proof, commit_replay_admission}
use skyauth.Integrations.{AuthenticatedUser, IntegrationError}
use skyauth.Integrations.Tower.{Response, Pending, pending, NonceSource}
use skyauth.Integrations.Tower.Complete.{complete, Outcome}
use skyauth.Integrations.Tower.Forwarded.{pending-forwarded}

module _ (hash : Str → ℕ) where
  -- The verifier after admissions and prunings by other requests.
  abbrev pub others : List Op → DpopVerifier → DpopVerifier
  others ops w = record w { replay_cache = Option.map (λ d. run hash d ops) w.replay_cache }

  -- What a committed admission has recorded.
  commit-recorded :
      (v : DpopVerifier) (cache : DpopReplayCache) (a : ReplayAdmission)
      → v.replay_cache ≡ some cache
      → (commit_replay_admission hash v a).0 ≡ ok tt
      → (d : DpopReplayCache) × (check_and_record hash cache a.jkt a.jti a.expires_at a.now
          ≡ (ok tt, d))
        × ((commit_replay_admission hash v a).1 ≡ record v { replay_cache = some d })
  unfolding commit_replay_admission admit_proof
  commit-recorded v cache a held h =
      let done = check_and_record hash cache a.jkt a.jti a.expires_at a.now in
      (done.1, ground arith, ground arith)

  -- A proof that was committed before is not committed again while its record lasts.
  commit-refused :
      (v : DpopVerifier) (cache : DpopReplayCache) (a b : ReplayAdmission) (ops : List Op)
      → v.replay_cache ≡ some cache
      → IsWellFormed cache
      → (commit_replay_admission hash v a).0 ≡ ok tt
      → Until b.now ops
      → b.jkt ≡ a.jkt
      → b.jti ≡ a.jti
      → a.now ≤ b.now
      → b.now < a.expires_at
      → (commit_replay_admission hash (others ops (commit_replay_admission hash v a).1) b).0
        ≡ err (replay_detected a.jti)
  unfolding commit_replay_admission admit_proof
  commit-refused v cache a b ops held wf h u k t before live =
      let (d, recorded, state) = commit-recorded v cache a held h in
      let refusal =
        check_and_record-once hash cache d a.jkt a.jti a.expires_at a.now b.expires_at b.now ops wf
          recorded u before live in
      rw state (ground arith)

module _ {Body : Type 0} (default : Body) (is_header_value : Str → Bool) (ns : NonceSource)
    (hash : Str → ℕ) {E : Type 0}
    (validate_access_token : (token jkt : Str) → Result IntegrationError AuthenticatedUser)
    (inner : AuthenticatedUser → Result E (Response Body)) where
  abbrev future : DpopVerifier → Option ns.State → Pending → Outcome E ns.State Body
  future v source p =
      complete default is_header_value ns hash validate_access_token inner v source (pending p)

  -- If the future of a call reaches the inner service, over a verifier with a well-formed replay
  -- cache, then the future of a later call with the same proof key and identifier does not, if its
  -- admission was verified at a second from then until the first admission expires, whatever
  -- admissions and prunings other requests cause in between, as long as none of them is at a later
  -- second than that.
  pub complete-once :
      (v : DpopVerifier) (cache : DpopReplayCache) (first again : Option ns.State) (p q : Pending)
      (user : AuthenticatedUser) (ops : List Op)
      → v.replay_cache ≡ some cache
      → IsWellFormed cache
      → (future v first p).forwarded ≡ some user
      → Until q.replay_admission.now ops
      → q.replay_admission.jkt ≡ p.replay_admission.jkt
      → q.replay_admission.jti ≡ p.replay_admission.jti
      → p.replay_admission.now ≤ q.replay_admission.now
      → q.replay_admission.now < p.replay_admission.expires_at
      → (future (others hash ops (future v first p).verifier) again q).forwarded ≡ none
  complete-once v cache first again p q user ops held wf h u k t before live =
      let (valid, admitted, state) =
        pending-forwarded default is_header_value ns hash validate_access_token inner v first p user
          h in
      let refused =
        commit-refused hash v cache p.replay_admission q.replay_admission ops held wf admitted u k t
          before live in
      elim (Option-cases (future (others hash ops (future v first p).verifier) again q).forwarded) [
        | (inl e) ↦ e
        | (inr (w, e)) ↦
            let (valid', admitted', state') =
              pending-forwarded default is_header_value ns hash validate_access_token inner
                (others hash ops (future v first p).verifier) again q w e in
            let refusal =
              subst
                (λ z.
                  (commit_replay_admission hash (others hash ops z) q.replay_admission).0
                  ≡ err (replay_detected p.replay_admission.jti))
                (sym state) refused in
            ground arith
      ]
