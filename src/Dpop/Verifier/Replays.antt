-- ===== src/Dpop/Verifier/Replays.antt =====
-- The replay protection of `DPoPVerifier::verify_proof`.
use skyauth.Base.{
  ℕ, ◌+◌, ◌≤◌, ◌<◌, ◌^◌, ◌≡◌, ◌≢◌, ◌∙◌, sym, false, none, some, List, Result, ok, arith, is_ok,
  Result-cases, inl, inr,
}
use skyauth.Base.Text.{Str}
use skyauth.Crypto.{Crypto}
use skyauth.Kernels.CtEq.{Subtle}
use skyauth.Url.{UrlParser}
use skyauth.Dpop.NonceSource.{saturating_add}
use skyauth.Dpop.ReplayCache.{DpopReplayCache, check_and_record}
use skyauth.Dpop.ReplayCache.Laws.{IsWellFormed}
use skyauth.Dpop.ReplayCache.Replays.{Op, Until, run, check_and_record-once}
use skyauth.Dpop.Proof.{JwkEc, DpopProofClaims, Jose}
use skyauth.Dpop.Verifier.{
  DpopVerifier, Expected, time_of, verify_proof_no_replay, admit_proof, secs_of, thumbprint,
  verify_proof, admit_decoded,
}
use skyauth.Dpop.Verifier.Laws.{verify_proof_no_replay-ok, verify_proof_no_replay-timely}

-- The verifier after other requests have used its replay cache.
abbrev pub after : (Str → ℕ) → List Op → DpopVerifier → DpopReplayCache → DpopVerifier
after hash ops v cache = record v { replay_cache = some (run hash cache ops) }

ok-injective {ℓ κ} : {E : Type ℓ} {A : Type κ} {a b : A} → Path (Result E A) (ok a) (ok b) → a ≡ b
ok-injective h = ground arith

module _ (j : Jose) (c : Crypto) (ct : Subtle) (url : UrlParser) (hash : Str → ℕ) where
  -- What an accepted proof has recorded.
  verify_proof-recorded :
      (v w : DpopVerifier) (cache : DpopReplayCache) (proof : Str) (expected : Expected) (now : ℕ)
      (decoded : DpopProofClaims × JwkEc)
      → v.replay_cache ≡ some cache
      → verify_proof j c ct url hash v proof expected none (some now) (some now) ≡ (ok decoded, w)
      → (d : DpopReplayCache) × (verify_proof_no_replay j c ct url v proof expected none (some now)
          ≡ ok decoded)
        × (check_and_record hash cache
              (thumbprint j c ct url decoded.1)
              decoded.0.jti
              (saturating_add (saturating_add now v.max_proof_age) v.max_clock_skew)
              now
            ≡ (ok tt, d))
        × (w ≡ record v { replay_cache = some d })
  unfolding verify_proof admit_decoded admit_proof secs_of
  verify_proof-recorded v w cache proof expected now decoded held h =
      elim (Result-cases (verify_proof_no_replay j c ct url v proof expected none (some now))) [
        | (inr (e, p)) ↦ ground arith
        | (inl (x, p)) ↦
            elim (Result-cases
              (check_and_record hash cache (thumbprint j c ct url x.1) x.0.jti
                (saturating_add (saturating_add now v.max_proof_age) v.max_clock_skew) now).0) [
                  | (inr (e, q)) ↦ ground arith
                  | (inl (done, q)) ↦
                      let same : x ≡ decoded = ground arith in
                      (
                        (check_and_record hash cache (thumbprint j c ct url x.1) x.0.jti
                            (saturating_add (saturating_add now v.max_proof_age) v.max_clock_skew)
                            now).1,
                        rw (sym same) p,
                        ground arith,
                        ground arith,
                      )
                ]
      ]

  -- If the verifier has a well-formed replay cache and accepts a proof at `now`, it does not
  -- accept that proof at a `later` second, whatever the later request expects and whatever
  -- admissions and prunings up to then other requests caused in between, unless `later` is exactly
  -- `now + max_proof_age + max_clock_skew`. Each call reads one clock for both of its times,
  -- without an override, and that sum is below 2 ^ 64.
  pub verify_proof-once :
      (v w : DpopVerifier) (cache d : DpopReplayCache) (proof : Str) (expected again : Expected)
      (now later : ℕ) (decoded : DpopProofClaims × JwkEc) (ops : List Op)
      → v.replay_cache ≡ some cache
      → IsWellFormed cache
      → verify_proof j c ct url hash v proof expected none (some now) (some now) ≡ (ok decoded, w)
      → w.replay_cache ≡ some d
      → Until later ops
      → now ≤ later
      → later ≢ now + v.max_proof_age + v.max_clock_skew
      → now + v.max_proof_age + v.max_clock_skew < 2 ^ 64
      → is_ok
          (verify_proof j c ct url hash
            (after hash ops w d)
            proof
            again
            none
            (some later)
            (some later)).0
        ≡ false
  unfolding verify_proof admit_decoded admit_proof secs_of time_of
  verify_proof-once v w cache d proof expected again now later decoded ops held wf h kept u before
        odd fits =
      let v' : DpopVerifier = after hash ops w d in
      let (e, first, recorded, updated) =
        verify_proof-recorded v w cache proof expected now decoded held h in
      let same : e ≡ d = ground arith in
      let (at, timed, soon, old, fresh) =
        verify_proof_no_replay-timely j c ct url v proof expected none (some now) decoded first in
      elim (Result-cases (verify_proof_no_replay j c ct url v' proof again none (some later))) [
        | (inr (x, p)) ↦ ground arith
        | (inl (x, p)) ↦
            let (at', timed', soon', old', fresh') =
              verify_proof_no_replay-timely j c ct url v' proof again none (some later) x p in
            let decodes =
              (verify_proof_no_replay-ok j c ct url v proof expected none (some now) decoded
                first).0 in
            let decodes' =
              (verify_proof_no_replay-ok j c ct url v' proof again none (some later) x p).0 in
            let equal : x ≡ decoded = ok-injective (sym decodes' ∙ decodes) in
            let bound : (at ≡ now) × (at' ≡ later) = (ground arith, ground arith) in
            let age : v'.max_proof_age ≡ v.max_proof_age = ground arith in
            let early : later < now + v.max_proof_age + v.max_clock_skew = ground arith in
            let refusal =
              check_and_record-once hash cache d (thumbprint j c ct url decoded.1) decoded.0.jti
                (saturating_add (saturating_add now v.max_proof_age) v.max_clock_skew) now
                (saturating_add (saturating_add later v'.max_proof_age) v'.max_clock_skew) later ops
                wf (rw (sym same) recorded) u before (ground arith) in
            ground arith
      ]
