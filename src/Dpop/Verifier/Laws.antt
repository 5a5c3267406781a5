-- ===== src/Dpop/Verifier/Laws.antt =====
-- What a verified proof satisfies, and the two ways to admit it.
use skyauth.Base.{
  ℕ, ◌+◌, ◌≤◌, ◌≡◌, sym, Option, some, Result, ok, ◌>>=◌, ◌>>◌, arith, Result-cases, inl, inr,
}
use skyauth.Base.Text.{Str}
use skyauth.Crypto.{Crypto}
use skyauth.Kernels.CtEq.{Subtle}
use skyauth.Url.{UrlParser}
use skyauth.Dpop.Proof.{JwkEc, DpopProofClaims, Jose, decode_proof}
use skyauth.Dpop.Verifier.{
  DpopVerifier, Expected, ReplayAdmission, check_request, check_times, check_exp, time_of,
  verify_proof_no_replay, verify_proof_deferred, commit_replay_admission, admission_of, secs_of,
  verify_proof, admit_decoded,
}

-- Four results in a row that end well.
chain-ok {ℓ κ} :
    {E : Type ℓ} {A : Type κ} (m : Result E A) (k : A → Result E (Unit {0})) (t : Result E ℕ)
    (f : A → ℕ → Result E (Unit {0})) (x : A)
    → (m >>= λ d. k d >> (t >>= λ n. f d n) >> ok d) ≡ ok x
    → (m ≡ ok x) × (k x ≡ ok tt) × (n : ℕ) × (t ≡ ok n) × (f x n ≡ ok tt)
chain-ok m k t f x h = elim (Result-cases m) [
  | (inr (e, p)) ↦ ground arith
  | (inl (d, p)) ↦ elim (Result-cases (k d)) [
    | (inr (e, q)) ↦ ground arith
    | (inl (done, q)) ↦ elim (Result-cases t) [
      | (inr (e, r)) ↦ ground arith
      | (inl (n, r)) ↦ elim (Result-cases (f d n)) [
        | (inr (e, s)) ↦ ground arith
        | (inl (done, s)) ↦
            let same : d ≡ x = ground arith in
            (rw (sym same) p, rw (sym same) q, n, r, rw (sym same) s)
      ]
    ]
  ]
]

module _ (j : Jose) (c : Crypto) (ct : Subtle) (url : UrlParser) where
  -- A verified proof passed each of the three parts.
  pub verify_proof_no_replay-ok :
      (v : DpopVerifier) (proof : Str) (expected : Expected) (over : Option (Option ℕ))
      (system : Option ℕ) (decoded : DpopProofClaims × JwkEc)
      → verify_proof_no_replay j c ct url v proof expected over system ≡ ok decoded
      → (decode_proof j proof ≡ ok decoded)
        × (check_request j c ct url decoded.0 expected ≡ ok tt)
        × (now : ℕ) × (time_of over system ≡ ok now)
        × (check_times v decoded.0 now ≡ ok tt)
  unfolding verify_proof_no_replay
  verify_proof_no_replay-ok v proof expected over system decoded h =
      chain-ok (decode_proof j proof) (λ d. check_request j c ct url d.0 expected)
        (time_of over system) (λ d now. check_times v d.0 now) decoded h

  -- The claims of an accepted proof are timely at the second of the check: not issued later than
  -- the tolerated skew allows, not older than the tolerated age, and, if they have an expiry, not
  -- past it by more than the skew.
  pub verify_proof_no_replay-timely :
      (v : DpopVerifier) (proof : Str) (expected : Expected) (over : Option (Option ℕ))
      (system : Option ℕ) (decoded : DpopProofClaims × JwkEc)
      → verify_proof_no_replay j c ct url v proof expected over system ≡ ok decoded
      → (now : ℕ) × (time_of over system ≡ ok now)
        × (decoded.0.iat ≤ now + v.max_clock_skew)
        × (now ≤ decoded.0.iat + v.max_proof_age)
        × ((exp : ℕ) → decoded.0.exp ≡ some exp → now ≤ exp + v.max_clock_skew)
  unfolding check_times check_exp
  verify_proof_no_replay-timely v proof expected over system decoded h =
      let (d, e, now, at, times) =
        verify_proof_no_replay-ok v proof expected over system decoded h in
      (now, at, ground arith, ground arith, λ exp q. ground arith)

module _ (j : Jose) (c : Crypto) (ct : Subtle) (url : UrlParser) (hash : Str → ℕ) where
  -- If the deferred verification of a proof succeeds, committing its admission gives the result
  -- and the state that verifying the proof in one go gives.
  pub verify_proof-deferred :
      (v : DpopVerifier) (proof : Str) (expected : Expected) (over : Option (Option ℕ))
      (checked_at admitted_at : Option ℕ) (claims : DpopProofClaims) (jwk : JwkEc)
      (a : ReplayAdmission)
      → verify_proof_deferred j c ct url v proof expected over checked_at admitted_at
        ≡ ok (claims, jwk, a)
      → verify_proof j c ct url hash v proof expected over checked_at admitted_at ≡ (
        (commit_replay_admission hash v a).0 >> ok (claims, jwk),
        (commit_replay_admission hash v a).1,
      )
  unfolding verify_proof verify_proof_deferred admit_decoded commit_replay_admission admission_of
  verify_proof-deferred v proof expected over checked_at admitted_at claims jwk a h =
      elim (Result-cases (verify_proof_no_replay j c ct url v proof expected over checked_at)) [
        | (inr (e, p)) ↦ ground arith
        | (inl (d, p)) ↦ elim (Result-cases (secs_of admitted_at)) [
          | (inr (e, q)) ↦ ground arith
          | (inl (now, q)) ↦ ground arith
        ]
      ]
