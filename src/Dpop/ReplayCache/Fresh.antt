-- ===== src/Dpop/ReplayCache/Fresh.antt =====
-- When a proof that was not presented before is not refused as a replay.
use skyauth.Base.{
  ℕ, ◌≡◌, ◌⊎◌, ◌≢◌, true, false, none, List, [], ◌∷◌, All, ok, err, arith, list_eq, list_eq_sound,
  ◌∙◌,
}
use skyauth.Base.Text.{Str, contains_char}
use skyauth.Dpop.Errors.{replay_cache_saturated}
use skyauth.Dpop.ReplayCache.{DpopReplayCache, new, composite_key, check_and_record}
use skyauth.Dpop.ReplayCache.Laws.{
  IsWellFormed, new-IsWellFormed, held, check_and_record-held, prune_expired-held, is_consumed-held,
  new-held, check_and_record-new,
}
use skyauth.Dpop.ReplayCache.Replays.{Op, check_op, prune_op, Until, step, run, step-IsWellFormed}

-- Two pairs of a key thumbprint and a proof identifier that have one cache key are equal, if the
-- thumbprints have no colon; base64url text has none.
pub composite_key-injective :
    (jkt jti jkt' jti' : Str)
    → contains_char b':' jkt ≡ false
    → contains_char b':' jkt' ≡ false
    → composite_key jkt jti ≡ composite_key jkt' jti'
    → (jkt ≡ jkt') × (jti ≡ jti')
unfolding composite_key contains_char
composite_key-injective [] jti [] jti' h k e = ground arith
composite_key-injective [] jti (x ∷ jkt') jti' h k e = ground arith
composite_key-injective (x ∷ jkt) jti [] jti' h k e = ground arith
composite_key-injective (x ∷ jkt) jti (y ∷ jkt') jti' h k e =
    ground (arith, composite_key-injective jkt jti jkt' jti')

-- The call is about another proof, under a thumbprint without a colon.
abbrev pub Other : Str → Str → Op → Type 0
Other jkt jti (check_op jkt' jti' exp now) =
    (contains_char b':' jkt' ≡ false) × ((jkt' ≢ jkt) ⊎ (jti' ≢ jti))
Other jkt jti (prune_op now) = Unit {0}

module _ (hash : Str → ℕ) where
  step-absent :
      (c : DpopReplayCache) (op : Op) (jkt jti : Str) (later : ℕ)
      → IsWellFormed c
      → contains_char b':' jkt ≡ false
      → Until later (op ∷ [])
      → Other jkt jti op
      → held hash c (composite_key jkt jti) later ≡ none
      → held hash (step hash c op) (composite_key jkt jti) later ≡ none
  unfolding step
  step-absent c (check_op jkt' jti' exp now) jkt jti later w colon u other e =
      let kept =
        check_and_record-held hash c jkt' jti' (composite_key jkt jti) exp now later w u.0 in
      ground (
        arith,
        kept,
        λ (same : list_eq (composite_key jkt' jti') (composite_key jkt jti) ≡ true).
            composite_key-injective jkt' jti' jkt jti other.0 colon (list_eq_sound _ _ same),
      )
  step-absent c (prune_op now) jkt jti later w colon u other e =
      prune_expired-held hash c (composite_key jkt jti) now later w u.0 ∙ e

  run-absent :
      (ops : List Op) (c : DpopReplayCache) (jkt jti : Str) (later : ℕ)
      → IsWellFormed c
      → contains_char b':' jkt ≡ false
      → Until later ops
      → All (Other jkt jti) ops
      → held hash c (composite_key jkt jti) later ≡ none
      → held hash (run hash c ops) (composite_key jkt jti) later ≡ none
  unfolding run
  run-absent [] c jkt jti later w colon u other e = e
  run-absent (op ∷ ops) c jkt jti later w colon u other e =
      run-absent ops (step hash c op) jkt jti later (step-IsWellFormed hash c op w) colon u.1
        other.1 (step-absent c op jkt jti later w colon (u.0, tt) other.0 e)

  -- After a run from the empty cache in which only other proofs were checked, with key thumbprints
  -- that have no colon, a proof is admitted or refused for capacity: it is not taken for a replay.
  pub check_and_record-fresh :
      (ops : List Op) (jkt jti : Str) (exp later : ℕ)
      → contains_char b':' jkt ≡ false
      → Until later ops
      → All (Other jkt jti) ops
      → ((check_and_record hash (run hash new ops) jkt jti exp later).0 ≡ ok tt)
        ⊎ ((check_and_record hash (run hash new ops) jkt jti exp later).0
            ≡ err replay_cache_saturated)
  check_and_record-fresh ops jkt jti exp later colon u other =
      let c = run hash new ops in
      check_and_record-new hash c jkt jti exp later (
        ground (
          arith,
          is_consumed-held hash c jkt jti later,
          run-absent ops new jkt jti later new-IsWellFormed colon u other
              (new-held hash (composite_key jkt jti) later),
        ))
