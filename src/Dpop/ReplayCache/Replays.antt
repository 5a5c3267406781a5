-- ===== src/Dpop/ReplayCache/Replays.antt =====
-- No proof is admitted twice while it is fresh, whatever else the cache is used for meanwhile, at
-- seconds no later than the second attempt: an
-- interleaving of threads is a sequence of whole operations.
use skyauth.Base.{
  ℕ, ◌≤◌, ◌<◌, ◌≡◌, some, List, [], ◌∷◌, All, Result, ok, err, arith, list_eq, list_eq_sound,
  list_eq_refl, Bool-cases, inl, inr, ap, ◌∙◌, subst,
}
use skyauth.Base.Text.{Str}
use skyauth.Dpop.Errors.{DpopError, replay_detected}
use skyauth.Dpop.ReplayCache.{DpopReplayCache, composite_key, prune_expired, check_and_record}
use skyauth.Dpop.ReplayCache.Laws.{
  IsWellFormed, held, check_and_record-IsWellFormed, check_and_record-held, check_and_record-replay,
  held-is_consumed, prune_expired-IsWellFormed, prune_expired-held,
}

-- The calls that other requests make. `clear` is not among them: it forgets every proof.
pub data Op : Type 0 where
  check_op : (jkt jti : Str) (exp now : ℕ) → Op
  prune_op : ℕ → Op

abbrev time_of : Op → ℕ
time_of (check_op jkt jti exp now) = now
time_of (prune_op now) = now

-- No call comes after the given time.
abbrev pub Until : ℕ → List Op → Type 0
Until later = All (λ op. time_of op ≤ later)

module _ (hash : Str → ℕ) where
  unfoldable pub step : DpopReplayCache → Op → DpopReplayCache
  step c (check_op jkt jti exp now) = (check_and_record hash c jkt jti exp now).1
  step c (prune_op now) = prune_expired c now

  unfoldable pub run : DpopReplayCache → List Op → DpopReplayCache
  unfolding step
  run c [] = c
  run c (op ∷ ops) = run (step c op) ops

  pub step-IsWellFormed :
      (c : DpopReplayCache) (op : Op) → IsWellFormed c → IsWellFormed (step c op)
  unfolding step
  step-IsWellFormed c (check_op jkt jti exp now) w =
      check_and_record-IsWellFormed hash c jkt jti exp now w
  step-IsWellFormed c (prune_op now) w = prune_expired-IsWellFormed hash c now w

  -- The capacity of each shard and the distinct keys survive every run.
  pub run-IsWellFormed :
      (ops : List Op) (c : DpopReplayCache) → IsWellFormed c → IsWellFormed (run c ops)
  unfolding run
  run-IsWellFormed [] c w = w
  run-IsWellFormed (op ∷ ops) c w = run-IsWellFormed ops (step c op) (step-IsWellFormed c op w)

  -- A proof that is held at the end of a step's time stays held.
  step-held :
      (c : DpopReplayCache) (op : Op) (jkt jti : Str) (later exp : ℕ)
      → IsWellFormed c
      → time_of op ≤ later
      → held hash c (composite_key jkt jti) later ≡ some exp
      → (e : ℕ) × (held hash (step c op) (composite_key jkt jti) later ≡ some e)
  unfolding step
  step-held c (check_op jkt' jti' exp' now) jkt jti later exp w h e =
      let kept =
        check_and_record-held hash c jkt' jti' (composite_key jkt jti) exp' now later w h in
      elim (Bool-cases (list_eq (composite_key jkt' jti') (composite_key jkt jti))) [
        | inl same ↦
            let key = list_eq_sound (composite_key jkt' jti') (composite_key jkt jti) same in
            let before : held hash c (composite_key jkt' jti') later ≡ some exp = rw key e in
            let used = held-is_consumed hash c jkt' jti' now later before h in
            (
              exp,
              ap (λ o. held hash (o.1) (composite_key jkt jti) later)
                    (check_and_record-replay hash c jkt' jti' exp' now used)
                  ∙ e,
            )
        | inr other ↦ (exp, ground (arith, kept))
      ]
  step-held c (prune_op now) jkt jti later exp w h e =
      (exp, prune_expired-held hash c (composite_key jkt jti) now later w h ∙ e)

  run-held :
      (ops : List Op) (c : DpopReplayCache) (jkt jti : Str) (later exp : ℕ)
      → IsWellFormed c
      → Until later ops
      → held hash c (composite_key jkt jti) later ≡ some exp
      → (e : ℕ) × (held hash (run c ops) (composite_key jkt jti) later ≡ some e)
  unfolding run
  run-held [] c jkt jti later exp w u e = (exp, e)
  run-held (op ∷ ops) c jkt jti later exp w u e =
      let (exp', e') = step-held c op jkt jti later exp w u.0 e in
      run-held ops (step c op) jkt jti later exp' (step-IsWellFormed c op w) u.1 e'

  -- If a well-formed cache admits a proof at `now` until `exp`, then at every `later` second
  -- before `exp`, after any admissions and prunings up to then, it refuses the proof as a replay
  -- and stays as it is.
  pub check_and_record-once :
      (c d : DpopReplayCache) (jkt jti : Str) (exp now again later : ℕ) (ops : List Op)
      → IsWellFormed c
      → check_and_record hash c jkt jti exp now ≡ (ok tt, d)
      → Until later ops
      → now ≤ later
      → later < exp
      → check_and_record hash (run d ops) jkt jti again later
        ≡ (err (replay_detected jti), run d ops)
  check_and_record-once c d jkt jti exp now again later ops w e u h f =
      let valid : IsWellFormed d =
        subst (λ (o : Result DpopError (Unit {0}) × DpopReplayCache). IsWellFormed o.1) e
          (check_and_record-IsWellFormed hash c jkt jti exp now w) in
      let first : held hash d (composite_key jkt jti) later ≡ some exp = ground (
        arith,
        check_and_record-held hash c jkt jti (composite_key jkt jti) exp now later w h,
        list_eq_refl (composite_key jkt jti),
      ) in
      let (exp', still) = run-held ops d jkt jti later exp valid u first in
      check_and_record-replay hash (run d ops) jkt jti again later
        (held-is_consumed hash (run d ops) jkt jti later later still (omega arith))
