-- ===== src/Dpop/ReplayCache/Laws.antt =====
-- What each operation of the replay cache does to the proofs that it holds.
use skyauth.Base.{
  ℕ, ◌%◌, ◌≤◌, ◌≡◌, refl, ◌∙◌, true, false, ◌&&◌, Option, none, some, length, get_or, is_some,
  if_both, ap, ◌⊎◌, All, if◌then◌else◌, Result, ok, err, arith, length-set, is_ok, list_eq,
}
use skyauth.Base.Text.{Str}
use skyauth.Maps.{HashMap, get, retain}
use skyauth.Maps.Laws.{keep, get-insert, get-retain}
use skyauth.Maps.Sizes.{insert-IsMap, length-insert-le}
use skyauth.Maps.Shards.{
  shard, Fits, All-shard, All-set, retain-Fits, replicate-Fits, retain_all-Fits, length-retain_all,
  shard-retain_all, total-le,
}
use skyauth.Maps.Look.{look, look-set, look_same, index_same, look-replicate}
use skyauth.Dpop.Errors.{DpopError, replay_detected, replay_cache_saturated}
use skyauth.Dpop.ReplayCache.{
  DpopReplayCache, new, composite_key, live_at, hinted_prune, record_proof, is_live, prune_expired,
  len, shard_index, admit, check_and_record, is_consumed,
}

-- 64 shards, each with distinct keys and at most 2048 proofs.
pub record IsWellFormed (c : DpopReplayCache) : Type 0 where
  pub sharded : length c.shards ≡ 64
  pub fits : All (Fits 2048) c.shards

pub new-IsWellFormed : IsWellFormed new
unfolding new
new-IsWellFormed = record { sharded = refl; fits = replicate-Fits ℕ 2048 64 }

-- What is live at a time does not depend on a pruning at an earlier one.
keep-keep :
    (o : Option ℕ) (now later : ℕ)
    → now ≤ later
    → keep (live_at later) (keep (live_at now) o) ≡ keep (live_at later) o
keep-keep none now later h = refl
keep-keep (some exp) now later h = ground arith

hinted_prune-Fits : (a now : ℕ) (m : HashMap ℕ) → Fits 2048 m → Fits 2048 (hinted_prune a now m)
unfolding hinted_prune
hinted_prune-Fits a now m f = ground (arith, retain-Fits 2048 (live_at now) m f)

get-hinted_prune :
    (a now later : ℕ) (j : Str) (m : HashMap ℕ)
    → Fits 2048 m
    → now ≤ later
    → keep (live_at later) (get j (hinted_prune a now m)) ≡ keep (live_at later) (get j m)
unfolding hinted_prune
get-hinted_prune a now later j m f h =
    ground (arith, get-retain (live_at now) j m f.distinct, keep-keep (get j m) now later h)

record_proof-Fits :
    (k : Str) (exp now : ℕ) (m : HashMap ℕ) → Fits 2048 m → Fits 2048 (record_proof k exp now m).1
unfolding record_proof
record_proof-Fits k exp now m f =
    let p = retain-Fits 2048 (live_at now) m f in
    record {
      distinct = ground (
        arith,
        insert-IsMap k exp m f.distinct,
        insert-IsMap k exp (retain (live_at now) m) p.distinct,
        p.distinct,
      );
      bounded = ground (
        arith,
        length-insert-le k exp m,
        length-insert-le k exp (retain (live_at now) m),
        p.bounded,
      );
    }

get-record_proof :
    (k j : Str) (exp now later : ℕ) (m : HashMap ℕ)
    → Fits 2048 m
    → now ≤ later
    → keep (live_at later) (get j (record_proof k exp now m).1)
      ≡ keep
          (live_at later)
          (if is_ok (record_proof k exp now m).0 && list_eq k j then some exp else get j m)
unfolding record_proof
get-record_proof k j exp now later m f h = ground (
  arith,
  get-insert k j exp m,
  get-insert k j exp (retain (live_at now) m),
  get-retain (live_at now) j m f.distinct,
  keep-keep (get j m) now later h,
)

module _ (hash : Str → ℕ) where
  -- The expiry time that is held for a key, if it lies in the future.
  unfoldable pub held : DpopReplayCache → Str → ℕ → Option ℕ
  held c key now = keep (live_at now) (look (shard_index hash) c.shards key)

  admit-IsWellFormed :
      (c : DpopReplayCache) (key : Str) (exp now : ℕ)
      → IsWellFormed c
      → IsWellFormed (admit hash c key exp now).1
  unfolding admit
  admit-IsWellFormed c key exp now w =
      let i = shard_index hash key in
      record {
        sharded = length-set c.shards _ _ ∙ w.sharded;
        fits = All-set 2048 c.shards i _ w.fits (
            record_proof-Fits key exp now _
              (hinted_prune-Fits _ now _ (All-shard 2048 c.shards i w.fits)));
      }

  admit-held :
      (c : DpopReplayCache) (key j : Str) (exp now later : ℕ)
      → IsWellFormed c
      → now ≤ later
      → held (admit hash c key exp now).1 j later ≡ (
          if is_ok (admit hash c key exp now).0 && list_eq key j
          then keep (live_at later) (some exp)
          else held c j later)
  unfolding admit held shard_index
  admit-held c key j exp now later w h =
      let i = hash key % 64 in
      let m = shard c.shards i in
      let f = All-shard 2048 c.shards i w.fits in
      let a = get_or c.prune_hints i 0 in
      let p = hinted_prune a now m in
      rw (look-set (λ k. hash k % 64) c.shards key j (record_proof key exp now p).1 (omega arith)) (
        ground (
          arith,
          get-record_proof key j exp now later p (hinted_prune-Fits a now m f) h,
          get-hinted_prune a now later j m f h,
          index_same (λ k. hash k % 64) key j,
          look_same (λ k. hash k % 64) c.shards key j,
        ))

  pub check_and_record-IsWellFormed :
      (c : DpopReplayCache) (jkt jti : Str) (exp now : ℕ)
      → IsWellFormed c
      → IsWellFormed (check_and_record hash c jkt jti exp now).1
  unfolding check_and_record
  check_and_record-IsWellFormed c jkt jti exp now w =
      if_both (λ (o : Result DpopError (Unit {0}) × DpopReplayCache). IsWellFormed o.1) _ w
        (admit-IsWellFormed c (composite_key jkt jti) exp now w)

  -- At any time from the call on, the cache holds what it held before, and the new proof if it was
  -- admitted.
  pub check_and_record-held :
      (c : DpopReplayCache) (jkt jti key : Str) (exp now later : ℕ)
      → IsWellFormed c
      → now ≤ later
      → held (check_and_record hash c jkt jti exp now).1 key later ≡ (
          if is_ok (check_and_record hash c jkt jti exp now).0
            && list_eq (composite_key jkt jti) key
          then keep (live_at later) (some exp)
          else held c key later)
  unfolding check_and_record
  check_and_record-held c jkt jti key exp now later w h =
      ground (arith, admit-held c (composite_key jkt jti) key exp now later w h)

  -- A proof is consumed while it is held.
  pub is_consumed-held :
      (c : DpopReplayCache) (jkt jti : Str) (now : ℕ)
      → is_consumed hash c jkt jti now ≡ is_some (held c (composite_key jkt jti) now)
  unfolding is_consumed held is_live look
  is_consumed-held c jkt jti now = ground arith

  -- What is held at some time was consumed at all earlier times.
  pub held-is_consumed :
      (c : DpopReplayCache) (jkt jti : Str) (now later : ℕ) {exp : ℕ}
      → held c (composite_key jkt jti) later ≡ some exp
      → now ≤ later
      → is_consumed hash c jkt jti now ≡ true
  unfolding is_consumed held is_live look
  held-is_consumed c jkt jti now later e h = ground arith

  -- A consumed proof is refused as a replay, and the cache stays as it is.
  pub check_and_record-replay :
      (c : DpopReplayCache) (jkt jti : Str) (exp now : ℕ)
      → is_consumed hash c jkt jti now ≡ true
      → check_and_record hash c jkt jti exp now ≡ (err (replay_detected jti), c)
  unfolding check_and_record is_consumed
  check_and_record-replay c jkt jti exp now e = ground arith

  -- A proof that is not consumed is admitted, or refused for capacity.
  pub check_and_record-new :
      (c : DpopReplayCache) (jkt jti : Str) (exp now : ℕ)
      → is_consumed hash c jkt jti now ≡ false
      → ((check_and_record hash c jkt jti exp now).0 ≡ ok tt)
        ⊎ ((check_and_record hash c jkt jti exp now).0 ≡ err replay_cache_saturated)
  unfolding check_and_record is_consumed admit record_proof
  check_and_record-new c jkt jti exp now e = ground arith

  pub new-held : (key : Str) (later : ℕ) → held new key later ≡ none
  unfolding new held
  new-held key later = ap (keep (live_at later)) (look-replicate (shard_index hash) 64 key)

  pub prune_expired-IsWellFormed :
      (c : DpopReplayCache) (now : ℕ) → IsWellFormed c → IsWellFormed (prune_expired c now)
  unfolding prune_expired
  prune_expired-IsWellFormed c now w = record {
    sharded = length-retain_all (live_at now) c.shards ∙ w.sharded;
    fits = retain_all-Fits 2048 (live_at now) c.shards w.fits;
  }

  pub prune_expired-held :
      (c : DpopReplayCache) (key : Str) (now later : ℕ)
      → IsWellFormed c
      → now ≤ later
      → held (prune_expired c now) key later ≡ held c key later
  unfolding prune_expired held look
  prune_expired-held c key now later w h =
      let i = shard_index hash key in
      rw
        (
          shard-retain_all (live_at now) c.shards i,
          get-retain (live_at now) key _ (All-shard 2048 c.shards i w.fits).distinct,
        )
        (keep-keep (get key (shard c.shards i)) now later h)

-- A well-formed replay cache holds at most 131072 proofs.
pub len-le : (c : DpopReplayCache) → IsWellFormed c → len c ≤ 131072
unfolding len
len-le c w = omega (arith, total-le 2048 c.shards w.fits, w.sharded)
