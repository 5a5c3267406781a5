-- ===== src/Dpop/ReplayCache.antt =====
-- `DPoPReplayCache` of src/dpop.rs: 64 locked maps from `jkt:jti` to an expiry time, in seconds. An
-- operation holds the lock of its shard throughout, so it is one step. The keyed hash of the cache
-- is a parameter.
pub mod Laws
pub mod Replays
pub mod Fresh
use skyauth.Base.{
  ℕ, ◌+◌, ◌%◌, ◌^◌, Bool, true, false, ◌&&◌, Option, none, some, List, [], ◌∷◌, ◌++◌, length, set,
  get_or, replicate, ◌==◌, ltb, leb, if◌then◌else◌, Result, ok, err,
}
use skyauth.Base.Text.{Str}
use skyauth.Maps.{HashMap, get, insert, retain}
use skyauth.Maps.Shards.{shard, total, retain_all, clear_all}
use skyauth.Dpop.Errors.{DpopError, replay_detected, replay_cache_saturated}

abbrev pub num_shards : ℕ
num_shards = 64

abbrev pub replay_prune_hint_interval : ℕ
replay_prune_hint_interval = 64

abbrev pub replay_prune_threshold : ℕ
replay_prune_threshold = 512

abbrev pub replay_shard_capacity : ℕ
replay_shard_capacity = 2048

-- The hasher is a parameter of the operations; `prune_hints` are `u64` counters.
pub record DpopReplayCache : Type 0 where
  pub shards : List (HashMap ℕ)
  pub prune_hints : List ℕ

unfoldable pub new : DpopReplayCache
new = record { shards = replicate num_shards []; prune_hints = replicate num_shards 0 }

-- `format!("{jkt}:{jti}")`.
unfoldable pub composite_key : Str → Str → Str
composite_key jkt jti = jkt ++ b':' ∷ jti

-- `exp > now_secs`.
abbrev pub live_at : ℕ → ℕ → Bool
live_at now exp = ltb now exp

-- The pruning that the admission counter asks for.
unfoldable pub hinted_prune : ℕ → ℕ → HashMap ℕ → HashMap ℕ
hinted_prune admissions now m =
    if ltb replay_prune_threshold (length m) && (admissions % replay_prune_hint_interval == 0)
    then retain (live_at now) m
    else m

-- The end of `check_and_record`: the capacity test and the insertion.
unfoldable pub record_proof : Str → ℕ → ℕ → HashMap ℕ → Result DpopError (Unit {0}) × HashMap ℕ
record_proof key exp now m =
    let pruned = retain (live_at now) m in
    if leb replay_shard_capacity (length m)
    then if leb replay_shard_capacity (length pruned)
      then (err replay_cache_saturated, pruned)
      else (ok tt, insert key exp pruned)
    else (ok tt, insert key exp m)

-- `if let Some(&existing_exp) = guard.get(…) { if existing_exp > now { … } }`.
unfoldable pub is_live : ℕ → Option ℕ → Bool
is_live now none = false
is_live now (some exp) = live_at now exp

unfoldable pub prune_expired : DpopReplayCache → ℕ → DpopReplayCache
prune_expired c now = record c { shards = retain_all (live_at now) c.shards }

unfoldable pub len : DpopReplayCache → ℕ
len c = total c.shards

unfoldable pub is_empty : DpopReplayCache → Bool
unfolding len
is_empty c = len c == 0

unfoldable pub clear : DpopReplayCache → DpopReplayCache
clear c = record c { shards = clear_all c.shards }

module _ (hash : Str → ℕ) where
  unfoldable pub shard_index : Str → ℕ
  shard_index key = hash key % num_shards

  -- `check_and_record` from the admission counter on.
  unfoldable pub admit :
      DpopReplayCache
      → Str
      → (expires_at_secs now_secs : ℕ) → Result DpopError (Unit {0}) × DpopReplayCache
  admit c key expires_at_secs now_secs =
      let i = shard_index key in
      let admissions = get_or c.prune_hints i 0 in
      let done =
        record_proof key expires_at_secs now_secs
          (hinted_prune admissions now_secs (shard c.shards i)) in
      (
        done.0,
        record {
          shards = set c.shards i done.1;
          prune_hints = set c.prune_hints i ((admissions + 1) % 2 ^ 64);
        },
      )

  unfoldable pub check_and_record :
      DpopReplayCache
      → (jkt jti : Str) (expires_at_secs now_secs : ℕ)
      → Result DpopError (Unit {0}) × DpopReplayCache
  check_and_record c jkt jti expires_at_secs now_secs =
      let key = composite_key jkt jti in
      if is_live now_secs (get key (shard c.shards (shard_index key)))
      then (err (replay_detected jti), c)
      else admit c key expires_at_secs now_secs

  unfoldable pub is_consumed : DpopReplayCache → (jkt jti : Str) (now_secs : ℕ) → Bool
  is_consumed c jkt jti now_secs =
      let key = composite_key jkt jti in
      is_live now_secs (get key (shard c.shards (shard_index key)))
