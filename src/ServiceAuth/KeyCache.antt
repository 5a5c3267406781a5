-- ===== src/ServiceAuth/KeyCache.antt =====
-- `DidKeyCache` of src/service_auth.rs: 64 locked maps from a DID to its signing key and the second
-- at which it was resolved. An operation holds the lock of its shard throughout. `verifying_key` is
-- the key again if it is on secp256k1. The hash of the standard library is a parameter.
pub mod Laws
use mathlib.Core.Option
use skyauth.Base.{
  ℕ, ◌-◌, ◌%◌, Bool, true, false, not, ◌&&◌, Option, none, some, List, [], ◌∷◌, length, set,
  replicate, ltb, leb, ◌==◌, if◌then◌else◌,
}
use skyauth.Base.Text.{Str}
use skyauth.Maps.{HashMap, get, contains_key, insert, remove, retain}
use skyauth.Maps.Shards.{shard, total, clear_all}
use skyauth.ServiceAuth.{Curves, AtprotoVerifyingKey, secp256k1, p256}

abbrev pub did_key_cache_shards : ℕ
did_key_cache_shards = 64

abbrev pub max_did_key_cache_per_shard : ℕ
max_did_key_cache_per_shard = 512

pub record CachedSigningKey (c : Curves) : Type 0 where
  pub verifying_key : Option c.Secp256k1Key
  pub atproto_key : AtprotoVerifyingKey c
  pub resolved_at_secs : ℕ

pub record DidKeyCache (c : Curves) : Type 0 where
  pub shards : List (HashMap (CachedSigningKey c))
  pub ttl_secs : ℕ

-- `hash & (DID_KEY_CACHE_SHARDS - 1)`, for a power of two.
unfoldable pub shard_idx : (hash : Str → ℕ) → Str → ℕ
shard_idx hash did = hash did % did_key_cache_shards

module _ {c : Curves} where
  unfoldable pub new : (ttl_secs : ℕ) → DidKeyCache c
  new ttl_secs = record { shards = replicate did_key_cache_shards []; ttl_secs = ttl_secs }

  -- Younger than the lifetime.
  unfoldable pub is_fresh : (ttl now : ℕ) → CachedSigningKey c → Bool
  is_fresh ttl now v = ltb (now - v.resolved_at_secs) ttl

  -- The entry with the least time, the first of equals.
  unfoldable pub older :
      Str × CachedSigningKey c → Str × CachedSigningKey c → Str × CachedSigningKey c
  older a b = if ltb b.1.resolved_at_secs a.1.resolved_at_secs then b else a

  unfoldable pub oldest :
      Str × CachedSigningKey c → HashMap (CachedSigningKey c) → Str × CachedSigningKey c
  unfolding older
  oldest best [] = best
  oldest best (e ∷ m) = oldest (older best e) m

  unfoldable pub remove_oldest : HashMap (CachedSigningKey c) → HashMap (CachedSigningKey c)
  unfolding oldest
  remove_oldest [] = []
  remove_oldest (e ∷ m) = remove (oldest e m).0 (e ∷ m)

  -- The eviction before an insertion into a full shard.
  unfoldable pub make_room :
      (ttl now : ℕ) (did : Str) → HashMap (CachedSigningKey c) → HashMap (CachedSigningKey c)
  unfolding remove_oldest is_fresh
  make_room ttl now did m =
      let kept = retain (is_fresh ttl now) m in
      if leb max_did_key_cache_per_shard (length m) && not (contains_key did m)
      then if leb max_did_key_cache_per_shard (length kept) then remove_oldest kept else kept
      else m

  unfoldable pub secp256k1_of : AtprotoVerifyingKey c → Option c.Secp256k1Key
  secp256k1_of (secp256k1 k) = some k
  secp256k1_of (p256 k) = none

  unfoldable pub entry_of : AtprotoVerifyingKey c → (now : ℕ) → CachedSigningKey c
  unfolding secp256k1_of
  entry_of key now = record {
    verifying_key = secp256k1_of key;
    atproto_key = key;
    resolved_at_secs = now;
  }

  -- The entry of a look-up, if it is not too old.
  unfoldable pub fresh_entry :
      (ttl now : ℕ) → Option (CachedSigningKey c) → Option (CachedSigningKey c)
  fresh_entry ttl now none = none
  fresh_entry ttl now (some entry) =
      if leb ttl (now - entry.resolved_at_secs) then none else some entry

  unfoldable pub len : DidKeyCache c → ℕ
  len s = total s.shards

  unfoldable pub is_empty : DidKeyCache c → Bool
  unfolding len
  is_empty s = len s == 0

  unfoldable pub clear : DidKeyCache c → DidKeyCache c
  clear s = record s { shards = clear_all s.shards }

  module _ (hash : Str → ℕ) where
    unfoldable pub get_atproto_key :
        DidKeyCache c → Str → (now : ℕ) → Option (AtprotoVerifyingKey c)
    unfolding fresh_entry shard_idx
    get_atproto_key s did now =
        Option.map (λ (entry : CachedSigningKey c). entry.atproto_key)
          (fresh_entry s.ttl_secs now (get did (shard s.shards (shard_idx hash did))))

    unfoldable pub get_key : DidKeyCache c → Str → (now : ℕ) → Option c.Secp256k1Key
    unfolding fresh_entry shard_idx
    get_key s did now =
        elim (fresh_entry s.ttl_secs now (get did (shard s.shards (shard_idx hash did)))) [
          | none ↦ none
          | some entry ↦ entry.verifying_key
        ]

    unfoldable pub insert_atproto_key :
        DidKeyCache c → Str → AtprotoVerifyingKey c → (now : ℕ) → DidKeyCache c
    unfolding make_room entry_of shard_idx
    insert_atproto_key s did key now =
        let i = shard_idx hash did in
        record s {
          shards =
              set s.shards i
                (insert did (entry_of key now) (make_room s.ttl_secs now did (shard s.shards i)));
        }

    unfoldable pub insert_key : DidKeyCache c → Str → c.Secp256k1Key → (now : ℕ) → DidKeyCache c
    insert_key s did key now = insert_atproto_key s did (secp256k1 key) now

    unfoldable pub invalidate : DidKeyCache c → Str → DidKeyCache c
    unfolding shard_idx
    invalidate s did =
        let i = shard_idx hash did in
        record s { shards = set s.shards i (remove did (shard s.shards i)) }
