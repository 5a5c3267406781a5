-- ===== src/Store.antt =====
-- src/store.rs: the store of pending OAuth states, 64 locked maps. An operation holds the lock of
-- its shard throughout, so it is one step; each reading of the clock is an argument. Instants and
-- durations are nanoseconds. The payload of a state is a parameter, and so is the hash function.
pub mod Expiry
pub mod Refines
pub mod RoundTrip
pub mod SingleUse
pub mod Pruning
use mathlib.Core.Option
use skyauth.Base.{
  ℕ, ◌+◌, ◌-◌, ◌*◌, ◌%◌, ◌≡◌, Bool, true, false, not, Option, none, some, List, [], ◌∷◌, length,
  set, replicate, ◌==◌, leb, if◌then◌else◌, Result, ok, err,
}
use skyauth.Base.Text.{Str}
use skyauth.Maps.{HashMap, get, insert, remove, retain}
use skyauth.Maps.Shards.{shard, total, clear_all}

abbrev pub shard_admission_capacity : ℕ
shard_admission_capacity = 1024

abbrev pub num_shards : ℕ
num_shards = 64

-- Nanoseconds.
abbrev pub default_state_ttl : ℕ
default_state_ttl = 300 * 1000000000

abbrev pub one_year : ℕ
one_year = 86400 * 365 * 1000000000

-- `StoreError` of src/error.rs, the variant that this store gives.
pub data StoreError : Type 0 where
  capacity_exceeded : ℕ → StoreError

pub record StoredStateRecord (Entry : Type 0) : Type 0 where
  pub entry : Entry
  pub created_at : ℕ
  pub expires_at : ℕ

pub record OAuthStateStore (Entry : Type 0) : Type 0 where
  pub shards : List (HashMap (StoredStateRecord Entry))
  pub default_ttl : ℕ

-- `Instant::checked_add`, with the latest instant that the platform can represent.
unfoldable pub checked_add : ℕ → ℕ → ℕ → Option ℕ
checked_add latest now d = if leb (now + d) latest then some (now + d) else none

-- `unwrap_or(now + one_year)` evaluates its argument first: that sum panics (`none`) past the
-- latest instant.
unfoldable pub expiry_of : ℕ → ℕ → ℕ → Option ℕ
unfolding checked_add
expiry_of latest now ttl = elim (checked_add latest now one_year) [
  | none ↦ none
  | some fallback ↦ elim (checked_add latest now ttl) [ none ↦ some fallback | some t ↦ some t ]
]

module _ {Entry : Type 0} where
  unfoldable pub is_expired : StoredStateRecord Entry → ℕ → Bool
  is_expired r now =
      if leb r.expires_at now
      then true
      else let elapsed = now - r.created_at in
        let ttl = r.expires_at - r.created_at in leb ttl elapsed

  abbrev pub is_live : ℕ → StoredStateRecord Entry → Bool
  is_live now r = not (is_expired r now)

  -- `StoredStateRecord::new`; `none` is a panic.
  unfoldable pub record_new : ℕ → ℕ → Entry → ℕ → Option (StoredStateRecord Entry)
  unfolding expiry_of
  record_new latest now entry ttl = elim (expiry_of latest now ttl) [
    | none ↦ none
    | some t ↦ some (record { entry = entry; created_at = now; expires_at = t })
  ]

  -- The part of `insert_state_sync` under the lock, with the second reading of the clock.
  unfoldable pub admit :
      Str
      → StoredStateRecord Entry
      → ℕ
      → HashMap (StoredStateRecord Entry)
      → Result StoreError (Unit {0}) × HashMap (StoredStateRecord Entry)
  admit state r now m =
      let pruned = retain (is_live now) m in
      if leb shard_admission_capacity (length m)
      then if leb shard_admission_capacity (length pruned)
        then (err (capacity_exceeded shard_admission_capacity), pruned)
        else (ok tt, insert state r pruned)
      else (ok tt, insert state r m)

  -- The part of `take_state_sync` after the removal.
  unfoldable pub if_live : ℕ → Option (StoredStateRecord Entry) → Option Entry
  if_live now none = none
  if_live now (some r) = if not (is_expired r now) then some r.entry else none

  unfoldable pub new : ℕ → OAuthStateStore Entry
  new default_ttl = record { shards = replicate num_shards []; default_ttl = default_ttl }

  -- The fold of `prune_expired_sync`: the shards that are left, and the running count.
  unfoldable pub prune_loop :
      ℕ
      → ℕ
      → List (HashMap (StoredStateRecord Entry))
      → ℕ × List (HashMap (StoredStateRecord Entry))
  prune_loop now pruned [] = (pruned, [])
  prune_loop now pruned (m ∷ rest) =
      let kept = retain (is_live now) m in
      let later = prune_loop now (pruned + (length m - length kept)) rest in
      (later.0, kept ∷ later.1)

  unfoldable pub prune_expired_sync : OAuthStateStore Entry → ℕ → ℕ × OAuthStateStore Entry
  unfolding prune_loop
  prune_expired_sync s now = let r = prune_loop now 0 s.shards in (r.0, record s { shards = r.1 })

  unfoldable pub total_entries : OAuthStateStore Entry → ℕ
  total_entries s = total s.shards

  unfoldable pub shard_len : OAuthStateStore Entry → ℕ → ℕ
  shard_len s i = length (shard s.shards (i % num_shards))

  unfoldable pub is_empty : OAuthStateStore Entry → Bool
  unfolding total_entries
  is_empty s = total_entries s == 0

  unfoldable pub clear : OAuthStateStore Entry → OAuthStateStore Entry
  clear s = record s { shards = clear_all s.shards }

-- `hash` is what `AHasher::default` finishes with.
module _ (hash : Str → ℕ) {Entry : Type 0} where
  unfoldable pub shard_index : OAuthStateStore Entry → Str → ℕ
  shard_index s key = hash key % num_shards

  -- `none` is a panic, before any lock is taken.
  unfoldable pub take_state_sync :
      OAuthStateStore Entry → Str → ℕ → Option Entry × OAuthStateStore Entry
  unfolding shard_index
  take_state_sync s state now =
      let m = shard s.shards (shard_index s state) in
      (
        if_live now (get state m),
        record s { shards = set s.shards (shard_index s state) (remove state m) },
      )

  unfoldable pub contains_state_sync : OAuthStateStore Entry → Str → ℕ → Bool
  unfolding shard_index
  contains_state_sync s state now = elim (get state (shard s.shards (shard_index s state))) [
    | none ↦ false
    | some r ↦ not (is_expired r now)
  ]

  -- `insert_state_sync` from the lock on.
  unfoldable pub insert_record :
      OAuthStateStore Entry
      → Str
      → StoredStateRecord Entry
      → ℕ
      → Result StoreError (Unit {0}) × OAuthStateStore Entry
  unfolding shard_index
  insert_record s state r prune_now =
      let done = admit state r prune_now (shard s.shards (shard_index s state)) in
      (done.0, record s { shards = set s.shards (shard_index s state) done.1 })

-- `latest` is the last instant of the platform.
module _ (hash : Str → ℕ) (latest : ℕ) {Entry : Type 0} where
  -- `none` is a panic, before any lock is taken.
  unfoldable pub insert_state_sync :
      OAuthStateStore Entry
      → Str
      → Entry
      → ℕ
      → (now prune_now : ℕ) → Option (Result StoreError (Unit {0}) × OAuthStateStore Entry)
  insert_state_sync s state entry ttl now prune_now =
      Option.map (λ r. insert_record hash s state r prune_now) (record_new latest now entry ttl)

  unfoldable pub insert_default_sync :
      OAuthStateStore Entry
      → Str
      → Entry
      → (now prune_now : ℕ) → Option (Result StoreError (Unit {0}) × OAuthStateStore Entry)
  unfolding insert_state_sync
  insert_default_sync s state entry now prune_now =
      insert_state_sync s state entry s.default_ttl now prune_now
