-- ===== src/Store/Refines.antt =====
-- The store as one map from states to records, whatever the shards: what each operation does to it.
use skyauth.Base.{
  ℕ, ◌%◌, ◌≤◌, ◌≡◌, refl, ◌∙◌, ap, true, false, Option, none, some, length, set, All, ◌==◌, list_eq,
  list_eq_sound, if◌then◌else◌, Result, arith, length-set, is_some, is_ok, ◌&&◌, map-eq-some,
}
use skyauth.Base.Text.{Str}
use mathlib.Core.Option
use skyauth.Maps.{HashMap, get, retain}
use skyauth.Maps.Laws.{keep, get-insert, get-remove, get-retain}
use skyauth.Maps.Sizes.{remove-IsMap, insert-IsMap, length-remove-le, length-insert-le}
use skyauth.Maps.Shards.{shard, shard-set, Fits, All-shard, All-set, retain-Fits, replicate-Fits}
use skyauth.Store.{
  StoredStateRecord, OAuthStateStore, StoreError, is_expired, is_live, admit, if_live, new,
  record_new, insert_record, insert_state_sync, take_state_sync, contains_state_sync,
}

-- 64 shards, each with distinct keys and at most 1024 entries.
pub record IsWellFormed {Entry : Type 0} (s : OAuthStateStore Entry) : Type 0 where
  pub sharded : length s.shards ≡ 64
  pub fits : All (Fits 1024) s.shards

pub new-IsWellFormed : (Entry : Type 0) (ttl : ℕ) → IsWellFormed {Entry = Entry} (new ttl)
unfolding new
new-IsWellFormed Entry ttl = record {
  sharded = refl;
  fits = replicate-Fits (StoredStateRecord Entry) 1024 64;
}

module _ {Entry : Type 0} where
  -- Once expired, a record stays so.
  pub is_expired_mono :
      (r : StoredStateRecord Entry) (now later : ℕ)
      → now ≤ later
      → is_expired r now ≡ true
      → is_expired r later ≡ true
  unfolding is_expired
  is_expired_mono r now later h e = ground arith

  -- Pruning at one time is not seen at any later time.
  pub keep-keep :
      (o : Option (StoredStateRecord Entry)) (now later : ℕ)
      → now ≤ later
      → keep (is_live later) (keep (is_live now) o) ≡ keep (is_live later) o
  keep-keep none now later h = refl
  keep-keep (some r) now later h = ground (arith, is_expired_mono r now later h)

  pub admit-Fits :
      (k : Str) (r : StoredStateRecord Entry) (now : ℕ) (m : HashMap (StoredStateRecord Entry))
      → Fits 1024 m
      → Fits 1024 (admit k r now m).1
  unfolding admit
  admit-Fits k r now m f =
      let p = retain-Fits 1024 (is_live now) m f in
      record {
        distinct = ground (
          arith,
          insert-IsMap k r m f.distinct,
          insert-IsMap k r (retain (is_live now) m) p.distinct,
          p.distinct,
        );
        bounded = ground (
          arith,
          length-insert-le k r m,
          length-insert-le k r (retain (is_live now) m),
          p.bounded,
        );
      }

  -- After an admission the new record is there, and what was live in the shard still is; a
  -- refused one leaves what was live.
  pub get-admit :
      (k j : Str) (r : StoredStateRecord Entry) (now later : ℕ)
      (m : HashMap (StoredStateRecord Entry))
      → Fits 1024 m
      → now ≤ later
      → keep (is_live later) (get j (admit k r now m).1)
        ≡ keep
            (is_live later)
            (if is_ok (admit k r now m).0 && list_eq k j then some r else get j m)
  unfolding admit
  get-admit k j r now later m f h = ground (
    arith,
    get-insert k j r m,
    get-insert k j r (retain (is_live now) m),
    get-retain (is_live now) j m f.distinct,
    keep-keep (get j m) now later h,
  )

  get-admit_ne :
      (k j : Str) (r : StoredStateRecord Entry) (now : ℕ) (m : HashMap (StoredStateRecord Entry))
      → Fits 1024 m
      → list_eq k j ≡ false
      → get j m ≡ none
      → get j (admit k r now m).1 ≡ none
  unfolding admit
  get-admit_ne k j r now m f d e = ground (
    arith,
    get-insert k j r m,
    get-insert k j r (retain (is_live now) m),
    get-retain (is_live now) j m f.distinct,
  )

-- Equal states have one shard.
same_index : (hash : Str → ℕ) (k j : Str) → list_eq k j ≡ true → hash k % 64 ≡ hash j % 64
same_index hash k j e = ap (λ i. hash i % 64) (list_eq_sound k j e)

if_live-map :
    {Entry : Type 0} (now : ℕ) (o : Option (StoredStateRecord Entry))
    → if_live now o ≡ Option.map (λ r. r.entry) (keep (is_live now) o)
unfolding if_live
if_live-map now none = refl
if_live-map now (some r) = ground arith

module _ (hash : Str → ℕ) {Entry : Type 0} where
  -- The record of a state, expired or not.
  unfoldable pub view : OAuthStateStore Entry → Str → Option (StoredStateRecord Entry)
  view s k = get k (shard s.shards (hash k % 64))

  -- The record of a state if it is live at the given time.
  abbrev pub visible : OAuthStateStore Entry → Str → ℕ → Option (StoredStateRecord Entry)
  visible s k now = keep (is_live now) (view s k)

  -- In one shard both states are looked up in the same map.
  same_shard :
      (s : OAuthStateStore Entry) (k j : Str)
      → hash k % 64 ≡ hash j % 64
      → get j (shard s.shards (hash k % 64)) ≡ view s j
  unfolding view
  same_shard s k j e = ap (λ i. get j (shard s.shards i)) e

  -- A write to the shard of `k` is seen at the keys of that shard.
  view-set :
      (s : OAuthStateStore Entry) (k j : Str) (m : HashMap (StoredStateRecord Entry))
      → length s.shards ≡ 64
      → view (record s { shards = set s.shards (hash k % 64) m }) j
        ≡ (if hash k % 64 == hash j % 64 then get j m else view s j)
  unfolding view
  view-set s k j m h =
      rw (shard-set s.shards (hash k % 64) (hash j % 64) m (omega arith)) (ground arith)

  pub take_state_sync-IsWellFormed :
      (s : OAuthStateStore Entry) (k : Str) (now : ℕ)
      → IsWellFormed s
      → IsWellFormed (take_state_sync hash s k now).1
  unfolding take_state_sync
  take_state_sync-IsWellFormed s k now w =
      let f = All-shard 1024 s.shards (hash k % 64) w.fits in
      record {
        sharded = length-set s.shards _ _ ∙ w.sharded;
        fits = All-set 1024 s.shards (hash k % 64) _ w.fits (record {
          distinct = remove-IsMap k _ f.distinct;
          bounded = omega (arith, length-remove-le k (shard s.shards (hash k % 64)), f.bounded);
        });
      }

  -- In a well-formed store, `take` returns the entry of the record that is live now, if any, and
  -- removes that state and no other.
  pub take_state_sync-view :
      (s : OAuthStateStore Entry) (k : Str) (now : ℕ)
      → IsWellFormed s
      → ((take_state_sync hash s k now).0 ≡ Option.map (λ r. r.entry) (visible s k now))
        × ((j : Str)
            → view (take_state_sync hash s k now).1 j ≡ (if list_eq k j then none else view s j))
  unfolding take_state_sync view
  take_state_sync-view s k now w = (
    if_live-map now (get k (shard s.shards (hash k % 64))),
    λ j. rw (view-set s k j _ w.sharded) (
        ground (
          arith,
          get-remove k j (shard s.shards (hash k % 64)),
          same_index hash k j,
          same_shard s k j,
        )),
  )

  -- `contains` says yes exactly when a record of the state is live.
  pub contains_state_sync-visible :
      (s : OAuthStateStore Entry) (k : Str) (now : ℕ)
      → contains_state_sync hash s k now ≡ is_some (visible s k now)
  unfolding contains_state_sync view
  contains_state_sync-visible s k now = ground arith

  pub insert_record-IsWellFormed :
      (s : OAuthStateStore Entry) (k : Str) (r : StoredStateRecord Entry) (now : ℕ)
      → IsWellFormed s
      → IsWellFormed (insert_record hash s k r now).1
  unfolding insert_record
  insert_record-IsWellFormed s k r now w = record {
    sharded = length-set s.shards _ _ ∙ w.sharded;
    fits =
        All-set 1024 s.shards (hash k % 64) _ w.fits
          (admit-Fits k r now _ (All-shard 1024 s.shards (hash k % 64) w.fits));
  }

  -- An insertion makes no other state present.
  pub view-insert_record :
      (s : OAuthStateStore Entry) (k j : Str) (r : StoredStateRecord Entry) (now : ℕ)
      → IsWellFormed s
      → list_eq k j ≡ false
      → view s j ≡ none
      → view (insert_record hash s k r now).1 j ≡ none
  unfolding insert_record
  view-insert_record s k j r now w d e =
      let m = shard s.shards (hash k % 64) in
      let f = All-shard 1024 s.shards (hash k % 64) w.fits in
      rw (view-set s k j (admit k r now m).1 w.sharded)
        (ground (arith, get-admit_ne k j r now m f, same_shard s k j))

  -- In a well-formed store, an insertion that succeeds makes the new record visible while it is
  -- live, and leaves every other state as visible as before; one that is refused changes nothing
  -- that is visible. Both hold at every time from the insertion on.
  pub insert_record-visible :
      (s : OAuthStateStore Entry) (k : Str) (r : StoredStateRecord Entry) (now : ℕ)
      → IsWellFormed s
      → (j : Str) (later : ℕ) → now ≤ later
      → visible (insert_record hash s k r now).1 j later ≡ (
          if is_ok (insert_record hash s k r now).0 && list_eq k j
          then keep (is_live later) (some r)
          else visible s j later)
  unfolding insert_record
  insert_record-visible s k r now w j later h =
      let m = shard s.shards (hash k % 64) in
      rw (view-set s k j (admit k r now m).1 w.sharded) (
        ground (
          arith,
          get-admit k j r now later m (All-shard 1024 s.shards (hash k % 64) w.fits) h,
          same_index hash k j,
          same_shard s k j,
        ))

module _ (hash : Str → ℕ) (latest : ℕ) {Entry : Type 0} where
  -- A completed insertion went through with a new record.
  pub insert_state_sync-record :
      (s : OAuthStateStore Entry) (k : Str) (entry : Entry) (ttl now prune_now : ℕ)
      {out : Result StoreError (Unit {0}) × OAuthStateStore Entry}
      → insert_state_sync hash latest s k entry ttl now prune_now ≡ some out
      → (r : StoredStateRecord Entry) × (record_new latest now entry ttl ≡ some r)
        × (out ≡ insert_record hash s k r prune_now)
  unfolding insert_state_sync
  insert_state_sync-record s k entry ttl now prune_now e =
      map-eq-some _ (record_new latest now entry ttl) e
