-- ===== src/Store/Pruning.antt =====
-- `prune_expired_sync` and `clear`, over all the shards.
use skyauth.Base.{
  ℕ, ◌+◌, ◌%◌, ◌≤◌, ◌≡◌, refl, ◌∙◌, true, none, List, [], ◌∷◌, length, arith, ap, ◌-◌,
}
use skyauth.Base.Text.{Str}
use skyauth.Maps.{HashMap, get, retain}
use skyauth.Maps.Laws.{keep, get-retain}
use skyauth.Maps.Sizes.{length-retain-le}
use skyauth.Maps.Shards.{
  total, retain_all, All-shard, shard-retain_all, shard-clear_all, length-retain_all,
  length-clear_all, retain_all-Fits, clear_all-Fits, total-clear_all, total-le,
}
use skyauth.Store.{
  StoredStateRecord, OAuthStateStore, is_live, prune_loop, prune_expired_sync, total_entries,
  is_empty, clear,
}
use skyauth.Store.Refines.{IsWellFormed, view}

module _ {Entry : Type 0} where
  prune_loop-retain_all :
      (now n : ℕ) (shards : List (HashMap (StoredStateRecord Entry)))
      → (prune_loop now n shards).1 ≡ retain_all (is_live now) shards
  unfolding prune_loop retain_all
  prune_loop-retain_all now n [] = refl
  prune_loop-retain_all now n (m ∷ rest) =
      ap (◌∷◌ (retain (is_live now) m))
        (prune_loop-retain_all now (n + (length m - length (retain (is_live now) m))) rest)

  prune_loop-count :
      (now n : ℕ) (shards : List (HashMap (StoredStateRecord Entry)))
      → (prune_loop now n shards).0 + total (retain_all (is_live now) shards) ≡ n + total shards
  unfolding prune_loop retain_all total
  prune_loop-count now n [] = omega arith
  prune_loop-count now n (m ∷ rest) = omega (
    arith,
    length-retain-le (is_live now) m,
    prune_loop-count now (n + (length m - length (retain (is_live now) m))) rest,
  )

  prune-shards :
      (s : OAuthStateStore Entry) (now : ℕ)
      → (prune_expired_sync s now).1.shards ≡ retain_all (is_live now) s.shards
  unfolding prune_expired_sync
  prune-shards s now = prune_loop-retain_all now 0 s.shards

  prune-count :
      (s : OAuthStateStore Entry) (now : ℕ)
      → (prune_expired_sync s now).0 + total (retain_all (is_live now) s.shards) ≡ total s.shards
  unfolding prune_expired_sync
  prune-count s now = omega (arith, prune_loop-count now 0 s.shards)

  -- The number that pruning returns and the number of entries that are left add up to the number
  -- of entries before.
  pub prune_expired_sync-count :
      (s : OAuthStateStore Entry) (now : ℕ)
      → (prune_expired_sync s now).0 + total_entries (prune_expired_sync s now).1 ≡ total_entries s
  unfolding total_entries
  prune_expired_sync-count s now = rw (prune-shards s now) (prune-count s now)

  pub prune_expired_sync-IsWellFormed :
      (s : OAuthStateStore Entry) (now : ℕ)
      → IsWellFormed s
      → IsWellFormed (prune_expired_sync s now).1
  prune_expired_sync-IsWellFormed s now w = record {
    sharded = rw (prune-shards s now) (length-retain_all (is_live now) s.shards ∙ w.sharded);
    fits = rw (prune-shards s now) (retain_all-Fits 1024 (is_live now) s.shards w.fits);
  }

  pub clear-IsWellFormed : (s : OAuthStateStore Entry) → IsWellFormed s → IsWellFormed (clear s)
  unfolding clear
  clear-IsWellFormed s w = record {
    sharded = length-clear_all s.shards ∙ w.sharded;
    fits = clear_all-Fits 1024 s.shards;
  }

  -- A cleared store is empty.
  pub is_empty-clear : (s : OAuthStateStore Entry) → is_empty (clear s) ≡ true
  unfolding is_empty clear
  is_empty-clear s = rw (total-clear_all s.shards)

  -- A well-formed store holds at most 65536 entries.
  pub total_entries-le : (s : OAuthStateStore Entry) → IsWellFormed s → total_entries s ≤ 65536
  unfolding total_entries
  total_entries-le s w = omega (arith, total-le 1024 s.shards w.fits, w.sharded)

module _ (hash : Str → ℕ) {Entry : Type 0} where
  -- In a well-formed store, pruning keeps a record of a state exactly if it is live.
  pub prune_expired_sync-view :
      (s : OAuthStateStore Entry) (now : ℕ) (k : Str)
      → IsWellFormed s
      → view hash (prune_expired_sync s now).1 k ≡ keep (is_live now) (view hash s k)
  unfolding view
  prune_expired_sync-view s now k w =
      rw (prune-shards s now, shard-retain_all (is_live now) s.shards (hash k % 64))
        (get-retain (is_live now) k _ (All-shard 1024 s.shards (hash k % 64) w.fits).distinct)

  pub clear-view : (s : OAuthStateStore Entry) (k : Str) → view hash (clear s) k ≡ none
  unfolding view clear get
  clear-view s k = rw (shard-clear_all s.shards (hash k % 64))
