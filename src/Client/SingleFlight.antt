-- ===== src/Client/SingleFlight.antt =====
-- src/client.rs: `RefreshSingleFlight`, the table of the locks of refreshes, one for each subject.
-- A lock is a number. How often a lock is referred to, and which key comes first in the table, are
-- parameters: the source asks `Arc::strong_count`, and the order of a hash map is not specified.
pub mod Laws
use skyauth.Base.{
  ℕ, ◌≤◌, ◌<◌, ◌≡◌, ltb, leb, suc, Bool, Option, none, some, length, if◌then◌else◌, arith,
  Option-cases, inl, inr, ap,
}
use skyauth.Base.Text.{Str}
use skyauth.Maps.{HashMap, get, insert, remove, retain}

abbrev pub max_tracked_refresh_subjects : ℕ
max_tracked_refresh_subjects = 4096

module _ (strong_count : ℕ → ℕ) (first_key : HashMap ℕ → Option Str) where
  -- `if let Some(victim_key) = guard.keys().next()`.
  unfoldable pub evict : HashMap ℕ → Option Str → HashMap ℕ
  evict table none = table
  evict table (some victim_key) = remove victim_key table

  unfoldable pub make_room : HashMap ℕ → HashMap ℕ
  unfolding evict
  make_room table =
      if leb max_tracked_refresh_subjects (length table)
      then (let kept = retain (λ lock. ltb 1 (strong_count lock)) table in
          if leb max_tracked_refresh_subjects (length kept)
          then evict kept (first_key kept)
          else kept)
      else table

  -- `if let Some(existing) = guard.get(sub)`, under the write lock.
  unfoldable pub existing_or : HashMap ℕ → (sub : Str) (fresh : ℕ) → Option ℕ → ℕ × HashMap ℕ
  unfolding make_room
  existing_or table sub fresh none = (fresh, insert sub fresh (make_room table))
  existing_or table sub fresh (some existing) = (existing, table)

  -- The lock of a subject, where `fresh` is the lock that `Arc::new` makes, and the table after. The
  -- look-up ahead of the write lock answers with a lock that the table has.
  unfoldable pub lock_for : HashMap ℕ → (sub : Str) (fresh : ℕ) → ℕ × HashMap ℕ
  unfolding existing_or
  lock_for table sub fresh = existing_or table sub fresh (get sub table)
