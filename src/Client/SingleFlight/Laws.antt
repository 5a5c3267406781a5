-- ===== src/Client/SingleFlight/Laws.antt =====
-- The table of locks stays bounded, and gives a subject the same lock while it is kept.
use skyauth.Base.{
  ℕ, ◌≤◌, ◌<◌, ◌≡◌, refl, true, ltb, Option, some, none, leb, Bool-cases, ◌⊎◌, [], length, arith,
  Option-cases, inl, inr,
}
use skyauth.Base.Text.{Str}
use skyauth.Maps.{HashMap, contains_key, get, retain, IsMap}
use skyauth.Maps.Laws.{get-insert_self}
use skyauth.Maps.Sizes.{
  length-insert-le, length-retain-le, length-remove, retain-IsMap, remove-IsMap, insert-IsMap,
}
use skyauth.Client.SingleFlight.{
  max_tracked_refresh_subjects, evict, make_room, existing_or, lock_for,
}

module _ (strong_count : ℕ → ℕ) (first_key : HashMap ℕ → Option Str) where
  -- The table has distinct keys and is not too long.
  abbrev pub IsTable : HashMap ℕ → Type 0
  IsTable table = IsMap table × (length table ≤ max_tracked_refresh_subjects)

  -- `keys().next()` is nothing for an empty table, and a key of any other.
  abbrev pub IsFirstKey : HashMap ℕ → Type 0
  IsFirstKey table =
      ((table ≡ []) × (first_key table ≡ none))
      ⊎ ((k : Str) × (first_key table ≡ some k) × (contains_key k table ≡ true))

  make_room-IsTable :
      (table : HashMap ℕ)
      → IsTable table
      → IsFirstKey (retain (λ lock. ltb 1 (strong_count lock)) table)
      → IsMap (make_room strong_count first_key table)
        × (length (make_room strong_count first_key table) < max_tracked_refresh_subjects)
  unfolding make_room evict
  make_room-IsTable table w (inl (empty, first)) =
      elim (Bool-cases (leb max_tracked_refresh_subjects (length table))) [
        | (inl full) ↦ rw (full, empty) (tt, ground arith)
        | (inr room) ↦ rw room (w.0, ground arith)
      ]
  make_room-IsTable table w (inr (k, first, present)) =
      let kept = retain (λ lock. ltb 1 (strong_count lock)) table in
      let fewer = length-retain-le (λ lock. ltb 1 (strong_count lock)) table in
      let kept_map = retain-IsMap (λ lock. ltb 1 (strong_count lock)) table w.0 in
      let removed_map = remove-IsMap k kept kept_map in
      let one = length-remove k kept kept_map present in rw first (ground arith, ground arith)

  -- If the table of locks has distinct subjects and at most 4096 of them, so has the table after a
  -- lock was given, if `keys().next()` is nothing for an empty table and a key of any other, at
  -- the table that is left when unused locks are dropped.
  pub lock_for-IsTable :
      (table : HashMap ℕ) (sub : Str) (fresh : ℕ)
      → IsTable table
      → IsFirstKey (retain (λ lock. ltb 1 (strong_count lock)) table)
      → IsTable (lock_for strong_count first_key table sub fresh).1
  unfolding lock_for existing_or
  lock_for-IsTable table sub fresh w first = elim (Option-cases (get sub table)) [
    | inl absent ↦
        let room = make_room strong_count first_key table in
        let (map, short) = make_room-IsTable table w first in
        let longer = length-insert-le sub fresh room in
        rw absent (insert-IsMap sub fresh room map, omega arith)
    | inr (lock, present) ↦ rw present w
  ]

  -- Two tasks that ask in turn get one lock.
  pub lock_for-lock_for :
      (table : HashMap ℕ) (sub : Str) (fresh other : ℕ)
      → lock_for strong_count first_key
          (lock_for strong_count first_key table sub fresh).1
          sub
          other
        ≡ lock_for strong_count first_key table sub fresh
  unfolding lock_for existing_or
  lock_for-lock_for table sub fresh other = elim (Option-cases (get sub table)) [
    | inl absent ↦
        let room = make_room strong_count first_key table in
        rw absent (rw (get-insert_self sub fresh room) refl)
    | inr (lock, present) ↦ rw present (rw present refl)
  ]
