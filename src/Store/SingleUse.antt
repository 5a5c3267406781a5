-- ===== src/Store/SingleUse.antt =====
-- A state is consumed at most once for each time that it was inserted, in every interleaving of
-- the operations of any number of threads: each holds the lock of its shard throughout, so an
-- interleaving is a sequence of whole operations.
use skyauth.Base.{
  ℕ, ◌+◌, ◌≤◌, ◌≡◌, true, Option, none, some, List, [], ◌∷◌, Result, arith, list_eq, is_some,
  Option-cases, list_eq_sound, ap, inl, inr, if◌then◌else◌,
}
use skyauth.Base.Text.{Str}
use skyauth.Store.{
  StoreError, OAuthStateStore, insert_state_sync, take_state_sync, prune_expired_sync, clear,
}
use skyauth.Store.Refines.{
  IsWellFormed, view, take_state_sync-IsWellFormed, take_state_sync-view, insert_state_sync-record,
  insert_record-IsWellFormed, view-insert_record,
}
use skyauth.Store.Pruning.{
  prune_expired_sync-IsWellFormed, clear-IsWellFormed, prune_expired_sync-view, clear-view,
}

-- The operations of `OAuthStore`, and `clear`, with the times that they read.
pub data Op (Entry : Type 0) : Type 0 where
  insert_op : Str → Entry → (ttl now prune_now : ℕ) → Op Entry
  take_op : Str → ℕ → Op Entry
  contains_op : Str → ℕ → Op Entry
  prune_op : ℕ → Op Entry
  clear_op : Op Entry

module _ (hash : Str → ℕ) (latest : ℕ) {Entry : Type 0} where
  -- A panic happens before the lock is taken, and leaves the store alone.
  abbrev or_same :
      OAuthStateStore Entry
      → Option (Result StoreError (Unit {0}) × OAuthStateStore Entry)
      → OAuthStateStore Entry
  or_same s none = s
  or_same s (some out) = out.1

  pub step : OAuthStateStore Entry → Op Entry → OAuthStateStore Entry
  step s (insert_op k entry ttl now prune_now) =
      or_same s (insert_state_sync hash latest s k entry ttl now prune_now)
  step s (take_op k now) = (take_state_sync hash s k now).1
  step s (contains_op k now) = s
  step s (prune_op now) = (prune_expired_sync s now).1
  step s clear_op = clear s

  -- 1 if the operation hands out the entry of `k`.
  abbrev took : Str → OAuthStateStore Entry → Op Entry → ℕ
  took k s (take_op j now) =
      if list_eq j k then if is_some (take_state_sync hash s j now).0 then 1 else 0 else 0
  took k s op = 0

  -- How often the entry of `k` is handed out in a run.
  pub times_taken : Str → OAuthStateStore Entry → List (Op Entry) → ℕ
  times_taken k s [] = 0
  times_taken k s (op ∷ ops) = took k s op + times_taken k (step s op) ops

abbrev inserts_of : {Entry : Type 0} → Str → Op Entry → ℕ
inserts_of k (insert_op j entry ttl now prune_now) = if list_eq j k then 1 else 0
inserts_of k op = 0

-- How often a run calls `insert` for `k`.
pub times_inserted : {Entry : Type 0} → Str → List (Op Entry) → ℕ
times_inserted k [] = 0
times_inserted k (op ∷ ops) = inserts_of k op + times_inserted k ops

abbrev pub present {ℓ} : {A : Type ℓ} → Option A → ℕ
present none = 0
present (some a) = 1

module _ (hash : Str → ℕ) (latest : ℕ) {Entry : Type 0} where
  -- Every operation keeps a store well formed: 64 shards, each with distinct keys and at most 1024
  -- entries.
  pub step-IsWellFormed :
      (s : OAuthStateStore Entry) (op : Op Entry)
      → IsWellFormed s
      → IsWellFormed (step hash latest s op)
  unfolding step
  step-IsWellFormed s (insert_op k entry ttl now prune_now) w =
      elim (Option-cases (insert_state_sync hash latest s k entry ttl now prune_now)) [
        | inl failed ↦ rw failed w
        | inr (out, done) ↦
            let (r, made, same) =
              insert_state_sync-record hash latest s k entry ttl now prune_now done in
            rw (done, same) (insert_record-IsWellFormed hash s k r prune_now w)
      ]
  step-IsWellFormed s (take_op k now) w = take_state_sync-IsWellFormed hash s k now w
  step-IsWellFormed s (contains_op k now) w = w
  step-IsWellFormed s (prune_op now) w = prune_expired_sync-IsWellFormed s now w
  step-IsWellFormed s clear_op w = clear-IsWellFormed s w

  -- What is handed out was present, and each insertion makes at most one entry present.
  step-balance :
      (k : Str) (s : OAuthStateStore Entry) (op : Op Entry)
      → IsWellFormed s
      → took hash latest k s op + present (view hash (step hash latest s op) k)
        ≤ inserts_of k op + present (view hash s k)
  unfolding step
  step-balance k s (insert_op j entry ttl now prune_now) w =
      elim (Option-cases (insert_state_sync hash latest s j entry ttl now prune_now)) [
        | inl failed ↦ rw failed (omega arith)
        | inr (out, done) ↦
            let (r, made, same) =
              insert_state_sync-record hash latest s j entry ttl now prune_now done in
            rw (done, same) (ground (arith, view-insert_record hash s j k r prune_now w))
      ]
  step-balance k s (take_op j now) w =
      let (taken, left) = take_state_sync-view hash s j now w in
      ground
        (arith, taken, left k, λ (e : list_eq j k ≡ true). ap (view hash s) (list_eq_sound j k e))
  step-balance k s (contains_op j now) w = omega arith
  step-balance k s (prune_op now) w = ground (arith, prune_expired_sync-view hash s now k w)
  step-balance k s clear_op w = ground (arith, clear-view hash s k)

  -- From a well-formed store, in any run of operations, the entry of a state is handed out at most
  -- as often as its insertion was called, plus one if the state was in the store at first.
  pub times_taken-le :
      (k : Str) (ops : List (Op Entry)) (s : OAuthStateStore Entry)
      → IsWellFormed s
      → times_taken hash latest k s ops ≤ times_inserted k ops + present (view hash s k)
  unfolding times_taken times_inserted
  times_taken-le k [] s w = omega arith
  times_taken-le k (op ∷ ops) s w = omega (
    arith,
    step-balance k s op w,
    times_taken-le k ops (step hash latest s op) (step-IsWellFormed s op w),
  )
