-- ===== src/Store/RoundTrip.antt =====
-- What was inserted comes back.
use mathlib.Core.Option
use skyauth.Base.{ℕ, ◌+◌, ◌≤◌, ◌<◌, ◌≡◌, some, Result, ok, arith, sym, ap, ◌∙◌, false, list_eq_refl}
use skyauth.Base.Text.{Str}
use skyauth.Store.{
  StoredStateRecord, OAuthStateStore, StoreError, insert_record, insert_state_sync, take_state_sync,
  is_expired,
}
use skyauth.Store.Expiry.{is_expired_iff, record_new_iff}
use skyauth.Store.Refines.{
  IsWellFormed, insert_state_sync-record, insert_record-visible, insert_record-IsWellFormed,
  take_state_sync-view,
}

take-insert_record :
    (hash : Str → ℕ) {Entry : Type 0} (s : OAuthStateStore Entry) (k : Str)
    (r : StoredStateRecord Entry) (now later : ℕ)
    → IsWellFormed s
    → now ≤ later
    → (insert_record hash s k r now).0 ≡ ok tt
    → is_expired r later ≡ false
    → (take_state_sync hash (insert_record hash s k r now).1 k later).0 ≡ some r.entry
take-insert_record hash s k r now later w p done live =
    (take_state_sync-view hash _ k later (insert_record-IsWellFormed hash s k r now w)).0
    ∙ ap (Option.map (λ r. r.entry)) {y = some r} (
        insert_record-visible hash s k r now w k later p ∙ rw (done, list_eq_refl k) (ground arith))

module _ (hash : Str → ℕ) (latest : ℕ) {Entry : Type 0} where
  -- A state that was inserted into a well-formed store is returned by `take` at every time before
  -- its lifetime ends and not before its insertion, if the end of the lifetime can be represented.
  pub take-insert :
      (s : OAuthStateStore Entry) (k : Str) (entry : Entry) (ttl now prune_now later : ℕ)
      {t : OAuthStateStore Entry}
      → IsWellFormed s
      → insert_state_sync hash latest s k entry ttl now prune_now ≡ some (ok tt, t)
      → prune_now ≤ later
      → now ≤ later
      → later < now + ttl
      → now + ttl ≤ latest
      → (take_state_sync hash t k later).0 ≡ some entry
  take-insert s k entry ttl now prune_now later {t} w e p h l f =
      let (r, made, same) = insert_state_sync-record hash latest s k entry ttl now prune_now e in
      let (fits, held, born, expiry) = (record_new_iff latest now ttl entry r).0 made in
      let live : is_expired r later ≡ false = ground (arith, is_expired_iff r later) in
      ap
        (λ (o : Result StoreError (Unit {0}) × OAuthStateStore Entry).
          (take_state_sync hash o.1 k later).0)
        same
      ∙ take-insert_record hash s k r prune_now later w p
          (sym (ap (λ (o : Result StoreError (Unit {0}) × OAuthStateStore Entry). o.0) same)) live
      ∙ ap some held
