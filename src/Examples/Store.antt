-- ===== src/Examples/Store.antt =====
-- The properties of the store at concrete inputs.
use skyauth.Base.{
  ℕ, ◌+◌, ◌*◌, ◌≤◌, ◌≡◌, refl, some, List, [], ◌∷◌, ok, arith, list_eq, if◌then◌else◌, is_ok, ◌&&◌,
}
use skyauth.Base.Text.{Str, codes}
use skyauth.Maps.Laws.{keep}
use skyauth.Store.{
  StoredStateRecord, OAuthStateStore, is_expired, is_live, record_new, one_year, new,
  insert_state_sync, take_state_sync, contains_state_sync, prune_expired_sync, total_entries,
  insert_record,
}
use skyauth.Store
use skyauth.Store.Refines.{IsWellFormed, new-IsWellFormed, view, visible, insert_record-visible}
use skyauth.Store.RoundTrip.{take-insert}
use skyauth.Store.SingleUse.{
  Op, insert_op, take_op, step, times_taken, times_inserted, present, step-IsWellFormed,
  times_taken-le,
}
use skyauth.Examples.Instances.{hash}

-- The payload of a state is a number here.
abbrev empty : OAuthStateStore ℕ
empty = new 300

empty-IsWellFormed : IsWellFormed empty
empty-IsWellFormed = new-IsWellFormed ℕ 300

abbrev state : Str
state = codes "st"

abbrev stored : StoredStateRecord ℕ
stored = record { entry = 7; created_at = 10; expires_at = 40 }

abbrev latest : ℕ
latest = one_year * 100

abbrev filled : OAuthStateStore ℕ
filled = (insert_record hash empty state stored 10).1

insert_ok : insert_state_sync hash latest empty state 7 30 10 10 ≡ some (ok tt, filled)
unfolding insert_state_sync record_new insert_record Store.admit new
insert_ok = refl

take-insert_example : (take_state_sync hash filled state 20).0 ≡ some 7
take-insert_example =
    take-insert hash latest empty state 7 30 10 10 20 {t = filled} empty-IsWellFormed insert_ok
      (omega arith) (omega arith) (omega arith) (omega arith)

insert_record-visible_example :
    visible hash (insert_record hash empty state stored 10).1 state 20 ≡ (
      if is_ok (insert_record hash empty state stored 10).0 && list_eq state state
      then keep (is_live 20) (some stored)
      else visible hash empty state 20)
insert_record-visible_example =
    insert_record-visible hash empty state stored 10 empty-IsWellFormed state 20 (omega arith)

step-IsWellFormed_example : IsWellFormed (step hash latest empty (insert_op state 7 30 10 10))
step-IsWellFormed_example =
    step-IsWellFormed hash latest empty (insert_op state 7 30 10 10) empty-IsWellFormed

abbrev ops : List (Op ℕ)
ops = insert_op state 7 30 10 10 ∷ take_op state 20 ∷ take_op state 20 ∷ []

times_taken-le_example :
    times_taken hash latest state empty ops
    ≤ times_inserted state ops + present (view hash empty state)
times_taken-le_example = times_taken-le hash latest state ops empty empty-IsWellFormed
