-- ===== src/Store/Expiry.antt =====
-- When a record of the store counts as expired.
use skyauth.Base.{ℕ, ◌+◌, ◌≤◌, ◌≡◌, ◌↔◌, ◌⊎◌, true, some, leb, arith, if◌then◌else◌}
use skyauth.Store.{StoredStateRecord, is_expired, record_new, expiry_of, checked_add, one_year}

-- A record that does not expire before its creation is expired exactly from its expiry on, or at
-- any time if its lifetime is zero: with a positive lifetime, the second comparison of the code
-- changes nothing.
pub is_expired_iff :
    {Entry : Type 0} (r : StoredStateRecord Entry) (now : ℕ)
    → r.created_at ≤ r.expires_at
    → (is_expired r now ≡ true) ↔ ((r.expires_at ≤ now) ⊎ (r.expires_at ≡ r.created_at))
unfolding is_expired
is_expired_iff r now h = ground arith

-- A record is made exactly if the platform can represent the instant a year from now; it has the
-- entry, is created now, and expires when its lifetime ends or, if that cannot be represented,
-- after a year.
pub record_new_iff :
    {Entry : Type 0} (latest now ttl : ℕ) (entry : Entry) (r : StoredStateRecord Entry)
    → (record_new latest now entry ttl ≡ some r) ↔ (
        (now + one_year ≤ latest)
        × (r.entry ≡ entry)
        × (r.created_at ≡ now)
        × (r.expires_at ≡ (if leb (now + ttl) latest then now + ttl else now + one_year)))
unfolding record_new expiry_of checked_add
record_new_iff latest now ttl entry r = ground arith
