-- ===== src/Maps/Laws.antt =====
-- Look-ups after each operation of a map.
use skyauth.Base.{
  ◌≡◌, refl, Bool, true, false, Option, none, some, [], ◌∷◌, list_eq, list_eq_sound, list_eq_refl,
  if◌then◌else◌, arith,
}
use skyauth.Base.Text.{Str}
use skyauth.Maps.{HashMap, get, contains_key, insert, remove, retain, IsMap}

-- The test of keys is an equivalence; `ground` is given these at the keys in play.
pub list_eq_swap : (a b : Str) → list_eq a b ≡ true → list_eq b a ≡ true
list_eq_swap a b h = rw (list_eq_sound a b h) (list_eq_refl b)

pub list_eq_subst : (a b c : Str) → list_eq a b ≡ true → list_eq a c ≡ list_eq b c
list_eq_subst a b c h = rw (list_eq_sound a b h)

pub list_eq_subst_right : (a b c : Str) → list_eq a b ≡ true → list_eq c a ≡ list_eq c b
list_eq_subst_right a b c h = rw (list_eq_sound a b h)

-- What `retain` leaves of a look-up.
abbrev pub keep {ℓ} : {V : Type ℓ} → (V → Bool) → Option V → Option V
keep p none = none
keep p (some v) = if p v then some v else none

module _ {ℓ} {V : Type ℓ} where
  pub get-insert :
      (k j : Str) (v : V) (m : HashMap V)
      → get j (insert k v m) ≡ (if list_eq k j then some v else get j m)
  unfolding get insert
  get-insert k j v [] = refl
  get-insert k j v (e ∷ m) =
      ground (arith, list_eq_subst e.0 k j, list_eq_subst_right k j e.0, get-insert k j v m)

  pub get-insert_self : (k : Str) (v : V) (m : HashMap V) → get k (insert k v m) ≡ some v
  get-insert_self k v m = rw (get-insert k k v m, list_eq_refl k)

  pub get-remove :
      (k j : Str) (m : HashMap V) → get j (remove k m) ≡ (if list_eq k j then none else get j m)
  unfolding get remove
  get-remove k j [] = ground arith
  get-remove k j (e ∷ m) = ground (
    arith,
    list_eq_subst e.0 k j,
    list_eq_subst e.0 j k,
    list_eq_swap j k,
    list_eq_swap k j,
    get-remove k j m,
  )

  pub contains_key-get : (k : Str) (m : HashMap V) → get k m ≡ none → contains_key k m ≡ false
  unfolding get contains_key
  contains_key-get k [] h = refl
  contains_key-get k (e ∷ m) h = ground (arith, contains_key-get k m)

  pub get-contains_key : (k : Str) (m : HashMap V) → contains_key k m ≡ false → get k m ≡ none
  unfolding get contains_key
  get-contains_key k [] h = refl
  get-contains_key k (e ∷ m) h = ground (arith, get-contains_key k m)

  pub get-retain :
      (p : V → Bool) (k : Str) (m : HashMap V) → IsMap m → get k (retain p m) ≡ keep p (get k m)
  unfolding get retain
  get-retain p k [] h = refl
  get-retain p k (e ∷ m) h =
      ground (arith, get-retain p k m h.1, get-contains_key k m, list_eq_sound e.0 k)
