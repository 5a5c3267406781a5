-- ===== src/Maps/Sizes.antt =====
-- Distinct keys and the number of entries, after each operation of a map.
use skyauth.Base.{
  suc, ◌≤◌, ◌≡◌, refl, Bool, true, false, [], ◌∷◌, list_eq, list_eq_sound, if◌then◌else◌, arith,
  length,
}
use skyauth.Base.Text.{Str}
use skyauth.Maps.{HashMap, contains_key, insert, remove, retain, IsMap}
use skyauth.Maps.Laws.{list_eq_subst, list_eq_swap}

module _ {ℓ} {V : Type ℓ} where
  contains_key-insert_ne :
      (k j : Str) (v : V) (m : HashMap V)
      → list_eq j k ≡ false
      → contains_key j (insert k v m) ≡ contains_key j m
  unfolding contains_key insert
  contains_key-insert_ne k j v [] h = ground (arith, list_eq_swap k j)
  contains_key-insert_ne k j v (e ∷ m) h =
      ground (arith, list_eq_swap k j, list_eq_subst e.0 k j, contains_key-insert_ne k j v m h)

  pub insert-IsMap : (k : Str) (v : V) (m : HashMap V) → IsMap m → IsMap (insert k v m)
  unfolding insert contains_key
  insert-IsMap k v [] h = (refl, tt)
  insert-IsMap k v (e ∷ m) h =
      ground (arith, insert-IsMap k v m h.1, contains_key-insert_ne k e.0 v m, list_eq_sound e.0 k)

  contains_key-remove :
      (k j : Str) (m : HashMap V) → contains_key j m ≡ false → contains_key j (remove k m) ≡ false
  unfolding contains_key remove
  contains_key-remove k j [] h = refl
  contains_key-remove k j (e ∷ m) h = ground (arith, contains_key-remove k j m)

  pub remove-IsMap : (k : Str) (m : HashMap V) → IsMap m → IsMap (remove k m)
  unfolding remove
  remove-IsMap k [] h = tt
  remove-IsMap k (e ∷ m) h = ground (arith, remove-IsMap k m h.1, contains_key-remove k e.0 m)

  contains_key-retain :
      (p : V → Bool) (j : Str) (m : HashMap V)
      → contains_key j m ≡ false
      → contains_key j (retain p m) ≡ false
  unfolding contains_key retain
  contains_key-retain p j [] h = refl
  contains_key-retain p j (e ∷ m) h = ground (arith, contains_key-retain p j m)

  pub retain-IsMap : (p : V → Bool) (m : HashMap V) → IsMap m → IsMap (retain p m)
  unfolding retain
  retain-IsMap p [] h = tt
  retain-IsMap p (e ∷ m) h = ground (arith, retain-IsMap p m h.1, contains_key-retain p e.0 m)

  pub length-insert :
      (k : Str) (v : V) (m : HashMap V)
      → length (insert k v m) ≡ (if contains_key k m then length m else suc (length m))
  unfolding insert contains_key
  length-insert k v [] = refl
  length-insert k v (e ∷ m) = ground (arith, length-insert k v m)

  pub length-insert-le : (k : Str) (v : V) (m : HashMap V) → length (insert k v m) ≤ suc (length m)
  length-insert-le k v m = ground (arith, length-insert k v m)

  pub length-retain-le : (p : V → Bool) (m : HashMap V) → length (retain p m) ≤ length m
  unfolding retain
  length-retain-le p [] = omega arith
  length-retain-le p (e ∷ m) = ground (arith, length-retain-le p m)

  pub length-remove-le : (k : Str) (m : HashMap V) → length (remove k m) ≤ length m
  unfolding remove
  length-remove-le k [] = omega arith
  length-remove-le k (e ∷ m) = ground (arith, length-remove-le k m)

  remove_absent : (k : Str) (m : HashMap V) → contains_key k m ≡ false → remove k m ≡ m
  unfolding remove contains_key
  remove_absent k [] h = refl
  remove_absent k (e ∷ m) h = ground (arith, remove_absent k m)

  -- Exactly one entry goes with a key that is present.
  pub length-remove :
      (k : Str) (m : HashMap V)
      → IsMap m
      → contains_key k m ≡ true
      → suc (length (remove k m)) ≡ length m
  unfolding remove contains_key
  length-remove k [] h c = cc
  length-remove k (e ∷ m) h c =
      ground (arith, length-remove k m h.1, remove_absent k m, list_eq_sound e.0 k)
