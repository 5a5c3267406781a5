-- ===== src/Maps.antt =====
-- `HashMap<String, V>` and arrays of such maps. A map is the list of its entries; the order of the
-- entries stands for the unspecified iteration order, and no result below depends on it.
pub mod Laws
pub mod Sizes
pub mod Shards
pub mod Look
use skyauth.Base.{
  ℕ, ◌≡◌, Bool, true, false, not, ◌&&◌, Option, none, some, List, [], ◌∷◌, length, list_eq,
  if◌then◌else◌,
}
use skyauth.Base.Text.{Str}

abbrev pub HashMap {ℓ} : Type ℓ → Type ℓ
HashMap V = List (Str × V)

module _ {ℓ} {V : Type ℓ} where
  unfoldable pub get : Str → HashMap V → Option V
  get k [] = none
  get k (e ∷ m) = if list_eq e.0 k then some e.1 else get k m

  unfoldable pub contains_key : Str → HashMap V → Bool
  contains_key k [] = false
  contains_key k (e ∷ m) = if list_eq e.0 k then true else contains_key k m

  unfoldable pub insert : Str → V → HashMap V → HashMap V
  insert k v [] = (k, v) ∷ []
  insert k v (e ∷ m) = if list_eq e.0 k then (k, v) ∷ m else e ∷ insert k v m

  unfoldable pub remove : Str → HashMap V → HashMap V
  remove k [] = []
  remove k (e ∷ m) = let rest = remove k m in if list_eq e.0 k then rest else e ∷ rest

  unfoldable pub retain : (V → Bool) → HashMap V → HashMap V
  retain p [] = []
  retain p (e ∷ m) = let rest = retain p m in if p e.1 then e ∷ rest else rest

  -- No key occurs twice.
  abbrev pub IsMap : HashMap V → Type 0
  IsMap [] = Unit {0}
  IsMap (e ∷ m) = (contains_key e.0 m ≡ false) × IsMap m
