-- ===== src/Maps/Shards.antt =====
-- An array of maps behind locks, `[RwLock<HashMap<String, V>>; N]`, and the loops over all of it.
-- An index is always reduced modulo the number of shards; `shard` reads the empty map elsewhere.
use skyauth.Base.{
  ℕ, zero, suc, ◌+◌, ◌≤◌, ◌<◌, ◌*◌, ◌≡◌, refl, Bool, ◌==◌, if◌then◌else◌, List, [], ◌∷◌, length,
  get_or, set, replicate, All, arith,
}
use skyauth.Maps.{HashMap, retain, IsMap}
use skyauth.Maps.Sizes.{length-retain-le, retain-IsMap}

module _ {ℓ} {V : Type ℓ} where
  abbrev pub shard : List (HashMap V) → ℕ → HashMap V
  shard shards i = get_or shards i []

  -- `for shard in &self.shards { sum += shard.read().len() }`.
  unfoldable pub total : List (HashMap V) → ℕ
  total [] = 0
  total (m ∷ rest) = length m + total rest

  -- `retain` on every shard.
  unfoldable pub retain_all : (V → Bool) → List (HashMap V) → List (HashMap V)
  retain_all p [] = []
  retain_all p (m ∷ rest) = retain p m ∷ retain_all p rest

  -- `clear` on every shard.
  unfoldable pub clear_all : List (HashMap V) → List (HashMap V)
  clear_all [] = []
  clear_all (m ∷ rest) = [] ∷ clear_all rest

  pub shard-retain_all :
      (p : V → Bool) (shards : List (HashMap V)) (i : ℕ)
      → shard (retain_all p shards) i ≡ retain p (shard shards i)
  unfolding retain_all retain
  shard-retain_all p [] i = refl
  shard-retain_all p (m ∷ rest) zero = refl
  shard-retain_all p (m ∷ rest) (suc i) = shard-retain_all p rest i

  pub shard-clear_all : (shards : List (HashMap V)) (i : ℕ) → shard (clear_all shards) i ≡ []
  unfolding clear_all
  shard-clear_all [] i = refl
  shard-clear_all (m ∷ rest) zero = refl
  shard-clear_all (m ∷ rest) (suc i) = shard-clear_all rest i

  pub length-retain_all :
      (p : V → Bool) (shards : List (HashMap V)) → length (retain_all p shards) ≡ length shards
  unfolding retain_all
  length-retain_all p [] = refl
  length-retain_all p (m ∷ rest) = omega (arith, length-retain_all p rest)

  pub length-clear_all : (shards : List (HashMap V)) → length (clear_all shards) ≡ length shards
  unfolding clear_all
  length-clear_all [] = refl
  length-clear_all (m ∷ rest) = omega (arith, length-clear_all rest)

  pub total-clear_all : (shards : List (HashMap V)) → total (clear_all shards) ≡ 0
  unfolding clear_all total
  total-clear_all [] = refl
  total-clear_all (m ∷ rest) = omega (arith, total-clear_all rest)

  pub total-retain_all-le :
      (p : V → Bool) (shards : List (HashMap V)) → total (retain_all p shards) ≤ total shards
  unfolding retain_all total
  total-retain_all-le p [] = omega arith
  total-retain_all-le p (m ∷ rest) = omega (arith, total-retain_all-le p rest, length-retain-le p m)

  -- The map at `i` has been written, and the others are as they were.
  pub shard-set :
      (shards : List (HashMap V)) (i j : ℕ) (m : HashMap V)
      → i < length shards
      → shard (set shards i m) j ≡ (if i == j then m else shard shards j)
  shard-set [] i j m h = elim h [ ]
  shard-set (n ∷ rest) zero zero m h = refl
  shard-set (n ∷ rest) zero (suc j) m h = ground arith
  shard-set (n ∷ rest) (suc i) zero m h = ground arith
  shard-set (n ∷ rest) (suc i) (suc j) m h = ground (arith, shard-set rest i j m)

  -- Every shard has distinct keys and at most `most` entries.
  pub record Fits (most : ℕ) (m : HashMap V) : Type ℓ where
    pub distinct : IsMap m
    pub bounded : length m ≤ most

  pub All-shard :
      (most : ℕ) (shards : List (HashMap V)) (i : ℕ)
      → All (Fits most) shards
      → Fits most (shard shards i)
  All-shard most [] i h = record { distinct = tt; bounded = omega arith }
  All-shard most (m ∷ rest) zero h = h.0
  All-shard most (m ∷ rest) (suc i) h = All-shard most rest i h.1

  pub All-set :
      (most : ℕ) (shards : List (HashMap V)) (i : ℕ) (m : HashMap V)
      → All (Fits most) shards
      → Fits most m
      → All (Fits most) (set shards i m)
  All-set most [] i m h f = tt
  All-set most (n ∷ rest) zero m h f = (f, h.1)
  All-set most (n ∷ rest) (suc i) m h f = (h.0, All-set most rest i m h.1 f)

  pub retain-Fits : (most : ℕ) (p : V → Bool) (m : HashMap V) → Fits most m → Fits most (retain p m)
  retain-Fits most p m f = record {
    distinct = retain-IsMap p m f.distinct;
    bounded = omega (arith, length-retain-le p m, f.bounded);
  }

  pub retain_all-Fits :
      (most : ℕ) (p : V → Bool) (shards : List (HashMap V))
      → All (Fits most) shards
      → All (Fits most) (retain_all p shards)
  unfolding retain_all
  retain_all-Fits most p [] h = tt
  retain_all-Fits most p (m ∷ rest) h = (retain-Fits most p m h.0, retain_all-Fits most p rest h.1)

  pub clear_all-Fits : (most : ℕ) (shards : List (HashMap V)) → All (Fits most) (clear_all shards)
  unfolding clear_all
  clear_all-Fits most [] = tt
  clear_all-Fits most (m ∷ rest) =
      (record { distinct = tt; bounded = omega arith }, clear_all-Fits most rest)

  pub total-le :
      (most : ℕ) (shards : List (HashMap V))
      → All (Fits most) shards
      → total shards ≤ length shards * most
  unfolding total
  total-le most [] h = omega arith
  total-le most (m ∷ rest) h = grind (arith, total-le most rest h.1, h.0.bounded)

pub replicate-Fits {ℓ} : (V : Type ℓ) (most n : ℕ) → All (Fits {V = V} most) (replicate n [])
replicate-Fits V most zero = tt
replicate-Fits V most (suc n) =
    (record { distinct = tt; bounded = omega arith }, replicate-Fits V most n)
