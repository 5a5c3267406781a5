-- ===== src/Maps/Look.antt =====
-- A sharded map read as one map: a key is looked up in the shard of its index.
use skyauth.Base.{
  ℕ, ◌<◌, ◌≡◌, true, Option, List, length, set, replicate, get_or-replicate, [], none, ◌==◌,
  if◌then◌else◌, list_eq, list_eq_sound, arith, ap,
}
use skyauth.Base.Text.{Str}
use skyauth.Maps.{HashMap, get}
use skyauth.Maps.Shards.{shard, shard-set}

pub index_same : (index : Str → ℕ) (k j : Str) → list_eq k j ≡ true → index k ≡ index j
index_same index k j e = ap index (list_eq_sound k j e)

module _ {ℓ} {V : Type ℓ} (index : Str → ℕ) where
  unfoldable pub look : List (HashMap V) → Str → Option V
  look shards k = get k (shard shards (index k))

  pub look_same :
      (shards : List (HashMap V)) (k j : Str)
      → index k ≡ index j
      → get j (shard shards (index k)) ≡ look shards j
  unfolding look
  look_same shards k j e = ap (λ i. get j (shard shards i)) e

  -- A write to the shard of `k` is seen at the keys of that shard.
  pub look-set :
      (shards : List (HashMap V)) (k j : Str) (m : HashMap V)
      → index k < length shards
      → look (set shards (index k) m) j ≡ (if index k == index j then get j m else look shards j)
  unfolding look
  look-set shards k j m h = rw (shard-set shards (index k) (index j) m h) (ground arith)

  pub look-replicate : (n : ℕ) (k : Str) → look (replicate n []) k ≡ none
  unfolding look get
  look-replicate n k = rw (get_or-replicate {A = HashMap V} n (index k) [])
