-- ===== src/ServiceAuth/KeyCache/Laws.antt =====
-- The key cache: its size, and what a look-up gives after each operation.
use mathlib.Core.Option
use skyauth.Base.{
  ℕ, suc, ◌∙◌, ◌-◌, ◌<◌, ◌≡◌, refl, true, not, ◌&&◌, Option, none, some, [], ◌∷◌, length,
  length-set, length-replicate, All, ltb, leb, if◌then◌else◌, if_both, get_or-set_self, arith,
  Bool-cases, inl, inr, list_eq, list_eq_refl, ap,
}
use skyauth.Base.Text.{Str}
use skyauth.Maps.{HashMap, get, contains_key, insert, remove, retain, IsMap}
use skyauth.Maps.Laws.{get-insert_self, get-remove}
use skyauth.Maps.Sizes.{
  insert-IsMap, remove-IsMap, retain-IsMap, length-insert, length-insert-le, length-remove-le,
  length-retain-le, length-remove,
}
use skyauth.Maps.Shards.{
  shard, Fits, All-shard, All-set, replicate-Fits, clear_all-Fits, length-clear_all,
}
use skyauth.ServiceAuth.{Curves, AtprotoVerifyingKey}
use skyauth.ServiceAuth.KeyCache.{
  CachedSigningKey, DidKeyCache, new, is_fresh, older, oldest, remove_oldest, make_room, entry_of,
  fresh_entry, shard_idx, get_atproto_key, insert_atproto_key, invalidate, clear,
}

abbrev Shard : Curves → Type 0
Shard c = HashMap (CachedSigningKey c)

module _ {c : Curves} where
  -- 64 shards with distinct keys, at most 512 in each.
  pub record IsWellFormed (s : DidKeyCache c) : Type 0 where
    pub count : length s.shards ≡ 64
    pub fits : All (Fits 512) s.shards

  oldest-contains_key :
      (best : Str × CachedSigningKey c) (m whole : Shard c)
      → contains_key best.0 whole ≡ true
      → All (λ (e : Str × CachedSigningKey c). contains_key e.0 whole ≡ true) m
      → contains_key (oldest best m).0 whole ≡ true
  unfolding oldest older
  oldest-contains_key best [] whole h k = h
  oldest-contains_key best (e ∷ m) whole h k =
      oldest-contains_key (older best e) m whole
        (if_both (λ (x : Str × CachedSigningKey c). contains_key x.0 whole ≡ true)
          (ltb e.1.resolved_at_secs best.1.resolved_at_secs) k.0 h)
        k.1

  contains_key-weaken :
      (k : Str) (x : Str × CachedSigningKey c) (m : Shard c)
      → contains_key k m ≡ true
      → contains_key k (x ∷ m) ≡ true
  unfolding contains_key
  contains_key-weaken k x m h = ground arith

  All-contains_key :
      (m whole : Shard c)
      → ((k : Str) → contains_key k m ≡ true → contains_key k whole ≡ true)
      → All (λ (e : Str × CachedSigningKey c). contains_key e.0 whole ≡ true) m
  unfolding contains_key
  All-contains_key [] whole h = tt
  All-contains_key (e ∷ m) whole h = (
    h e.0 (ground (arith, list_eq_refl e.0)),
    All-contains_key m whole (λ k p. h k (contains_key-weaken k e m p)),
  )

  length-remove_oldest :
      (m : Shard c) → IsMap m → 0 < length m → suc (length (remove_oldest m)) ≡ length m
  unfolding remove_oldest contains_key
  length-remove_oldest [] h p = absurd (omega arith)
  length-remove_oldest (e ∷ m) h p = length-remove (oldest e m).0 (e ∷ m) h (
      oldest-contains_key e m (e ∷ m) (ground (arith, list_eq_refl e.0))
        (All-contains_key m (e ∷ m) (λ k q. contains_key-weaken k e m q)))

  remove_oldest-IsMap : (m : Shard c) → IsMap m → IsMap (remove_oldest m)
  unfolding remove_oldest
  remove_oldest-IsMap [] h = tt
  remove_oldest-IsMap (e ∷ m) h = remove-IsMap (oldest e m).0 (e ∷ m) h

  make_room-Fits :
      (ttl now : ℕ) (did : Str) (entry : CachedSigningKey c) (m : Shard c)
      → Fits 512 m
      → Fits 512 (insert did entry (make_room ttl now did m))
  unfolding make_room
  make_room-Fits ttl now did entry m f =
      let kept = retain (is_fresh ttl now) m in
      let small = length-retain-le (is_fresh ttl now) m in
      let map_kept = retain-IsMap (is_fresh ttl now) m f.distinct in
      elim (Bool-cases (leb 512 (length m) && not (contains_key did m))) [
        | (inr p) ↦ rw p (record {
          distinct = insert-IsMap did entry m f.distinct;
          bounded = ground (arith, length-insert did entry m, f.bounded);
        })
        | (inl p) ↦ elim (Bool-cases (leb 512 (length kept))) [
          | (inl q) ↦
              rw (p, q)
                (record {
                  distinct =
                      insert-IsMap did entry (remove_oldest kept)
                        (remove_oldest-IsMap kept map_kept);
                  bounded = omega (
                    arith,
                    length-insert-le did entry (remove_oldest kept),
                    length-remove_oldest kept map_kept (ground arith),
                    small,
                    f.bounded,
                  );
                })
          | (inr q) ↦
              rw (p, q)
                (record {
                  distinct = insert-IsMap did entry kept map_kept;
                  bounded = ground (arith, length-insert-le did entry kept);
                })
        ]
      ]

  pub new-IsWellFormed : (ttl : ℕ) → IsWellFormed (new {c = c} ttl)
  unfolding new
  new-IsWellFormed ttl = record {
    count = length-replicate {A = HashMap (CachedSigningKey c)} 64 [];
    fits = replicate-Fits (CachedSigningKey c) 512 64;
  }

  -- What a look-up makes of an entry.
  abbrev found_at : (ttl now : ℕ) → Option (CachedSigningKey c) → Option (AtprotoVerifyingKey c)
  found_at ttl now o =
      Option.map (λ (entry : CachedSigningKey c). entry.atproto_key) (fresh_entry ttl now o)

  found_at-entry_of :
      (ttl : ℕ) (key : AtprotoVerifyingKey c) (now later : ℕ)
      → found_at ttl later (some (entry_of key now))
        ≡ (if ltb (later - now) ttl then some key else none)
  unfolding fresh_entry entry_of
  found_at-entry_of ttl key now later = ground arith

  absent :
      (did : Str) (o : Option (CachedSigningKey c)) → (if list_eq did did then none else o) ≡ none
  absent did o = rw (list_eq_refl did) refl

  module _ (hash : Str → ℕ) where
    -- An insertion, an invalidation and a clearing keep 64 shards with distinct DIDs and at most
    -- 512 entries each.
    insert_atproto_key-IsWellFormed :
        (s : DidKeyCache c) (did : Str) (key : AtprotoVerifyingKey c) (now : ℕ)
        → IsWellFormed s
        → IsWellFormed (insert_atproto_key hash s did key now)
          × IsWellFormed (invalidate hash s did)
          × IsWellFormed (clear s)
    unfolding insert_atproto_key invalidate clear
    insert_atproto_key-IsWellFormed s did key now w =
        let i = shard_idx hash did in
        let f = All-shard 512 s.shards i w.fits in
        (
          record {
            count = length-set s.shards i _ ∙ w.count;
            fits =
                All-set 512 s.shards i _ w.fits
                  (make_room-Fits s.ttl_secs now did (entry_of key now) (shard s.shards i) f);
          },
          record {
            count = length-set s.shards i _ ∙ w.count;
            fits = All-set 512 s.shards i _ w.fits (record {
              distinct = remove-IsMap did (shard s.shards i) f.distinct;
              bounded = omega (arith, length-remove-le did (shard s.shards i), f.bounded);
            });
          },
          record {
            count = length-clear_all s.shards ∙ w.count;
            fits = clear_all-Fits 512 s.shards;
          },
        )

    below : (s : DidKeyCache c) (did : Str) → IsWellFormed s → shard_idx hash did < length s.shards
    unfolding shard_idx
    below s did w = ground (arith, w.count)

    -- In a well-formed cache, a key that was inserted at `now` is found by every look-up before
    -- its lifetime has passed, and by none after that.
    get_atproto_key-insert_atproto_key :
        (s : DidKeyCache c) (did : Str) (key : AtprotoVerifyingKey c) (now later : ℕ)
        → IsWellFormed s
        → get_atproto_key hash (insert_atproto_key hash s did key now) did later
          ≡ (if ltb (later - now) s.ttl_secs then some key else none)
    unfolding get_atproto_key insert_atproto_key
    get_atproto_key-insert_atproto_key s did key now later w =
        let i = shard_idx hash did in
        let m = make_room s.ttl_secs now did (shard s.shards i) in
        let written =
          get_or-set_self s.shards i (insert did (entry_of key now) m) [] (below s did w) in
        let found = get-insert_self did (entry_of key now) m in
        ap (found_at s.ttl_secs later) (ap (get did) written ∙ found)
        ∙ found_at-entry_of s.ttl_secs key now later

    -- Nothing is found for a DID that was invalidated.
    pub get_atproto_key-invalidate :
        (s : DidKeyCache c) (did : Str) (now : ℕ)
        → IsWellFormed s
        → get_atproto_key hash (invalidate hash s did) did now ≡ none
    unfolding get_atproto_key invalidate fresh_entry
    get_atproto_key-invalidate s did now w =
        let i = shard_idx hash did in
        let written =
          get_or-set_self s.shards i (remove did (shard s.shards i)) [] (below s did w) in
        let gone = get-remove did did (shard s.shards i) in
        ap (found_at s.ttl_secs now)
          (ap (get did) written ∙ (gone ∙ absent did (get did (shard s.shards i))))
