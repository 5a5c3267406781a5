-- ===== src/Examples/Dpop.antt =====
-- The properties of the replay cache and of the nonce source at concrete inputs.
use skyauth.Base.{ℕ, ◌≡◌, ◌⊎◌, refl, true, false, List, [], ◌∷◌, ok, err, arith}
use skyauth.Base.Text.{Str, codes, contains_char}
use skyauth.Maps.{get}
use skyauth.Crypto.{base64url_encode}
use skyauth.Dpop.Errors.{replay_detected, replay_cache_saturated}
use skyauth.Dpop.ReplayCache.{
  DpopReplayCache, new, check_and_record, composite_key, is_live, admit, record_proof, hinted_prune,
  shard_index,
}
use skyauth.Dpop.ReplayCache.Laws.{new-IsWellFormed}
use skyauth.Dpop.ReplayCache.Replays.{prune_op, run, check_and_record-once}
use skyauth.Dpop.ReplayCache.Fresh.{check_and_record-fresh}
use skyauth.Dpop.NonceSource.{
  InMemoryServerNonceSource, with_single_use, generate_nonce, verify_nonce, open_window,
  store_nonce,
}
use skyauth.Dpop.NonceSource
use skyauth.Dpop.NonceSource.Laws.{generate_nonce-IsWellFormed, verify_nonce-generate_nonce}
use skyauth.Dpop.NonceSource.Laws
use skyauth.Examples.Instances.{crypto, hash}

abbrev jkt : Str
jkt = codes "key"

abbrev jti : Str
jti = codes "id"

abbrev recorded : DpopReplayCache
recorded = (check_and_record hash new jkt jti 100 50).1

recorded_ok : check_and_record hash new jkt jti 100 50 ≡ (ok tt, recorded)
unfolding check_and_record is_live get new shard_index composite_key admit record_proof hinted_prune
recorded_ok = refl

check_and_record-once_example :
    check_and_record hash (run hash recorded (prune_op 60 ∷ [])) jkt jti 130 70
    ≡ (err (replay_detected jti), run hash recorded (prune_op 60 ∷ []))
check_and_record-once_example =
    check_and_record-once hash new recorded jkt jti 100 50 130 70 (prune_op 60 ∷ [])
      new-IsWellFormed recorded_ok (omega arith, tt) (omega arith) (omega arith)

key_plain : contains_char b':' jkt ≡ false
unfolding contains_char
key_plain = refl

check_and_record-fresh_example :
    ((check_and_record hash (run hash new (prune_op 60 ∷ [])) jkt jti 130 70).0 ≡ ok tt)
    ⊎ ((check_and_record hash (run hash new (prune_op 60 ∷ [])) jkt jti 130 70).0
        ≡ err replay_cache_saturated)
check_and_record-fresh_example =
    check_and_record-fresh hash (prune_op 60 ∷ []) jkt jti 130 70 key_plain (omega arith, tt)
      (tt, tt)

-- 24 random bytes.
abbrev raw : List ℕ
raw = codes "abcdefghijklmnopqrstuvwx"

abbrev source : InMemoryServerNonceSource
source = with_single_use (NonceSource.new 300)

source-IsWellFormed : Laws.IsWellFormed source
unfolding with_single_use
source-IsWellFormed = Laws.new-IsWellFormed 300

abbrev nonce : Str
nonce = crypto.encode raw

abbrev issued : InMemoryServerNonceSource
issued = (generate_nonce crypto source 50 raw).1

issued_ok : generate_nonce crypto source 50 raw ≡ (ok nonce, issued)
unfolding generate_nonce open_window with_single_use NonceSource.new store_nonce base64url_encode
issued_ok = refl

verify_nonce-generate_nonce_example : (verify_nonce issued nonce 349).0 ≡ true
unfolding with_single_use NonceSource.new
verify_nonce-generate_nonce_example =
    verify_nonce-generate_nonce crypto source issued 50 349 raw nonce issued_ok (omega arith)
      (omega arith)

issued_single : issued.single_use ≡ true
unfolding generate_nonce open_window with_single_use NonceSource.new store_nonce
issued_single = refl

accepted_first : (verify_nonce issued nonce 60).0 ≡ true
unfolding with_single_use NonceSource.new
accepted_first =
    verify_nonce-generate_nonce crypto source issued 50 60 raw nonce issued_ok (omega arith)
      (omega arith)
