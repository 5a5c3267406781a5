-- ===== src/ServiceAuth/Base58/Numerals.antt =====
-- Little-endian numerals: the loop of both conversions multiplies and adds, keeps digits below the
-- base, and keeps the top digit nonzero; numerals with these properties are determined by value.
use skyauth.Base.{
  ℕ, zero, suc, ◌+◌, ◌*◌, ◌/◌, ◌%◌, ◌<◌, ◌≤◌, ◌≡◌, refl, ap, List, [], ◌∷◌, All, ◌==◌, arith,
  Bool-cases, ◌⊎◌, if_both, subst, inl, inr,
}
use mathlib.Core.List.{reverse_aux}
use native.Mathlib.Nat.{mod-add-div, mod-lt, div-lt_self, div-eq_of_lt, mul-pos}
use skyauth.ServiceAuth.Base58.{push_carry, spread}

unfoldable pub value : (base : ℕ) → List ℕ → ℕ
value base [] = 0
value base (d ∷ ds) = d + base * value base ds

abbrev pub Below : (base : ℕ) → List ℕ → Type 0
Below base ds = All (λ d. d < base) ds

-- The top digit is not zero.
abbrev pub IsCanonical : List ℕ → Type 0
IsCanonical [] = Unit
IsCanonical (d ∷ []) = 0 < d
IsCanonical (d ∷ e ∷ ds) = IsCanonical (e ∷ ds)

pub value_pos :
    (base d : ℕ) (ds : List ℕ) → 0 < base → IsCanonical (d ∷ ds) → 0 < value base (d ∷ ds)
unfolding value
value_pos base d [] b h = grind arith
value_pos base d (e ∷ ds) b h = let tail = value_pos base e ds b h in grind arith

IsCanonical-tail : (d : ℕ) (ds : List ℕ) → IsCanonical (d ∷ ds) → IsCanonical ds
IsCanonical-tail d [] h = tt
IsCanonical-tail d (e ∷ ds) h = h

mul_step : (base v w : ℕ) → v < w → base * v + base ≤ base * w
mul_step base v w h = grind arith

compare_cases : (v w : ℕ) → (v < w) ⊎ ((w < v) ⊎ (v ≡ w))
compare_cases v w = ground arith

cancel : (base v w : ℕ) → 0 < base → base * v ≡ base * w → v ≡ w
cancel base v w b h = elim (compare_cases v w) [
  | (inl p) ↦ let step = mul_step base v w p in absurd (omega arith)
  | (inr (inl p)) ↦ let step = mul_step base w v p in absurd (omega arith)
  | (inr (inr p)) ↦ p
]

same_digit : (base d e v w : ℕ) → d < base → e < base → d + base * v ≡ e + base * w → d ≡ e
same_digit base d e v w hd he h = elim (compare_cases v w) [
  | (inl p) ↦ let step = mul_step base v w p in absurd (omega arith)
  | (inr (inl p)) ↦ let step = mul_step base w v p in absurd (omega arith)
  | (inr (inr p)) ↦ let step : base * v ≡ base * w = ap (λ x. base * x) p in omega arith
]

pub value_injective :
    (base : ℕ) (xs ys : List ℕ)
    → 0 < base
    → Below base xs
    → Below base ys
    → IsCanonical xs
    → IsCanonical ys
    → value base xs ≡ value base ys
    → xs ≡ ys
unfolding value
value_injective base [] [] b hx hy cx cy e = refl
value_injective base [] (y ∷ ys) b hx hy cx cy e =
    let pos = value_pos base y ys b cy in absurd (omega arith)
value_injective base (x ∷ xs) [] b hx hy cx cy e =
    let pos = value_pos base x xs b cx in absurd (omega arith)
value_injective base (x ∷ xs) (y ∷ ys) b hx hy cx cy e =
    let first = same_digit base x y (value base xs) (value base ys) hx.0 hy.0 e in
    let rest = cancel base (value base xs) (value base ys) b (omega arith) in
    let tails =
      value_injective base xs ys b hx.1 hy.1 (IsCanonical-tail x xs cx) (IsCanonical-tail y ys cy)
        rest in
    cc

div_smaller : (base c fuel : ℕ) → 1 < base → c ≤ suc fuel → c / base ≤ fuel
div_smaller base zero fuel b h = rw (div-eq_of_lt {n = 0} {m = base} (omega arith)) (omega arith)
div_smaller base (suc c) fuel b h =
    let small = div-lt_self {n = suc c} {k = base} (omega arith) b in omega arith

value-push_carry : (base fuel c : ℕ) → 1 < base → c ≤ fuel → value base (push_carry base fuel c) ≡ c
unfolding value push_carry
value-push_carry base zero c b h = omega arith
value-push_carry base (suc fuel) c b h =
    let rest = value-push_carry base fuel (c / base) b (div_smaller base c fuel b h) in
    let whole = mod-add-div c base in ground (arith, rest, whole)

regroup :
    (r q base factor v d c : ℕ)
    → r + base * q ≡ d * factor + c
    → r + base * (factor * v + q) ≡ factor * (d + base * v) + c
regroup r q base factor v d c h = grind arith

pub value-spread :
    (base factor : ℕ) (ds : List ℕ) (c : ℕ)
    → 1 < base
    → value base (spread base factor ds c) ≡ factor * value base ds + c
unfolding value spread
value-spread base factor [] c b =
    let carried = value-push_carry base c c b (omega arith) in grind arith
value-spread base factor (d ∷ ds) c b =
    let acc = d * factor + c in
    let rest = value-spread base factor ds (acc / base) b in
    let whole = mod-add-div acc base in
    rw rest (regroup (acc % base) (acc / base) base factor (value base ds) d c whole)

push_carry-Below : (base fuel c : ℕ) → 1 < base → Below base (push_carry base fuel c)
unfolding push_carry
push_carry-Below base zero c b = tt
push_carry-Below base (suc fuel) c b =
    if_both (Below base) (c == 0) tt
      (mod-lt c (omega arith), push_carry-Below base fuel (c / base) b)

pub spread-Below :
    (base factor : ℕ) (ds : List ℕ) (c : ℕ) → 1 < base → Below base (spread base factor ds c)
unfolding spread
spread-Below base factor [] c b = push_carry-Below base c c b
spread-Below base factor (d ∷ ds) c b =
    (mod-lt (d * factor + c) (omega arith), spread-Below base factor ds ((d * factor + c) / base) b)

IsCanonical-cons : (d : ℕ) (ds : List ℕ) → IsCanonical ds → (ds ≡ [] → 0 < d) → IsCanonical (d ∷ ds)
IsCanonical-cons d [] h k = k refl
IsCanonical-cons d (e ∷ ds) h k = h

small_digit : (base c : ℕ) → 0 < base → c / base ≡ 0 → c % base ≡ c
small_digit base c b h =
    let whole = mod-add-div c base in
    let none_left : base * (c / base) ≡ 0 = rw h (omega arith) in omega arith

push_carry-empty : (base fuel c : ℕ) → c ≤ fuel → push_carry base fuel c ≡ [] → c ≡ 0
unfolding push_carry
push_carry-empty base zero c h e = omega arith
push_carry-empty base (suc fuel) c h e = ground arith

push_carry-IsCanonical :
    (base fuel c : ℕ) → 1 < base → c ≤ fuel → IsCanonical (push_carry base fuel c)
unfolding push_carry
push_carry-IsCanonical base zero c b h = tt
push_carry-IsCanonical base (suc fuel) c b h = elim (Bool-cases (c == 0)) [
  | (inl p) ↦ rw p tt
  | (inr p) ↦ rw p (
      IsCanonical-cons (c % base) (push_carry base fuel (c / base))
        (push_carry-IsCanonical base fuel (c / base) b (div_smaller base c fuel b h))
        (λ e.
          let gone = push_carry-empty base fuel (c / base) (div_smaller base c fuel b h) e in
          let same = small_digit base c (omega arith) gone in ground arith))
]

spread-empty :
    (base factor : ℕ) (ds : List ℕ) (c : ℕ) → spread base factor ds c ≡ [] → (ds ≡ []) × (c ≡ 0)
unfolding spread
spread-empty base factor [] c e = (refl, push_carry-empty base c c (omega arith) e)
spread-empty base factor (d ∷ ds) c e = cc

pub spread-IsCanonical :
    (base factor : ℕ) (ds : List ℕ) (c : ℕ)
    → 1 < base
    → 0 < factor
    → IsCanonical ds
    → IsCanonical (spread base factor ds c)
unfolding spread
spread-IsCanonical base factor [] c b f h = push_carry-IsCanonical base c c b (omega arith)
spread-IsCanonical base factor (d ∷ ds) c b f h =
    let acc = d * factor + c in
    IsCanonical-cons (acc % base) (spread base factor ds (acc / base))
      (spread-IsCanonical base factor ds (acc / base) b f (IsCanonical-tail d ds h))
      (λ e.
        let (empty, gone) = spread-empty base factor ds (acc / base) e in
        let same = small_digit base acc (omega arith) gone in
        let top : 0 < d = subst (λ r. IsCanonical (d ∷ r)) empty h in
        let positive = mul-pos {m = d} {n = factor} top f in ground arith)

-- One digit 0 does not count as a top digit once a positive number is added.
pub spread_zero-IsCanonical :
    (base factor c : ℕ) → 1 < base → 0 < c → IsCanonical (spread base factor (0 ∷ []) c)
unfolding spread
spread_zero-IsCanonical base factor c b h =
    let acc = 0 * factor + c in
    IsCanonical-cons (acc % base) (push_carry base (acc / base) (acc / base))
      (push_carry-IsCanonical base (acc / base) (acc / base) b (omega arith))
      (λ e.
        let gone = push_carry-empty base (acc / base) (acc / base) (omega arith) e in
        let same = small_digit base acc (omega arith) gone in ground arith)

-- The top digit comes first in the reverse.
pub reverse_aux-IsCanonical :
    (xs : List ℕ) (d : ℕ) (acc : List ℕ)
    → IsCanonical (d ∷ acc)
    → IsCanonical (reverse_aux xs (d ∷ acc))
reverse_aux-IsCanonical [] d acc h = h
reverse_aux-IsCanonical (x ∷ xs) d acc h = reverse_aux-IsCanonical xs x (d ∷ acc) h

pub IsCanonical-reverse_aux :
    (xs : List ℕ) (d : ℕ) (acc : List ℕ)
    → IsCanonical (reverse_aux xs (d ∷ acc))
    → IsCanonical (d ∷ acc)
IsCanonical-reverse_aux [] d acc h = h
IsCanonical-reverse_aux (x ∷ xs) d acc h = IsCanonical-reverse_aux xs x (d ∷ acc) h

pub All-reverse_aux {κ} :
    (P : ℕ → Type κ) (xs acc : List ℕ) → All P xs → All P acc → All P (reverse_aux xs acc)
All-reverse_aux P [] acc h k = k
All-reverse_aux P (x ∷ xs) acc h k = All-reverse_aux P xs (x ∷ acc) h.1 (h.0, k)

-- The number that digits spell, most significant first, after a number before them.
unfoldable pub number_from : (base before : ℕ) → List ℕ → ℕ
number_from base before [] = before
number_from base before (b ∷ bytes) = number_from base (b + base * before) bytes

pub value-reverse_aux :
    (base : ℕ) (xs acc : List ℕ)
    → value base (reverse_aux xs acc) ≡ number_from base (value base acc) xs
unfolding value number_from
value-reverse_aux base [] acc = refl
value-reverse_aux base (x ∷ xs) acc = value-reverse_aux base xs (x ∷ acc)
