-- ===== src/Base/Splits.antt =====
-- A text split at a separator, and its pieces joined again.
use skyauth.Base.Tests.{◌==◌}
use skyauth.Base.Lists.{length, all, All, all-append, last_or}
use Prim.Native.Nat.{ℕ}
use mathlib.Core.Path.{◌≡◌, refl, ap, ◌∙◌}
use mathlib.Core.Logic.{◌≢◌}
use mathlib.Core.Bool.{Bool, true, false, not}
use mathlib.Core.List.{List, [], ◌∷◌, ◌++◌}
use native.Mathlib.Omega.{arith}
use skyauth.Base.Text.{
  Str, join, split, split_step, ends_with, starts_with, trim_end_by, trim_start_by, cons_unless,
  is_whitespace, trim, trim_start_matches, to_ascii_lowercase, is_ascii_uppercase,
}

join-split_step :
    (sep : ℕ) (b : Bool) (c : ℕ) (r : List Str)
    → length r ≢ 0
    → b ≡ (c == sep)
    → join sep (split_step b c r) ≡ c ∷ join sep r
unfolding split_step
join-split_step sep true c [] l h = absurd (l refl)
join-split_step sep true c (s ∷ r) l h = ground arith
join-split_step sep false c [] l h = absurd (l refl)
join-split_step sep false c (s ∷ []) l h = refl
join-split_step sep false c (s ∷ t ∷ r) l h = refl

split_step-nonempty : (b : Bool) (c : ℕ) (r : List Str) → length (split_step b c r) ≢ 0
unfolding split_step
split_step-nonempty true c r = omega arith
split_step-nonempty false c [] = omega arith
split_step-nonempty false c (s ∷ r) = omega arith

pub split-nonempty : (sep : ℕ) (s : Str) → length (split sep s) ≢ 0
unfolding split
split-nonempty sep [] = omega arith
split-nonempty sep (c ∷ s) = split_step-nonempty (c == sep) c (split sep s)

pub join-split : (sep : ℕ) (s : Str) → join sep (split sep s) ≡ s
unfolding split
join-split sep [] = refl
join-split sep (c ∷ s) =
    join-split_step sep (c == sep) c (split sep s) (split-nonempty sep s) refl
    ∙ ap (λ t. c ∷ t) (join-split sep s)

-- A piece without the separator is split off.
pub split-piece :
    (sep : ℕ) (a t : Str)
    → all (λ c. not (c == sep)) a ≡ true
    → split sep (a ++ sep ∷ t) ≡ a ∷ split sep t
unfolding split split_step
split-piece sep [] t h = ground arith
split-piece sep (c ∷ a) t h =
    ap (λ r. split_step (c == sep) c r) (split-piece sep a t (ground arith)) ∙ ground arith

-- A predicate on the code points of a text holds on its pieces, and the other way.
all-split_step :
    (p : ℕ → Bool) (b : Bool) (c : ℕ) (r : List Str)
    → p c ≡ true
    → All (λ a. all p a ≡ true) r
    → All (λ a. all p a ≡ true) (split_step b c r)
unfolding split_step
all-split_step p true c r h l = (refl, l)
all-split_step p false c [] h l = (ground arith, tt)
all-split_step p false c (a ∷ r) h l = (ground arith, l.1)

pub all-split :
    (p : ℕ → Bool) (sep : ℕ) (s : Str) → all p s ≡ true → All (λ a. all p a ≡ true) (split sep s)
unfolding split
all-split p sep [] h = (refl, tt)
all-split p sep (c ∷ s) h =
    all-split_step p (c == sep) c (split sep s) (ground arith) (all-split p sep s (ground arith))

pub all-join :
    (p : ℕ → Bool) (sep : ℕ) (r : List Str)
    → p sep ≡ true
    → All (λ a. all p a ≡ true) r
    → all p (join sep r) ≡ true
all-join p sep [] h l = refl
all-join p sep (a ∷ []) h l = l.0
all-join p sep (a ∷ b ∷ r) h l =
    let rest = all-join p sep (b ∷ r) h l.1 in
    ground (arith, all-append p a (sep ∷ join sep (b ∷ r)))

pub ends_with-last : (x c : ℕ) (s : Str) → ends_with (x ∷ []) (c ∷ s) ≡ (last_or (c ∷ s) 0 == x)
unfolding ends_with
ends_with-last x c [] = ground arith
ends_with-last x c (d ∷ s) = ground (arith, ends_with-last x d s)

-- A text without white space at its ends is trimmed already.
trim_end_by-none : (p : ℕ → Bool) (s : Str) → all (λ c. not (p c)) s ≡ true → trim_end_by p s ≡ s
unfolding trim_end_by cons_unless
trim_end_by-none p [] h = refl
trim_end_by-none p (c ∷ []) h = ground arith
trim_end_by-none p (c ∷ d ∷ s) h = rw (trim_end_by-none p (d ∷ s) (ground arith)) refl

trim_start_by-none :
    (p : ℕ → Bool) (s : Str) → all (λ c. not (p c)) s ≡ true → trim_start_by p s ≡ s
unfolding trim_start_by
trim_start_by-none p [] h = refl
trim_start_by-none p (c ∷ s) h = ground arith

pub trim-none : (s : Str) → all (λ c. not (is_whitespace c)) s ≡ true → trim s ≡ s
unfolding trim
trim-none s h =
    ap (λ t. trim_end_by is_whitespace t) (trim_start_by-none is_whitespace s h)
    ∙ trim_end_by-none is_whitespace s h

pub trim_start_matches-none :
    (x : ℕ) (s : Str) → all (λ c. not (c == x)) s ≡ true → trim_start_matches x s ≡ s
unfolding trim_start_matches
trim_start_matches-none x s h = trim_start_by-none (λ c. c == x) s h

pub all-imp :
    (p q : ℕ → Bool) (s : Str)
    → ((c : ℕ) → p c ≡ true → q c ≡ true)
    → all p s ≡ true
    → all q s ≡ true
all-imp p q [] f h = refl
all-imp p q (c ∷ s) f h =
    let rest = all-imp p q s f (ground arith) in let one = f c (ground arith) in ground arith

-- Letters in lower case stay as they are.
pub to_ascii_lowercase-none :
    (s : Str) → all (λ c. not (is_ascii_uppercase c)) s ≡ true → to_ascii_lowercase s ≡ s
unfolding to_ascii_lowercase
to_ascii_lowercase-none [] h = refl
to_ascii_lowercase-none (c ∷ s) h = ground (arith, to_ascii_lowercase-none s)

pub all-to_ascii_lowercase :
    (s : Str) → all (λ c. not (is_ascii_uppercase c)) (to_ascii_lowercase s) ≡ true
unfolding to_ascii_lowercase is_ascii_uppercase
all-to_ascii_lowercase [] = refl
all-to_ascii_lowercase (c ∷ s) = ground (arith, all-to_ascii_lowercase s)

pub split-whole : (sep : ℕ) (a : Str) → all (λ c. not (c == sep)) a ≡ true → split sep a ≡ a ∷ []
unfolding split split_step
split-whole sep [] h = refl
split-whole sep (c ∷ a) h =
    ap (λ r. split_step (c == sep) c r) (split-whole sep a (ground arith)) ∙ ground arith

-- A text that begins with a prefix is that prefix and a rest.
pub starts_with-prefix : (p s : Str) → starts_with p s ≡ true → (t : Str) × (s ≡ p ++ t)
unfolding starts_with
starts_with-prefix [] s h = (s, refl)
starts_with-prefix (c ∷ p) [] h = cc
starts_with-prefix (c ∷ p) (d ∷ s) h =
    let (t, e) = starts_with-prefix p s (ground arith) in (t, ground arith)
