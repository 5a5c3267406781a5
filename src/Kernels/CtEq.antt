-- ===== src/Kernels/CtEq.antt =====
-- src/kernels/ct_eq.rs, and its accumulator model in src/verification/formal_models.rs
-- (`ConstantTimeEqSpec`). `subtle`'s `ct_eq` on slices of one length is a parameter.
use Prim.Native.Nat.{bit_or, bit_xor}
use skyauth.Base.{
  ℕ, ◌<◌, ◌≡◌, refl, ◌↔◌, Bool, true, false, not, ◌&&◌, List, [], ◌∷◌, length, All, arith, ◌==◌,
  ltb, ap, if◌then◌else◌,
}
use skyauth.Base.Bits.{every_below, every_below_sound}

-- `subtle::ConstantTimeEq` on byte slices: on slices of one length it decides equality.
pub record Subtle : Type 0 where
  pub ct_eq : List ℕ → List ℕ → Bool
  pub ct_eq_iff : (a b : List ℕ) → length a ≡ length b → (ct_eq a b ≡ true) ↔ (a ≡ b)

-- The two lists need not have one length: what `ct_eq` says then is not used.
unfoldable pub constant_time_eq : Subtle → List ℕ → List ℕ → Bool
constant_time_eq s a b = if not (length a == length b) then false else s.ct_eq a b

-- The accumulator of `spec_constant_time_eq_model`, from the first byte on.
diff_of : ℕ → List ℕ → List ℕ → ℕ
diff_of diff [] b = diff
diff_of diff (x ∷ a) [] = diff
diff_of diff (x ∷ a) (y ∷ b) = diff_of (bit_or diff (bit_xor x y)) a b

pub spec_constant_time_eq_model : List ℕ → List ℕ → Bool
unfolding diff_of
spec_constant_time_eq_model a b = if not (length a == length b) then false else diff_of 0 a b == 0

-- The loop of `spec_slice_eq` from the first index on.
same_bytes : List ℕ → List ℕ → Bool
same_bytes [] b = true
same_bytes (x ∷ a) [] = true
same_bytes (x ∷ a) (y ∷ b) = if not (x == y) then false else same_bytes a b

pub spec_slice_eq : List ℕ → List ℕ → Bool
unfolding same_bytes
spec_slice_eq a b = if not (length a == length b) then false else same_bytes a b

abbrev AreBytes : List ℕ → Type 0
AreBytes = All (λ x. x < 256)

-- One round of the accumulator, on every pair of bytes.
round_at : ℕ → ℕ → Bool
round_at x y =
    ltb (bit_or x y) 256
    && ltb (bit_xor x y) 256
    && (if bit_or x y == 0 then (x == 0) && (y == 0) else not ((x == 0) && (y == 0)))
    && (if bit_xor x y == 0 then x == y else not (x == y))

round_row : ℕ → Bool
round_row x = every_below 256 (round_at x)

round_table : every_below 256 round_row ≡ true
unfolding every_below round_row round_at
round_table = refl

round_lem : (x y : ℕ) → x < 256 → y < 256 → round_at x y ≡ true
unfolding round_row
round_lem x y h k =
    every_below_sound 256 (round_at x) y (every_below_sound 256 round_row x round_table h) k

bit_or_lem :
    (x y : ℕ)
    → x < 256
    → y < 256
    → (bit_or x y < 256) × ((bit_or x y == 0) ≡ ((x == 0) && (y == 0)))
unfolding round_at
bit_or_lem x y h k = ground (arith, round_lem x y h k)

bit_xor_lem : (x y : ℕ) → x < 256 → y < 256 → (bit_xor x y < 256) × ((bit_xor x y == 0) ≡ (x == y))
unfolding round_at
bit_xor_lem x y h k = ground (arith, round_lem x y h k)

diff_of-same_bytes :
    (d : ℕ) (a b : List ℕ)
    → d < 256
    → AreBytes a
    → AreBytes b
    → (diff_of d a b == 0) ≡ ((d == 0) && same_bytes a b)
unfolding diff_of same_bytes
diff_of-same_bytes d [] b h k l = ground arith
diff_of-same_bytes d (x ∷ a) [] h k l = ground arith
diff_of-same_bytes d (x ∷ a) (y ∷ b) h k l =
    let e = bit_xor_lem x y k.0 l.0 in
    let f = bit_or_lem d (bit_xor x y) h e.0 in
    rw (diff_of-same_bytes (bit_or d (bit_xor x y)) a b f.0 k.1 l.1, f.1, e.1) (ground arith)

-- On byte strings, the model that accumulates differences decides as the loop that stops at the
-- first one.
pub spec_constant_time_eq_model-slice_eq :
    (a b : List ℕ) → AreBytes a → AreBytes b → spec_constant_time_eq_model a b ≡ spec_slice_eq a b
unfolding spec_constant_time_eq_model spec_slice_eq
spec_constant_time_eq_model-slice_eq a b h k = rw (diff_of-same_bytes 0 a b (omega arith) h k)

same_bytes_iff : (a b : List ℕ) → length a ≡ length b → (same_bytes a b ≡ true) ↔ (a ≡ b)
unfolding same_bytes
same_bytes_iff [] [] e = ground arith
same_bytes_iff [] (y ∷ b) e = absurd (omega arith)
same_bytes_iff (x ∷ a) [] e = absurd (omega arith)
same_bytes_iff (x ∷ a) (y ∷ b) e = ground (arith, same_bytes_iff a b)

-- The kernel decides as the specification does, whatever the lengths: on slices of different
-- lengths it answers no without a call of `ct_eq`.
pub constant_time_eq-slice_eq :
    (s : Subtle) (a b : List ℕ) → constant_time_eq s a b ≡ spec_slice_eq a b
unfolding constant_time_eq spec_slice_eq
constant_time_eq-slice_eq s a b = ground (arith, s.ct_eq_iff a b, same_bytes_iff a b)

-- The comparison holds exactly for equal byte strings.
pub constant_time_eq_iff : (s : Subtle) (a b : List ℕ) → (constant_time_eq s a b ≡ true) ↔ (a ≡ b)
unfolding constant_time_eq
constant_time_eq_iff s a b = ground (arith, s.ct_eq_iff a b, ap length {x = a} {y = b})
