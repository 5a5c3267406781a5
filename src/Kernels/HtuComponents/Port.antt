-- ===== src/Kernels/HtuComponents/Port.antt =====
-- The decimal text of a port, read back.
use skyauth.Base.{
  ℕ, zero, suc, ◌+◌, ◌-◌, ◌*◌, ◌<◌, ◌/◌, ◌%◌, ◌^◌, ◌≡◌, inl, inr, refl, [], ◌∷◌, ◌++◌, reverse,
  arith, ◌==◌, Bool-cases,
}
use native.Mathlib.Numerals.{unary_clauses}
use mathlib.Core.List.{reverse-cons}
use skyauth.Base.Text.{Str}
use skyauth.Kernels.HtuComponents.{decimal_port_str, digits}

-- The number that decimal digits write after `acc`.
abbrev pub read_decimal : (acc : ℕ) → Str → ℕ
read_decimal acc [] = acc
read_decimal acc (c ∷ s) = read_decimal (acc * 10 + (c - b'0')) s

read_decimal-append :
    (acc c : ℕ) (s : Str) → read_decimal acc (s ++ c ∷ []) ≡ read_decimal acc s * 10 + (c - b'0')
read_decimal-append acc c [] = refl
read_decimal-append acc c (d ∷ s) = read_decimal-append (acc * 10 + (d - b'0')) c s

read_decimal-digits : (fuel n : ℕ) → n < 10 ^ fuel → read_decimal 0 (reverse (digits fuel n)) ≡ n
unfolding digits
read_decimal-digits zero n h = omega arith
read_decimal-digits (suc fuel) n h =
    let power : 10 ^ suc fuel ≡ 10 ^ fuel * 10 = simp unary_clauses in
    let smaller : read_decimal 0 (reverse (digits fuel (n / 10))) ≡ n / 10 =
      read_decimal-digits fuel (n / 10) (omega arith) in
    elim (Bool-cases (n == 0)) [
      | (inl z) ↦ ground arith
      | (inr z) ↦
          rw
            (
              z,
              reverse-cons (b'0' + n % 10) (digits fuel (n / 10)),
              read_decimal-append 0 (b'0' + n % 10) (reverse (digits fuel (n / 10))),
              smaller,
            )
            (omega arith)
    ]

-- The text of a 16-bit port is a colon and digits that read back as the port.
pub decimal_port_str-read :
    (port : ℕ)
    → port < 2 ^ 16
    → (digits_of : Str) × (decimal_port_str port ≡ b':' ∷ digits_of)
      × (read_decimal 0 digits_of ≡ port)
unfolding decimal_port_str
decimal_port_str-read port h = elim (Bool-cases (port == 0)) [
  | (inl z) ↦ (b'0' ∷ [], ground arith, ground arith)
  | (inr z) ↦ (reverse (digits 5 port), ground arith, read_decimal-digits 5 port (omega arith))
]
