-- ===== src/Dpop/Key/Parts.antt =====
-- The three parts of a compact token are found again, and a coordinate has 32 bytes.
use mathlib.Core.List.{append_assoc}
use skyauth.Base.{
  ℕ, zero, suc, ◌-◌, ◌∷◌, ◌++◌, ◌≡◌, ◌≤◌, refl, ap, Bool, true, not, ◌==◌, Option, none, some, List,
  [], leb, length, length-append, length-replicate, replicate, take, all, all-append, arith,
  if◌then◌else◌,
}
use skyauth.Base.Text.{
  Str, is_whitespace, trim, split, is_ascii_alphabetic, is_ascii_lowercase, is_ascii_uppercase,
  is_ascii_digit,
}
use skyauth.Base.Splits.{all-imp, split-piece, split-whole, trim-none}
use skyauth.Crypto.{is_base64url}
use skyauth.Dpop.Key.{padded}

length-take : (n : ℕ) (xs : List ℕ) → n ≤ length xs → length (take n xs) ≡ n
length-take zero xs h = refl
length-take (suc n) [] h = absurd (omega arith)
length-take (suc n) (x ∷ xs) h = ap suc (length-take n xs (omega arith))

length-fill :
    (n : ℕ) (bytes : List ℕ)
    → n ≤ length bytes
    → n ≤ 32
    → length (replicate (32 - n) 0 ++ take n bytes) ≡ 32
length-fill n bytes h k = omega (
  arith,
  length-append (replicate (32 - n) 0) (take n bytes),
  length-replicate {A = ℕ} (32 - n) 0,
  length-take n bytes h,
)

pub length-padded : (o : Option (List ℕ)) → length (padded o) ≡ 32
unfolding padded
length-padded none = refl
length-padded (some bytes) =
    let len = if leb (length bytes) 32 then length bytes else 32 in
    length-fill len bytes (ground arith) (ground arith)

pub base64url-space : (c : ℕ) → is_base64url c ≡ true → not (is_whitespace c) ≡ true
unfolding is_base64url is_whitespace is_ascii_alphabetic is_ascii_lowercase is_ascii_uppercase
    is_ascii_digit
base64url-space c h = ground arith

base64url-dot : (c : ℕ) → is_base64url c ≡ true → not (c == b'.') ≡ true
unfolding is_base64url is_ascii_alphabetic is_ascii_lowercase is_ascii_uppercase is_ascii_digit
base64url-dot c h = ground arith

all-parts :
    (p : ℕ → Bool) (a b d : Str)
    → p b'.' ≡ true
    → all p a ≡ true
    → all p b ≡ true
    → all p d ≡ true
    → all p ((a ++ b'.' ∷ b) ++ b'.' ∷ d) ≡ true
all-parts p a b d h k l m =
    let outer = all-append p (a ++ b'.' ∷ b) (b'.' ∷ d) in
    let inner = all-append p a (b'.' ∷ b) in ground (arith, outer, inner)

-- Three encoded parts joined by dots are split again.
pub split-parts :
    (a b d : Str)
    → all is_base64url a ≡ true
    → all is_base64url b ≡ true
    → all is_base64url d ≡ true
    → split b'.' (trim ((a ++ b'.' ∷ b) ++ b'.' ∷ d)) ≡ a ∷ b ∷ d ∷ []
unfolding is_whitespace
split-parts a b d h k l =
    let space = all-imp is_base64url (λ c. not (is_whitespace c)) in
    let dot = all-imp is_base64url (λ c. not (c == b'.')) in
    let spaces_a = space a base64url-space h in
    let spaces_b = space b base64url-space k in
    let spaces_d = space d base64url-space l in
    let whole = (a ++ b'.' ∷ b) ++ b'.' ∷ d in
    let trimmed =
      trim-none whole
        (all-parts (λ c. not (is_whitespace c)) a b d refl spaces_a spaces_b spaces_d) in
    let assoc = append_assoc a (b'.' ∷ b) (b'.' ∷ d) in
    let first = split-piece b'.' a (b ++ b'.' ∷ d) (dot a base64url-dot h) in
    let second = split-piece b'.' b d (dot b base64url-dot k) in
    rw (trimmed, assoc, first, second, split-whole b'.' d (dot d base64url-dot l)) refl
