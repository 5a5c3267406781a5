-- ===== src/Kernels/PkceBytes/Validation.antt =====
-- What `validate_verifier_bytes` accepts, and where it finds the first fault.
use skyauth.Base.{
  ℕ, zero, suc, ◌+◌, ◌<◌, ◌≡◌, ◌≢◌, ◌↔◌, true, false, List, [], ◌∷◌, length, get_or, arith,
  Bool-cases, inl, inr, ◌⊎◌, ok, err,
}
use skyauth.Kernels.PkceBytes.{
  is_unreserved_byte, is_valid_verifier_length, invalid_length, invalid_character, check_bytes,
  validate_verifier_bytes, is_unreserved_char, is_valid_verifier_len, spec_bytes,
  spec_validate_verifier,
}

pub is_unreserved_byte-char : (b : ℕ) → is_unreserved_byte b ≡ is_unreserved_char b
unfolding is_unreserved_byte is_unreserved_char
is_unreserved_byte-char b = ground arith

check_bytes-spec : (i : ℕ) (bs : List ℕ) → (check_bytes i bs ≡ ok tt) ↔ (spec_bytes bs ≡ true)
unfolding check_bytes spec_bytes
check_bytes-spec i [] = ground arith
check_bytes-spec i (b ∷ bs) = ground (arith, is_unreserved_byte-char b, check_bytes-spec (i + 1) bs)

-- The kernel accepts exactly the verifiers that the formal specification accepts.
validate_verifier_bytes-spec :
    (v : List ℕ) → (validate_verifier_bytes v ≡ ok tt) ↔ (spec_validate_verifier v ≡ true)
unfolding validate_verifier_bytes spec_validate_verifier is_valid_verifier_length
    is_valid_verifier_len
validate_verifier_bytes-spec v = ground (arith, check_bytes-spec 0 v)

-- `byte` stands at `k` and is the first one outside the alphabet.
abbrev pub FirstBad : List ℕ → ℕ → ℕ → Type 0
FirstBad bs byte k =
    (k < length bs)
    × (get_or bs k 0 ≡ byte)
    × (is_unreserved_char byte ≡ false)
    × ((j : ℕ) → j < k → is_unreserved_char (get_or bs j 0) ≡ true)

extend :
    (b : ℕ) (bs : List ℕ) (k : ℕ)
    → is_unreserved_char b ≡ true
    → ((j : ℕ) → j < k → is_unreserved_char (get_or bs j 0) ≡ true)
    → (j : ℕ) → j < suc k
    → is_unreserved_char (get_or (b ∷ bs) j 0) ≡ true
extend b bs k g h zero l = g
extend b bs k g h (suc j) l = h j (omega arith)

check_bytes-first :
    (i : ℕ) (bs : List ℕ) (byte position : ℕ)
    → check_bytes i bs ≡ err (invalid_character byte position)
    → (k : ℕ) × (position ≡ i + k) × FirstBad bs byte k
unfolding check_bytes
check_bytes-first i [] byte position h = cc
check_bytes-first i (b ∷ bs) byte position h = elim (Bool-cases (is_unreserved_byte b)) [
  | inl good ↦
      let r = check_bytes-first (i + 1) bs byte position (ground arith) in
      let g : is_unreserved_char b ≡ true = cc (is_unreserved_byte-char b) in
      let (k, p, q) = r in (suc k, omega arith, (omega arith, q.1, q.2, extend b bs k g q.3))
  | inr bad ↦ (
    0,
    ground arith,
    (
      omega arith,
      ground arith,
      ground (arith, is_unreserved_byte-char b),
      λ j l. absurd (omega arith),
    ),
  )
]

check_bytes-no_length : (i : ℕ) (bs : List ℕ) (n : ℕ) → check_bytes i bs ≢ err (invalid_length n)
unfolding check_bytes
check_bytes-no_length i [] n h = cc
check_bytes-no_length i (b ∷ bs) n h = ground (arith, check_bytes-no_length (i + 1) bs n)

-- A length error carries the actual length, and is given exactly outside 43 to 128 bytes.
pub validate_verifier_bytes-length :
    (v : List ℕ) (n : ℕ)
    → (validate_verifier_bytes v ≡ err (invalid_length n))
      ↔ ((n ≡ length v) × ((length v < 43) ⊎ (128 < length v)))
unfolding validate_verifier_bytes is_valid_verifier_length
validate_verifier_bytes-length v n = ground (arith, check_bytes-no_length 0 v n)

-- If the kernel reports a character, the verifier has a valid length, and the report names the
-- first byte outside the unreserved alphabet and its position.
pub validate_verifier_bytes-first :
    (v : List ℕ) (byte position : ℕ)
    → validate_verifier_bytes v ≡ err (invalid_character byte position)
    → (is_valid_verifier_len (length v) ≡ true) × FirstBad v byte position
unfolding validate_verifier_bytes is_valid_verifier_len is_valid_verifier_length
validate_verifier_bytes-first v byte position h =
    elim (Bool-cases (is_valid_verifier_length (length v))) [
      | inl fits ↦
          let (k, p, q) = check_bytes-first 0 v byte position (ground arith) in
          let e : position ≡ k = omega arith in (ground arith, rw e q)
      | inr out ↦ ground arith
    ]
