-- ===== src/Ssrf/Hosts.antt =====
-- The key of a host in the resolver: trimming dots and lowering letters commute, and doing either
-- twice changes nothing.
use skyauth.Base.{ℕ, ◌≡◌, refl, [], ◌∷◌, ◌==◌, arith}
use skyauth.Base.Text.{
  Str, to_ascii_lowercase, to_ascii_lower, is_ascii_uppercase, trim_end_matches, trim_end_by,
  cons_unless,
}
use skyauth.Ssrf.Resolver.{host_key}

lower_dot : (c : ℕ) → (to_ascii_lower c == b'.') ≡ (c == b'.')
unfolding to_ascii_lower is_ascii_uppercase
lower_dot c = ground arith

lower_twice : (c : ℕ) → to_ascii_lower (to_ascii_lower c) ≡ to_ascii_lower c
unfolding to_ascii_lower is_ascii_uppercase
lower_twice c = ground arith

pub lowercase_twice : (s : Str) → to_ascii_lowercase (to_ascii_lowercase s) ≡ to_ascii_lowercase s
unfolding to_ascii_lowercase
lowercase_twice [] = refl
lowercase_twice (c ∷ s) = ground (arith, lower_twice c, lowercase_twice s)

cons-lower :
    (c : ℕ) (t : Str)
    → to_ascii_lowercase (cons_unless (λ d. d == b'.') c t)
      ≡ cons_unless (λ d. d == b'.') (to_ascii_lower c) (to_ascii_lowercase t)
unfolding cons_unless to_ascii_lowercase
cons-lower c [] = ground (arith, lower_dot c)
cons-lower c (d ∷ t) = refl

pub lowercase-trim :
    (s : Str)
    → to_ascii_lowercase (trim_end_matches b'.' s) ≡ trim_end_matches b'.' (to_ascii_lowercase s)
unfolding trim_end_matches trim_end_by to_ascii_lowercase
lowercase-trim [] = refl
lowercase-trim (c ∷ s) = ground (arith, cons-lower c (trim_end_matches b'.' s), lowercase-trim s)

cons_twice :
    (c : ℕ) (t : Str)
    → trim_end_matches b'.' t ≡ t
    → trim_end_matches b'.' (cons_unless (λ d. d == b'.') c t) ≡ cons_unless (λ d. d == b'.') c t
unfolding trim_end_matches trim_end_by cons_unless
cons_twice c [] h = ground arith
cons_twice c (d ∷ t) h = ground (arith, h)

pub trim_twice :
    (s : Str) → trim_end_matches b'.' (trim_end_matches b'.' s) ≡ trim_end_matches b'.' s
unfolding trim_end_matches trim_end_by
trim_twice [] = refl
trim_twice (c ∷ s) = cons_twice c (trim_end_matches b'.' s) (trim_twice s)

pub host_key_twice : (host : Str) → host_key (host_key host) ≡ host_key host
unfolding host_key
host_key_twice host = rw (
  ← lowercase-trim (trim_end_matches b'.' host),
  trim_twice host,
  lowercase_twice (trim_end_matches b'.' host),
)
