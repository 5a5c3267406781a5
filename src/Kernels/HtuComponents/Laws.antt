-- ===== src/Kernels/HtuComponents/Laws.antt =====
-- The assembled target URI satisfies the invariants of its kernel, and keeps a custom port.
use skyauth.Base.{
  ℕ, suc, ◌+◌, ◌≡◌, ◌⊎◌, inl, inr, refl, ◌∙◌, true, false, Option, none, some, [], ◌∷◌, ◌++◌,
  length, drop, any, arith, list_eq_refl, if◌then◌else◌,
}
use mathlib.Core.List.{append_assoc}
use skyauth.Base.Text.{Str, codes, starts_with, to_ascii_lowercase, is_empty}
use skyauth.Base.Utf8.{as_bytes}
use skyauth.Kernels.HtuComponents.{
  HtuScheme, as_str, port_text, decimal_port_str, build_normalized_htu, is_query_or_fragment,
  is_port_placed, invariants_hold, starts_with_explicit_port,
}

starts_with-append : (p s : Str) → starts_with p (p ++ s) ≡ true
unfolding starts_with
starts_with-append [] s = refl
starts_with-append (c ∷ p) s = ground (arith, starts_with-append p s)

drop-append : (p s : Str) → drop (length p) (p ++ s) ≡ s
drop-append [] s = refl
drop-append (c ∷ p) s = drop-append p s

drop-append_two : (p h s : Str) → drop (length p + length h) (p ++ (h ++ s)) ≡ s
drop-append_two [] h s = ground (arith, drop-append h s)
drop-append_two (c ∷ p) h s =
    let shift : length (c ∷ p) + length h ≡ suc (length p + length h) = omega arith in
    rw shift (drop-append_two p h s)

-- Where the path goes.
abbrev pub Rooted : Str → Type 0
Rooted path = (path ≡ []) ⊎ ((rest : Str) × (path ≡ b'/' ∷ rest))

is_port_placed-port_text :
    (scheme : HtuScheme) (port : Option ℕ) (path : Str)
    → is_port_placed scheme port (port_text scheme port ++ b'/' ∷ path) ≡ true
unfolding is_port_placed port_text starts_with_explicit_port
is_port_placed-port_text scheme none [] = refl
is_port_placed-port_text scheme none (c ∷ path) = ground arith
is_port_placed-port_text scheme (some p) [] =
    ground (arith, starts_with-append (decimal_port_str p) (b'/' ∷ []))
is_port_placed-port_text scheme (some p) (c ∷ path) =
    ground (arith, starts_with-append (decimal_port_str p) (b'/' ∷ c ∷ path))

-- The path that the assembly writes.
written :
    (path : Str)
    → Rooted path
    → (rest : Str) × ((if is_empty path then codes "/" else path) ≡ b'/' ∷ rest)
written path (inl e) = ([], ground arith)
written path (inr (rest, e)) = (rest, ground arith)

-- The target that is assembled from a lower-case host and an absolute or empty path, neither with
-- `?` or `#`, satisfies the invariants: on such components the `debug_assert!` of `normalize_htu`
-- cannot fail.
invariants_hold-build :
    (scheme : HtuScheme) (host : Str) (port : Option ℕ) (path : Str)
    → to_ascii_lowercase host ≡ host
    → any is_query_or_fragment (as_bytes host) ≡ false
    → any is_query_or_fragment (as_bytes path) ≡ false
    → Rooted path
    → invariants_hold scheme host port path (build_normalized_htu scheme host port path) ≡ true
unfolding invariants_hold build_normalized_htu
invariants_hold-build scheme host port path lower no_host no_path rooted =
    let (rest, e) = written path rooted in
    let prefix = as_str scheme ++ codes "://" in
    let tail = port_text scheme port ++ b'/' ∷ rest in
    let shape : build_normalized_htu scheme host port path ≡ prefix ++ (host ++ tail) = rw e (
      append_assoc (prefix ++ host) (port_text scheme port) (b'/' ∷ rest)
      ∙ append_assoc prefix host tail) in
    rw
      (
        lower,
        no_host,
        no_path,
        shape,
        list_eq_refl (prefix ++ (host ++ tail)),
        starts_with-append prefix (host ++ tail),
        drop-append prefix (host ++ tail),
        starts_with-append host tail,
        drop-append_two prefix host tail,
      )
      (is_port_placed-port_text scheme port rest)
