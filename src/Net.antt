-- ===== src/Net.antt =====
-- `std::net` as this repository uses it: socket addresses, loopback addresses, and the parser of
-- an IP literal.
use Prim.Native.Nat.{ℕ, zero, suc, ◌+◌, ◌-◌, ◌*◌}
use skyauth.Base.{
  Bool, true, false, ◌&&◌, ◌||◌, Option, none, some, List, [], ◌∷◌, ◌++◌, length, get_or, replicate,
  ltb, leb, ◌==◌, if◌then◌else◌,
}
use skyauth.Base.Text.{Str, is_ascii_digit}
use skyauth.Kernels.IpFilter.{Octets, Segs, IpAddr, v4, v6}

pub record SocketAddr : Type 0 where
  pub ip : IpAddr
  pub port : ℕ

-- `IpAddr::is_loopback`: 127.0.0.0/8 and ::1.
unfoldable pub is_loopback : IpAddr → Bool
is_loopback (v4 a) = a.o0 == 127
is_loopback (v6 s) =
    (s.s0 == 0)
    && (s.s1 == 0)
    && (s.s2 == 0)
    && (s.s3 == 0)
    && (s.s4 == 0)
    && (s.s5 == 0)
    && (s.s6 == 0)
    && (s.s7 == 1)

unfoldable pub is_ipv4 : IpAddr → Bool
is_ipv4 (v4 a) = true
is_ipv4 (v6 s) = false

-- A parser takes a prefix of a text and leaves the rest.
abbrev Parser {ℓ} : Type ℓ → Type ℓ
Parser A = Str → Option (A × Str)

-- The value of a digit, in a base of at most 16.
digit_of : (base c : ℕ) → Option ℕ
unfolding is_ascii_digit
digit_of base c =
    if is_ascii_digit c
    then some (c - b'0')
    else if (base == 16) && leb b'a' c && leb c b'f'
    then some (c - b'a' + 10)
    else if (base == 16) && leb b'A' c && leb c b'F'
    then some (c - b'A' + 10)
    else none

-- The digits at the front: their count, their value, and what follows.
read_digits : (base count value : ℕ) → Str → (ℕ × ℕ) × Str
unfolding digit_of
read_digits base count value [] = ((count, value), [])
read_digits base count value (c ∷ s) = elim (digit_of base c) [
  | none ↦ ((count, value), c ∷ s)
  | some d ↦ read_digits base (count + 1) (value * base + d) s
]

abbrev leading_zero : Str → Bool
leading_zero [] = false
leading_zero (c ∷ s) = c == b'0'

-- `Parser::read_number` for a `u8` in base 10: at most three digits, and no leading zero.
read_octet : Parser ℕ
unfolding read_digits
read_octet s =
    let read = read_digits 10 0 0 s in
    if (read.0.0 == 0) || ltb 3 read.0.0 || ltb 255 read.0.1 || (leading_zero s && ltb 1 read.0.0)
    then none
    else some (read.0.1, read.1)

-- The same for a `u16` in base 16: at most four digits.
read_group : Parser ℕ
unfolding read_digits
read_group s =
    let read = read_digits 16 0 0 s in
    if (read.0.0 == 0) || ltb 4 read.0.0 then none else some (read.0.1, read.1)

-- `read_separator`: the separator comes before every item but the first.
with_sep {ℓ} : {A : Type ℓ} → (sep index : ℕ) → Parser A → Parser A
with_sep sep zero p s = p s
with_sep sep (suc i) p [] = none
with_sep sep (suc i) p (c ∷ s) = if c == sep then p s else none

infixl 5 ◌>>=◌
abbrev ◌>>=◌ {ℓ κ} : {A : Type ℓ} {B : Type κ} → Option A → (A → Option B) → Option B
none >>= f = none
some a >>= f = f a

read_ipv4_addr : Parser Octets
unfolding read_octet with_sep
read_ipv4_addr s = read_octet s >>= λ a. with_sep b'.' 1 read_octet a.1 >>= λ b.
    with_sep b'.' 2 read_octet b.1 >>= λ c. with_sep b'.' 3 read_octet c.1 >>= λ d.
    some (record { o0 = a.0; o1 = b.0; o2 = c.0; o3 = d.0 }, d.1)

-- `read_groups`: up to `limit` groups, the last two of which may be an IPv4 address. The result has
-- the groups, whether an IPv4 address was read, and what follows.
read_groups : (limit index : ℕ) → Str → (List ℕ × Bool) × Str
unfolding read_ipv4_addr read_group with_sep
read_groups zero index s = (([], false), s)
read_groups (suc limit) index s =
    elim (if ltb 0 limit then with_sep b':' index read_ipv4_addr s else none) [
      | some read ↦
          (((read.0.o0 * 256 + read.0.o1) ∷ (read.0.o2 * 256 + read.0.o3) ∷ [], true), read.1)
      | none ↦ elim (with_sep b':' index read_group s) [
        | none ↦ (([], false), s)
        | some read ↦
            let rest = read_groups limit (suc index) read.1 in
            ((read.0 ∷ rest.0.0, rest.0.1), rest.1)
      ]
    ]

segs_of : List ℕ → Segs
segs_of g = record {
  s0 = get_or g 0 0;
  s1 = get_or g 1 0;
  s2 = get_or g 2 0;
  s3 = get_or g 3 0;
  s4 = get_or g 4 0;
  s5 = get_or g 5 0;
  s6 = get_or g 6 0;
  s7 = get_or g 7 0;
}

-- The part from `::` on, after `head`.
read_tail : List ℕ → Parser Segs
unfolding read_groups segs_of
read_tail head (c ∷ d ∷ s) =
    let back = read_groups (8 - (length head + 1)) 0 s in
    if (c == b':') && (d == b':')
    then some
        (segs_of (head ++ (replicate (8 - (length head + length back.0.0)) 0 ++ back.0.0)), back.1)
    else none
read_tail head s = none

read_ipv6_addr : Parser Segs
unfolding read_groups read_tail segs_of
read_ipv6_addr s =
    let front = read_groups 8 0 s in
    if length front.0.0 == 8
    then some (segs_of front.0.0, front.1)
    else if front.0.1
    then none
    else read_tail front.0.0 front.1

all_read {ℓ} : {A : Type ℓ} → Option (A × Str) → Option A
all_read none = none
all_read (some (a, [])) = some a
all_read (some (a, c ∷ s)) = none

or_ipv6 : Option (Octets × Str) → Option (Segs × Str) → Option (IpAddr × Str)
or_ipv6 (some read) other = some (v4 read.0, read.1)
or_ipv6 none (some read) = some (v6 read.0, read.1)
or_ipv6 none none = none

-- `host.parse::<IpAddr>().ok()`.
unfoldable pub parse_ip : Str → Option IpAddr
unfolding read_ipv4_addr read_ipv6_addr all_read or_ipv6
parse_ip s = all_read (or_ipv6 (read_ipv4_addr s) (read_ipv6_addr s))
