-- ===== src/Base/Utf8.antt =====
-- The UTF-8 encoding of a text: `as_bytes` and `len`.
use Prim.Native.Nat.{ℕ, zero, suc, ◌+◌, ◌-◌, ◌*◌, ◌/◌, ◌%◌, ◌<◌}
use mathlib.Core.Path.{◌≡◌, refl}
use mathlib.Core.List.{List, [], ◌∷◌, ◌++◌}
use mathlib.Core.Bool.{Bool, ◌&&◌, ◌||◌}
use mathlib.Core.Option
use mathlib.Core.Option.{Option, none, some}
use native.Mathlib.Omega.{arith}
use skyauth.Base.Tests.{ltb, leb, if◌then◌else◌}
use skyauth.Base.Lists.{length, All}
use skyauth.Base.Text.{Str}

unfoldable pub char_bytes : ℕ → List ℕ
char_bytes c =
    if ltb c 0x80
    then c ∷ []
    else if ltb c 0x800
    then (0xc0 + c / 64) ∷ (0x80 + c % 64) ∷ []
    else if ltb c 0x10000
    then (0xe0 + c / 4096) ∷ (0x80 + c / 64 % 64) ∷ (0x80 + c % 64) ∷ []
    else (0xf0 + c / 262144) ∷ (0x80 + c / 4096 % 64) ∷ (0x80 + c / 64 % 64) ∷ (0x80 + c % 64) ∷ []

unfoldable pub as_bytes : Str → List ℕ
unfolding char_bytes
as_bytes [] = []
as_bytes (c ∷ s) = char_bytes c ++ as_bytes s

-- `str::len`, in bytes.
unfoldable pub len : Str → ℕ
unfolding as_bytes
len s = length (as_bytes s)

-- The bytes of an ASCII text are its code points.
pub as_bytes-ascii : (s : Str) → All (λ c. c < 128) s → as_bytes s ≡ s
unfolding as_bytes
as_bytes-ascii [] h = refl
as_bytes-ascii (c ∷ s) h = ground (arith, as_bytes-ascii s h.1)

-- The byte that begins a code point: the bytes that follow it, its payload, and the least code point
-- of that length.
lead_byte : ℕ → Option (ℕ × (ℕ × ℕ))
lead_byte b =
    if ltb b 0x80
    then some (0, (b, 0))
    else if ltb b 0xc2
    then none
    else if ltb b 0xe0
    then some (1, (b - 0xc0, 0x80))
    else if ltb b 0xf0
    then some (2, (b - 0xe0, 0x800))
    else if ltb b 0xf5
    then some (3, (b - 0xf0, 0x10000))
    else none

-- A code point that its length may encode: neither overlong nor a surrogate nor too large.
is_scalar : (least c : ℕ) → Bool
is_scalar least c = leb least c && (ltb c 0xd800 || leb 0xe000 c) && ltb c 0x110000

-- `need` bytes of a code point are still to come, after those that make `value`.
decode_from : (need value least : ℕ) → List ℕ → Option Str
unfolding lead_byte is_scalar
decode_from zero value least [] = some []
decode_from (suc need) value least [] = none
decode_from zero value least (b ∷ bytes) = elim (lead_byte b) [
  | none ↦ none
  | some (zero, (c, l)) ↦ Option.map (λ s. c ∷ s) (decode_from zero 0 0 bytes)
  | some (suc need, (c, l)) ↦ decode_from (suc need) c l bytes
]
decode_from (suc zero) value least (b ∷ bytes) =
    let c = value * 64 + (b - 0x80) in
    let rest = decode_from zero 0 0 bytes in
    if leb 0x80 b && ltb b 0xc0 && is_scalar least c then Option.map (λ s. c ∷ s) rest else none
decode_from (suc (suc need)) value least (b ∷ bytes) =
    let rest = decode_from (suc need) (value * 64 + (b - 0x80)) least bytes in
    if leb 0x80 b && ltb b 0xc0 then rest else none

-- `str::from_utf8`.
unfoldable pub from_utf8 : List ℕ → Option Str
unfolding decode_from
from_utf8 bytes = decode_from 0 0 0 bytes
