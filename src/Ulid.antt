-- ===== src/Ulid.antt =====
-- internal/ulid/ulid.go: run identifiers. A text is the list of its bytes, a byte is a number below 256,
-- and the entropy is ten bytes.
pub mod Bits
pub mod Digits
pub mod Times
pub mod Entropy
pub mod Order
pub mod Sequence
mod Tests
use ferry_cli.Base.{
  ℕ, zero, suc, ◌+◌, ◌*◌, ◌/◌, ◌%◌, ◌^◌, Bool, true, false, ◌&&◌, ◌||◌, not, Option, none, some,
  List, [], ◌∷◌, ◌++◌, map, all, eqb, leb, ltb, length, if◌then◌else◌,
}
use Prim.Native.Nat.{bit_and, bit_or}
use ferry_cli.Api.Target.{Bytes}

-- `Length`.
abbrev pub id_length : ℕ
id_length = 26

-- `encoding`: the ten digits, and the upper case letters without I, L, O and U.
abbrev pub alphabet : Bytes
alphabet =
    48 ∷ 49 ∷ 50 ∷ 51 ∷ 52 ∷ 53 ∷ 54 ∷ 55 ∷ 56 ∷ 57 ∷ 65 ∷ 66 ∷ 67 ∷ 68 ∷ 69 ∷ 70 ∷ 71 ∷ 72 ∷ 74
    ∷ 75 ∷ 77 ∷ 78 ∷ 80 ∷ 81 ∷ 82 ∷ 83 ∷ 84 ∷ 86 ∷ 87 ∷ 88 ∷ 89 ∷ 90 ∷ []

abbrev nth : List ℕ → ℕ → ℕ
nth [] n = 0
nth (x ∷ xs) zero = x
nth (x ∷ xs) (suc n) = nth xs n

-- `encoding[i]`.
unfoldable pub encoding : ℕ → ℕ
encoding i = nth alphabet i

abbrev position : ℕ → ℕ → List ℕ → ℕ
position c i [] = 255
position c i (x ∷ xs) = let rest = position c (i + 1) xs in if eqb x c then i else rest

-- `decoding[c]`: the position in the alphabet, or 255.
unfoldable pub decoding : ℕ → ℕ
decoding c = position c 0 alphabet

-- `x << n` of a byte.
abbrev pub shift_left : ℕ → ℕ → ℕ
shift_left x n = x * 2 ^ n % 256

abbrev pub shift_right : ℕ → ℕ → ℕ
shift_right x n = x / 2 ^ n

-- The digits of the first byte.
abbrev pub head_digits : ℕ → List ℕ
head_digits a = shift_right (bit_and a 224) 5 ∷ bit_and a 31 ∷ []

-- The eight digits of five bytes: the lines of `encode` for `raw[1]` to `raw[5]`, and the same for
-- the ten bytes after them.
abbrev pub block_digits : ℕ → ℕ → ℕ → ℕ → ℕ → List ℕ
block_digits a b c d e =
    shift_right (bit_and a 248) 3
    ∷ bit_or (shift_left (bit_and a 7) 2) (shift_right (bit_and b 192) 6)
    ∷ shift_right (bit_and b 62) 1
    ∷ bit_or (shift_left (bit_and b 1) 4) (shift_right (bit_and c 240) 4)
    ∷ bit_or (shift_left (bit_and c 15) 1) (shift_right (bit_and d 128) 7)
    ∷ shift_right (bit_and d 124) 2
    ∷ bit_or (shift_left (bit_and d 3) 3) (shift_right (bit_and e 224) 5)
    ∷ bit_and e 31
    ∷ []

-- `byte(ms >> n)`.
abbrev pub ms_byte : ℕ → ℕ → ℕ
ms_byte ms n = ms / 2 ^ n % 256

-- The digits of the bytes after the first, five bytes at a time.
unfoldable pub blocks : List ℕ → List ℕ
blocks (a ∷ b ∷ c ∷ d ∷ e ∷ rest) = block_digits a b c d e ++ blocks rest
blocks _ = []

-- The bytes `raw[1]` to `raw[15]`.
abbrev pub raw_tail : ℕ → Bytes → Bytes
raw_tail ms ent = ms_byte ms 32 ∷ ms_byte ms 24 ∷ ms_byte ms 16 ∷ ms_byte ms 8 ∷ ms_byte ms 0 ∷ ent

-- The digits of `encode`.
abbrev pub id_digits : ℕ → Bytes → List ℕ
id_digits ms ent = head_digits (ms_byte ms 40) ++ blocks (raw_tail ms ent)

-- `encode`.
unfoldable pub encode : ℕ → Bytes → Bytes
unfolding blocks
encode ms ent = map encoding (id_digits ms ent)

abbrev pub in_alphabet : ℕ → Bool
in_alphabet c = not (eqb (decoding c) 255)

abbrev pub leads : Bytes → Bool
leads [] = false
leads (c ∷ cs) = leb c 55

-- `Valid`.
unfoldable pub valid : Bytes → Bool
unfolding all
valid s = eqb (length s) id_length && (all in_alphabet s && leads s)

-- `ms<<5 | uint64(decoding[c])`.
abbrev pub shift_in : ℕ → ℕ → ℕ
shift_in ms c = bit_or (ms * 2 ^ 5 % 2 ^ 64) (decoding c)

unfoldable pub stamp : ℕ → ℕ → Bytes → ℕ
stamp zero ms cs = ms
stamp (suc n) ms [] = ms
stamp (suc n) ms (c ∷ cs) = stamp n (shift_in ms c) cs

-- `Timestamp`, in milliseconds.
unfoldable pub timestamp : Bytes → Option ℕ
timestamp s = if valid s then some (stamp 10 0 s) else none

-- `increment`: the bytes that the loop leaves, and whether it ran off the first one.
abbrev pub increment_byte : ℕ → Bytes × Bool → Bytes × Bool
increment_byte x (xs, true) = ((x + 1) % 256 ∷ xs, eqb ((x + 1) % 256) 0)
increment_byte x (xs, false) = (x ∷ xs, false)

unfoldable pub increment : Bytes → Bytes × Bool
increment [] = ([], true)
increment (x ∷ xs) = increment_byte x (increment xs)

-- `Generator`.
pub record Generator : Type 0 where
  pub last_ms : ℕ
  pub last_rand : Bytes
  pub seeded : Bool

-- What `io.ReadFull` does to `lastRand`: it fills it, or it fails with some bytes overwritten.
pub data Draw : Type 0 where
  filled broken : Bytes → Draw

abbrev pub drawn : Generator → ℕ → Draw → Generator × Option Bytes
drawn g ms (filled bs) =
    (record { last_ms = ms; last_rand = bs; seeded = true }, some (encode ms bs))
drawn g ms (broken bs) = (record g { last_rand = bs }, none)

abbrev pub stepped : Generator → Bytes × Bool → Generator × Option Bytes
stepped g (bs, true) = (record g { last_rand = bs }, none)
stepped g (bs, false) = (record g { last_rand = bs }, some (encode g.last_ms bs))

-- `Generator.New`, at the instant `ms`.
unfoldable pub new_id : Generator → ℕ → Draw → Generator × Option Bytes
new_id g ms draw =
    if not g.seeded || ltb g.last_ms ms then drawn g ms draw else stepped g (increment g.last_rand)

-- A generator that has not been called: `NewGenerator`.
abbrev pub fresh : Bytes → Generator
fresh bs = record { last_ms = 0; last_rand = bs; seeded = false }

-- Calls of `New`, one after another, each at its instant and with its draw: the identifiers, if none of
-- them refuses.
abbrev pub with_id : Option Bytes → Option (List Bytes) → Option (List Bytes)
with_id none rest = none
with_id (some id) none = none
with_id (some id) (some ids) = some (id ∷ ids)

unfoldable pub new_ids : Generator → List (ℕ × Draw) → Option (List Bytes)
new_ids g [] = some []
new_ids g ((ms, d) ∷ ds) = let r = new_id g ms d in let rest = new_ids r.0 ds in with_id r.1 rest
