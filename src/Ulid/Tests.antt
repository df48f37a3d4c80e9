-- ===== src/Ulid/Tests.antt =====
-- Runs of the encoder and of the generator, and each property at a concrete input.
use ferry_cli.Base.{
  ℕ, ◌^◌, ◌%◌, ◌≡◌, ◌<◌, refl, true, none, some, List, [], ◌∷◌, map, all, ltb, arith,
}
use ferry_cli.Api.Target.{Bytes}
use ferry_cli.Ulid.{
  decoding, encoding, encode, valid, stamp, timestamp, increment, Generator, Draw, filled, new_id,
  fresh, new_ids,
}
use ferry_cli.Ulid.Digits.{number, AreBelow, IsEntropy}
use ferry_cli.Ulid.Times.{encode-number}
use ferry_cli.Ulid.Sequence.{AreIncreasing, new_ids-AreIncreasing}
use ferry_cli.Ulid.Order.{IsRunning, value, last_id, new_id-Wraps}

abbrev entropy : Bytes
entropy = 1 ∷ 2 ∷ 3 ∷ 4 ∷ 5 ∷ 6 ∷ 7 ∷ 8 ∷ 9 ∷ 255 ∷ []

entropy-IsEntropy : IsEntropy entropy
entropy-IsEntropy = (
  refl,
  (
    omega arith,
    (
      omega arith,
      (
        omega arith,
        (
          omega arith,
          (
            omega arith,
            (omega arith, (omega arith, (omega arith, (omega arith, (omega arith, tt))))),
          ),
        ),
      ),
    ),
  ),
)

encode-number_example :
    number 32 0 (map decoding (encode 1700000000000 entropy))
    ≡ number 256 (1700000000000 % 2 ^ 48) entropy
encode-number_example = encode-number 1700000000000 entropy entropy-IsEntropy

-- "01HF7YAT00" begins the identifiers of that instant.
begins_with :
    map encoding (0 ∷ 1 ∷ 17 ∷ 15 ∷ 7 ∷ 30 ∷ 10 ∷ 26 ∷ 0 ∷ 0 ∷ [])
    ≡ 48 ∷ 49 ∷ 72 ∷ 70 ∷ 55 ∷ 89 ∷ 65 ∷ 84 ∷ 48 ∷ 48 ∷ []
unfolding encoding
begins_with = refl

abbrev largest : Bytes
largest =
    55 ∷ 90 ∷ 90 ∷ 90 ∷ 90 ∷ 90 ∷ 90 ∷ 90 ∷ 90 ∷ 90 ∷ 48 ∷ 48 ∷ 48 ∷ 48 ∷ 48 ∷ 48 ∷ 48 ∷ 48 ∷ 48
    ∷ 48 ∷ 48 ∷ 48 ∷ 48 ∷ 48 ∷ 48 ∷ 48 ∷ []

reads_largest : timestamp largest ≡ some 281474976710655
unfolding timestamp valid decoding stamp
reads_largest = refl

abbrev stepped_entropy : Bytes
stepped_entropy = 1 ∷ 2 ∷ 3 ∷ 4 ∷ 5 ∷ 6 ∷ 7 ∷ 8 ∷ 10 ∷ 0 ∷ []

-- The clock goes back between the calls, and the entropy is stepped.
abbrev three_calls : List (ℕ × Draw)
three_calls = (5, filled entropy) ∷ (3, filled entropy) ∷ (7, filled entropy) ∷ []

abbrev three_ids : List Bytes
three_ids = encode 5 entropy ∷ encode 5 stepped_entropy ∷ encode 7 entropy ∷ []

hands_out : new_ids (fresh []) three_calls ≡ some three_ids
unfolding new_ids new_id increment
hands_out = refl

new_ids-AreIncreasing_example : AreIncreasing three_ids
new_ids-AreIncreasing_example =
    new_ids-AreIncreasing [] three_calls three_ids
      (
        (omega arith, entropy-IsEntropy),
        ((omega arith, entropy-IsEntropy), ((omega arith, entropy-IsEntropy), tt)),
      )
      hands_out

all_below : (k : ℕ) (cs : Bytes) → all (λ c. ltb c k) cs ≡ true → AreBelow k cs
unfolding all
all_below k [] e = tt
all_below k (c ∷ cs) e = (ground arith, all_below k cs (ground arith))

largest_bytes : AreBelow 256 largest
unfolding all
largest_bytes = all_below 256 largest refl

abbrev full : Bytes
full = 255 ∷ 255 ∷ 255 ∷ 255 ∷ 255 ∷ 255 ∷ 255 ∷ 255 ∷ 255 ∷ 255 ∷ []

full-IsEntropy : IsEntropy full
full-IsEntropy = (
  refl,
  (
    omega arith,
    (
      omega arith,
      (
        omega arith,
        (
          omega arith,
          (
            omega arith,
            (omega arith, (omega arith, (omega arith, (omega arith, (omega arith, tt))))),
          ),
        ),
      ),
    ),
  ),
)

abbrev exhausted : Generator
exhausted = record { last_ms = 5; last_rand = full; seeded = true }

exhausted-IsRunning : IsRunning exhausted
exhausted-IsRunning = record {
  is_seeded = refl;
  in_range = omega arith;
  is_entropy = full-IsEntropy;
}

runs_off : (increment full).1 ≡ true
unfolding increment
runs_off = refl

new_id-Wraps_example :
    ((new_id exhausted 5 (filled entropy)).1 ≡ none)
    × (id : Bytes) × ((new_id (new_id exhausted 5 (filled entropy)).0 5 (filled entropy)).1
        ≡ some id)
    × (value id < value (last_id exhausted))
new_id-Wraps_example =
    new_id-Wraps exhausted 5 5 (filled entropy) (filled entropy) exhausted-IsRunning (omega arith)
      (omega arith) runs_off
