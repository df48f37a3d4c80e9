-- ===== src/Api/Meta.antt =====
-- internal/api/meta.go: what the response headers said. The headers are `http.Header.Get`: a text
-- for each name, empty where the header is absent.
use Prim.Native.Char.{code}
use Prim.Native.Nat.{◌-◌}
use ferry_cli.Base.{
  ℕ, String, ◌==◌, ◌+◌, ◌*◌, ◌^◌, ◌≤◌, ◌≡◌, refl, Bool, ◌&&◌, not, Option, none, some, List, [],
  ◌∷◌, arith, ltb, leb, eqb, if◌then◌else◌, ℤ, pos, negsuc,
}

pub record Meta : Type 0 where
  pub status : ℕ
  pub command_id : String
  pub environment : String
  pub idempotency_key : String
  pub replayed : Bool
  pub retry_after : Option ℤ
  pub www_authenticate : String
  pub environment_mismatch : Bool
  pub expected_environment : String

abbrev pub codes : String → List ℕ
codes String.[] = []
codes (String.◌∷◌ c s) = code c ∷ codes s

-- The digits of a decimal number, most significant first, after `n`.
unfoldable pub digits : ℕ → List ℕ → Option ℕ
digits n [] = some n
digits n (c ∷ cs) = if leb 48 c && leb c 57 then digits (n * 10 + (c - 48)) cs else none

abbrev unsigned : List ℕ → Option ℕ
unsigned [] = none
unsigned (c ∷ cs) = digits 0 (c ∷ cs)

abbrev positive : Option ℕ → Option ℤ
positive none = none
positive (some n) = if ltb n (2 ^ 63) then some (pos n) else none

abbrev negative : Option ℕ → Option ℤ
negative none = none
negative (some n) =
    if eqb n 0 then some (pos 0) else if leb n (2 ^ 63) then some (negsuc (n - 1)) else none

abbrev pub signed : List ℕ → Option ℤ
signed [] = none
signed (c ∷ cs) =
    if eqb c 43
    then positive (unsigned cs)
    else if eqb c 45
    then negative (unsigned cs)
    else positive (unsigned (c ∷ cs))

-- `strconv.Atoi`: an optional sign, then one digit or more, within 64 bits.
unfoldable pub atoi : String → Option ℤ
unfolding digits
atoi s = signed (codes s)

-- `ReadMeta`.
unfoldable pub read_meta : ℕ → (String → String) → String → Meta
unfolding atoi
read_meta status get expected =
    let environment = get "Ferry-Environment" in
    let raw = get "Retry-After" in
    record {
      status = status;
      command_id = get "Ferry-Command-Id";
      environment = environment;
      idempotency_key = get "Idempotency-Key";
      replayed = get "Idempotency-Replayed" == "true";
      retry_after = if raw == "" then none else atoi raw;
      www_authenticate = get "WWW-Authenticate";
      environment_mismatch =
          not (expected == "") && (not (environment == "") && not (environment == expected));
      expected_environment = expected;
    }

-- The wait that a `Retry-After` asks for, one second at least.
abbrev pub delay_of : Option ℤ → ℕ
delay_of none = 1
delay_of (some (pos n)) = if ltb n 1 then 1 else n
delay_of (some (negsuc n)) = 1

-- `Meta.RetryDelaySeconds`.
unfoldable pub retry_delay_seconds : Meta → ℕ
retry_delay_seconds m = delay_of m.retry_after

pub retry_delay_pos : (m : Meta) → 1 ≤ retry_delay_seconds m
unfolding retry_delay_seconds
retry_delay_pos m = ground arith

atoi_signed : atoi "-12" ≡ some (negsuc 11)
unfolding atoi
atoi_signed = refl

atoi_large : atoi "9223372036854775808" ≡ none
unfolding atoi
atoi_large = refl
