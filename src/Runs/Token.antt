-- ===== src/Runs/Token.antt =====
-- internal/runs/token.go: what is removed from a response before it is stored. The structural pass
-- reads and writes JSON, and is a function of `encoding/json`.
pub mod Swept
use ferry_cli.Base.{
  ℕ, zero, suc, Bool, true, false, ◌&&◌, ◌||◌, Option, none, some, List, [], ◌∷◌, ◌++◌, eqb, leb,
  if◌then◌else◌,
}
use ferry_cli.Api.Target.{Bytes}
use ferry_cli.Api.Meta.{codes}

-- The characters of a token.
unfoldable pub in_token : ℕ → Bool
in_token c =
    (leb 48 c && leb c 57)
    || ((leb 65 c && leb c 90) || ((leb 97 c && leb c 122) || (eqb c 95 || eqb c 45)))

-- The text starts with another and, after it, as many characters of a token.
unfoldable pub matches : Bytes → ℕ → Bytes → Bool
unfolding in_token
matches [] zero cs = true
matches [] (suc n) [] = false
matches [] (suc n) (c ∷ cs) = in_token c && matches [] n cs
matches (p ∷ ps) n [] = false
matches (p ∷ ps) n (c ∷ cs) = eqb p c && matches ps n cs

abbrev pub token_head : Bytes
token_head = codes "ferry_plan_"

-- `planTokenRE` matches at the start.
abbrev pub starts_token : Bytes → Bool
starts_token cs = matches token_head 8 cs

-- `ContainsPlanToken`.
unfoldable pub contains_plan_token : Bytes → Bool
unfolding matches
contains_plan_token [] = false
contains_plan_token (c ∷ cs) = starts_token (c ∷ cs) || contains_plan_token cs

-- `RedactedToken`.
abbrev pub redacted_token : Bytes
redacted_token = codes "[REDACTED]"

-- `planTokenRE.ReplaceAll`: a match is the longest run of characters of a token from its start, and
-- the flag says that a run is being dropped.
unfoldable pub sweep : Bool → Bytes → Bytes
unfolding matches in_token
sweep dropping [] = []
sweep true (c ∷ cs) =
    let after = sweep true cs in let kept = sweep false cs in if in_token c then after else c ∷ kept
sweep false (c ∷ cs) =
    let after = sweep true cs in
    let kept = sweep false cs in if starts_token (c ∷ cs) then redacted_token ++ after else c ∷ kept

abbrev structural_or : (Bytes → Option Bytes) → Bytes → Bytes
structural_or structural body = elim (structural body) [ none ↦ body | some b ↦ b ]

-- The second pass.
unfoldable pub swept : Bytes → Bytes
unfolding sweep contains_plan_token
swept body = if contains_plan_token body then sweep false body else body

-- `stripPlanToken`.
unfoldable pub strip_plan_token : (Bytes → Option Bytes) → Bytes → Bytes
unfolding swept
strip_plan_token structural [] = []
strip_plan_token structural (c ∷ cs) = swept (structural_or structural (c ∷ cs))
