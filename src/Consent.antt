-- ===== src/Consent.antt =====
-- internal/consent/consent.go: `Ask`, whether a human agreed in this invocation. What the caller does
-- before the prompt is a function on its own state.
pub mod Grants
use ferry_cli.Base.{
  ℕ, ◌+◌, String, Bool, true, false, ◌&&◌, ◌||◌, not, List, [], ◌∷◌, ◌++◌, leb, eqb, if◌then◌else◌,
}

pub data Verdict : Type 0 where
  granted declined unavailable : Verdict

-- `Request`: the fields that are not callbacks or streams.
pub record Request : Type 0 where
  pub yes : Bool
  pub tty : Bool
  pub command_is_consent : Bool

-- What the wait for a line ends in: a signal, a line (at the end of input or before it), as the codes
-- of its characters, or a failure to read.
pub data Heard : Type 0 where
  signal : Heard
  line : List ℕ → Heard
  unread : Heard

-- The terminal: whether the question could be written, whether a signal is there before the wait, and
-- what the wait ends in.
pub record Terminal : Type 0 where
  pub writes : Bool
  pub interrupted : Bool
  pub heard : Heard

-- A verdict, or an error.
pub data Asked : Type 0 where
  verdict : Verdict → Asked
  error : Asked

-- `unicode.IsSpace`.
abbrev is_space : ℕ → Bool
is_space c =
    leb 9 c && leb c 13
    || (eqb c 32
        || (eqb c 133
            || (eqb c 160
                || (eqb c 5760
                    || (leb 8192 c && leb c 8202
                        || (eqb c 8232
                            || (eqb c 8233 || (eqb c 8239 || (eqb c 8287 || eqb c 12288)))))))))

unfoldable pub trim_start : List ℕ → List ℕ
trim_start [] = []
trim_start (c ∷ cs) = let rest = trim_start cs in if is_space c then rest else c ∷ cs

-- The spaces at the end are taken away.
unfoldable pub trim_end : List ℕ → List ℕ
trim_end [] = []
trim_end (c ∷ cs) = keep c (trim_end cs)
  where
    keep : ℕ → List ℕ → List ℕ
    keep c [] = if is_space c then [] else c ∷ []
    keep c (d ∷ ds) = c ∷ d ∷ ds

-- `unicode.ToLower`, as far as the letters of the two answers are concerned: no other character is
-- lowered to one of them.
abbrev lower : ℕ → ℕ
lower c = if leb 65 c && leb c 90 then c + 32 else c

abbrev pub is_word : List ℕ → List ℕ → Bool
is_word [] [] = true
is_word [] (d ∷ ds) = false
is_word (c ∷ cs) [] = false
is_word (c ∷ cs) (d ∷ ds) = eqb (lower c) d && is_word cs ds

-- `affirmative`: `y` or `yes`.
unfoldable pub affirmative : List ℕ → Bool
unfolding trim_start trim_end
affirmative cs =
    let word = trim_end (trim_start cs) in
    is_word word (121 ∷ []) || is_word word (121 ∷ 101 ∷ 115 ∷ [])

abbrev heard_verdict : Heard → Asked
heard_verdict Heard.signal = verdict declined
heard_verdict (Heard.line l) = verdict (if affirmative l then granted else declined)
heard_verdict Heard.unread = error

-- `read`.
unfoldable pub read_answer : Terminal → Asked
read_answer t = if t.interrupted then verdict declined else heard_verdict t.heard

-- From the callback on: its error is an error, and so is a question that cannot be written.
abbrev pub prompt {ℓ} : {S : Type ℓ} → Terminal → S × Bool → S × Asked
prompt t (s, true) = (s, if t.writes then read_answer t else error)
prompt t (s, false) = (s, error)

-- `Ask`: `before` is `BeforePrompt`, with whether it succeeded.
unfoldable pub ask {ℓ} : {S : Type ℓ} → Request → Terminal → (S → S × Bool) → S → S × Asked
ask r t before s =
    if r.yes
    then (s, verdict granted)
    else if not r.tty
    then (s, verdict (if r.command_is_consent then granted else unavailable))
    else prompt t (before s)
