-- ===== src/Consent/Grants.antt =====
-- When consent is granted.
use ferry_cli.Base.{
  ℕ, ◌≡◌, refl, Bool, true, false, ◌||◌, not, List, arith, ◌⊎◌, ◌↔◌, Bool-cases, inl, inr,
}
use ferry_cli.Consent.{
  granted, Request, Heard, line, Terminal, verdict, affirmative, read_answer, prompt, ask,
}

-- The human answered: a prompt was shown after the callback succeeded, no signal came first, and the
-- line that was read is `y` or `yes`.
pub record SaidYes {ℓ} {S : Type ℓ} (t : Terminal) (before : S → S × Bool) (s : S) : Type ℓ where
  pub before_done : (before s).1 ≡ true
  pub written : t.writes ≡ true
  pub not_interrupted : t.interrupted ≡ false
  pub words : List ℕ
  pub heard_is : t.heard ≡ line words
  pub affirmed : affirmative words ≡ true

Heard-cases :
    (h : Heard) → ((l : List ℕ) × (h ≡ line l)) ⊎ ((h ≡ Heard.signal) ⊎ (h ≡ Heard.unread))
Heard-cases Heard.signal = inr (inl refl)
Heard-cases (line l) = inl (l, refl)
Heard-cases Heard.unread = inr (inr refl)

read_granted :
    (t : Terminal)
    → read_answer t ≡ verdict granted
    → (t.interrupted ≡ false)
      × (words : List ℕ) × (t.heard ≡ line words)
      × (affirmative words ≡ true)
unfolding read_answer
read_granted t e = elim (Heard-cases t.heard) [
  | inl (l, h) ↦ (ground arith, l, h, ground arith)
  | inr n ↦ absurd (ground arith)
]

module _ {ℓ} {S : Type ℓ} (t : Terminal) (before : S → S × Bool) (s : S) where
  prompt_granted : (prompt t (before s)).1 ≡ verdict granted → SaidYes t before s
  prompt_granted e = elim (Bool-cases (before s).1) [
    | inl b ↦
        let (quiet, words, heard, affirms) = read_granted t (ground arith) in
        record {
          before_done = b;
          written = ground arith;
          not_interrupted = quiet;
          words = words;
          heard_is = heard;
          affirmed = affirms;
        }
    | inr b ↦ absurd (ground arith)
  ]

  granted_prompt : SaidYes t before s → (prompt t (before s)).1 ≡ verdict granted
  unfolding read_answer
  granted_prompt y =
      ground (arith, y.before_done, y.written, y.not_interrupted, y.heard_is, y.affirmed)

-- `Ask` grants consent exactly with the flag `--yes`, or without a terminal where the command itself
-- is the consent, or where a human read the question after the callback had succeeded and answered
-- `y` or `yes` before any signal. The callback runs only for a prompt.
pub ask_granted {ℓ} :
    {S : Type ℓ} (r : Request) (t : Terminal) (before : S → S × Bool) (s : S)
    → (((ask r t before s).1 ≡ verdict granted) ↔ (
        (r.yes ≡ true)
        ⊎ ((r.yes ≡ false)
            × (((r.tty ≡ false) × (r.command_is_consent ≡ true))
                ⊎ ((r.tty ≡ true) × SaidYes t before s)))))
      × ((r.yes || not r.tty) ≡ true → (ask r t before s).0 ≡ s)
unfolding ask
ask_granted r t before s = ground (arith, prompt_granted t before s, granted_prompt t before s)
