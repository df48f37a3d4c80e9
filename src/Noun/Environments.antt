-- ===== src/Noun/Environments.antt =====
-- The texts that `--env` takes.
use ferry_cli.Base.{String, ◌==◌, eq_iff, ◌≡◌, ◌∙◌, ap, sym, some, arith, Bool-cases, inl, inr}
use ferry_cli.Creds.{Environment, sandbox, live}
use ferry_cli.Noun.{environment_text, parse_environment, opened}

-- An environment that is read is written back as the same text.
pub parse_environment-environment_text :
    (raw : String) (e : Environment)
    → parse_environment raw ≡ opened e
    → environment_text (some e) ≡ raw
unfolding parse_environment
parse_environment-environment_text raw e h = elim (Bool-cases ("sandbox" == raw)) [
  | inl a ↦
      let is : sandbox ≡ e = ground arith in
      ap (λ x. environment_text (some x)) (sym is) ∙ (eq_iff "sandbox" raw).0 a
  | inr a ↦ elim (Bool-cases ("live" == raw)) [
    | inl b ↦
        let is : live ≡ e = ground arith in
        ap (λ x. environment_text (some x)) (sym is) ∙ (eq_iff "live" raw).0 b
    | inr b ↦ absurd (ground arith)
  ]
]
