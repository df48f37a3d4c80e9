-- ===== src/Runs/Create/First.antt =====
-- The first step of a run that `Create` accepts.
use ferry_cli.Base.{String, ◌≡◌, refl, ap, sym, ◌∙◌, Bool, Option, none, some, List, [], ◌∷◌, arith}
use ferry_cli.Api.Target.{Bytes}
use ferry_cli.Runs.Step.{Step, Run}
use ferry_cli.Runs.Ledger.{Env, Handle}
use ferry_cli.Runs.Create.{
  good_step, validate_step, valid, validate_steps, create_run, with_digest, new_state,
}
use ferry_cli.Runs.Create.Reads.{
  and_steps-valid, with_steps-valid, validate_new-steps, created-valid,
}

-- The step has the name and the request of the other.
pub record IsAccepted (s t : Step) : Type 0 where
  pub same_name : t.name ≡ s.name
  pub same_key : t.idempotency_key ≡ s.idempotency_key
  pub same_body : t.body ≡ s.body

with_digest-IsAccepted :
    (sha256 : Bytes → String) (s : Step) (o : Option Bytes) → IsAccepted s (with_digest sha256 s o)
with_digest-IsAccepted sha256 s none = record {
  same_name = refl;
  same_key = refl;
  same_body = refl;
}
with_digest-IsAccepted sha256 s (some b) = record {
  same_name = refl;
  same_key = refl;
  same_body = refl;
}

validate_step-IsAccepted :
    (sha256 : Bytes → String) (names keys : List String) (s t : Step)
    → validate_step sha256 names keys s ≡ good_step t
    → IsAccepted s t
unfolding validate_step
validate_step-IsAccepted sha256 names keys s t e =
    let u = record s { state = new_state s.state } in
    let is : with_digest sha256 u s.body ≡ t = ground arith in
    let a = with_digest-IsAccepted sha256 u s.body in
    record {
      same_name = ap (λ x. x.name) (sym is) ∙ a.same_name;
      same_key = ap (λ x. x.idempotency_key) (sym is) ∙ a.same_key;
      same_body = ap (λ x. x.body) (sym is) ∙ a.same_body;
    }

validate_steps-first :
    (sha256 : Bytes → String) (s : Step) (ss ts : List Step)
    → validate_steps sha256 [] [] (s ∷ ss) ≡ valid ts
    → (t : Step) × (rest : List Step) × (ts ≡ t ∷ rest) × IsAccepted s t
unfolding validate_steps
validate_steps-first sha256 s ss ts e =
    let (t, rest, a, r, is) = and_steps-valid _ _ ts e in
    (t, rest, sym is, validate_step-IsAccepted sha256 [] [] s t a)

-- A run that `Create` accepts keeps the name and the request of its first step.
pub create_run-first :
    (env : Env) (valid_id : String → Bool) (run : Run) (s : Step) (ss : List Step) (h : Handle)
    → create_run env valid_id run ≡ valid h
    → run.steps ≡ s ∷ ss
    → (t : Step) × (rest : List Step) × (h.run.steps ≡ t ∷ rest) × IsAccepted s t
unfolding create_run
create_run-first env valid_id run s ss h e is =
    let (made, v, same) = created-valid env.now _ h e in
    let (ts, r, steps) =
      with_steps-valid run made _ (validate_new-steps env.sha256 valid_id run made v) in
    let (t, rest, first, a) =
      validate_steps-first env.sha256 s ss ts (ap (validate_steps env.sha256 [] []) (sym is) ∙ r) in
    (t, rest, ap (λ g. g.run.steps) (sym same) ∙ (ap (λ m. m.steps) (sym steps) ∙ first), a)
