-- ===== src/Transfers/Invoke/Minted.antt =====
-- The simulate step of a new run of `transfers create`.
use ferry_cli.Base.{
  String, ◌==◌, ==_self, ◌≡◌, ◌≢◌, refl, ap, sym, ◌∙◌, Bool, true, false, ◌&&◌, not, Option, none,
  some, List, [], ◌∷◌, if◌then◌else◌, arith, ◌⊎◌, inl, inr, eqb, length, Option-cases, Bool-cases,
  eq_iff,
}
use Prim.Native.String.{◌++◌}
use ferry_cli.Api.Target.{Bytes}
use ferry_cli.Api.Routes.{route_for}
use ferry_cli.Runs.Step.{Step, Run, find_step}
use ferry_cli.Runs.Ledger.{Env, Handle}
use ferry_cli.Runs.Sweep.{Entry, find_by_key}
use ferry_cli.Runs.Create.{Validated, invalid, valid, create_run}
use ferry_cli.Runs.Create.First.{create_run-first}
use ferry_cli.Transfers.World.{step_simulate}
use ferry_cli.Transfers.Create.{
  Invocation, StepPlan, simulate_step, planned_key, new_step, and_step, planned_step, new_steps,
  run_of, created_run, create_steps, create, route, unmatched,
}
use ferry_cli.Transfers.Invoke.{plans_of}

and_step-some :
    (o : Option Step) (r : Option (List Step)) (ss : List Step)
    → and_step o r ≡ some ss
    → (s : Step) × (rest : List Step) × (o ≡ some s) × (ss ≡ s ∷ rest)
and_step-some none r ss e = absurd (ground arith)
and_step-some (some s) none ss e = absurd (ground arith)
and_step-some (some s) (some rest) ss e = (s, rest, refl, ground arith)

-- A step under its planned key, with a body.
pub record IsPlanned (run_id key : String) (single : Bool) (name : String) (body : Bytes) (s : Step)
    : Type 0 where
  pub name_is : s.name ≡ name
  pub key_is : s.idempotency_key ≡ planned_key run_id key single name
  pub body_is : s.body ≡ some body

planned_step-IsPlanned :
    (run_id key : String) (single : Bool) (body : Bytes) (p : StepPlan) (s : Step)
    → planned_step run_id key single (some body) p ≡ some s
    → IsPlanned run_id key single p.0 body s
planned_step-IsPlanned run_id key single body p s e = elim (Option-cases (route_for p.1)) [
  | inl n ↦ absurd (ground arith)
  | inr (r, n) ↦
      let is : new_step run_id key single (some body) p r ≡ s = ground arith in
      record {
        name_is = ap (λ x. x.name) (sym is);
        key_is = ap (λ x. x.idempotency_key) (sym is);
        body_is = ap (λ x. x.body) (sym is);
      }
]

new_steps-first :
    (run_id key : String) (single : Bool) (body : Bytes) (p : StepPlan) (ps : List StepPlan)
    (ss : List Step)
    → new_steps run_id key single body p.0 (p ∷ ps) ≡ some ss
    → (s : Step) × (rest : List Step) × (ss ≡ s ∷ rest) × IsPlanned run_id key single p.0 body s
unfolding new_steps
new_steps-first run_id key single body p ps ss e =
    let (s, rest, planned, is) = and_step-some _ _ ss e in
    let given : planned_step run_id key single (some body) p ≡ some s =
      ap (λ b. planned_step run_id key single (if b then some body else none) p) (sym (==_self p.0))
      ∙ planned in
    (s, rest, is, planned_step-IsPlanned run_id key single body p s given)

created_run-valid :
    (env : Env) (i : Invocation) (run : Run) (h : Handle)
    → created_run env i run ≡ some h
    → create_run env i.valid_id run ≡ valid h
created_run-valid env i run h e = made (create_run env i.valid_id run) e
  where
    made :
        (v : Validated Handle)
        → (elim v [ invalid why ↦ none | valid g ↦ if i.created then some g else none ]) ≡ some h
        → v ≡ valid h
    made (invalid why) e = absurd (ground arith)
    made (valid g) e = ground arith

create_steps-some :
    (env : Env) (i : Invocation) (id : String) (o : Option (List Step)) (h : Handle)
    → create_steps env i id o ≡ some h
    → (ss : List Step) × (o ≡ some ss) × (created_run env i (run_of i id ss) ≡ some h)
create_steps-some env i id none h e = absurd (ground arith)
create_steps-some env i id (some ss) h e = (ss, refl, e)

-- The first step of the run that `create` makes of some plans.
pub record HasFirst (i : Invocation) (single : Bool) (p : StepPlan) (body : Bytes) (h : Handle)
    : Type 0 where
  pub run_id : String
  pub minted : i.run_id ≡ some run_id
  pub step : Step
  pub found : find_step p.0 h.run.steps ≡ some step
  pub is_planned : IsPlanned run_id i.key single p.0 body step

first_found :
    (name : String) (t : Step) (rest ss : List Step)
    → ss ≡ t ∷ rest
    → t.name ≡ name
    → find_step name ss ≡ some t
unfolding find_step
first_found name t rest ss e n = rw (e, n, ==_self name) refl

with_id-HasFirst :
    (env : Env) (i : Invocation) (id : String) (p : StepPlan) (ps : List StepPlan) (body : Bytes)
    (h : Handle)
    → i.run_id ≡ some id
    → create_steps env i id (new_steps id i.key (eqb (length (p ∷ ps)) 1) body p.0 (p ∷ ps))
      ≡ some h
    → HasFirst i (eqb (length (p ∷ ps)) 1) p body h
with_id-HasFirst env i id p ps body h minted e =
    let single = eqb (length (p ∷ ps)) 1 in
    let (ss, made, run) = create_steps-some env i id _ h e in
    let (s, rest, is, planned) = new_steps-first id i.key single body p ps ss made in
    let (t, others, steps, same) =
      create_run-first env i.valid_id (run_of i id ss) s rest h
        (created_run-valid env i (run_of i id ss) h run) is in
    record {
      run_id = id;
      minted = minted;
      step = t;
      found = first_found p.0 t others h.run.steps steps (same.same_name ∙ planned.name_is);
      is_planned = record {
        name_is = same.same_name ∙ planned.name_is;
        key_is = same.same_key ∙ planned.key_is;
        body_is = same.same_body ∙ planned.body_is;
      };
    }

pub create-HasFirst :
    (env : Env) (i : Invocation) (p : StepPlan) (ps : List StepPlan) (body : Bytes) (h : Handle)
    → create env i (p ∷ ps) body ≡ some h
    → HasFirst i (eqb (length (p ∷ ps)) 1) p body h
unfolding create
create-HasFirst env i p ps body h e =
    let single = eqb (length (p ∷ ps)) 1 in
    let made : String → Option Handle =
      λ id. create_steps env i id (new_steps id i.key single body p.0 (p ∷ ps)) in
    elim (Option-cases i.run_id) [
      | inl n ↦ absurd (ground arith)
      | inr (id, n) ↦
          with_id-HasFirst env i id p ps body h n
            (ap (λ o. elim o [ none ↦ none | some x ↦ made x ]) (sym n) ∙ e)
    ]

-- A key that the invocation made of its run id, or the caller's, which no record holds.
abbrev pub IsNewKey : Invocation → String → Type 0
IsNewKey i key =
    ((i.key ≡ "") × (id : String) × (i.run_id ≡ some id) × (key ≡ id ++ ("-" ++ step_simulate)))
    ⊎ ((i.key ≢ "") × (key ≡ i.key) × (find_by_key i.key i.directory ≡ none))

unheld_key :
    (sha256 : Bytes → String) (es : List Entry) (key : String) (body : Bytes)
    → route sha256 es key body ≡ unmatched
    → key ≢ ""
    → find_by_key key es ≡ none
unfolding route
unheld_key sha256 es key body e n = elim (Option-cases (find_by_key key es)) [
  | inl none_held ↦ none_held
  | inr (k, held) ↦ absurd (ground (arith, eq_iff key ""))
]

-- The simulate step of a new run: it has the body, under a key that is new.
pub record IsSimulate (i : Invocation) (body : Bytes) (h : Handle) : Type 0 where
  pub step : Step
  pub found : find_step step_simulate h.run.steps ≡ some step
  pub has_body : step.body ≡ some body
  pub is_new : IsNewKey i step.idempotency_key

planned-IsNewKey :
    (i : Invocation) (id key : String) (single : Bool)
    → (not single && not (i.key == "")) ≡ false
    → i.run_id ≡ some id
    → (i.key ≢ "" → find_by_key i.key i.directory ≡ none)
    → key ≡ planned_key id i.key single step_simulate
    → IsNewKey i key
planned-IsNewKey i id key single b minted unheld e = elim (Bool-cases (i.key == "")) [
  | inl none_given ↦ inl ((eq_iff i.key "").0 none_given, id, minted, ground arith)
  | inr given ↦
      let n : i.key ≢ "" = ground (arith, eq_iff i.key "") in inr (n, ground arith, unheld n)
]

first-IsSimulate :
    (i : Invocation) (single : Bool) (body : Bytes) (h : Handle)
    → (not single && not (i.key == "")) ≡ false
    → (i.key ≢ "" → find_by_key i.key i.directory ≡ none)
    → HasFirst i single simulate_step body h
    → IsSimulate i body h
first-IsSimulate i single body h b unheld f = record {
  step = f.step;
  found = f.found;
  has_body = f.is_planned.body_is;
  is_new = planned-IsNewKey i f.run_id _ single b f.minted unheld f.is_planned.key_is;
}

plans-IsSimulate :
    (env : Env) (i : Invocation) (broadcasts : Bool) (body : Bytes) (h : Handle)
    → (broadcasts && not (i.key == "")) ≡ false
    → (i.key ≢ "" → find_by_key i.key i.directory ≡ none)
    → create env i (plans_of broadcasts) body ≡ some h
    → IsSimulate i body h
plans-IsSimulate env i true body h b unheld e =
    first-IsSimulate i false body h b unheld (create-HasFirst env i simulate_step _ body h e)
plans-IsSimulate env i false body h b unheld e =
    first-IsSimulate i true body h b unheld (create-HasFirst env i simulate_step [] body h e)

-- The run that `transfers create` makes has a simulate step with the body, under a new key.
pub create-IsSimulate :
    (env : Env) (i : Invocation) (body : Bytes) (h : Handle)
    → (i.broadcast && not (i.key == "")) ≡ false
    → route env.sha256 i.directory i.key body ≡ unmatched
    → create env i (plans_of i.broadcast) body ≡ some h
    → IsSimulate i body h
create-IsSimulate env i body h b routed e =
    plans-IsSimulate env i i.broadcast body h b
      (unheld_key env.sha256 i.directory i.key body routed) e
