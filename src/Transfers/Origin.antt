-- ===== src/Transfers/Origin.antt =====
-- What a step finds in the record before it is begun: the request that was recorded, whether or not the
-- confirmation is awaited by then.
use ferry_cli.Base.{String, ◌≡◌, ◌∙◌, ap, some, false, arith, inl, inr}
use ferry_cli.Runs.Step.{Step, find_step}
use ferry_cli.Runs.Ledger.{
  Env, Write, Handle, Change, refuse, nothing, save_step, with_step, perform, save, await_step,
  on_found, on_step, call,
}
use ferry_cli.Runs.Ledger.LedgerOp.{await_confirmation}
use ferry_cli.Runs.Ledger.Sent.{find_step-name}
use ferry_cli.Runs.Ledger.Begins.{find_step-put_step}
use ferry_cli.Transfers.World.{StepWorld}
use ferry_cli.Transfers.Sends.{IsOrigin}

-- The request of a step: its body and its key.
abbrev pub IsSameRequest : Step → Step → Type 0
IsSameRequest s t = (t.body ≡ s.body) × (t.idempotency_key ≡ s.idempotency_key)

-- A change that keeps the name and the request of its step, saved or not.
abbrev KeepsRequest : Step → Change → Type 0
KeepsRequest s (refuse why) = Unit
KeepsRequest s nothing = Unit
KeepsRequest s (save_step new back) =
    (new.name ≡ s.name) × (back.name ≡ s.name) × IsSameRequest s new × IsSameRequest s back

await_step-KeepsRequest : (s : Step) → KeepsRequest s (await_step s)
unfolding await_step
await_step-KeepsRequest s = ground arith

put_IsSame :
    (name : String) (h : Handle) (s t u : Step)
    → find_step name h.run.steps ≡ some s
    → u.name ≡ s.name
    → IsSameRequest s u
    → find_step name (with_step h name u).steps ≡ some t
    → IsSameRequest s t
put_IsSame name h s t u e n same g =
    let is : find_step name (with_step h name u).steps ≡ some u =
      find_step-put_step name u h.run.steps s e (n ∙ find_step-name name h.run.steps s e) in
    ground arith

perform-IsSame :
    (name : String) (h : Handle) (w : Write) (s t : Step) (c : Change)
    → find_step name h.run.steps ≡ some s
    → KeepsRequest s c
    → find_step name (perform h name w c).0.run.steps ≡ some t
    → IsSameRequest s t
unfolding save
perform-IsSame name h w s t (refuse why) e k g = ground arith
perform-IsSame name h w s t nothing e k g = ground arith
perform-IsSame name h w s t (save_step new back) e (m, n, a, b) g =
    ground (arith, put_IsSame name h s t new e m a, put_IsSame name h s t back e n b)

await-IsSame :
    (env : Env) (name : String) (h : Handle) (w : Write) (s t : Step)
    → find_step name h.run.steps ≡ some s
    → find_step name (call env h name await_confirmation w).0.run.steps ≡ some t
    → IsSameRequest s t
unfolding call on_step
await-IsSame env name h w s t e g =
    perform-IsSame name h w s t (await_step s) e (await_step-KeepsRequest s)
      (rw⁻¹ (ap (λ o. find_step name (on_found await_step h name w o).0.run.steps) e) g)

pub origin_same :
    (env : Env) (w : StepWorld) (name : String) (h before : Handle) (s t : Step)
    → IsOrigin env w false name h before
    → find_step name h.run.steps ≡ some s
    → find_step name before.run.steps ≡ some t
    → IsSameRequest s t
origin_same env w name h before s t (inl e) f g =
    let is : find_step name h.run.steps ≡ some t = rw⁻¹ e g in ground arith
origin_same env w name h before s t (inr e) f g =
    await-IsSame env name h w.await_write s t f (rw⁻¹ e g)
