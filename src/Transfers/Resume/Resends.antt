-- ===== src/Transfers/Resume/Resends.antt =====
-- A resume sends what is recorded.
use ferry_cli.Base.{
  String, eq_iff, ◌≡◌, refl, ◌∙◌, ap, sym, Bool, true, false, Option, none, some, List, [], ◌∷◌,
  if◌then◌else◌, arith, ◌⊎◌, inl, inr,
}
use ferry_cli.Api.Target.{Bytes}
use ferry_cli.Cli.{Flag}
use ferry_cli.Runs.Step.{Step, find_step}
use ferry_cli.Runs.Ledger.{Env, Handle}
use ferry_cli.Transfers.World.{step_simulate, step_execute, StepWorld, Answer, answer_of, Performed}
use ferry_cli.Transfers.Origin.{origin_same}
use ferry_cli.Transfers.Broadcast.{FlowWorld, consenting}
use ferry_cli.Transfers.Broadcast.Executes.{
  IsSentAs, perform-IsSentAs, IsExecuted, broadcast-IsBroadcast,
}
use ferry_cli.Transfers.Resume.{
  resumable_step, world_of, follow_of, resend, resume_step, continues, after_resumed, resume,
}

-- Nothing was sent, or the recorded body under the recorded key.
abbrev pub IsRecorded : Step → Bytes → List (Option Bytes × String) → Type 0
IsRecorded s b sends = (sends ≡ []) ⊎ (sends ≡ (some b, s.idempotency_key) ∷ [])

sent-IsRecorded :
    (env : Env) (w : StepWorld) (name : String) (h : Handle) (p : Performed) (s : Step) (b : Bytes)
    → find_step name h.run.steps ≡ some s
    → s.body ≡ some b
    → IsSentAs env w name none h p
    → p.sends ≡ (some b, s.idempotency_key) ∷ []
sent-IsRecorded env w name h p s b e has a =
    let (body, key) = origin_same env w name h a.before s a.found a.origin e a.was_found in
    let is : some a.sent_body ≡ some b = sym (a.is_recorded refl) ∙ (body ∙ has) in
    a.sends_is
    ∙ (ap (λ o. (o, a.step.idempotency_key) ∷ []) is
        ∙ ap (λ k. (some b, k) ∷ []) (a.same_key ∙ key))

resend-IsRecorded :
    (env : Env) (w : FlowWorld) (name : String) (h : Handle) (f : Flag) (s : Step) (b : Bytes)
    → find_step name h.run.steps ≡ some s
    → s.body ≡ some b
    → IsRecorded s b (resend env w name none h f).sends
resend-IsRecorded env w name h f s b e has =
    elim (perform-IsSentAs env (consenting false (world_of w name)) (follow_of w name) false name
      none h f) [
        | inl none_sent ↦ inl none_sent
        | inr a ↦ inr (sent-IsRecorded env _ name h _ s b e has a)
      ]

abbrev pub IsMoneyStep : String → Type 0
IsMoneyStep name = (name ≡ step_simulate) ⊎ (name ≡ step_execute)

resume_step-resend :
    (env : Env) (w : FlowWorld) (h : Handle) (f : Flag) (s : Step) (b : Bytes)
    → IsMoneyStep s.name
    → s.body ≡ some b
    → resume_step env w s h f ≡ resend env w s.name none h f
unfolding resume_step
resume_step-resend env w h f s b (inl e) has = rw e refl
resume_step-resend env w h f s b (inr e) has = rw (e, has) refl

resume_step-IsRecorded :
    (env : Env) (w : FlowWorld) (h : Handle) (f : Flag) (s : Step) (b : Bytes)
    → IsMoneyStep s.name
    → find_step s.name h.run.steps ≡ some s
    → s.body ≡ some b
    → IsRecorded s b (resume_step env w s h f).sends
resume_step-IsRecorded env w h f s b m e has =
    rw (resume_step-resend env w h f s b m has) (resend-IsRecorded env w s.name h f s b e has)

-- What a resume of the step `s` with the body `b` sends: the recorded request, and after it, if the
-- step is the simulate, an execute as a broadcast sends it, from the record and the answer that the
-- resent step has left.
pub record IsResumed (env : Env) (w : FlowWorld) (h : Handle) (f : Flag) (s : Step) (b : Bytes)
    (p : Performed) : Type 0 where
  pub is_recorded : IsRecorded s b (resume_step env w s h f).sends
  pub rest :
      (p.sends ≡ (resume_step env w s h f).sends)
      ⊎ ((s.name ≡ step_simulate)
          × (a : Answer) × (answer_of (resume_step env w s h f).ended ≡ some a)
          × IsExecuted env w (resume_step env w s h f).handle (resume_step env w s h f).sends a p)

module _ (env : Env) (w : FlowWorld) (h : Handle) (f : Flag) (s : Step) (b : Bytes)
    (recorded : IsRecorded s b (resume_step env w s h f).sends) where
  if-IsResumed :
      (c : Bool) (x y : Performed)
      → (c ≡ true → IsResumed env w h f s b x)
      → IsResumed env w h f s b y
      → IsResumed env w h f s b (if c then x else y)
  if-IsResumed true x y u v = u refl
  if-IsResumed false x y u v = v

  continued : (g : Handle) → continues s.name g ≡ true → s.name ≡ step_simulate
  continued g e = ground (arith, eq_iff s.name step_simulate)

  after_resumed-IsResumed :
      (o : Option Answer)
      → answer_of (resume_step env w s h f).ended ≡ o
      → IsResumed env w h f s b (after_resumed env w s.name (resume_step env w s h f) o)
  after_resumed-IsResumed none answered = record { is_recorded = recorded; rest = inl refl }
  after_resumed-IsResumed (some a) answered =
      let p = resume_step env w s h f in
      if-IsResumed (continues s.name p.handle) _ _
        (λ c. record {
          is_recorded = recorded;
          rest = elim (broadcast-IsBroadcast env w p.handle p.flag p.sends a) [
            | inl e ↦ inl e
            | inr x ↦ inr (continued p.handle c, a, answered, x)
          ];
        })
        (record { is_recorded = recorded; rest = inl refl })

-- A resume of a step that holds a body sends nothing, or exactly the recorded bytes under the recorded
-- key; and after that, only if the step is a simulate and its resend has ended with an answer, one
-- execute, as a broadcast sends it after that answer and from the record that the resend has left: with
-- the body of a token that this very answer issued.
pub resume-IsResumed :
    (env : Env) (w : FlowWorld) (h : Handle) (f : Flag) (s : Step) (b : Bytes)
    → resumable_step false h.run.steps ≡ some s
    → find_step s.name h.run.steps ≡ some s
    → IsMoneyStep s.name
    → s.body ≡ some b
    → IsResumed env w h f s b (resume env w h f)
unfolding resume
resume-IsResumed env w h f s b r e m has = rw r (
    after_resumed-IsResumed env w h f s b (resume_step-IsRecorded env w h f s b m e has)
      (answer_of (resume_step env w s h f).ended) refl)
