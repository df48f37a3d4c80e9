-- ===== src/Transfers/Resume/Unasked.antt =====
-- A resumed simulate goes on into the execute without asking.
use ferry_cli.Base.{
  String, ◌==◌, eq_iff, ◌≡◌, ◌≢◌, refl, ◌∙◌, ap, sym, subst, Bool, true, false, Option, none, some,
  List, if◌then◌else◌, arith, is_some, eqb, not,
}
use ferry_cli.Api.Target.{Bytes}
use ferry_cli.Api.Client.{Result}
use ferry_cli.Poll.Watch.{got}
use ferry_cli.Consent.{Request, Terminal, granted, verdict, ask}
use ferry_cli.Cli.{Flag}
use ferry_cli.Runs.Step.{Step, find_step}
use ferry_cli.Runs.Ledger.{Env, Handle, call}
use ferry_cli.Runs.Ledger.LedgerOp.{begin}
use ferry_cli.Transfers.World.{answer_of, step_simulate, step_execute, Answer, Performed}
use ferry_cli.Transfers.Perform.{before_prompt}
use ferry_cli.Transfers.Forward.{granted_step-WriteAhead}
use ferry_cli.Transfers.Follow.{perform}
use ferry_cli.Transfers.Follow.Keeps.{perform-IsFollowed}
use ferry_cli.Transfers.Broadcast.{
  FlowWorld, consenting, fresh_plan_token, with_body, with_plan, executed, broadcast,
}
use ferry_cli.Transfers.Broadcast.Executes.{
  IsExecuted, followed-IsSentAs, sent-IsExecuted, plan_call,
}
use ferry_cli.Transfers.Resume.{resumable_step, resume_step, after_resumed, resume_found, resume}

headless_ask :
    (q : Request) (t : Terminal) (before : Handle → Handle × Bool) (h : Handle)
    → q.tty ≡ false
    → q.command_is_consent ≡ true
    → ask q t before h ≡ (h, verdict granted)
unfolding ask
headless_ask q t before h no_terminal consent = ground arith

-- What lets an execute through after a simulate that was answered by `a`: no terminal, a plan token and
-- its record, and a `Begin` and a client that do not fail.
pub record LetsThrough (env : Env) (w : FlowWorld) (h : Handle) (a : Answer) : Type 0 where
  pub no_terminal : w.execute.request.tty ≡ false
  pub priced : a.out.exit ≡ 0
  pub fresh : fresh_plan_token a ≢ ""
  pub planned : Handle
  pub plan_recorded : plan_call env w h a ≡ (planned, none)
  pub body : Bytes
  pub is_encoded : w.execute_body (fresh_plan_token a) ≡ some body
  pub quiet : w.execute.signal_before_send ≡ false
  pub begun : Handle
  pub has_begun :
      call env planned step_execute (begin (some body)) w.execute.begin_write ≡ (begun, none)
  pub reply : Result
  pub is_answered : w.execute.reply ≡ some (got reply)

if_first : {A : Type 0} (b : Bool) (x y : A) → b ≡ false → (if b then x else y) ≡ y
if_first b x y e = rw e refl

broadcast_is :
    (env : Env) (w : FlowWorld) (h : Handle) (f : Flag) (l : List (Option Bytes × String))
    (a : Answer) (g : LetsThrough env w h a)
    → broadcast env w h f l a
      ≡ executed a.simulation l (
          perform env
            (consenting true w.execute)
            w.follow_execute
            true
            step_execute
            (some g.body)
            g.planned
            f)
unfolding broadcast
broadcast_is env w h f l a g =
    if_first (not (eqb a.out.exit 0)) _ _ (ground (arith, g.priced))
    ∙ (if_first (fresh_plan_token a == "") _ _
          (ground (arith, g.fresh, eq_iff (fresh_plan_token a) ""))
        ∙ (ap (λ d. with_plan env w f l a (fresh_plan_token a) d) g.plan_recorded
            ∙ ap (λ o. with_body env w f l a g.planned o) g.is_encoded))

pub broadcast-IsExecuted :
    (env : Env) (w : FlowWorld) (h : Handle) (f : Flag) (l : List (Option Bytes × String))
    (a : Answer)
    → LetsThrough env w h a
    → IsExecuted env w h l a (broadcast env w h f l a)
broadcast-IsExecuted env w h f l a g =
    let v = consenting true w.execute in
    let ahead =
      granted_step-WriteAhead env v true step_execute (some g.body) g.planned g.begun f g.reply
        (headless_ask v.request v.terminal (before_prompt env v step_execute) g.planned
          g.no_terminal refl)
        g.quiet g.has_begun g.is_answered in
    let sent =
      followed-IsSentAs env v true step_execute (some g.body) g.planned _ _ ahead
        (perform-IsFollowed step_execute env v w.follow_execute true (some g.body) g.planned f) in
    rw (broadcast_is env w h f l a g) (
      sent-IsExecuted env w h f l a g.planned g.body _ g.priced g.fresh g.plan_recorded g.is_encoded
        sent)

continued_is :
    (env : Env) (w : FlowWorld) (name : String) (p : Performed) (a : Answer)
    → name ≡ step_simulate
    → is_some (find_step step_execute p.handle.run.steps) ≡ true
    → answer_of p.ended ≡ some a
    → after_resumed env w name p (answer_of p.ended) ≡ broadcast env w p.handle p.flag p.sends a
continued_is env w name p a is two answered = rw (answered, is, two) refl

-- A resume that is given no consent, with no `--yes` and no terminal, executes: if the step that it
-- acts on is the simulate of a run with an execute step, and the resent simulate comes back with
-- an answer that lets an execute through, then the execute is sent, although a resume is not consent.
pub resume-IsExecuted :
    (env : Env) (w : FlowWorld) (h : Handle) (f : Flag) (s : Step) (a : Answer)
    → w.execute.request.yes ≡ false
    → resumable_step false h.run.steps ≡ some s
    → s.name ≡ step_simulate
    → answer_of (resume_step env w s h f).ended ≡ some a
    → is_some (find_step step_execute (resume_step env w s h f).handle.run.steps) ≡ true
    → LetsThrough env w (resume_step env w s h f).handle a
    → IsExecuted env w
        (resume_step env w s h f).handle
        (resume_step env w s h f).sends
        a
        (resume env w h f)
unfolding resume
resume-IsExecuted env w h f s a unasked r name answered two g =
    let p = resume_step env w s h f in
    subst (IsExecuted env w p.handle p.sends a)
      (sym (ap (resume_found env w h f) r ∙ continued_is env w s.name p a name two answered))
      (broadcast-IsExecuted env w p.handle p.flag p.sends a g)
