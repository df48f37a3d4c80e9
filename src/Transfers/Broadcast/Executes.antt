-- ===== src/Transfers/Broadcast/Executes.antt =====
-- What a broadcast sends.
use ferry_cli.Base.{
  String, ◌==◌, eq_iff, ◌≡◌, ◌≢◌, refl, ◌∙◌, ap, sym, Bool, true, false, Option, none, some, List,
  [], ◌∷◌, ◌++◌, if◌then◌else◌, arith, ◌⊎◌, inl, inr, Bool-cases, Option-cases, eqb, not,
}
use mathlib.Core.List.{append-nil}
use ferry_cli.Api.Target.{Bytes}
use ferry_cli.Cli.{Flag}
use ferry_cli.Runs.Step.{State, Step, Run, find_step}
use ferry_cli.Runs.Ledger.{Env, LedgerError, Handle, call}
use ferry_cli.Runs.Ledger.LedgerOp.{begin, set_plan}
use ferry_cli.Runs.Ledger.Sent.{IsSentStep}
use ferry_cli.Runs.Ledger.Begins.{call-HasBegun, HasBegun}
use ferry_cli.Transfers.World.{step_execute, Simulation, StepWorld, Answer, Performed}
use ferry_cli.Transfers.Sends.{WriteAhead, IsOrigin, perform_step-Sound}
use ferry_cli.Transfers.Origin.{origin_same}
use ferry_cli.Transfers.Follow.{FollowWorld, perform}
use ferry_cli.Transfers.Follow.Keeps.{IsFollowed, perform-IsFollowed}
use ferry_cli.Transfers.Broadcast.{
  FlowWorld, consenting, fresh_plan_token, token_of, plan_record, with_body, with_plan, executed,
  broadcast,
}

-- The one request that `perform` sends: what it took from the record, and what it had written before.
pub record IsSentAs (env : Env) (w : StepWorld) (name : String) (body : Option Bytes) (h : Handle)
    (p : Performed) : Type 0 where
  pub before : Handle
  pub origin : IsOrigin env w false name h before
  pub found : Step
  pub was_found : find_step name before.run.steps ≡ some found
  pub begun : Handle
  pub began : call env before name (begin body) w.begin_write ≡ (begun, none)
  pub step : Step
  pub on_disk : find_step name begun.disk.steps ≡ some step
  pub is_pending : step.state ≡ State.pending
  pub same_key : step.idempotency_key ≡ found.idempotency_key
  pub sent_body : Bytes
  pub has_body : step.body ≡ some sent_body
  pub is_given : (b : Bytes) → body ≡ some b → sent_body ≡ b
  pub is_recorded : body ≡ none → found.body ≡ some sent_body
  pub sends_is : p.sends ≡ (some sent_body, step.idempotency_key) ∷ []
  pub flagged : p.flag.sent ≡ true
  pub stays_sent : IsSentStep name p.handle

-- The body of a step that `Begin` wrote is the one that it was given.
given :
    (env : Env) (h h' : Handle) (name : String) (body : Option Bytes) (b c : Bytes)
    (g : HasBegun env h h' name body)
    → g.after.body ≡ some c
    → body ≡ some b
    → c ≡ b
given env h h' name body b c g e is = ground (arith, (g.begun.body_taken b is).0)

pub same_found :
    (name : String) (d r : Run) (s t : Step)
    → find_step name d.steps ≡ some s
    → d ≡ r
    → find_step name r.steps ≡ some t
    → s ≡ t
same_found name d r s t e same f = ground arith

pub followed-IsSentAs :
    (env : Env) (w : StepWorld) (broadcasts : Bool) (name : String) (body : Option Bytes)
    (h : Handle) (p q : Performed)
    → WriteAhead env w broadcasts name body h p
    → IsFollowed name p q
    → IsSentAs env w name body h q
followed-IsSentAs env w broadcasts name body h p q a k =
    let g = call-HasBegun env a.before a.begun name body w.begin_write a.began in
    let same : a.step ≡ g.after =
      same_found name a.begun.disk a.begun.run a.step g.after a.on_disk g.durable g.written in
    let (c, has) = g.begun.sent_body in
    record {
      before = a.before;
      origin = a.origin;
      found = g.before;
      was_found = g.found;
      begun = a.begun;
      began = a.began;
      step = g.after;
      on_disk = ap (λ d. find_step name d.steps) g.durable ∙ g.written;
      is_pending = g.begun.pending;
      same_key = g.begun.same_key;
      sent_body = c;
      has_body = has;
      is_given = λ b is. given env _ _ name body b c g has is;
      is_recorded = λ is. sym ((g.begun.body_kept is).0) ∙ has;
      sends_is =
          k.sends
          ∙ (a.sends_is
              ∙ (ap (λ s. (s.body, s.idempotency_key) ∷ []) same
                  ∙ ap (λ o. (o, g.after.idempotency_key) ∷ []) has));
      flagged = ap (λ f. f.sent) k.flag ∙ a.flagged;
      stays_sent = k.stays_sent a.stays_sent;
    }

-- `perform` sends nothing, or the one request of its step.
pub perform-IsSentAs :
    (env : Env) (w : StepWorld) (fw : FollowWorld) (broadcasts : Bool) (name : String)
    (body : Option Bytes) (h : Handle) (f : Flag)
    → ((perform env w fw broadcasts name body h f).sends ≡ [])
      ⊎ IsSentAs env w name body h (perform env w fw broadcasts name body h f)
perform-IsSentAs env w fw broadcasts name body h f =
    let k = perform-IsFollowed name env w fw broadcasts body h f in
    elim (perform_step-Sound env w broadcasts name body h f) [
      | inl e ↦ inl (k.sends ∙ e)
      | inr a ↦ inr (followed-IsSentAs env w broadcasts name body h _ _ a k)
    ]

-- The execute that a broadcast sends after the requests `sends`, which an invocation had sent when its
-- simulate was answered by `a`.
pub record IsExecuted (env : Env) (w : FlowWorld) (h : Handle)
    (sends : List (Option Bytes × String)) (a : Answer) (p : Performed) : Type 0 where
  pub priced : a.out.exit ≡ 0
  pub not_replayed : a.res.meta.replayed ≡ false
  pub token : String
  pub is_issued : (s : Simulation) × (a.simulation ≡ some s) × (s.plan_token ≡ some token)
  pub not_empty : token ≢ ""
  pub planned : Handle
  pub plan_recorded :
      call env h step_execute (set_plan (plan_record a.simulation) token) w.plan_write
      ≡ (planned, none)
  pub body : Bytes
  pub is_encoded : w.execute_body token ≡ some body
  pub before : Handle
  pub origin : IsOrigin env (consenting true w.execute) false step_execute planned before
  pub begun : Handle
  pub began : call env before step_execute (begin (some body)) w.execute.begin_write ≡ (begun, none)
  pub step : Step
  pub on_disk : find_step step_execute begun.disk.steps ≡ some step
  pub is_pending : step.state ≡ State.pending
  pub has_body : step.body ≡ some body
  pub same_key :
      (s : Step)
      → find_step step_execute planned.run.steps ≡ some s
      → step.idempotency_key ≡ s.idempotency_key
  pub sends_is : p.sends ≡ sends ++ (some body, step.idempotency_key) ∷ []
  pub flagged : p.flag.sent ≡ true
  pub stays_sent : IsSentStep step_execute p.handle

token_of-some :
    (o : Option Simulation)
    → token_of o ≢ ""
    → (s : Simulation) × (o ≡ some s) × (s.plan_token ≡ some (token_of o))
token_of-some none n = absurd (n refl)
token_of-some (some s) n = elim (Option-cases s.plan_token) [
  | inl e ↦ absurd (n (ground arith))
  | inr (t, e) ↦ (s, refl, ground arith)
]

-- A token that is fresh was issued by an answer that is not a replay.
fresh_is :
    (a : Answer)
    → fresh_plan_token a ≢ ""
    → (a.res.meta.replayed ≡ false)
      × (s : Simulation) × (a.simulation ≡ some s)
      × (s.plan_token ≡ some (fresh_plan_token a))
unfolding fresh_plan_token
fresh_is a n = elim (Bool-cases a.res.meta.replayed) [
  | inl e ↦ absurd (n (ground arith))
  | inr e ↦
      let (s, is, t) = token_of-some a.simulation (λ empty. n (rw e empty)) in (e, s, is, rw e t)
]

-- Nothing was sent after the simulate, or an execute was.
abbrev pub IsBroadcast :
    Env → FlowWorld → Handle → List (Option Bytes × String) → Answer → Performed → Type 0
IsBroadcast env w h sends a p = (p.sends ≡ sends) ⊎ IsExecuted env w h sends a p

-- The record of the plan and its token.
abbrev pub plan_call : Env → FlowWorld → Handle → Answer → Handle × Option LedgerError
plan_call env w h a =
    call env h step_execute (set_plan (plan_record a.simulation) (fresh_plan_token a)) w.plan_write

module _ (env : Env) (w : FlowWorld) (h : Handle) (f : Flag) (l : List (Option Bytes × String))
    (a : Answer) where
  pub sent-IsExecuted :
      (planned : Handle) (b : Bytes) (p : Performed)
      → a.out.exit ≡ 0
      → fresh_plan_token a ≢ ""
      → plan_call env w h a ≡ (planned, none)
      → w.execute_body (fresh_plan_token a) ≡ some b
      → IsSentAs env (consenting true w.execute) step_execute (some b) planned p
      → IsExecuted env w h l a (executed a.simulation l p)
  sent-IsExecuted planned b p z n r e s =
      let (fresh, sim, is, t) = fresh_is a n in
      record {
        priced = z;
        not_replayed = fresh;
        token = fresh_plan_token a;
        is_issued = (sim, is, t);
        not_empty = n;
        planned = planned;
        plan_recorded = r;
        body = b;
        is_encoded = e;
        before = s.before;
        origin = s.origin;
        begun = s.begun;
        began = s.began;
        step = s.step;
        on_disk = s.on_disk;
        is_pending = s.is_pending;
        has_body = s.has_body ∙ ap some (s.is_given b refl);
        same_key = λ t found.
            s.same_key
            ∙ (origin_same env (consenting true w.execute) step_execute planned s.before t s.found
                s.origin found s.was_found).1;
        sends_is =
            ap (λ x. l ++ x) s.sends_is
            ∙ ap (λ c. l ++ (some c, s.step.idempotency_key) ∷ []) (s.is_given b refl);
        flagged = s.flagged;
        stays_sent = s.stays_sent;
      }

  with_body-IsBroadcast :
      (planned : Handle) (o : Option Bytes)
      → a.out.exit ≡ 0
      → fresh_plan_token a ≢ ""
      → plan_call env w h a ≡ (planned, none)
      → w.execute_body (fresh_plan_token a) ≡ o
      → IsBroadcast env w h l a (with_body env w f l a planned o)
  with_body-IsBroadcast planned none z n r e = inl refl
  with_body-IsBroadcast planned (some b) z n r e =
      elim (perform-IsSentAs env (consenting true w.execute) w.follow_execute true step_execute
        (some b) planned f) [
          | inl none_sent ↦ inl (ap (λ x. l ++ x) none_sent ∙ append-nil l)
          | inr s ↦ inr (sent-IsExecuted planned b _ z n r e s)
        ]

  with_plan-IsBroadcast :
      (d : Handle × Option LedgerError)
      → a.out.exit ≡ 0
      → fresh_plan_token a ≢ ""
      → plan_call env w h a ≡ d
      → IsBroadcast env w h l a (with_plan env w f l a (fresh_plan_token a) d)
  with_plan-IsBroadcast (planned, some why) z n r = inl refl
  with_plan-IsBroadcast (planned, none) z n r =
      with_body-IsBroadcast planned (w.execute_body (fresh_plan_token a)) z n r refl

  if-IsBroadcast :
      (b : Bool) (x y : Performed)
      → IsBroadcast env w h l a x
      → (b ≡ false → IsBroadcast env w h l a y)
      → IsBroadcast env w h l a (if b then x else y)
  if-IsBroadcast true x y c d = c
  if-IsBroadcast false x y c d = d refl

-- A broadcast sends nothing after the simulate, or one execute, and that only after a simulate that
-- exited 0, was not replayed and issued a plan token that is not empty: the plan and the token were
-- recorded on the execute step first, and the body is the one made of that very token. The request
-- carries that body and the key of the step that the call of `Begin` with it, from the planned record,
-- has left pending on disk, which is the key that the planned record holds; the flag is set, and the
-- step may have been sent in the record that is left.
pub broadcast-IsBroadcast :
    (env : Env) (w : FlowWorld) (h : Handle) (f : Flag) (l : List (Option Bytes × String))
    (a : Answer)
    → IsBroadcast env w h l a (broadcast env w h f l a)
unfolding broadcast
broadcast-IsBroadcast env w h f l a =
    if-IsBroadcast env w h f l a (not (eqb a.out.exit 0)) _ _ (inl refl) (λ z.
      if-IsBroadcast env w h f l a (fresh_plan_token a == "") _ _ (inl refl) (λ n.
        with_plan-IsBroadcast env w h f l a _ (ground arith)
          (λ e. ground (arith, eq_iff (fresh_plan_token a) "")) refl))
