-- ===== src/Transfers/Forward.antt =====
-- A step that is agreed to, begun and answered does send.
use ferry_cli.Base.{
  String, ◌==◌, ◌≡◌, refl, ◌∙◌, ap, Bool, true, false, Option, none, some, List, [], if◌then◌else◌,
  arith, inl, inr,
}
use ferry_cli.Api.Target.{Bytes}
use ferry_cli.Api.Client.{Result}
use ferry_cli.Poll.Watch.{got}
use ferry_cli.Consent.{granted, verdict, ask}
use ferry_cli.Consent.{Request, Terminal}
use ferry_cli.Cli.{Flag, on_flag, mark_sent}
use ferry_cli.Runs.Step.{Step, find_step}
use ferry_cli.Runs.Ledger.{Env, LedgerError, Handle, call}
use ferry_cli.Runs.Ledger.LedgerOp.{begin}
use ferry_cli.Runs.Ledger.Begins.{call-HasBegun}
use ferry_cli.Transfers.World.{step_execute, StepWorld, Performed}
use ferry_cli.Transfers.Perform.{
  before_prompt, closes, recorded, replied, sends_of, after_begin, send_step, on_asked,
  on_step_found, perform_step,
}
use ferry_cli.Transfers.Sends.{WriteAhead, perform_step-Sound}

module _ (l : List (Option Bytes × String)) where
  if_sends :
      (b : Bool) (x y : Performed) → x.sends ≡ l → y.sends ≡ l → (if b then x else y).sends ≡ l
  if_sends true x y a c = a
  if_sends false x y a c = c

  recorded_sends :
      (env : Env) (w : StepWorld) (broadcast : Bool) (name : String)
      (d : Handle × Option LedgerError) (f : Flag) (r : Result)
      → (recorded env w broadcast name d f l r).sends ≡ l
  recorded_sends env w broadcast name (h, some why) f r = refl
  recorded_sends env w broadcast name (h, none) f r =
      if_sends (closes broadcast name r) _ _ refl refl

  replied_sends :
      (env : Env) (w : StepWorld) (broadcast : Bool) (name : String) (h : Handle) (f : Flag)
      (r : Result)
      → (replied env w broadcast name h f l (some (got r))).sends ≡ l
  replied_sends env w broadcast name h f r =
      if_sends w.signal_after_send _ _ refl (recorded_sends env w broadcast name _ _ r)

if_false : (b : Bool) (x y : Performed) → b ≡ false → (if b then x else y).sends ≡ y.sends
if_false b x y e = rw e refl

-- A step whose `Begin` returned without an error, before a reply.
begun_sends :
    (env : Env) (w : StepWorld) (broadcast : Bool) (name : String) (body : Option Bytes)
    (h h' : Handle) (f : Flag) (r : Result)
    → w.signal_before_send ≡ false
    → call env h name (begin body) w.begin_write ≡ (h', none)
    → w.reply ≡ some (got r)
    → (send_step env w broadcast name body h f).sends ≡ sends_of (find_step name h'.run.steps)
begun_sends env w broadcast name body h h' f r quiet e reply =
    if_false w.signal_before_send _ _ quiet
    ∙ (ap (λ d. (after_begin env w broadcast name f d).sends) e
        ∙ (ap
              (λ a.
                (replied env w broadcast name h' (on_flag mark_sent f)
                  (sends_of (find_step name h'.run.steps)) a).sends)
              reply
            ∙ replied_sends (sends_of (find_step name h'.run.steps)) env w broadcast name h'
                (on_flag mark_sent f) r))

agreed_ask :
    (q : Request) (t : Terminal) (before : Handle → Handle × Bool) (h : Handle)
    → q.yes ≡ true
    → ask q t before h ≡ (h, verdict granted)
unfolding ask
agreed_ask q t before h e = ground arith

granted_sends :
    (env : Env) (w : StepWorld) (broadcast : Bool) (name : String) (body : Option Bytes)
    (h : Handle) (f : Flag) (s : Step)
    → find_step name h.run.steps ≡ some s
    → ask w.request w.terminal (before_prompt env w name) h ≡ (h, verdict granted)
    → (perform_step env w broadcast name body h f).sends
      ≡ (send_step env w broadcast name body h f).sends
unfolding perform_step
granted_sends env w broadcast name body h f s found asked =
    ap (λ o. (on_step_found env w broadcast name body h f o).sends) found
    ∙ if_sends (send_step env w broadcast name body h f).sends (name == step_execute) _ _
        (ap (λ a. (on_asked env w broadcast name body f s a).sends) asked) refl

contradicted : (p : Performed) (t : Step) → p.sends ≡ [] → p.sends ≡ sends_of (some t) → ⊥
contradicted p t e g = ground arith

-- A step whose consent is given, begun and answered.
pub granted_step-WriteAhead :
    (env : Env) (w : StepWorld) (broadcast : Bool) (name : String) (body : Option Bytes)
    (h h' : Handle) (f : Flag) (r : Result)
    → ask w.request w.terminal (before_prompt env w name) h ≡ (h, verdict granted)
    → w.signal_before_send ≡ false
    → call env h name (begin body) w.begin_write ≡ (h', none)
    → w.reply ≡ some (got r)
    → WriteAhead env w broadcast name body h (perform_step env w broadcast name body h f)
granted_step-WriteAhead env w broadcast name body h h' f r asked quiet e reply =
    let b = call-HasBegun env h h' name body w.begin_write e in
    let sends =
      granted_sends env w broadcast name body h f b.before b.found asked
      ∙ (begun_sends env w broadcast name body h h' f r quiet e reply ∙ ap sends_of b.written) in
    elim (perform_step-Sound env w broadcast name body h f) [
      | inl nothing_sent ↦
          absurd
            (contradicted (perform_step env w broadcast name body h f) b.after nothing_sent sends)
      | inr ahead ↦ ahead
    ]

-- With `--yes`, no signal before the send, a `Begin` that returns without an
-- error and a client that sends, the step sends one request, whose body and
-- key are those of the step that `Begin` had left pending on disk.
pub perform_step-WriteAhead :
    (env : Env) (w : StepWorld) (broadcast : Bool) (name : String) (body : Option Bytes)
    (h h' : Handle) (f : Flag) (r : Result)
    → w.request.yes ≡ true
    → w.signal_before_send ≡ false
    → call env h name (begin body) w.begin_write ≡ (h', none)
    → w.reply ≡ some (got r)
    → WriteAhead env w broadcast name body h (perform_step env w broadcast name body h f)
perform_step-WriteAhead env w broadcast name body h h' f r agreed quiet e reply =
    granted_step-WriteAhead env w broadcast name body h h' f r
      (agreed_ask w.request w.terminal (before_prompt env w name) h agreed) quiet e reply
