-- ===== src/Transfers/Sends.antt =====
-- Nothing is sent but what the record on disk holds, and nothing without consent.
use ferry_cli.Base.{
  String, ◌==◌, ◌≡◌, ◌≢◌, refl, ◌∙◌, ap, Bool, true, false, Option, none, some, List, [], ◌∷◌,
  if◌then◌else◌, arith, ◌⊎◌, inl, inr,
}
use ferry_cli.Api.Target.{Bytes}
use ferry_cli.Api.Client.{Result}
use ferry_cli.Poll.Watch.{Reply, not_sent, got}
use ferry_cli.Consent.{granted, declined, unavailable, Asked, verdict, error, ask}
use ferry_cli.Cli.{Flag, on_flag, mark_sent, note_command}
use ferry_cli.Runs.Step.{State, Step, find_step}
use ferry_cli.Runs.Ledger.{Env, Write, LedgerError, Handle, LedgerOp, call, calls}
use ferry_cli.Runs.Ledger.LedgerOp.{begin, unreachable}
use ferry_cli.Runs.Ledger.Sent.{IsSentStep, calls-IsSent}
use ferry_cli.Runs.Ledger.Begins.{HasBegun, call-HasBegun, begun-IsSentStep}
use ferry_cli.Transfers.World.{step_execute, StepWorld, Performed, command_id}
use ferry_cli.Transfers.Perform.{
  before_prompt, closes, recorded, replied, sends_of, after_begin, send_step, on_asked,
  on_step_found, perform_step,
}

pub call-IsSentStep :
    (n : String) (env : Env) (h : Handle) (m : String) (op : LedgerOp) (w : Write)
    → IsSentStep n h
    → IsSentStep n (call env h m op w).0
unfolding calls
call-IsSentStep n env h m op w a = calls-IsSent n env h ((m, op, w) ∷ []) a

-- A step that sent something, under a flag that is set and with a record in which it may have been
-- sent, or one that sent nothing.
abbrev Sent : String → List (Option Bytes × String) → Performed → Type 0
Sent name sends p =
    (p.sends ≡ []) ⊎ ((p.sends ≡ sends) × (p.flag.sent ≡ true) × IsSentStep name p.handle)

module _ (env : Env) (w : StepWorld) (broadcast : Bool) (name : String) where
  if-Sent :
      (sends : List (Option Bytes × String)) (b : Bool) (x y : Performed)
      → Sent name sends x
      → Sent name sends y
      → Sent name sends (if b then x else y)
  if-Sent sends true x y a c = a
  if-Sent sends false x y a c = c

  recorded-Sent :
      (d : Handle × Option LedgerError) (f : Flag) (sends : List (Option Bytes × String))
      (r : Result)
      → f.sent ≡ true
      → IsSentStep name d.0
      → Sent name sends (recorded env w broadcast name d f sends r)
  recorded-Sent (h, some why) f sends r e a = inr (refl, e, a)
  recorded-Sent (h, none) f sends r e a =
      if-Sent sends (closes broadcast name r) _ _
        (inr (refl, e, call-IsSentStep name env h step_execute unreachable w.close_write a))
        (inr (refl, e, a))

  noted_sent : (id : String) (f : Flag) → f.sent ≡ true → (on_flag (note_command id) f).sent ≡ true
  unfolding on_flag
  noted_sent id f e = ground arith

  replied-Sent :
      (h : Handle) (f : Flag) (sends : List (Option Bytes × String)) (a : Option Reply)
      → f.sent ≡ true
      → IsSentStep name h
      → Sent name sends (replied env w broadcast name h f sends a)
  replied-Sent h f sends none e s = inl refl
  replied-Sent h f sends (some (not_sent why)) e s = inl refl
  replied-Sent h f sends (some (got r)) e s =
      if-Sent sends w.signal_after_send _ _ (inr (refl, e, s)) (
        recorded-Sent _ _ sends r (noted_sent (command_id r) f e)
          (call-IsSentStep name env h name _ w.record_write s))

  -- The record as it was found, or with the confirmation awaited.
  abbrev pub IsOrigin : Handle → Handle → Type 0
  IsOrigin h0 h = (h ≡ h0) ⊎ (h ≡ (before_prompt env w name h0).0)

  -- What a step that sends has done before, from the record that it found.
  pub record WriteAhead (body : Option Bytes) (h0 : Handle) (p : Performed) : Type 0 where
    pub before : Handle
    pub origin : IsOrigin h0 before
    pub begun : Handle
    pub step : Step
    pub began : call env before name (begin body) w.begin_write ≡ (begun, none)
    pub on_disk : find_step name begun.disk.steps ≡ some step
    pub is_pending : step.state ≡ State.pending
    pub has_body : (b : Bytes) × (step.body ≡ some b)
    pub sends_is : p.sends ≡ (step.body, step.idempotency_key) ∷ []
    pub flagged : p.flag.sent ≡ true
    pub stays_sent : IsSentStep name p.handle

  -- A step that sent nothing, or what it did before it sent.
  abbrev pub Sound : Option Bytes → Handle → Performed → Type 0
  Sound body h0 p = (p.sends ≡ []) ⊎ WriteAhead body h0 p

  Sound-after :
      (body : Option Bytes) (h0 h h' : Handle) (b : HasBegun env h h' name body) (p : Performed)
      → IsOrigin h0 h
      → call env h name (begin body) w.begin_write ≡ (h', none)
      → Sent name (sends_of (find_step name h'.run.steps)) p
      → Sound body h0 p
  Sound-after body h0 h h' b p o e (inl none_sent) = inl none_sent
  Sound-after body h0 h h' b p o e (inr (sent, flagged, stays)) = inr (record {
    before = h;
    origin = o;
    begun = h';
    step = b.after;
    began = e;
    on_disk = rw b.durable b.written;
    is_pending = b.begun.pending;
    has_body = b.begun.sent_body;
    sends_is = sent ∙ ap sends_of b.written;
    flagged = flagged;
    stays_sent = stays;
  })

  mark : (f : Flag) → (on_flag mark_sent f).sent ≡ true
  unfolding on_flag
  mark f = refl

  after_begin-Sound :
      (body : Option Bytes) (h0 h : Handle) (f : Flag) (d : Handle × Option LedgerError)
      → IsOrigin h0 h
      → call env h name (begin body) w.begin_write ≡ d
      → Sound body h0 (after_begin env w broadcast name f d)
  unfolding calls
  after_begin-Sound body h0 h f (h', some why) o e = inl refl
  after_begin-Sound body h0 h f (h', none) o e =
      Sound-after body h0 h h' (call-HasBegun env h h' name body w.begin_write e) _ o e (
        replied-Sent h' (on_flag mark_sent f) _ w.reply (mark f)
          (begun-IsSentStep env h h' name body w.begin_write [] e))

  if-Sound :
      (body : Option Bytes) (h0 : Handle) (b : Bool) (x y : Performed)
      → Sound body h0 x
      → Sound body h0 y
      → Sound body h0 (if b then x else y)
  if-Sound body h0 true x y a c = a
  if-Sound body h0 false x y a c = c

  send_step-Sound :
      (body : Option Bytes) (h0 h : Handle) (f : Flag)
      → IsOrigin h0 h
      → Sound body h0 (send_step env w broadcast name body h f)
  send_step-Sound body h0 h f o =
      if-Sound body h0 w.signal_before_send _ _ (inl refl)
        (after_begin-Sound body h0 h f (call env h name (begin body) w.begin_write) o refl)

  on_asked-Sound :
      (body : Option Bytes) (h0 : Handle) (f : Flag) (s : Step) (a : Handle × Asked)
      → IsOrigin h0 a.0
      → Sound body h0 (on_asked env w broadcast name body f s a)
  on_asked-Sound body h0 f s (h, error) o = inl refl
  on_asked-Sound body h0 f s (h, verdict granted) o = send_step-Sound body h0 h f o
  on_asked-Sound body h0 f s (h, verdict declined) o = inl refl
  on_asked-Sound body h0 f s (h, verdict unavailable) o = inl refl

  ask-IsOrigin : (h : Handle) → IsOrigin h (ask w.request w.terminal (before_prompt env w name) h).0
  unfolding ask
  ask-IsOrigin h = ground arith

  on_step_found-Sound :
      (body : Option Bytes) (h : Handle) (f : Flag) (o : Option Step)
      → Sound body h (on_step_found env w broadcast name body h f o)
  on_step_found-Sound body h f none = inl refl
  on_step_found-Sound body h f (some s) =
      if-Sound body h (name == step_execute) _ _
        (on_asked-Sound body h f s (ask w.request w.terminal (before_prompt env w name) h)
          (ask-IsOrigin h))
        (send_step-Sound body h h f (inl refl))

-- Write ahead: a money step either sends nothing, or sends one request, whose body and key are those
-- of the step that `Begin` had left pending on disk before, under a flag that is set; and in the
-- record that the step leaves, in memory and on disk, it may have been sent.
pub perform_step-Sound :
    (env : Env) (w : StepWorld) (broadcast : Bool) (name : String) (body : Option Bytes)
    (h : Handle) (f : Flag)
    → Sound env w broadcast name body h (perform_step env w broadcast name body h f)
unfolding perform_step
perform_step-Sound env w broadcast name body h f =
    on_step_found-Sound env w broadcast name body h f (find_step name h.run.steps)

-- A step that sent nothing and left the flag as it was.
abbrev pub IsQuiet : Flag → Performed → Type 0
IsQuiet f p = (p.sends ≡ []) × (p.flag ≡ f)

asked-IsQuiet :
    (env : Env) (w : StepWorld) (broadcast : Bool) (name : String) (body : Option Bytes) (f : Flag)
    (s : Step) (a : Handle × Asked)
    → a.1 ≢ verdict granted
    → IsQuiet f (on_asked env w broadcast name body f s a)
asked-IsQuiet env w broadcast name body f s (h, error) n = (refl, refl)
asked-IsQuiet env w broadcast name body f s (h, verdict granted) n = absurd (n refl)
asked-IsQuiet env w broadcast name body f s (h, verdict declined) n = (refl, refl)
asked-IsQuiet env w broadcast name body f s (h, verdict unavailable) n = (refl, refl)

found-IsQuiet :
    (env : Env) (w : StepWorld) (broadcast : Bool) (body : Option Bytes) (h : Handle) (f : Flag)
    (o : Option Step)
    → (ask w.request w.terminal (before_prompt env w step_execute) h).1 ≢ verdict granted
    → IsQuiet f (on_step_found env w broadcast step_execute body h f o)
found-IsQuiet env w broadcast body h f none n = (refl, refl)
found-IsQuiet env w broadcast body h f (some s) n =
    asked-IsQuiet env w broadcast step_execute body f s
      (ask w.request w.terminal (before_prompt env w step_execute) h) n

-- Without consent in this invocation an execute sends nothing and leaves the flag as it was,
-- whatever the record says of earlier ones.
pub perform_step-IsQuiet :
    (env : Env) (w : StepWorld) (broadcast : Bool) (body : Option Bytes) (h : Handle) (f : Flag)
    → (ask w.request w.terminal (before_prompt env w step_execute) h).1 ≢ verdict granted
    → IsQuiet f (perform_step env w broadcast step_execute body h f)
unfolding perform_step
perform_step-IsQuiet env w broadcast body h f n =
    found-IsQuiet env w broadcast body h f (find_step step_execute h.run.steps) n
