-- ===== src/Transfers/Follow/Keeps.antt =====
-- Following a command sends no money request, and keeps the flag and the sent step.
use ferry_cli.Base.{ℕ, String, ◌≡◌, refl, Bool, true, false, Option, none, some, if◌then◌else◌}
use ferry_cli.Api.Target.{Bytes}
use ferry_cli.Cli.{Flag}
use ferry_cli.Poll.Watch.{Watched, no_command_id, stopped, interrupted, failed, watching}
use ferry_cli.Runs.Ledger.{Env, LedgerError, Handle}
use ferry_cli.Runs.Ledger.Sent.{IsSentStep}
use ferry_cli.Transfers.World.{Printer, StepWorld, Answer, Ended, Performed}
use ferry_cli.Transfers.Perform.{perform_step}
use ferry_cli.Transfers.Sends.{call-IsSentStep}
use ferry_cli.Transfers.Follow.{
  FollowWorld, on_target, on_watched, on_recorded, record_poll, poll_target, after_step, follow_up,
  perform,
}

module _ (name : String) where
  if-IsSentStep :
      (b : Bool) (x y : Handle × Ended)
      → IsSentStep name x.0
      → IsSentStep name y.0
      → IsSentStep name (if b then x else y).0
  if-IsSentStep true x y a c = a
  if-IsSentStep false x y a c = c

  on_recorded-IsSentStep :
      (a : Answer) (d : Handle × Option LedgerError)
      → IsSentStep name d.0
      → IsSentStep name (on_recorded a d).0
  on_recorded-IsSentStep a (h, none) s = s
  on_recorded-IsSentStep a (h, some why) s = s

  record_poll-IsSentStep :
      (env : Env) (p : Printer) (w : FollowWorld) (h : Handle) (a : Answer)
      → IsSentStep name h
      → IsSentStep name (record_poll env p w name h a).0
  unfolding record_poll
  record_poll-IsSentStep env p w h a s =
      if-IsSentStep _ _ _ (on_recorded-IsSentStep a _ (call-IsSentStep name env h name _ _ s)) s

  on_watched-IsSentStep :
      (env : Env) (p : Printer) (w : FollowWorld) (h : Handle) (a : Answer) (id : String)
      (r : Watched)
      → IsSentStep name h
      → IsSentStep name (on_watched env p w name h a id r).0
  on_watched-IsSentStep env p w h a id no_command_id s = s
  on_watched-IsSentStep env p w h a id (stopped seen) s = record_poll-IsSentStep env p w h _ s
  on_watched-IsSentStep env p w h a id (interrupted seen) s = s
  on_watched-IsSentStep env p w h a id (failed seen why) s = s
  on_watched-IsSentStep env p w h a id watching s = s

  on_target-IsSentStep :
      (env : Env) (p : Printer) (w : FollowWorld) (h : Handle) (a : Answer)
      (t : Option (String × ℕ))
      → IsSentStep name h
      → IsSentStep name (on_target env p w name h a t).0
  on_target-IsSentStep env p w h a none s = s
  on_target-IsSentStep env p w h a (some (id, delay)) s =
      if-IsSentStep w.no_wait _ _ s (on_watched-IsSentStep env p w h a id _ s)

  -- Following a command sends no money request, leaves the flag, and keeps the step as sent.
  pub record IsFollowed (before after : Performed) : Type 0 where
    pub sends : after.sends ≡ before.sends
    pub flag : after.flag ≡ before.flag
    pub stays_sent : IsSentStep name before.handle → IsSentStep name after.handle

  after_step-IsFollowed :
      (env : Env) (p : Printer) (w : FollowWorld) (done : Performed) (o : Option Answer)
      → IsFollowed done (after_step env p w name done o)
  unfolding follow_up
  after_step-IsFollowed env p w done none = record {
    sends = refl;
    flag = refl;
    stays_sent = λ s. s;
  }
  after_step-IsFollowed env p w done (some a) = record {
    sends = refl;
    flag = refl;
    stays_sent = on_target-IsSentStep env p w done.handle a (poll_target a);
  }

  pub perform-IsFollowed :
      (env : Env) (w : StepWorld) (fw : FollowWorld) (broadcasts : Bool) (body : Option Bytes)
      (h : Handle) (f : Flag)
      → IsFollowed
          (perform_step env w broadcasts name body h f)
          (perform env w fw broadcasts name body h f)
  unfolding perform
  perform-IsFollowed env w fw broadcasts body h f = after_step-IsFollowed env w.printer fw _ _
