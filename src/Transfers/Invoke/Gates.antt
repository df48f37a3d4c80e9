-- ===== src/Transfers/Invoke/Gates.antt =====
-- What `transfers create` sends, and what it has checked before.
use ferry_cli.Base.{
  String, ◌==◌, eq_iff, ◌≡◌, refl, ◌∙◌, ap, Bool, true, false, Option, none, some, List, [], ◌∷◌,
  if◌then◌else◌, arith, ◌⊎◌, inl, inr, not, ◌&&◌, Option-cases,
}
use ferry_cli.Api.Target.{Bytes}
use ferry_cli.Cli.{Flag}
use ferry_cli.Runs.Step.{Step, find_step}
use ferry_cli.Runs.Ledger.{Env, Handle}
use ferry_cli.Runs.Sweep.{Entry, KeyMatch, find_by_key}
use ferry_cli.Transfers.World.{answer_of, step_simulate, Answer, Performed}
use ferry_cli.Transfers.Broadcast.{FlowWorld, consenting}
use ferry_cli.Transfers.Broadcast.Executes.{
  IsSentAs, perform-IsSentAs, IsExecuted, broadcast-IsBroadcast,
}
use ferry_cli.Transfers.Resume.{
  is_other_holder, Opened, not_found, locked, held_by_us, open_run, resume,
}
use ferry_cli.Transfers.Origin.{origin_same}
use ferry_cli.Transfers.Create.{
  Invocation, Invoked, held, Routed, route_refused, matched, unmatched, route_match, route,
  orphan_check, simulate_step, create,
}
use ferry_cli.Transfers.Invoke.Minted.{IsSimulate, create-IsSimulate}
use ferry_cli.Transfers.Invoke.{
  holds_first, with_sessions, noted, resume_opened, resume_matched, start_step, after_simulate,
  create_created, plans_of, create_routed, run_create,
}

-- The simulate of a new run, as `transfers create` performs it.
abbrev pub simulation : Env → FlowWorld → Invocation → Bytes → Flag → Handle → Performed
simulation env w i body f h =
    start_step env w.simulate w.follow_simulate i.broadcast simulate_step body h (noted h f)

-- The requests of the simulate: none, or the caller's bytes under the key of the step.
abbrev pub IsFirst : Step → Bytes → List (Option Bytes × String) → Type 0
IsFirst s body first = (first ≡ []) ⊎ (first ≡ (some body, s.idempotency_key) ∷ [])

-- A new run, which no orphan and no earlier use of its key forbade: its simulate, and after it, if it
-- has ended with an answer, an execute from that answer and from the record that it has left.
pub record IsStarted (env : Env) (w : FlowWorld) (i : Invocation) (body : Bytes) (f : Flag)
    (p : Invoked) : Type 0 where
  pub checked : orphan_check i [] ≡ true
  pub unheld : route env.sha256 i.directory i.key body ≡ unmatched
  pub handle : Handle
  pub created : create env i (plans_of i.broadcast) body ≡ some handle
  pub simulate : IsSimulate i body handle
  pub is_first : IsFirst simulate.step body (simulation env w i body f handle).sends
  pub run : Performed
  pub is_run : p ≡ held run
  pub rest :
      (run.sends ≡ (simulation env w i body f handle).sends)
      ⊎ ((i.broadcast ≡ true)
          × (a : Answer) × (answer_of (simulation env w i body f handle).ended ≡ some a)
          × IsExecuted env w
              (simulation env w i body f handle).handle
              (simulation env w i body f handle).sends
              a
              run)

-- The resume of the run that holds the key, against the same bytes, past the other orphans.
pub record IsMatched (env : Env) (w : FlowWorld) (i : Invocation) (body : Bytes) (f : Flag)
    (p : Invoked) : Type 0 where
  pub match : KeyMatch
  pub holds_key : find_by_key i.key i.directory ≡ some match
  pub same_bytes : match.step.body_sha256 ≡ some (env.sha256 body)
  pub checked : orphan_check i (match.run.run_id ∷ []) ≡ true
  pub handle : Handle
  pub opened : open_run match.run.run_id i.directory ≡ held_by_us handle
  pub has_session : holds_first (plans_of i.broadcast) handle.run.steps ≡ true
  pub same_holder : is_other_holder handle.run i.holder ≡ false
  pub is_resume :
      p ≡ held (resume env (with_sessions (plans_of i.broadcast) w) handle (noted handle f))

match_is :
    (digest : String) (o : Option KeyMatch) (k : KeyMatch)
    → route_match digest o ≡ matched k
    → (o ≡ some k) × (k.step.body_sha256 ≡ some digest)
match_is digest none k e = absurd (ground arith)
match_is digest (some m) k e = elim (Option-cases m.step.body_sha256) [
  | inl n ↦ absurd (ground arith)
  | inr (d, n) ↦ (ground arith, ground (arith, eq_iff d digest))
]

route_matched :
    (sha256 : Bytes → String) (es : List Entry) (key : String) (body : Bytes) (k : KeyMatch)
    → route sha256 es key body ≡ matched k
    → (find_by_key key es ≡ some k) × (k.step.body_sha256 ≡ some (sha256 body))
unfolding route
route_matched sha256 es key body k e = match_is (sha256 body) (find_by_key key es) k (ground arith)

module _ (env : Env) (w : FlowWorld) (i : Invocation) (body : Bytes) (f : Flag) where
  abbrev pub IsInvoked : Invoked → Type 0
  IsInvoked p = (p.sends ≡ []) ⊎ IsStarted env w i body f p ⊎ IsMatched env w i body f p

  if-IsInvoked :
      (b : Bool) (x y : Invoked)
      → (b ≡ true → IsInvoked x)
      → (b ≡ false → IsInvoked y)
      → IsInvoked (if b then x else y)
  if-IsInvoked true x y u v = u refl
  if-IsInvoked false x y u v = v refl

  module _ (k : KeyMatch) (routed : route env.sha256 i.directory i.key body ≡ matched k) where
    opened-IsInvoked :
        (o : Opened)
        → open_run k.run.run_id i.directory ≡ o
        → IsInvoked
            (resume_opened env w (plans_of i.broadcast) i (orphan_check i (k.run.run_id ∷ [])) f o)
    opened-IsInvoked not_found e = inl refl
    opened-IsInvoked locked e = inl refl
    opened-IsInvoked (held_by_us h) e =
        if-IsInvoked (not (holds_first (plans_of i.broadcast) h.run.steps)) _ _ (λ x. inl refl)
          (λ has.
            if-IsInvoked (is_other_holder h.run i.holder) _ _ (λ x. inl refl)
              (λ same.
                if-IsInvoked (not (orphan_check i (k.run.run_id ∷ []))) _ _ (λ x. inl refl)
                  (λ checked. inr (
                    inr (record {
                      has_session = ground arith;
                      match = k;
                      holds_key = (route_matched env.sha256 i.directory i.key body k routed).0;
                      same_bytes = (route_matched env.sha256 i.directory i.key body k routed).1;
                      checked = ground arith;
                      handle = h;
                      opened = e;
                      same_holder = same;
                      is_resume = refl;
                    })))))

  first-IsFirst :
      (h : Handle) (s : Step) (p : Performed)
      → find_step step_simulate h.run.steps ≡ some s
      → IsSentAs env (consenting true w.simulate) step_simulate (some body) h p
      → IsFirst s body p.sends
  first-IsFirst h s p found a =
      let key =
        a.same_key
        ∙ (origin_same env (consenting true w.simulate) step_simulate h a.before s a.found a.origin
            found a.was_found).1 in
      inr (
        a.sends_is
        ∙ (ap (λ c. (some c, a.step.idempotency_key) ∷ []) (a.is_given body refl)
            ∙ ap (λ k. (some body, k) ∷ []) key))

  simulation-IsFirst :
      (h : Handle) (s : Step)
      → find_step step_simulate h.run.steps ≡ some s
      → IsFirst s body (simulation env w i body f h).sends
  simulation-IsFirst h s found =
      elim (perform-IsSentAs env (consenting true w.simulate) w.follow_simulate i.broadcast
        step_simulate (some body) h (noted h f)) [
          | inl none_sent ↦ inl none_sent
          | inr a ↦ first-IsFirst h s _ found a
        ]

  module _ (checked : orphan_check i [] ≡ true)
      (unheld : route env.sha256 i.directory i.key body ≡ unmatched)
      (keyed : (i.broadcast && not (i.key == "")) ≡ false) where
    if_run :
        (b : Bool) (x y : Performed)
        → (b ≡ true → IsInvoked (held x))
        → IsInvoked (held y)
        → IsInvoked (held (if b then x else y))
    if_run true x y u v = u refl
    if_run false x y u v = v

    started :
        (h : Handle) (q : Performed)
        → create env i (plans_of i.broadcast) body ≡ some h
        → (q.sends ≡ (simulation env w i body f h).sends)
          ⊎ ((i.broadcast ≡ true)
              × (a : Answer) × (answer_of (simulation env w i body f h).ended ≡ some a)
              × IsExecuted env w
                  (simulation env w i body f h).handle
                  (simulation env w i body f h).sends
                  a
                  q)
        → IsInvoked (held q)
    started h q e rest =
        let s = create-IsSimulate env i body h keyed unheld e in
        inr (
          inl (record {
            checked = checked;
            unheld = unheld;
            handle = h;
            created = e;
            simulate = s;
            is_first = simulation-IsFirst h s.step s.found;
            run = q;
            is_run = refl;
            rest = rest;
          }))

    after-IsInvoked :
        (h : Handle) (o : Option Answer)
        → create env i (plans_of i.broadcast) body ≡ some h
        → answer_of (simulation env w i body f h).ended ≡ o
        → IsInvoked (held (after_simulate env w i.broadcast (simulation env w i body f h) o))
    after-IsInvoked h none e answered = started h (simulation env w i body f h) e (inl refl)
    after-IsInvoked h (some a) e answered =
        let p = simulation env w i body f h in
        if_run i.broadcast _ _
          (λ b. started h _ e (elim (broadcast-IsBroadcast env w p.handle p.flag p.sends a) [
            | inl same ↦ inl same
            | inr x ↦ inr (b, a, answered, x)
          ]))
          (started h p e (inl refl))

    created-IsInvoked :
        (o : Option Handle)
        → create env i (plans_of i.broadcast) body ≡ o
        → IsInvoked (create_created env w i body f o)
    created-IsInvoked none e = inl refl
    created-IsInvoked (some h) e =
        after-IsInvoked h (answer_of (simulation env w i body f h).ended) e refl

  routed-IsInvoked :
      (r : Routed)
      → (i.broadcast && not (i.key == "")) ≡ false
      → route env.sha256 i.directory i.key body ≡ r
      → IsInvoked (create_routed env w i body f r)
  unfolding resume_matched
  routed-IsInvoked (route_refused why) keyed e = inl refl
  routed-IsInvoked (matched k) keyed e =
      opened-IsInvoked k e (open_run k.run.run_id i.directory) refl
  routed-IsInvoked unmatched keyed e =
      if-IsInvoked (orphan_check i []) _ _
        (λ checked.
          created-IsInvoked checked e keyed (create env i (plans_of i.broadcast) body) refl)
        (λ x. inl refl)

-- `transfers create` sends nothing; or it starts a run that no orphan forbids: the simulate step of that
-- run has the caller's bytes, under a key made of the run id or under the caller's, which no record
-- holds, and it sends nothing or those bytes under that key, and after it, only with `--broadcast` and
-- if the simulate has ended with an answer, an execute as a broadcast sends it, from that answer; or it
-- is the resume, in the sessions that it holds, of the run that holds the key against the same bytes,
-- with its credential, past every other orphan.
pub run_create-IsInvoked :
    (env : Env) (w : FlowWorld) (i : Invocation) (body : Bytes) (f : Flag)
    → IsInvoked env w i body f (run_create env w i body f)
unfolding run_create
run_create-IsInvoked env w i body f =
    if-IsInvoked env w i body f (i.broadcast && not (i.key == "")) _ _ (λ x. inl refl)
      (λ keyed.
        routed-IsInvoked env w i body f (route env.sha256 i.directory i.key body) keyed refl)
