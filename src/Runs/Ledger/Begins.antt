-- ===== src/Runs/Ledger/Begins.antt =====
-- What a `Begin` that returns without an error has done, and what one that fails leaves.
use ferry_cli.Base.{
  ◌+◌, String, eq_iff, ◌≡◌, ◌≢◌, refl, true, false, Option, none, some, List, [], ◌∷◌, arith,
  Option-cases, inl, inr, sym, ◌⊎◌, ap, ◌∙◌,
}
use ferry_cli.Api.Target.{Bytes}
use ferry_cli.Runs.Step.{State, Step, find_step, may_have_sent, is_terminal, check_body}
use ferry_cli.Runs.Ledger.{
  Env, Write, LedgerError, Handle, Change, refuse, nothing, save_step, put_step, save, perform,
  on_found, on_step, with_step, LedgerOp, call, calls, begin_step, other_digest,
}
use ferry_cli.Runs.Ledger.LedgerOp.{begin}
use ferry_cli.Runs.Ledger.Sent.{IsSent, IsSentStep, calls-IsSent, find_step-name}

-- The step that a `Begin` wrote, from the step that it found.
pub record IsBegun (env : Env) (body : Option Bytes) (s t : Step) : Type 0 where
  pub allowed : is_terminal s.state ≡ false
  pub pending : t.state ≡ State.pending
  pub counted : t.attempts ≡ s.attempts + 1
  pub same_name : t.name ≡ s.name
  pub same_key : t.idempotency_key ≡ s.idempotency_key
  pub same_request : (t.operation ≡ s.operation) × (t.method ≡ s.method) × (t.path ≡ s.path)
  pub sent_body : (b : Bytes) × (t.body ≡ some b)
  pub body_taken :
      (b : Bytes)
      → body ≡ some b
      → (t.body ≡ some b)
        × (t.body_sha256 ≡ some (env.sha256 b))
        × (check_body b ≡ true)
        × ((s.body_sha256 ≡ none) ⊎ (s.body_sha256 ≡ some (env.sha256 b)))
  pub body_kept : body ≡ none → (t.body ≡ s.body) × (t.body_sha256 ≡ s.body_sha256)

-- What an error of `Begin` leaves in memory.
abbrev pub IsUndone : Step → Step → Type 0
IsUndone s back = (back.state ≡ s.state) × (back.attempts ≡ s.attempts) × (back.name ≡ s.name)

other_digest-cases :
    (o : Option String) (d : String) → other_digest o d ≡ false → (o ≡ none) ⊎ (o ≡ some d)
other_digest-cases none d e = inl refl
other_digest-cases (some x) d e = inr (ap some (ground (arith, eq_iff x d)))

begin_step-IsBegun :
    (env : Env) (body : Option Bytes) (s new back : Step)
    → begin_step env body s ≡ save_step new back
    → IsBegun env body s new × IsUndone s back
unfolding begin_step
begin_step-IsBegun env none s new back e = (
  record {
    allowed = ground arith;
    pending = ground arith;
    counted = ground arith;
    same_name = ground arith;
    same_key = ground arith;
    same_request = ground arith;
    sent_body = elim (Option-cases s.body) [
      | inl f ↦ absurd (ground arith)
      | inr (c, f) ↦ (c, ground arith)
    ];
    body_taken = λ c f. ground arith;
    body_kept = λ f. ground arith;
  },
  ground arith,
)
begin_step-IsBegun env (some b) s new back e = (
  record {
    allowed = ground arith;
    pending = ground arith;
    counted = ground arith;
    same_name = ground arith;
    same_key = ground arith;
    same_request = ground arith;
    sent_body = (b, ground arith);
    body_taken = λ c f. ground (arith, other_digest-cases s.body_sha256 (env.sha256 c));
    body_kept = λ f. ground arith;
  },
  ground arith,
)

never_nothing : (env : Env) (body : Option Bytes) (s : Step) → ¬ (begin_step env body s ≡ nothing)
unfolding begin_step
never_nothing env none s e = ground arith
never_nothing env (some b) s e = ground arith

pub find_step-put_step :
    (name : String) (t : Step) (ss : List Step) (s : Step)
    → find_step name ss ≡ some s
    → t.name ≡ name
    → find_step name (put_step name t ss) ≡ some t
unfolding find_step put_step
find_step-put_step name t [] s e n = ground arith
find_step-put_step name t (x ∷ ss) s e n =
    ground (arith, eq_iff t.name name, find_step-put_step name t ss s)

-- A change that was performed without an error.
perform-none :
    (h h' : Handle) (name : String) (w : Write) (new back : Step)
    → perform h name w (save_step new back) ≡ (h', none)
    → (h'.run ≡ with_step h name new) × (h'.disk ≡ with_step h name new)
unfolding save
perform-none h h' name Write.lands new back e = ground arith
perform-none h h' name Write.fails new back e = ground arith
perform-none h h' name Write.unsynced new back e = ground arith

-- A `Begin` that returned without an error, from what it found to what it left.
pub record HasBegun (env : Env) (h h' : Handle) (name : String) (body : Option Bytes) : Type 0 where
  pub before : Step
  pub after : Step
  pub found : find_step name h.run.steps ≡ some before
  pub written : find_step name h'.run.steps ≡ some after
  pub begun : IsBegun env body before after
  pub durable : h'.disk ≡ h'.run

begun_change :
    (env : Env) (h h' : Handle) (name : String) (body : Option Bytes) (w : Write) (s : Step)
    (c : Change)
    → find_step name h.run.steps ≡ some s
    → begin_step env body s ≡ c
    → perform h name w c ≡ (h', none)
    → HasBegun env h h' name body
begun_change env h h' name body w s (refuse why) f b e = absurd (ground arith)
begun_change env h h' name body w s nothing f b e = absurd (never_nothing env body s b)
begun_change env h h' name body w s (save_step new back) f b e =
    let (begun, _) = begin_step-IsBegun env body s new back b in
    let (r, d) = perform-none h h' name w new back e in
    let named : new.name ≡ name = begun.same_name ∙ find_step-name name h.run.steps s f in
    record {
      before = s;
      after = new;
      found = f;
      written = rw r (find_step-put_step name new h.run.steps s f named);
      begun = begun;
      durable = d ∙ sym r;
    }

found_change :
    (env : Env) (h h' : Handle) (name : String) (body : Option Bytes) (w : Write) (o : Option Step)
    → find_step name h.run.steps ≡ o
    → on_found (begin_step env body) h name w o ≡ (h', none)
    → HasBegun env h h' name body
found_change env h h' name body w none f e = absurd (ground arith)
found_change env h h' name body w (some s) f e =
    begun_change env h h' name body w s (begin_step env body s) f refl e

-- When `Begin` returns without an error, the step was in no terminal state, and the record in memory
-- is the record on disk, in which the step is pending with one attempt more, the same key and request,
-- and a body to send: the body that was given, valid UTF-8 and with its digest, which is the digest
-- the step had if it had one, or else the body that it had.
pub call-HasBegun :
    (env : Env) (h h' : Handle) (name : String) (body : Option Bytes) (w : Write)
    → call env h name (begin body) w ≡ (h', none)
    → HasBegun env h h' name body
unfolding call on_step
call-HasBegun env h h' name body w e =
    found_change env h h' name body w (find_step name h.run.steps) refl e

-- Once a `Begin` has returned without an error, the step may have been sent for good: whatever is
-- called afterwards and whatever the writes do, the step of that name is pending, answered or
-- terminal, in memory and on disk, and never declined or unreachable.
pub begun-IsSentStep :
    (env : Env) (h h' : Handle) (name : String) (body : Option Bytes) (w : Write)
    (ops : List (String × LedgerOp × Write))
    → call env h name (begin body) w ≡ (h', none)
    → IsSentStep name (calls env h' ops)
unfolding may_have_sent
begun-IsSentStep env h h' name body w ops e =
    let b = call-HasBegun env h h' name body w e in
    let sent : IsSent name h'.run.steps = λ s f. ground (arith, b.written, b.begun.pending) in
    calls-IsSent name env h' ops (sent, rw b.durable sent)

perform_error :
    (h h' : Handle) (name : String) (w : Write) (new back : Step) (why : LedgerError)
    → perform h name w (save_step new back) ≡ (h', some why)
    → (h'.run ≡ with_step h name back) × (w ≢ Write.unsynced → h'.disk ≡ h.disk)
unfolding save
perform_error h h' name Write.lands new back why e = ground arith
perform_error h h' name Write.fails new back why e = ground arith
perform_error h h' name Write.unsynced new back why e = ground arith

-- What a `Begin` that failed leaves: the step it found, with its state and attempts, in memory; and
-- the record on disk, unless the sync of the directory failed.
pub record HasFailed (h h' : Handle) (name : String) (w : Write) (s : Step) : Type 0 where
  pub left : Step
  pub in_memory : find_step name h'.run.steps ≡ some left
  pub undone : IsUndone s left
  pub on_disk : w ≢ Write.unsynced → h'.disk ≡ h.disk

failed_change :
    (env : Env) (h h' : Handle) (name : String) (body : Option Bytes) (w : Write) (s : Step)
    (c : Change) (why : LedgerError)
    → find_step name h.run.steps ≡ some s
    → begin_step env body s ≡ c
    → perform h name w c ≡ (h', some why)
    → HasFailed h h' name w s
failed_change env h h' name body w s (refuse y) why f b e =
    let same : h ≡ h' = ap (λ p. p.0) e in
    record {
      left = s;
      in_memory = rw⁻¹ same f;
      undone = (refl, refl, refl);
      on_disk = λ u. rw⁻¹ same refl;
    }
failed_change env h h' name body w s nothing why f b e = absurd (never_nothing env body s b)
failed_change env h h' name body w s (save_step new back) why f b e =
    let undone = (begin_step-IsBegun env body s new back b).1 in
    let (r, d) = perform_error h h' name w new back why e in
    let named : back.name ≡ name = undone.2 ∙ find_step-name name h.run.steps s f in
    record {
      left = back;
      in_memory = rw r (find_step-put_step name back h.run.steps s f named);
      undone = undone;
      on_disk = d;
    }

-- A `Begin` that returns an error leaves the step in memory with the state and the attempts that it
-- had, and the record on disk as it was, unless the new record was renamed into place and only the
-- sync of its directory failed.
pub call-HasFailed :
    (env : Env) (h h' : Handle) (name : String) (body : Option Bytes) (w : Write) (s : Step)
    (why : LedgerError)
    → find_step name h.run.steps ≡ some s
    → call env h name (begin body) w ≡ (h', some why)
    → HasFailed h h' name w s
unfolding call on_step
call-HasFailed env h h' name body w s why f e =
    failed_change env h h' name body w s (begin_step env body s) why f refl
      (rw⁻¹ (ap (on_found (begin_step env body) h name w) f) e)
