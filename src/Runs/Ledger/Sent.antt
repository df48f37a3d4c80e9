-- ===== src/Runs/Ledger/Sent.antt =====
-- A step that may have been sent is never turned into one that was not.
use ferry_cli.Base.{
  String, ◌==◌, eq_iff, ◌≡◌, refl, Bool, true, false, Option, none, some, List, [], ◌∷◌, arith,
  Bool-cases, inl, inr, if◌then◌else◌, subst,
}
use ferry_cli.Runs.Step.{Step, find_step, may_have_sent, scrub_step}
use ferry_cli.Runs.Ledger.{
  Env, Write, LedgerError, Handle, Change, refuse, nothing, save_step, put_step, save, open_save,
  perform, on_found, on_step, LedgerOp, change_of, call, calls, begin_step, await_step,
  set_plan_step, record_step, decline_step, unreachable_step,
}
use ferry_cli.Runs.Ledger.LedgerOp.{
  begin, await_confirmation, decline, unreachable, set_plan, record_answer,
}
use ferry_cli.Runs.Ledger.Guards.{Keeps}

-- The step that is found under the name, if there is one, may have been sent.
abbrev pub IsSent : String → List Step → Type 0
IsSent name ss = (s : Step) → find_step name ss ≡ some s → may_have_sent s.state ≡ true

abbrev pub IsSentStep : String → Handle → Type 0
IsSentStep name h = IsSent name h.run.steps × IsSent name h.disk.steps

pub find_step-name :
    (name : String) (ss : List Step) (s : Step) → find_step name ss ≡ some s → s.name ≡ name
unfolding find_step
find_step-name name [] s e = ground arith
find_step-name name (t ∷ ss) s e = ground (arith, eq_iff t.name name, find_step-name name ss s)

-- What a step that is put under `m` may be, for the sake of the name `n`.
abbrev Fits : String → String → Step → Type 0
Fits m n t = (t.name ≡ m) × (m ≡ n → may_have_sent t.state ≡ true)

put_step-IsSent :
    (m n : String) (t : Step) (ss : List Step)
    → Fits m n t
    → IsSent n ss
    → IsSent n (put_step m t ss)
unfolding put_step find_step
put_step-IsSent m n t [] fits a x e = ground arith
put_step-IsSent m n t (s ∷ ss) (named, sent) a x e = elim (Bool-cases (s.name == n)) [
  | inl b ↦ ground (arith, eq_iff s.name m, eq_iff t.name n, eq_iff s.name n, a x)
  | inr b ↦
      let rest : IsSent n (put_step m t ss) =
        put_step-IsSent m n t ss (named, sent) (λ y f. a y (ground arith)) in
      ground (arith, eq_iff s.name m, eq_iff t.name n, eq_iff s.name n, a x, rest x)
]

change_of-Fits :
    (env : Env) (op : LedgerOp) (m n : String) (s : Step)
    → Fits m n s
    → Keeps (Fits m n) (change_of env op s)
unfolding begin_step await_step set_plan_step record_step decline_step unreachable_step scrub_step
    may_have_sent
change_of-Fits env (begin none) m n s h = ground arith
change_of-Fits env (begin (some b)) m n s h = ground arith
change_of-Fits env await_confirmation m n s h = ground arith
change_of-Fits env decline m n s h = ground arith
change_of-Fits env unreachable m n s h = ground arith
change_of-Fits env (set_plan plan token) m n s h = ground arith
change_of-Fits env (record_answer r o) m n s h = ground arith

module _ (n : String) where
  if-IsSent :
      (b : Bool) (x y : Handle × Option LedgerError)
      → IsSentStep n x.0
      → IsSentStep n y.0
      → IsSentStep n (if b then x else y).0
  if-IsSent true x y a c = a
  if-IsSent false x y a c = c

  open_save-IsSent :
      (h : Handle) (m : String) (new back : Step) (w : Write)
      → Fits m n new
      → Fits m n back
      → IsSentStep n h
      → IsSentStep n (open_save h m new back w).0
  open_save-IsSent h m new back Write.lands p q (a, d) =
      (put_step-IsSent m n new h.run.steps p a, put_step-IsSent m n new h.run.steps p a)
  open_save-IsSent h m new back Write.fails p q (a, d) =
      (put_step-IsSent m n back h.run.steps q a, d)
  open_save-IsSent h m new back Write.unsynced p q (a, d) =
      (put_step-IsSent m n back h.run.steps q a, put_step-IsSent m n new h.run.steps p a)

  perform-IsSent :
      (h : Handle) (m : String) (w : Write) (c : Change)
      → Keeps (Fits m n) c
      → IsSentStep n h
      → IsSentStep n (perform h m w c).0
  unfolding save
  perform-IsSent h m w (refuse why) k a = a
  perform-IsSent h m w nothing k a = a
  perform-IsSent h m w (save_step new back) (p, q) (a, d) =
      if-IsSent h.closed _ _ (put_step-IsSent m n back h.run.steps q a, d)
        (open_save-IsSent h m new back w p q (a, d))

  on_found-IsSent :
      (env : Env) (op : LedgerOp) (h : Handle) (m : String) (w : Write) (o : Option Step)
      → find_step m h.run.steps ≡ o
      → IsSentStep n h
      → IsSentStep n (on_found (change_of env op) h m w o).0
  on_found-IsSent env op h m w none e a = a
  on_found-IsSent env op h m w (some s) e a =
      perform-IsSent h m w (change_of env op s)
        (change_of-Fits env op m n s (
          find_step-name m h.run.steps s e,
          λ same. a.0 s (subst (λ k. find_step k h.run.steps ≡ some s) same e),
        ))
        a

  pub calls-IsSent :
      (env : Env) (h : Handle) (ops : List (String × LedgerOp × Write))
      → IsSentStep n h
      → IsSentStep n (calls env h ops)
  unfolding calls call on_step
  calls-IsSent env h [] a = a
  calls-IsSent env h ((m, op, w) ∷ rest) a =
      calls-IsSent env (call env h m op w).0 rest
        (on_found-IsSent env op h m w (find_step m h.run.steps) refl a)
