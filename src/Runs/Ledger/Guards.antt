-- ===== src/Runs/Ledger/Guards.antt =====
-- What the operations keep of every step, in memory and on disk, from what they keep of one.
use ferry_cli.Base.{
  String, ◌==◌, ◌≡◌, refl, Bool, true, false, Option, none, some, List, [], ◌∷◌, All, arith,
  Bool-cases, inl, inr, if◌then◌else◌, subst,
}
use ferry_cli.Runs.Step.{Step, find_step}
use ferry_cli.Runs.Ledger.{
  Env, Write, LedgerError, Handle, Change, refuse, nothing, save_step, put_step, save, open_save,
  perform, on_found, on_step, LedgerOp, change_of, call, calls,
}

-- A predicate of the steps that a change may leave behind.
abbrev pub Keeps : (Step → Type 0) → Change → Type 0
Keeps P (refuse why) = Unit
Keeps P nothing = Unit
Keeps P (save_step new back) = P new × P back

-- A predicate of every step of a handle.
abbrev pub AllSteps : (Step → Type 0) → Handle → Type 0
AllSteps P h = All P h.run.steps × All P h.disk.steps

module _ (P : Step → Type 0) where
  put_step-All :
      (name : String) (t : Step) (ss : List Step) → P t → All P ss → All P (put_step name t ss)
  unfolding put_step
  put_step-All name t [] p a = tt
  put_step-All name t (s ∷ ss) p (q, a) = elim (Bool-cases (s.name == name)) [
    | inl e ↦ rw e (p, a)
    | inr e ↦ rw e (q, put_step-All name t ss p a)
  ]

  pub find_step-All :
      (name : String) (ss : List Step) (s : Step) → All P ss → find_step name ss ≡ some s → P s
  unfolding find_step
  find_step-All name [] s a e = ground arith
  find_step-All name (t ∷ ss) s (q, a) e = elim (Bool-cases (t.name == name)) [
    | inl b ↦ let same : t ≡ s = ground arith in subst P same q
    | inr b ↦ find_step-All name ss s a (ground arith)
  ]

  if-All :
      (b : Bool) (x y : Handle × Option LedgerError)
      → AllSteps P x.0
      → AllSteps P y.0
      → AllSteps P (if b then x else y).0
  if-All true x y a c = a
  if-All false x y a c = c

  open_save-All :
      (h : Handle) (name : String) (new back : Step) (w : Write)
      → P new
      → P back
      → AllSteps P h
      → AllSteps P (open_save h name new back w).0
  open_save-All h name new back Write.lands p q (a, d) =
      (put_step-All name new h.run.steps p a, put_step-All name new h.run.steps p a)
  open_save-All h name new back Write.fails p q (a, d) = (put_step-All name back h.run.steps q a, d)
  open_save-All h name new back Write.unsynced p q (a, d) =
      (put_step-All name back h.run.steps q a, put_step-All name new h.run.steps p a)

  save-All :
      (h : Handle) (name : String) (new back : Step) (w : Write)
      → P new
      → P back
      → AllSteps P h
      → AllSteps P (save h name new back w).0
  unfolding save
  save-All h name new back w p q (a, d) =
      if-All h.closed _ _ (put_step-All name back h.run.steps q a, d)
        (open_save-All h name new back w p q (a, d))

  perform-All :
      (h : Handle) (name : String) (w : Write) (c : Change)
      → Keeps P c
      → AllSteps P h
      → AllSteps P (perform h name w c).0
  perform-All h name w (refuse why) k a = a
  perform-All h name w nothing k a = a
  perform-All h name w (save_step new back) (p, q) a = save-All h name new back w p q a

  on_found-All :
      (f : Step → Change) (h : Handle) (name : String) (w : Write) (o : Option Step)
      → ((s : Step) → P s → Keeps P (f s))
      → find_step name h.run.steps ≡ o
      → AllSteps P h
      → AllSteps P (on_found f h name w o).0
  on_found-All f h name w none keeps e a = a
  on_found-All f h name w (some s) keeps e a =
      perform-All h name w (f s) (keeps s (find_step-All name h.run.steps s a.0 e)) a

  -- Every call leaves a predicate in force that its change keeps.
  pub calls-All :
      (env : Env) (keeps : (op : LedgerOp) (s : Step) → P s → Keeps P (change_of env op s))
      → (h : Handle) (ops : List (String × LedgerOp × Write)) → AllSteps P h
      → AllSteps P (calls env h ops)
  unfolding calls call on_step
  calls-All env keeps h [] a = a
  calls-All env keeps h ((name, op, w) ∷ rest) a =
      calls-All env keeps (call env h name op w).0 rest
        (on_found-All (change_of env op) h name w (find_step name h.run.steps) (keeps op) refl a)
