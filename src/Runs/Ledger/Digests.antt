-- ===== src/Runs/Ledger/Digests.antt =====
-- The digest of a body, and that neither it nor the key under which it is sent ever changes.
use ferry_cli.Base.{String, eq_iff, ◌≡◌, Option, none, some, List, arith, inl, inr, ◌⊎◌}
use ferry_cli.Api.Target.{Bytes}
use ferry_cli.Runs.Step.{Step, find_step, scrub_step}
use ferry_cli.Runs.Ledger.{
  Env, Write, Handle, LedgerOp, change_of, calls, begin_step, await_step, set_plan_step,
  record_step, decline_step, unreachable_step,
}
use ferry_cli.Runs.Ledger.LedgerOp.{
  begin, await_confirmation, decline, unreachable, set_plan, record_answer,
}
use ferry_cli.Runs.Ledger.Guards.{Keeps, AllSteps, calls-All, find_step-All}

-- A step holds no body and no digest, or a body and its digest.
abbrev pub IsDigested : (Bytes → String) → Option Bytes → Option String → Type 0
IsDigested sha256 none none = Unit
IsDigested sha256 (some b) (some d) = sha256 b ≡ d
IsDigested sha256 _ _ = ⊥

abbrev pub HasDigest : (Bytes → String) → Step → Type 0
HasDigest sha256 s = IsDigested sha256 s.body s.body_sha256

pub change_of-HasDigest :
    (env : Env) (op : LedgerOp) (s : Step)
    → HasDigest env.sha256 s
    → Keeps (HasDigest env.sha256) (change_of env op s)
unfolding begin_step await_step set_plan_step record_step decline_step unreachable_step scrub_step
change_of-HasDigest env (begin body) s h = ground arith
change_of-HasDigest env await_confirmation s h = ground arith
change_of-HasDigest env decline s h = ground arith
change_of-HasDigest env unreachable s h = ground arith
change_of-HasDigest env (set_plan plan token) s h = ground arith
change_of-HasDigest env (record_answer r o) s h = ground arith

-- What is sent under a key: each step with that key has the digest `d`, and a body with it.
abbrev pub IsFixed : (Bytes → String) → String → String → Step → Type 0
IsFixed sha256 key d s = HasDigest sha256 s × (s.idempotency_key ≡ key → s.body_sha256 ≡ some d)

change_of-IsFixed :
    (env : Env) (key d : String) (op : LedgerOp) (s : Step)
    → IsFixed env.sha256 key d s
    → Keeps (IsFixed env.sha256 key d) (change_of env op s)
unfolding begin_step await_step set_plan_step record_step decline_step unreachable_step scrub_step
change_of-IsFixed env key d (begin none) s h = ground arith
change_of-IsFixed env key d (begin (some b)) s h = ground (arith, eq_iff d (env.sha256 b))
change_of-IsFixed env key d await_confirmation s h = ground arith
change_of-IsFixed env key d decline s h = ground arith
change_of-IsFixed env key d unreachable s h = ground arith
change_of-IsFixed env key d (set_plan plan token) s h = ground arith
change_of-IsFixed env key d (record_answer r o) s h = ground arith

digest_body :
    (sha256 : Bytes → String) (key d : String) (s : Step)
    → IsFixed sha256 key d s
    → s.idempotency_key ≡ key
    → (b : Bytes) × (s.body ≡ some b) × (sha256 b ≡ d)
digest_body sha256 key d s h e = ground arith

after :
    (env : Env) (h : Handle) (ops : List (String × LedgerOp × Write)) (key d : String)
    → AllSteps (IsFixed env.sha256 key d) h
    → AllSteps (IsFixed env.sha256 key d) (calls env h ops)
after env h ops key d start =
    calls-All (IsFixed env.sha256 key d) env (change_of-IsFixed env key d) h ops start

-- Whatever is called and whatever the writes do, a key keeps its body: if the steps with that key have
-- the digest `d`, in memory and on disk, and every step holds the digest of its body, then after any
-- calls the step with that key holds a body whose digest is `d`, in memory and on disk.
pub calls-body :
    (env : Env) (h : Handle) (ops : List (String × LedgerOp × Write)) (key d name : String)
    (s : Step)
    → AllSteps (IsFixed env.sha256 key d) h
    → (find_step name (calls env h ops).run.steps ≡ some s)
      ⊎ (find_step name (calls env h ops).disk.steps ≡ some s)
    → s.idempotency_key ≡ key
    → (b : Bytes) × (s.body ≡ some b) × (env.sha256 b ≡ d)
calls-body env h ops key d name s start (inl e) k =
    digest_body env.sha256 key d s
      (find_step-All (IsFixed env.sha256 key d) name _ s (after env h ops key d start).0 e) k
calls-body env h ops key d name s start (inr e) k =
    digest_body env.sha256 key d s
      (find_step-All (IsFixed env.sha256 key d) name _ s (after env h ops key d start).1 e) k
