-- ===== src/Api/Client/Budget.antt =====
-- How often a request is sent, and that the loop ends within its budget.
use ferry_cli.Base.{
  ℕ, zero, suc, ◌+◌, ◌*◌, ◌^◌, ◌-◌, ◌≤◌, ◌<◌, ◌≡◌, refl, ap, sym, subst, ◌∙◌, Bool, true, false,
  Option, none, some, arith, ◌⊎◌, if◌then◌else◌, ◌&&◌, not, ◌==◌, Bool-cases, inl, inr,
}
use ferry_cli.Outcome.Operation.{OpClass, class_of}
use ferry_cli.Api.Duration.{nanosecond, max_seconds, seconds, seconds_small, past, sleep}
use ferry_cli.Api.Meta.{codes, retry_delay_seconds, retry_delay_pos}
use ferry_cli.Api.Routes.{Route, route_for}
use ferry_cli.Api.Target.{Bytes, expand}
use ferry_cli.Api.Retry.{retryable}
use ferry_cli.Api.Client.{
  Request, Result, World, Client, DoResult, returned, Refusal, refused, no_class, bad_target,
  no_route, missing_key, stray_key, do_request, send_class, send_target, send_route, budget_of,
  attempt, is_final, send_loop,
}

-- The n-th answer of a request.
abbrev pub answered : World → Client → Request → ℕ → Result
answered w c req n = attempt req.op c.environment (w.wire n)

-- No answer asks for a wait that a duration cannot hold.
abbrev pub IsPatient : World → Client → Request → Type 0
IsPatient w c req = (n : ℕ) → retry_delay_seconds (answered w c req n).meta ≤ max_seconds

plus_one : (n : ℕ) → suc n ≡ n + 1
plus_one n = omega arith

lt_or_eq : (m n : ℕ) → m < n + 1 → (m < n) ⊎ (m ≡ n)
lt_or_eq m n less = omega arith

-- The clock of a request, when its n-th answer is in: what the answers took, and the waits that the
-- answers before asked for.
abbrev pub instant : World → Client → Request → ℕ → ℕ
instant w c req zero = w.lapse 0
instant w c req (suc n) =
    sleep (instant w c req n) (seconds (retry_delay_seconds (answered w c req n).meta))
    + w.lapse (suc n)

-- Whether the n-th answer is the last word, at its instant.
abbrev pub is_last : World → Client → Request → OpClass → ℕ → Bool
is_last w c req class n = is_final class (budget_of c) (instant w c req n) (answered w c req n)

-- A wait that ends within the budget: a second at least goes by.
wait_within :
    (class : OpClass) (b now : ℕ) (r : Result)
    → b < 2 ^ 63 - 1
    → retry_delay_seconds r.meta ≤ max_seconds
    → is_final class b now r ≡ false
    → (now + nanosecond ≤ sleep now (seconds (retry_delay_seconds r.meta)))
      × (sleep now (seconds (retry_delay_seconds r.meta)) ≤ b)
unfolding is_final past sleep
wait_within class b now r small d f =
    ground (arith, seconds_small (retry_delay_seconds r.meta) d, retry_delay_pos r.meta)

module _ (w : World) (c : Client) (req : Request) (class : OpClass) where
  at_instant :
      (n now : ℕ) (b : Bool)
      → now ≡ instant w c req n
      → is_final class (budget_of c) now (answered w c req n) ≡ b
      → is_last w c req class n ≡ b
  at_instant n now b clock e =
      ap (λ t. is_final class (budget_of c) t (answered w c req n)) (sym clock) ∙ e

  next_instant :
      (n now : ℕ)
      → now ≡ instant w c req n
      → sleep now (seconds (retry_delay_seconds (answered w c req n).meta)) + w.lapse (n + 1)
        ≡ instant w c req (n + 1)
  next_instant n now clock =
      subst
        (λ k.
          sleep now (seconds (retry_delay_seconds (answered w c req n).meta)) + w.lapse k
          ≡ instant w c req k)
        (plus_one n) (rw clock refl)

  resent_next :
      (n : ℕ)
      → is_last w c req class n ≡ false
      → ((m : ℕ) → m < n → is_last w c req class m ≡ false)
      → (m : ℕ) → m < n + 1
      → is_last w c req class m ≡ false
  resent_next n e resent m less = elim (lt_or_eq m n less) [
    | inl below ↦ resent m below
    | inr same ↦ ap (is_last w c req class) same ∙ e
  ]

module _ (w : World) (c : Client) (req : Request) (class : OpClass) (patient : IsPatient w c req)
    (small : budget_of c < 2 ^ 63 - 1) where
  send_loop_returns :
      (fuel sent now : ℕ)
      → now + w.lapse sent ≡ instant w c req sent
      → ((m : ℕ) → m < sent → is_last w c req class m ≡ false)
      → sent * nanosecond ≤ now
      → now ≤ budget_of c
      → budget_of c < (sent + fuel) * nanosecond
      → (n : ℕ) × (send_loop w c req class fuel sent now
          ≡ returned (record (answered w c req n) { attempts = n + 1 }))
        × (n * nanosecond ≤ budget_of c)
        × (is_last w c req class n ≡ true)
        × ((m : ℕ) → m < n → is_last w c req class m ≡ false)
  unfolding send_loop
  send_loop_returns zero sent now clock resent lo hi f = absurd (omega arith)
  send_loop_returns (suc fuel) sent now clock resent lo hi f =
      elim (Bool-cases
        (is_final class (budget_of c) (now + w.lapse sent) (answered w c req sent))) [
          | inl e ↦
              (sent, rw e refl, omega arith, at_instant w c req class sent _ true clock e, resent)
          | inr e ↦
              let (longer, within) =
                wait_within class (budget_of c) (now + w.lapse sent) (answered w c req sent) small
                  (patient sent) e in
              rw e (
                send_loop_returns fuel (sent + 1) _ (next_instant w c req class sent _ clock)
                  (resent_next w c req class sent (at_instant w c req class sent _ false clock e)
                    resent)
                  (omega arith) within (omega arith))
        ]

-- What a client returns of its n-th answer: it is the last word at its instant, and no answer
-- before it was one at its own.
pub record IsLastWord (w : World) (c : Client) (req : Request) (n : ℕ) (o : DoResult) : Type 0 where
  pub returns : o ≡ returned (record (answered w c req n) { attempts = n + 1 })
  pub within_budget : n * nanosecond ≤ budget_of c
  pub class : OpClass
  pub class_known : class_of req.op ≡ some class
  pub final : is_last w c req class n ≡ true
  pub resent : (m : ℕ) → m < n → is_last w c req class m ≡ false

-- A request is refused with nothing sent, or has a last word.
abbrev pub Ends : World → Client → Request → DoResult → Type 0
Ends w c req o = ((why : Refusal) × (o ≡ refused why)) ⊎ ((n : ℕ) × IsLastWord w c req n o)

-- What holds of every refusal and of the loop holds of `Do`.
module _ (w : World) (c : Client) (req : Request) (fuel : ℕ) (P : DoResult → Type 0)
    (at_refusal : (why : Refusal) → P (refused why))
    (at_loop : (class : OpClass)
      → class_of req.op ≡ some class
      → P (send_loop w c req class fuel 0 0)) where
  if-cases : (b : Bool) (why : Refusal) (o : DoResult) → P o → P (if b then refused why else o)
  if-cases true why o h = at_refusal why
  if-cases false why o h = h

  class-cases : (o : Option OpClass) → class_of req.op ≡ o → P (send_class w c req fuel o)
  class-cases none e = at_refusal no_class
  class-cases (some class) e = at_loop class e

  target-cases : (o : Option Bytes) → P (send_target w c req fuel o)
  target-cases none = at_refusal bad_target
  target-cases (some t) = class-cases (class_of req.op) refl

  route-cases : (o : Option Route) → P (send_route w c req fuel o)
  route-cases none = at_refusal no_route
  route-cases (some route) =
      if-cases (route.idempotent && req.idempotency_key == "") missing_key _ (
        if-cases (not route.idempotent && not (req.idempotency_key == "")) stray_key _
          (target-cases (expand (codes route.path) req.params)))

  pub do_request-cases : P (do_request w c req fuel)
  unfolding do_request
  do_request-cases = route-cases (route_for req.op)

-- `Do` ends, if no answer asks for a wait longer than a duration holds and fuel covers the budget at a
-- second for each round: it refuses with nothing sent, or returns its n-th answer with n + 1 attempts,
-- where n seconds fit into the budget. By the clock, which counts what each answer took and the wait
-- that it asked for, that answer is the last word (it is not to be resent, or its wait would pass the
-- budget) and no answer before it was.
pub do_request-Ends :
    (w : World) (c : Client) (req : Request) (fuel : ℕ)
    → IsPatient w c req
    → budget_of c < 2 ^ 63 - 1
    → budget_of c < fuel * nanosecond
    → Ends w c req (do_request w c req fuel)
do_request-Ends w c req fuel patient small enough =
    do_request-cases w c req fuel (Ends w c req) (λ why. inl (why, refl))
      λ class known.
        let (n, returns, within, final, resent) =
          send_loop_returns w c req class patient small fuel 0 0 (omega arith)
            (λ m less. absurd (omega arith)) (omega arith) (omega arith) (omega arith) in
        inr (
          n,
          record {
            returns = returns;
            within_budget = within;
            class = class;
            class_known = known;
            final = final;
            resent = resent;
          },
        )

create_final : (b now : ℕ) (r : Result) → is_final OpClass.control_create b now r ≡ true
unfolding is_final retryable
create_final b now r = ground arith

loop_once :
    (w : World) (c : Client) (req : Request) (class : OpClass) (fuel : ℕ)
    → class ≡ OpClass.control_create
    → send_loop w c req class (suc fuel) 0 0
      ≡ returned (record (answered w c req 0) { attempts = 0 + 1 })
unfolding send_loop
loop_once w c req class fuel e =
    rw (e, create_final (budget_of c) (0 + w.lapse 0) (answered w c req 0)) refl

-- A key mint is never resent, whatever comes back: it is refused with nothing sent, or one request
-- leaves and its answer is returned.
pub create_sent_once :
    (w : World) (c : Client) (req : Request) (fuel : ℕ)
    → class_of req.op ≡ some OpClass.control_create
    → ((why : Refusal) × (do_request w c req (suc fuel) ≡ refused why))
      ⊎ (do_request w c req (suc fuel)
          ≡ returned (record (answered w c req 0) { attempts = 0 + 1 }))
create_sent_once w c req fuel known =
    do_request-cases w c req (suc fuel)
      (λ o.
        ((why : Refusal) × (o ≡ refused why))
        ⊎ (o ≡ returned (record (answered w c req 0) { attempts = 0 + 1 })))
      (λ why. inl (why, refl)) (λ class k. inr (loop_once w c req class fuel (ground arith)))
