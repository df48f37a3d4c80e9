-- ===== src/Outcome/Answers.antt =====
-- internal/outcome/classify.go: the outcomes of the branches of `Classify` that read no row of the
-- table.
use ferry_cli.Base.{
  ℕ, String, ◌==◌, Bool, Option, none, some, [], ◌∷◌, leb, eqb, if◌then◌else◌, str, int, quoted,
  Text,
}
use ferry_cli.Outcome.Class.{Class, Outcome, new_outcome}
use ferry_cli.Outcome.Operation.{OpClass, is_money}
use ferry_cli.Outcome.Input.{TransportPhase, Success, Input}
use ferry_cli.Outcome.Table.{next_resume, next_same_key, next_read_retry, next_read_fix}

-- `classifyTransport`: only the phase of the failure decides.
unfoldable pub classify_transport : TransportPhase → OpClass → Outcome
unfolding new_outcome
classify_transport TransportPhase.after_write OpClass.control_create =
    new_outcome Class.pending
      (str
          "The request was written but no answer arrived, so a key may have been minted and this CLI does not hold its token. Run `ferry keys list` before minting again."
        ∷ [])
      []
classify_transport TransportPhase.after_write OpClass.read =
    new_outcome Class.transient
      (str "The request was written but no answer arrived. " ∷ str next_read_retry ∷ []) []
classify_transport TransportPhase.after_write _ =
    new_outcome Class.pending
      (str
          "The request was written to the socket but no answer arrived. FERRY sends upstream before it answers, so this request may have executed. "
        ∷ str next_resume
        ∷ [])
      []
classify_transport TransportPhase.dial OpClass.control_create =
    new_outcome Class.transient
      (str "The connection was never established, so no key was minted. Run the command again."
        ∷ [])
      []
classify_transport TransportPhase.dial OpClass.read =
    new_outcome Class.transient
      (str "The connection was never established. " ∷ str next_read_retry ∷ []) []
classify_transport TransportPhase.dial _ =
    new_outcome Class.transient
      (str "The connection was never established, so nothing left this host. "
        ∷ str next_same_key
        ∷ [])
      []

abbrev unreadable_success : ℕ → OpClass → Outcome
unreadable_success status class =
    if is_money class
    then new_outcome Class.pending
        (str "FERRY answered "
          ∷ int status
          ∷ str " but the body could not be read, so this CLI cannot say what it contained. "
          ∷ str next_resume
          ∷ [])
        []
    else new_outcome Class.transient
        (str "The server answered "
          ∷ int status
          ∷ str " with a body that could not be read. "
          ∷ str next_read_retry
          ∷ [])
        []

abbrev accepted_next : Text
accepted_next =
    str "Accepted upstream, not settled. Read `status` and `subStatus`, and reconcile later." ∷ []

-- The switch on the operation class for a readable 2xx other than 202.
abbrev readable_success : OpClass → String → Bool → Outcome
readable_success OpClass.money_execute transaction_status replayed =
    if transaction_status == "failed"
    then new_outcome Class.upstream_failed
        (str
            "FERRY accepted this transfer upstream and the upstream then failed it. Reconcile against the upstream before simulating a replacement."
          ∷ [])
        []
    else if transaction_status == ""
    then new_outcome Class.accepted_upstream accepted_next
        ("the transaction body carried no `status`, so acceptance could not be qualified" ∷ [])
    else new_outcome Class.accepted_upstream accepted_next []
readable_success OpClass.money_simulate transaction_status replayed =
    if replayed
    then new_outcome Class.done
        (str
            "This quote was replayed from an earlier answer under the same key. `plan.token` is handed out once and is not in a replay — use the token from the first answer, or simulate under a new key."
          ∷ [])
        ("replayed: this answer carries no plan.token" ∷ [])
    else new_outcome Class.done
        (str
            "The plan token is printed once and never stored. Execute it within five minutes or simulate again."
          ∷ [])
        []
readable_success _ transaction_status replayed = new_outcome Class.done [] []

abbrev success_of : Option Success → ℕ → Bool → OpClass → Outcome
success_of none status replayed class = unreadable_success status class
success_of (some s) status replayed class =
    if s.parsed
    then (if eqb status 202
        then new_outcome Class.pending
            (str
                "FERRY could not establish the outcome during the request. Poll the command: `ferry commands watch <command_id>`. Money may or may not have moved — do not resend under a new key."
              ∷ [])
            []
        else readable_success class s.transaction_status replayed)
    else unreadable_success status class

-- `classifySuccess`.
unfoldable pub classify_success : Input → OpClass → Outcome
unfolding new_outcome
classify_success i class = success_of i.success i.status i.replayed class

-- `classifyUnknownCode`.
unfoldable pub classify_unknown_code : ℕ → String → OpClass → Outcome
unfolding new_outcome
classify_unknown_code status code class =
    if is_money class
    then new_outcome Class.pending
        (str "FERRY answered "
          ∷ int status
          ∷ str " with the code "
          ∷ quoted code
          ∷ str ", which this CLI does not know. It cannot say whether the request executed. "
          ∷ str next_resume
          ∷ [])
        []
    else if leb 500 status
    then new_outcome Class.transient
        (str "The server answered "
          ∷ int status
          ∷ str " with the unrecognised code "
          ∷ quoted code
          ∷ str ". "
          ∷ str next_read_retry
          ∷ [])
        []
    else new_outcome Class.refused_fix
        (str "The server answered "
          ∷ int status
          ∷ str " with the unrecognised code "
          ∷ quoted code
          ∷ str ". "
          ∷ str next_read_fix
          ∷ [])
        []

-- The branch for an answer that is not 2xx and whose body is not the error envelope.
unfoldable pub classify_no_envelope : ℕ → OpClass → Outcome
unfolding new_outcome
classify_no_envelope status class =
    if is_money class
    then new_outcome Class.pending
        (str "FERRY answered "
          ∷ int status
          ∷ str
              " with a body that is not the error envelope, so this answer says nothing about whether the request executed. "
          ∷ str next_resume
          ∷ [])
        []
    else new_outcome Class.transient
        (str "The server answered "
          ∷ int status
          ∷ str " with a body that is not the error envelope. "
          ∷ str next_read_retry
          ∷ [])
        []
