-- ===== src/Outcome/Operation.antt =====
-- internal/outcome/operation.go: the operations of the contract, their classes, and the states of a
-- command.
use ferry_cli.Base.{String, Bool, true, false, Option, List, [], ◌∷◌, lookup, contains}

abbrev pub Operation : Type 0
Operation = String

abbrev pub op_get_me : Operation
op_get_me = "get_me"

abbrev pub op_list_api_keys : Operation
op_list_api_keys = "list_api_keys"

abbrev pub op_create_api_key : Operation
op_create_api_key = "create_api_key"

abbrev pub op_get_api_key : Operation
op_get_api_key = "get_api_key"

abbrev pub op_revoke_api_key : Operation
op_revoke_api_key = "revoke_api_key"

abbrev pub op_list_corridors : Operation
op_list_corridors = "list_corridors"

abbrev pub op_get_corridor : Operation
op_get_corridor = "get_corridor"

abbrev pub op_simulate_transfer : Operation
op_simulate_transfer = "transfers_simulate"

abbrev pub op_execute_transfer : Operation
op_execute_transfer = "transfers_execute"

abbrev pub op_get_command : Operation
op_get_command = "get_command"

pub data OpClass : Type 0 where
  money_simulate money_execute read control_create : OpClass

-- The map `opClasses`.
abbrev pub op_classes : List (Operation × OpClass)
op_classes =
    (op_get_me, OpClass.read)
    ∷ (op_list_api_keys, OpClass.read)
    ∷ (op_create_api_key, OpClass.control_create)
    ∷ (op_get_api_key, OpClass.read)
    ∷ (op_revoke_api_key, OpClass.read)
    ∷ (op_list_corridors, OpClass.read)
    ∷ (op_get_corridor, OpClass.read)
    ∷ (op_simulate_transfer, OpClass.money_simulate)
    ∷ (op_execute_transfer, OpClass.money_execute)
    ∷ (op_get_command, OpClass.read)
    ∷ []

-- `ClassOf`.
unfoldable pub class_of : Operation → Option OpClass
unfolding lookup
class_of op = lookup op op_classes

-- `OpClass.IsMoney`.
abbrev pub is_money : OpClass → Bool
is_money OpClass.money_simulate = true
is_money OpClass.money_execute = true
is_money OpClass.read = false
is_money OpClass.control_create = false

abbrev pub command_states : List String
command_states =
    "reserved" ∷ "inflight" ∷ "upstream_unknown" ∷ "completed" ∷ "failed_retriable"
    ∷ "failed_terminal" ∷ "needs_operator" ∷ []

abbrev pub terminal_states : List String
terminal_states = "completed" ∷ "failed_terminal" ∷ []

-- `KnownState`.
unfoldable pub known_state : String → Bool
unfolding contains
known_state state = contains state command_states

-- `IsTerminalState`.
unfoldable pub is_terminal_state : String → Bool
unfolding contains
is_terminal_state state = contains state terminal_states
