-- ===== src/Api/Routes.antt =====
-- internal/api/routes.go: the route of each operation.
use ferry_cli.Base.{
  String, ◌==◌, eq_iff, ◌≡◌, inl, inr, Bool-cases, lookup, refl, Bool, true, false, Option, none,
  some, List, [], ◌∷◌, if◌then◌else◌,
}
use ferry_cli.Outcome.Operation.{
  Operation, OpClass, op_classes, class_of, is_money, op_get_me, op_list_api_keys,
  op_create_api_key, op_get_api_key, op_revoke_api_key, op_list_corridors, op_get_corridor,
  op_simulate_transfer, op_execute_transfer, op_get_command,
}

pub record Route : Type 0 where
  pub op : Operation
  pub openapi_id : String
  pub method : String
  pub path : String
  pub idempotent : Bool

abbrev route : Operation → String → String → String → Bool → Route
route op openapi_id method path idempotent = record {
  op = op;
  openapi_id = openapi_id;
  method = method;
  path = path;
  idempotent = idempotent;
}

abbrev pub routes : List Route
routes =
    route op_get_me "getMe" "GET" "/v1/me" false
    ∷ route op_list_api_keys "listApiKeys" "GET" "/v1/api_keys" false
    ∷ route op_create_api_key "createApiKey" "POST" "/v1/api_keys" false
    ∷ route op_get_api_key "getApiKey" "GET" "/v1/api_keys/{id}" false
    ∷ route op_revoke_api_key "revokeApiKey" "POST" "/v1/api_keys/{id}/revoke" false
    ∷ route op_list_corridors "listCorridors" "GET" "/v1/corridors" false
    ∷ route op_get_corridor "getCorridor" "GET" "/v1/corridors/{id}" false
    ∷ route op_simulate_transfer "simulateTransfer" "POST" "/v1/transfers/simulate" true
    ∷ route op_execute_transfer "executeTransfer" "POST" "/v1/transfers" true
    ∷ route op_get_command "getCommand" "GET" "/v1/commands/{id}" false
    ∷ []

find_route : Operation → List Route → Option Route
find_route op [] = none
find_route op (r ∷ rs) = if r.op == op then some r else find_route op rs

-- `RouteFor`.
unfoldable pub route_for : Operation → Option Route
unfolding find_route
route_for op = find_route op routes

-- An operation has a route exactly if it has a class, and its route carries an idempotency key exactly
-- if the class can move money.
abbrev pub Agrees : Operation → Option Route → Option OpClass → Type 0
Agrees op none none = Unit
Agrees op none (some c) = ⊥
Agrees op (some r) none = ⊥
Agrees op (some r) (some c) = (r.op ≡ op) × (r.idempotent ≡ is_money c)

-- The two tables, entry by entry.
abbrev Aligned : List Route → List (Operation × OpClass) → Type 0
Aligned [] [] = Unit
Aligned [] (_ ∷ _) = ⊥
Aligned (_ ∷ _) [] = ⊥
Aligned (r ∷ rs) ((op, c) ∷ cs) = (r.op ≡ op) × (r.idempotent ≡ is_money c) × Aligned rs cs

Aligned-Agrees :
    (op : Operation) (rs : List Route) (cs : List (Operation × OpClass))
    → Aligned rs cs
    → Agrees op (find_route op rs) (lookup op cs)
unfolding find_route lookup
Aligned-Agrees op [] [] h = tt
Aligned-Agrees op [] (_ ∷ _) h = absurd h
Aligned-Agrees op (_ ∷ _) [] h = absurd h
Aligned-Agrees op (r ∷ rs) ((o, c) ∷ cs) h = elim (Bool-cases (o == op)) [
  | inl e ↦ rw (h.0, e) ((eq_iff o op).0 e, h.1)
  | inr e ↦ rw (h.0, e) (Aligned-Agrees op rs cs h.2)
]

routes-Aligned : Aligned routes op_classes
routes-Aligned = (
  refl,
  refl,
  (
    refl,
    refl,
    (
      refl,
      refl,
      (
        refl,
        refl,
        (refl, refl, (refl, refl, (refl, refl, (refl, refl, (refl, refl, (refl, refl, tt)))))),
      ),
    ),
  ),
)

-- `RouteFor` and `ClassOf` know the same operations, and a route takes an idempotency key exactly if
-- its operation can move money.
pub route_for-class_of : (op : Operation) → Agrees op (route_for op) (class_of op)
unfolding route_for class_of
route_for-class_of op = Aligned-Agrees op routes op_classes routes-Aligned
