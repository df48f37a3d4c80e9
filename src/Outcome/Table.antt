-- ===== src/Outcome/Table.antt =====
-- internal/outcome/table.go: the decision table. The rows stand in the child, grouped as in the
-- source.
mod Row
mod Rows
unfoldable pub use Row.*
unfoldable pub use Rows.{
  credential_rows, request_rows, key_rows, fault_rows, upstream_rows, plan_rows, policy_rows,
  quote_rows, webhook_rows,
}
use ferry_cli.Base.{String, Option, List, ◌++◌, lookup}

-- The map `rules`: no code has two rows.
unfoldable pub rules : List (String × Rule)
rules =
    credential_rows
    ++ (request_rows
        ++ (key_rows
            ++ (fault_rows
                ++ (upstream_rows
                    ++ (plan_rows ++ (policy_rows ++ (quote_rows ++ webhook_rows)))))))

-- `rules[code]`.
unfoldable pub find_rule : String → Option Rule
unfolding lookup rules
find_rule code = lookup code rules
