-- ===== src/Outcome/Class.antt =====
-- internal/outcome/class.go: the outcome classes, their declared properties, and the outcome that is
-- built from them and from nothing else.
use ferry_cli.Base.{ℕ, String, Bool, true, false, List, Text}

-- The ten constants of `Class`. A `Class` string outside them makes `newOutcome` panic.
pub data Class : Type 0 where
  done accepted_upstream cli_fault usage refused_fix refused_resimulate : Class
  transient pending escalate upstream_failed : Class

pub data Money : Type 0 where
  no unknown accepted_upstream see_upstream : Money

pub record ClassProperties : Type 0 where
  pub exit : ℕ
  pub money : Money
  pub same_key_safe : Bool

-- The map `properties`.
unfoldable pub properties : Class → ClassProperties
properties Class.done = record { exit = 0; money = Money.no; same_key_safe = true }
properties Class.accepted_upstream = record {
  exit = 0;
  money = Money.accepted_upstream;
  same_key_safe = true;
}
properties Class.cli_fault = record { exit = 1; money = Money.no; same_key_safe = true }
properties Class.usage = record { exit = 2; money = Money.no; same_key_safe = true }
properties Class.refused_fix = record { exit = 3; money = Money.no; same_key_safe = false }
properties Class.refused_resimulate = record { exit = 4; money = Money.no; same_key_safe = false }
properties Class.transient = record { exit = 5; money = Money.no; same_key_safe = true }
properties Class.pending = record { exit = 6; money = Money.unknown; same_key_safe = true }
properties Class.escalate = record { exit = 7; money = Money.unknown; same_key_safe = false }
properties Class.upstream_failed = record {
  exit = 8;
  money = Money.see_upstream;
  same_key_safe = false;
}

pub record Outcome : Type 0 where
  pub class : Class
  pub exit : ℕ
  pub money : Money
  pub same_key_safe : Bool
  pub next : Text
  pub warnings : List String

-- `newOutcome`.
unfoldable pub new_outcome : Class → Text → List String → Outcome
unfolding properties
new_outcome class next warnings =
    let p = properties class in
    record {
      class = class;
      exit = p.exit;
      money = p.money;
      same_key_safe = p.same_key_safe;
      next = next;
      warnings = warnings;
    }
