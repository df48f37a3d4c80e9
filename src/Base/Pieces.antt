-- ===== src/Base/Pieces.antt =====
-- A text as `fmt.Sprintf` is given it: the literal parts of the format and `%s` arguments, `%d`
-- arguments and `%q` arguments, in order. How `fmt` spells a number and a quoted text is left out.
use Prim.Native.Nat.{ℕ}
use Prim.Native.String.{String}
use mathlib.Core.Bool.{Bool, true, false, ◌&&◌}
use mathlib.Core.List.{List, [], ◌∷◌}
use text.Mathlib.Text.{◌==◌}

pub data Piece : Type 0 where
  str : String → Piece
  int : ℕ → Piece
  quoted : String → Piece

abbrev pub Text : Type 0
Text = List Piece

-- The printed text is empty: a number and a quoted text are never printed as nothing.
unfoldable pub is_empty : Text → Bool
is_empty [] = true
is_empty (str s ∷ t) = s == "" && is_empty t
is_empty (int n ∷ t) = false
is_empty (quoted s ∷ t) = false
