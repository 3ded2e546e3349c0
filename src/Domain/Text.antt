-- ===== src/Domain/Text.antt =====
-- Identifiers built by f-strings in prototype/materializer.py and prototype/commands.py.
use Prim.Native.String.{String, ◌++◌}
use text.Mathlib.TextLemmas.{append_cancel_left}
use ronro.Prelude.{◌≡◌}

infixr 66 ◌⧺◌
abbrev pub ◌⧺◌ : String → String → String
s ⧺ t = s ++ t

-- A common prefix can be taken off.
pub ⧺_cancel_left : (s t u : String) → s ⧺ t ≡ s ⧺ u → t ≡ u
⧺_cancel_left = append_cancel_left
