-- ===== src/Bearer.antt =====
-- The bearer token of an Authorization header, as gateway/identity.py and mock_provider/main.py take
-- it apart. `str.lower` and `str.strip` are Python's: arguments.
use Prim.Native.Char.{code}
use agent_pay_sentinel.Prelude.{String, not, ◌&&◌, Option, none, some, eqb, ◌==◌, if◌then◌else◌}
use text.Mathlib.Text.{starts_with}

pub record Strings : Type 0 where
  pub lower : String → String
  pub strip : String → String

-- `s.split(" ", 1)[1]`, for a text with a space in it
unfoldable pub after_space : String → String
after_space String.[] = ""
after_space (String.◌∷◌ c s) = if eqb (code c) b' ' then s else after_space s

-- `none` where the header is missing or is no bearer header
unfoldable pub bearer : Strings → Option String → Option String
unfolding after_space
bearer py none = none
bearer py (some a) =
    if not (a == "") && starts_with (py.lower a) "bearer "
    then some (py.strip (after_space a))
    else none
