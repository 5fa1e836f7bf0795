-- ===== src/Json.antt =====
-- JSON values, as the gateway builds them for audit payloads and responses.
use agent_pay_sentinel.Prelude.{ℕ, String, Bool, Option, none, some, List, [], ◌∷◌}

mutual
  pub data Json : Type 0 where
    null : Json
    text : String → Json
    num : ℕ → Json
    flag : Bool → Json
    arr : Items → Json
    obj : Fields → Json

  pub data Items : Type 0 where
    nil : Items
    cons : Json → Items → Items

  pub data Fields : Type 0 where
    end : Fields
    field : String → Json → Fields → Fields

-- a list of texts
abbrev pub items : List String → Items
items [] = nil
items (s ∷ ss) = cons (text s) (items ss)

abbrev pub texts : List String → Json
texts ss = arr (items ss)

abbrev pub optional : Option String → Json
optional none = null
optional (some s) = text s
