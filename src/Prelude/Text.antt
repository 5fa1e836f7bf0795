-- ===== src/Prelude/Text.antt =====
-- Texts: their equality test, and prefixes of one length.
use Prim.Native.String.{String, ◌++◌, count}
use mathlib.Core.Path.{◌≡◌, sym, ◌∙◌}
use mathlib.Core.Logic.{◌≢◌, inl, inr}
use mathlib.Core.Bool.{false}
use agent_pay_sentinel.Prelude.Tests.{Bool-cases}
use text.Mathlib.Text.{◌==◌}
use text.Mathlib.TextEquality.{eq_iff}
use text.Mathlib.TextLemmas.{append_assoc, append_inj}

pub ne_of_eq-false : (s t : String) → (s == t) ≡ false → s ≢ t
ne_of_eq-false s t h e = cc (h, (eq_iff s t).1 e)

pub eq-false_of_ne : (s t : String) → s ≢ t → (s == t) ≡ false
eq-false_of_ne s t ne = elim (Bool-cases (s == t)) [
  | inl e ↦ absurd (ne ((eq_iff s t).0 e))
  | inr e ↦ e
]

pub append-ne :
    (p q s t a b : String) → count p ≡ count q → (p == q) ≡ false → (p ++ s) ++ a ≢ (q ++ t) ++ b
append-ne p q s t a b n ne e =
    ne_of_eq-false p q ne ((append_inj (sym (append_assoc p s a) ∙ e ∙ append_assoc q t b) n).0)
