-- ===== src/Slices.antt =====
-- Python's slices of texts, by characters.
use agent_pay_sentinel.Prelude.{ℕ, zero, suc, ◌-◌, String}

-- `s[:n]`
unfoldable pub prefix : ℕ → String → String
prefix zero s = ""
prefix (suc n) String.[] = ""
prefix (suc n) (String.◌∷◌ c s) = String.◌∷◌ c (prefix n s)

-- `s[n:]`
unfoldable pub suffix : ℕ → String → String
suffix zero s = s
suffix (suc n) String.[] = ""
suffix (suc n) (String.◌∷◌ c s) = suffix n s

-- `s[a:b]`
unfoldable pub slice : ℕ → ℕ → String → String
unfolding prefix suffix
slice a b s = prefix (b - a) (suffix a s)
