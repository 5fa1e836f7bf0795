-- ===== src/Analyzer/Trust.antt =====
-- Source trust, gateway/analyzer/trust.py, and the combination of the layers, `combine` of
-- gateway/analyzer/__init__.py. Scores are whole thousandths; the rounding of a product to
-- thousandths is an argument.
use agent_pay_sentinel.Prelude.{ℕ, ◌+◌, ◌-◌, ◌*◌, ◌≤◌, min, max, ltb, leb, if◌then◌else◌}
use agent_pay_sentinel.Schemas.{
  SourceType, official_api, verified_catalog, scraped_page, user_upload, email, unattributed,
}

unfoldable pub trust_score : SourceType → ℕ
trust_score official_api = 950
trust_score verified_catalog = 800
trust_score user_upload = 500
trust_score scraped_page = 250
trust_score email = 150
trust_score unattributed = 100

-- `injection_prior` in whole 4000ths: `1.0 + (1.0 - trust_score) * 0.25`
unfoldable pub injection_prior : SourceType → ℕ
unfolding trust_score
injection_prior source = 4000 + (1000 - trust_score source)

abbrev counted : ℕ → ℕ
counted c = if ltb 0 c then 1 else 0

-- The strongest layer, and a little more where two agree.
unfoldable pub corroborated : ℕ → ℕ → ℕ → ℕ
corroborated rule llm similarity =
    let base = max (max rule llm) similarity in
    if leb 2 (counted rule + counted llm + counted similarity) then min 1000 (base + 50) else base

-- `nearest n` is `round(n / 4000, 0)`: the thousandths of the product.
unfoldable pub combine : (ℕ → ℕ) → ℕ → ℕ → SourceType → ℕ → ℕ
unfolding corroborated injection_prior
combine nearest rule llm source similarity =
    nearest (min (1000 * 4000) (corroborated rule llm similarity * injection_prior source))

-- What `round` documents: a whole number at most one half away.
pub record IsNearest (nearest : ℕ → ℕ) : Type 0 where
  pub above : (n : ℕ) → 4000 * nearest n ≤ n + 2000
  pub below : (n : ℕ) → n ≤ 4000 * nearest n + 2000
