-- ===== src/Analyzer/Floor.antt =====
-- gateway/analyzer/__init__.py: what the combined confidence keeps of its layers.
use agent_pay_sentinel.Prelude.{
  ℕ, ◌*◌, ◌≤◌, ◌<◌, ◌≡◌, ap, leb, Bool-cases, inl, inr, min, max, arith,
}
use agent_pay_sentinel.Schemas.{
  SourceType, official_api, verified_catalog, scraped_page, user_upload, email, unattributed,
}
use agent_pay_sentinel.Analyzer.Trust.{
  IsNearest, combine, corroborated, injection_prior, trust_score,
}

corroborated_mono :
    (r l l' s : ℕ)
    → r ≤ 1000
    → l' ≤ 1000
    → s ≤ 1000
    → l ≤ l'
    → corroborated r l s ≤ corroborated r l' s
unfolding corroborated
corroborated_mono r l l' s hr hl hs h = ground arith

corroborated_floor :
    (r l s : ℕ)
    → r ≤ 1000
    → l ≤ 1000
    → s ≤ 1000
    → (r ≤ corroborated r l s)
      × (l ≤ corroborated r l s)
      × (s ≤ corroborated r l s)
      × (corroborated r l s ≤ 1000)
unfolding corroborated
corroborated_floor r l s hr hl hs = (ground arith, ground arith, ground arith, ground arith)

-- The amplifier is at least one, and monotone.
amplified :
    (source : SourceType) (a b : ℕ)
    → a ≤ b
    → (4000 * a ≤ a * injection_prior source)
      × (a * injection_prior source ≤ b * injection_prior source)
unfolding injection_prior trust_score
amplified official_api a b h = omega arith
amplified verified_catalog a b h = omega arith
amplified user_upload a b h = omega arith
amplified scraped_page a b h = omega arith
amplified email a b h = omega arith
amplified unattributed a b h = omega arith

module _ (nearest : ℕ → ℕ) (sound : IsNearest nearest) (source : SourceType) where
  nearest_mono : (m n : ℕ) → m ≤ n → nearest m ≤ nearest n
  nearest_mono m n h = elim (Bool-cases (leb n m)) [
    | inl e ↦ let same : m ≡ n = ground arith in omega (arith, ap nearest same)
    | inr e ↦ let apart : m < n = ground arith in omega (arith, sound.above m, sound.below n)
  ]

  -- What the layers alone found is a floor under the combined confidence, which stays within 1.
  pub layers_floor :
      (r l s : ℕ)
      → r ≤ 1000
      → l ≤ 1000
      → s ≤ 1000
      → (max (max r l) s ≤ combine nearest r l source s) × (combine nearest r l source s ≤ 1000)
  unfolding combine
  layers_floor r l s hr hl hs =
      let c = corroborated r l s in
      let (fr, fl, fs, top) = corroborated_floor r l s hr hl hs in
      let (amp, _) = amplified source c c (omega arith) in
      let n = min (1000 * 4000) (c * injection_prior source) in
      (omega (arith, sound.below n, amp), omega (arith, sound.above n))

  -- A further layer only adds: with the classifier left out the score is no higher.
  pub deterministic-le-injection :
      (r l s : ℕ)
      → r ≤ 1000
      → l ≤ 1000
      → s ≤ 1000
      → combine nearest r 0 source s ≤ combine nearest r l source s
  unfolding combine
  deterministic-le-injection r l s hr hl hs =
      let (_, mono) =
        amplified source (corroborated r 0 s) (corroborated r l s)
          (corroborated_mono r 0 l s hr hl hs (omega arith)) in
      nearest_mono (min (1000 * 4000) (corroborated r 0 s * injection_prior source))
        (min (1000 * 4000) (corroborated r l s * injection_prior source)) (omega (arith, mono))
