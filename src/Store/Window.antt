-- ===== src/Store/Window.antt =====
-- gateway/store.py: the sliding windows.
use agent_pay_sentinel.Prelude.{
  ℕ, ◌+◌, ◌-◌, ◌≤◌, String, ◌≡◌, refl, Bool, none, [], ◌∷◌, arith, Dict, lookup, insert,
  lookup-insert, ◌==◌, eq_refl, if◌then◌else◌, leb,
}
use agent_pay_sentinel.Clock.{seconds}
use agent_pay_sentinel.Store.{Store, recent, count_from, or_empty, zadd_window, zcount_window}

count_from-recent : (c : ℕ) (z : Dict ℕ) → count_from c (recent c z) ≡ count_from c z
count_from-recent c [] = refl
count_from-recent c ((m, ts) ∷ z) = ground (arith, count_from-recent c z)

lookup-recent : (c : ℕ) (m : String) (z : Dict ℕ) → lookup m z ≡ none → lookup m (recent c z) ≡ none
unfolding lookup
lookup-recent c m [] h = refl
lookup-recent c m ((k, ts) ∷ z) h = ground (arith, lookup-recent c m z)

count_from-insert_new :
    (c : ℕ) (m : String) (ts : ℕ) (z : Dict ℕ)
    → lookup m z ≡ none
    → count_from c (insert m ts z) ≡ count_from c z + (if leb c ts then 1 else 0)
unfolding lookup insert
count_from-insert_new c m ts [] h = ground arith
count_from-insert_new c m ts ((k, w) ∷ z) h = ground (arith, count_from-insert_new c m ts z)

count_from_mono : (c d : ℕ) (z : Dict ℕ) → c ≤ d → count_from d z ≤ count_from c z
count_from_mono c d [] h = omega arith
count_from_mono c d ((m, ts) ∷ z) h = ground (arith, count_from_mono c d z)

module _ {V : Type 0} where
  -- The members under a key.
  unfoldable pub members : String → Store V → Dict ℕ
  members key s = or_empty (lookup key s.zsets)

  pub zcount-zadd_self :
      (key fresh : String) (w now : ℕ) (s : Store V)
      → lookup fresh (members key s) ≡ none
      → zcount_window key w now (zadd_window key w fresh now s).1 ≡ zcount_window key w now s + 1
  unfolding members zcount_window zadd_window
  zcount-zadd_self key fresh w now s h = ground (
    arith,
    eq_refl key,
    lookup-insert key key
        (insert fresh now (recent (now - seconds w) (or_empty (lookup key s.zsets)))) s.zsets,
    count_from-insert_new (now - seconds w) fresh now
        (recent (now - seconds w) (or_empty (lookup key s.zsets))),
    lookup-recent (now - seconds w) fresh (or_empty (lookup key s.zsets)),
    count_from-recent (now - seconds w) (or_empty (lookup key s.zsets)),
  )

  pub zcount-zadd_ne :
      (key other fresh : String) (w w' now now' : ℕ) (s : Store V)
      → (key == other) ≡ Bool.false
      → zcount_window other w' now' (zadd_window key w fresh now s).1
        ≡ zcount_window other w' now' s
  unfolding zcount_window zadd_window
  zcount-zadd_ne key other fresh w w' now now' s h = ground (
    arith,
    lookup-insert key other
        (insert fresh now (recent (now - seconds w) (or_empty (lookup key s.zsets)))) s.zsets,
  )

  -- As time passes a window only loses members.
  pub zcount_mono :
      (key : String) (w now now' : ℕ) (s : Store V)
      → now ≤ now'
      → zcount_window key w now' s ≤ zcount_window key w now s
  unfolding zcount_window
  zcount_mono key w now now' s h =
      count_from_mono (now - seconds w) (now' - seconds w) (or_empty (lookup key s.zsets))
        (omega arith)
