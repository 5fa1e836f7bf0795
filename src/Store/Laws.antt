-- ===== src/Store/Laws.antt =====
-- gateway/store.py: what a reader of the store sees. `view` is the value that `get` returns.
use agent_pay_sentinel.Prelude.{
  ℕ, ◌≤◌, String, ◌≡◌, true, false, Option, none, some, arith, lookup, erase, lookup-insert,
  lookup-erase, ◌==◌, eq_iff, if◌then◌else◌,
}
use agent_pay_sentinel.Store.{Store, past, deadline, get, set, set_nx}

module _ {V : Type 0} where
  live : ℕ → Option (V × Option ℕ) → Option V
  live now none = none
  live now (some (v, exp)) = if past exp now then none else some v

  unfoldable pub view : Store V → ℕ → String → Option V
  unfolding live
  view s now key = live now (lookup key s.kv)

  pub get-eq-view : (key : String) (now : ℕ) (s : Store V) → (get key now s).0 ≡ view s now key
  unfolding get view
  get-eq-view key now s = ground arith

  -- A read drops at most what has expired, which no later read shows.
  pub view-get :
      (key j : String) (t now : ℕ) (s : Store V)
      → t ≤ now
      → view (get key t s).1 now j ≡ view s now j
  unfolding get view
  view-get key j t now s h = ground (arith, lookup-erase key j s.kv, eq_iff key j)

  pub view-set :
      (key j : String) (v : V) (ex : Option ℕ) (t now : ℕ) (s : Store V)
      → view (set key v ex t s) now j
        ≡ (if key == j then (if past (deadline t ex) now then none else some v) else view s now j)
  unfolding set view
  view-set key j v ex t now s =
      ground (arith, lookup-insert key j (v, deadline t ex) s.kv, eq_iff key j)

  -- `set_nx` writes exactly when no reader sees a value.
  pub view-set_nx :
      (key j : String) (v : V) (ex : Option ℕ) (t : ℕ) (s : Store V)
      → view s t key ≡ none
      → ((set_nx key v ex t s).0 ≡ true)
        × (view (set_nx key v ex t s).1 t j
            ≡ (if key == j then (if past (deadline t ex) t then none else some v) else view s t j))
  unfolding set_nx view
  view-set_nx key j v ex t s h = ground (
    arith,
    lookup-insert key j (v, deadline t ex) s.kv,
    lookup-insert key j (v, deadline t ex) (erase key s.kv),
    lookup-erase key j s.kv,
    eq_iff key j,
  )

  pub set_nx_taken :
      (key : String) (v w : V) (ex : Option ℕ) (t : ℕ) (s : Store V)
      → view s t key ≡ some w
      → set_nx key v ex t s ≡ (false, s)
  unfolding set_nx view
  set_nx_taken key v w ex t s h = ground arith
