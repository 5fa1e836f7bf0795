-- ===== src/Store/Lock/Exclusion.antt =====
-- `DistributedLock` of gateway/store.py among many clients, and the state of the store while it is held.
use agent_pay_sentinel.Prelude.{
  ℕ, zero, suc, ◌+◌, ◌≤◌, ◌<◌, String, ◌≡◌, ◌≢◌, Option, some, arith, lookup, erase, lookup-insert,
  eq_iff, eq_refl,
}
use agent_pay_sentinel.Clock.{seconds}
use agent_pay_sentinel.Store.{Store, set_nx, delete_if_value}
use agent_pay_sentinel.Store.Lock.{
  DistributedLock, holding, left, attempt, release, System, update, Step, enter, try, leave, wait,
  elsewhere, Reach, here, next,
}

-- The clients share one key and one time to live, and no two have the same token: `uuid4` makes a
-- fresh one for each object.
pub record Shared (lock : ℕ → DistributedLock) (key : String) (ttl : ℕ) : Type 0 where
  pub one_key : (i : ℕ) → (lock i).key ≡ key
  pub one_ttl : (i : ℕ) → (lock i).ttl ≡ ttl
  pub fresh : (i j : ℕ) → (lock i).token ≡ (lock j).token → i ≡ j
  pub positive : 0 < ttl

abbrev entry : DistributedLock → ℕ → String × Option ℕ
entry l u = (l.token, some (u + seconds l.ttl))

attempt_self :
    (l : DistributedLock) (now n u : ℕ) (s : Store String)
    → 0 < l.ttl
    → (attempt l now n s).0 ≡ holding u
    → (u ≡ now) × (lookup l.key (attempt l now n s).1.kv ≡ some (entry l now))
unfolding attempt set_nx
attempt_self l now zero u s p h = cc
attempt_self l now (suc n) u s p h = ground (
  arith,
  lookup-insert l.key l.key (entry l now) s.kv,
  lookup-insert l.key l.key (entry l now) (erase l.key s.kv),
  eq_refl l.key,
)

attempt_kept :
    (l : DistributedLock) (now n exp : ℕ) (w : String) (s : Store String)
    → lookup l.key s.kv ≡ some (w, some exp)
    → now ≤ exp
    → lookup l.key (attempt l now n s).1.kv ≡ some (w, some exp)
unfolding attempt set_nx
attempt_kept l now zero exp w s e h = e
attempt_kept l now (suc n) exp w s e h = ground arith

release_kept :
    (l : DistributedLock) (now exp : ℕ) (w : String) (s : Store String)
    → lookup l.key s.kv ≡ some (w, some exp)
    → now ≤ exp
    → w ≢ l.token
    → release l now s ≡ s
unfolding release delete_if_value
release_kept l now exp w s e h ne = ground (arith, eq_iff w l.token)

module _ (lock : ℕ → DistributedLock) (key : String) (ttl : ℕ) (shared : Shared lock key ttl) where
  -- Who believes to hold the lock, and is within its time, is the one whom the store names.
  pub record Inv (s : System) : Type 0 where
    pub since : (i u : ℕ) → s.client i ≡ holding u → u ≤ s.now
    pub named :
        (i u : ℕ)
        → s.client i ≡ holding u
        → s.now ≤ u + seconds ttl
        → lookup key s.store.kv ≡ some ((lock i).token, some (u + seconds ttl))

  try-Inv :
      (s : System) (i n : ℕ)
      → Inv s
      → (let (c, st) = attempt (lock i) s.now n s.store in
          Inv (record s { store = st; client = update s.client i c }))
  try-Inv s i n inv = record {
    since = λ j u e. ground (
      arith,
      attempt_self (lock i) s.now n u s.store,
      shared.one_ttl i,
      shared.positive,
      inv.since j u,
    );
    named = λ j u e h. ground (
      arith,
      attempt_self (lock i) s.now n u s.store,
      attempt_kept (lock i) s.now n (u + seconds ttl) (lock j).token s.store,
      shared.one_ttl i,
      shared.one_key i,
      shared.positive,
      inv.named j u,
    );
  }

  leave-Inv :
      (s : System) (i u : ℕ)
      → s.client i ≡ holding u
      → Inv s
      → Inv (record s { store = release (lock i) s.now s.store; client = update s.client i left })
  leave-Inv s i u held inv = record {
    since = λ j v e. ground (arith, inv.since j v);
    named = λ j v e h. ground (
      arith,
      release_kept (lock i) s.now (v + seconds ttl) (lock j).token s.store,
      shared.one_key i,
      shared.fresh j i,
      inv.named j v,
    );
  }

  Step-Inv : {s t : System} → Step lock s t → Inv s → Inv t
  Step-Inv {s} (enter i e eq) inv = rw eq (record {
    since = λ j u e. ground (arith, inv.since j u);
    named = λ j u e h. ground (arith, inv.named j u);
  })
  Step-Inv {s} (try i n e eq) inv = rw eq (try-Inv s i n inv)
  Step-Inv {s} (leave i u e eq) inv = rw eq (leave-Inv s i u e inv)
  Step-Inv {s} (wait d eq) inv = rw eq (record {
    since = λ j u e. ground (arith, inv.since j u);
    named = λ j u e h. ground (arith, inv.named j u);
  })
  Step-Inv {s} (elsewhere st same eq) inv = rw eq (record {
    since = inv.since;
    named = λ j u e h. ground (arith, same j, shared.one_key j, inv.named j u);
  })

  Reach-Inv : {s t : System} → Inv s → Reach lock s t → Inv t
  Reach-Inv inv here = inv
  Reach-Inv inv (next r st) = Step-Inv st (Reach-Inv inv r)

  -- From a state in which nobody holds the lock, whatever the clients, the clock and the rest of
  -- the store do: two clients that hold the lock, each within the time to live of its own
  -- acquisition, are one.
  pub lock_exclusive :
      (s t : System) (i j u v : ℕ)
      → ((k w : ℕ) → s.client k ≢ holding w)
      → Reach lock s t
      → t.client i ≡ holding u
      → t.client j ≡ holding v
      → t.now ≤ u + seconds ttl
      → t.now ≤ v + seconds ttl
      → i ≡ j
  lock_exclusive s t i j u v quiet r hi hj ti tj = ground (
    arith,
    (Reach-Inv start r).named i u hi ti,
    (Reach-Inv start r).named j v hj tj,
    shared.fresh i j,
  )
    where
      start : Inv s
      start = record {
        since = λ k w e. absurd (quiet k w e);
        named = λ k w e h. absurd (quiet k w e);
      }
