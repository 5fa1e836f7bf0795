-- ===== src/Store/Lock.antt =====
-- `DistributedLock` of gateway/store.py: `__aenter__` tries `set_nx` up to fifty times, `__aexit__`
-- deletes the key if it still holds the caller's own token. The clients are numbered; between any
-- two steps of one client the others may take theirs, time may pass, and the rest of the store may
-- change.
pub mod Exclusion
use agent_pay_sentinel.Prelude.{
  ℕ, zero, suc, ◌+◌, String, ◌<>◌, ◌≡◌, Bool, true, Option, some, lookup, eqb, ◌==◌, if◌then◌else◌,
}
use agent_pay_sentinel.Store.{Store, set_nx, delete_if_value}

pub record DistributedLock : Type 0 where
  pub key : String
  pub token : String
  pub ttl : ℕ

-- `f"agentpay:lock:{key}"`
unfoldable pub lock_key : String → String
lock_key key = "agentpay:lock:" <> key

-- `ttl or get_settings().lock_ttl_seconds`, where `none` is an argument left out
unfoldable pub new_lock : String → Option ℕ → ℕ → String → DistributedLock
unfolding lock_key
new_lock key ttl default fresh = record { key = lock_key key; token = fresh; ttl = chosen ttl }
  where
    chosen : Option ℕ → ℕ
    chosen = elim [ some t ↦ if eqb t 0 then default else t | _ ↦ default ]

-- Where a client is: it has `trying n` attempts left, holds the lock since a time, has had its
-- `TimeoutError`, or has left the block.
pub data Client : Type 0 where
  idle : Client
  trying : ℕ → Client
  holding : ℕ → Client
  timed_out : Client
  left : Client

abbrev pub attempts : ℕ
attempts = 50

-- One round of the loop in `__aenter__`, and the `raise` behind it.
unfoldable pub attempt : DistributedLock → ℕ → ℕ → Store String → Client × Store String
attempt l now zero s = (timed_out, s)
attempt l now (suc n) s =
    let (taken, s') = set_nx l.key l.token (some l.ttl) now s in
    (if taken then holding now else trying n, s')

unfoldable pub release : DistributedLock → ℕ → Store String → Store String
release l now s = (delete_if_value ◌==◌ l.key l.token now s).1

pub record System : Type 0 where
  pub now : ℕ
  pub store : Store String
  pub client : ℕ → Client

abbrev pub update : (ℕ → Client) → ℕ → Client → ℕ → Client
update f i c j = if eqb i j then c else f j

-- `lock i` is the object of client `i`.
pub data Step (lock : ℕ → DistributedLock) (s : System) (t : System) : Type 0 where
  enter :
      (i : ℕ)
      → s.client i ≡ idle
      → t ≡ record s { client = update s.client i (trying attempts) }
      → Step lock s t
  try :
      (i n : ℕ)
      → s.client i ≡ trying n
      → (let (c, st) = attempt (lock i) s.now n s.store in
          t ≡ record s { store = st; client = update s.client i c })
      → Step lock s t
  leave :
      (i u : ℕ)
      → s.client i ≡ holding u
      → t ≡ record s { store = release (lock i) s.now s.store; client = update s.client i left }
      → Step lock s t
  wait : (d : ℕ) → t ≡ record s { now = s.now + d } → Step lock s t
  elsewhere :
      (st : Store String)
      → ((i : ℕ) → lookup (lock i).key st.kv ≡ lookup (lock i).key s.store.kv)
      → t ≡ record s { store = st }
      → Step lock s t

pub data Reach (lock : ℕ → DistributedLock) (s : System) : System → Type 0 where
  here : Reach lock s s
  next : {t u : System} → Reach lock s t → Step lock t u → Reach lock s u
