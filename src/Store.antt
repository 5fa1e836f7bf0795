-- ===== src/Store.antt =====
-- The shared state of gateway/store.py, in the form of `MemoryStore`: values with an expiry time,
-- sets of texts, and windows of timestamped members. Values are of any type; the gateway keeps
-- texts and JSON records in them.
pub mod Laws
pub mod Sets
pub mod Window
pub mod Lock
use agent_pay_sentinel.Prelude.{
  ℕ, ◌+◌, ◌-◌, String, Bool, true, false, not, ◌&&◌, Option, none, some, List, [], ◌∷◌, Dict,
  lookup, insert, erase, elem, length, ltb, leb, ◌==◌, if◌then◌else◌,
}
use agent_pay_sentinel.Clock.{seconds}

pub record Store (V : Type 0) : Type 0 where
  pub kv : Dict (V × Option ℕ)
  pub sets : Dict (List String)
  pub zsets : Dict (Dict ℕ)

abbrev pub new : {V : Type 0} → Store V
new = record { kv = []; sets = []; zsets = [] }

-- The text of a `revoked_delegations` set's key.
abbrev pub revocation_set : String
revocation_set = "agentpay:revoked_delegations"

abbrev pub past : Option ℕ → ℕ → Bool
past none now = false
past (some exp) now = ltb exp now

-- `time.time() + ex if ex else None`
abbrev pub deadline : ℕ → Option ℕ → Option ℕ
deadline now none = none
deadline now (some ex) = if ltb 0 ex then some (now + seconds ex) else none

-- the members that `zadd_window` keeps
abbrev pub recent : ℕ → Dict ℕ → Dict ℕ
recent cutoff [] = []
recent cutoff ((m, ts) ∷ z) =
    let rest = recent cutoff z in if ltb ts cutoff then rest else (m, ts) ∷ rest

abbrev pub count_from : ℕ → Dict ℕ → ℕ
count_from cutoff [] = 0
count_from cutoff ((m, ts) ∷ z) = (if leb cutoff ts then 1 else 0) + count_from cutoff z

abbrev pub or_empty {ℓ} : {A : Type ℓ} → Option (List A) → List A
or_empty none = []
or_empty (some xs) = xs

-- `set.discard`
abbrev pub discard : String → List String → List String
discard s [] = []
discard s (x ∷ xs) = let rest = discard s xs in if x == s then rest else x ∷ rest

module _ {V : Type 0} where
  -- drops the entry if it has expired
  unfoldable pub alive : String → ℕ → Store V → Bool × Store V
  alive key now s = elim (lookup key s.kv) [
    | none ↦ (false, s)
    | some (v, exp) ↦ if past exp now then (false, record s { kv = erase key s.kv }) else (true, s)
  ]

  value_of : Option (V × Option ℕ) → Option V
  value_of none = none
  value_of (some (v, _)) = some v

  unfoldable pub get : String → ℕ → Store V → Option V × Store V
  unfolding alive value_of
  get key now s =
      let (a, s') = alive key now s in (if a then value_of (lookup key s'.kv) else none, s')

  unfoldable pub set : String → V → Option ℕ → ℕ → Store V → Store V
  set key value ex now s = record s { kv = insert key (value, deadline now ex) s.kv }

  unfoldable pub set_nx : String → V → Option ℕ → ℕ → Store V → Bool × Store V
  unfolding alive
  set_nx key value ex now s =
      let (a, s') = alive key now s in
      if a
      then (false, s')
      else (true, record s' { kv = insert key (value, deadline now ex) s'.kv })

  -- `same` is the equality of values
  unfoldable pub delete_if_value : (V → V → Bool) → String → V → ℕ → Store V → Bool × Store V
  unfolding alive
  delete_if_value same key value now s =
      let (a, s') = alive key now s in
      elim (lookup key s'.kv) [
        | none ↦ (false, s')
        | some (v, _) ↦
            if a && same v value then (true, record s' { kv = erase key s'.kv }) else (false, s')
      ]

  unfoldable pub sadd : String → String → Store V → Store V
  sadd key member s =
      let old = or_empty (lookup key s.sets) in
      record s { sets = insert key (if elem member old then old else member ∷ old) s.sets }

  unfoldable pub srem : String → String → Store V → Store V
  srem key member s = record s {
    sets = insert key (discard member (or_empty (lookup key s.sets))) s.sets;
  }

  unfoldable pub sismember : String → String → Store V → Bool
  sismember key member s = elem member (or_empty (lookup key s.sets))

  -- `fresh` is the `uuid4` that names the new member
  unfoldable pub zadd_window : String → ℕ → String → ℕ → Store V → ℕ × Store V
  zadd_window key window_seconds fresh now s =
      let z =
        insert fresh now (recent (now - seconds window_seconds) (or_empty (lookup key s.zsets))) in
      (length z, record s { zsets = insert key z s.zsets })

  unfoldable pub zcount_window : String → ℕ → ℕ → Store V → ℕ
  zcount_window key window_seconds now s =
      count_from (now - seconds window_seconds) (or_empty (lookup key s.zsets))
