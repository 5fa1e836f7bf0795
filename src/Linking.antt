-- ===== src/Linking.antt =====
-- Telegram account linking, control_plane/telegram.py. The tables are dicts by primary key; the
-- random code, the clock, `str.strip` and `str.upper` are arguments. A transaction that the database
-- refuses leaves the tables as they were.
pub mod Calls
pub mod Once
pub mod Latest
pub mod Links
pub mod Binding
use Prim.Native.String.{count}
use agent_pay_sentinel.Prelude.{
  ℕ, zero, suc, ◌+◌, ◌-◌, String, ◌<>◌, Bool, true, false, ◌&&◌, Option, none, some, List, [], ◌∷◌,
  Dict, lookup, insert, contains, length, ltb, leb, ◌==◌, if◌then◌else◌,
}
use agent_pay_sentinel.Clock.{seconds}
use agent_pay_sentinel.Result.{Result, ok, err}
use agent_pay_sentinel.Slices.{prefix, suffix}

-- `CODE_TTL`
abbrev pub code_ttl : ℕ
code_ttl = 600

pub record TelegramLink : Type 0 where
  pub user_id : String
  pub linked_at : ℕ

pub record TelegramLinkCode : Type 0 where
  pub user_id : String
  pub created_at : ℕ
  pub used_at : Option ℕ

pub record LinkTables : Type 0 where
  pub codes : Dict TelegramLinkCode
  pub links : Dict TelegramLink

-- Python's text methods
pub record Methods : Type 0 where
  pub strip : String → String
  pub upper : String → String

pub record LinkError : Type 0 where
  pub status : ℕ
  pub detail : String

-- `"*" * n`
stars : ℕ → String
stars zero = ""
stars (suc n) = "*" <> stars n

unfoldable pub mask : String → String
unfolding prefix suffix stars
mask telegram_id =
    if leb (count telegram_id) 4
    then stars (count telegram_id)
    else prefix 2 telegram_id
      <> stars (count telegram_id - 4)
      <> suffix (count telegram_id - 2) telegram_id

-- the rows that a `delete` of the selected ones leaves
unfoldable pub drop_where {ℓ} : {V : Type ℓ} → (V → Bool) → Dict V → Dict V
drop_where selected [] = []
drop_where selected ((k, v) ∷ d) =
    let rest = drop_where selected d in if selected v then rest else (k, v) ∷ rest

unfoldable pub select_where {ℓ} : {V : Type ℓ} → (V → Bool) → Dict V → Dict V
select_where selected [] = []
select_where selected ((k, v) ∷ d) =
    let rest = select_where selected d in if selected v then (k, v) ∷ rest else rest

-- `used_at.is_(None)`
abbrev pub unused : Option ℕ → Bool
unused none = true
unused (some t) = false

-- the rows of `stale`
unfoldable pub stale : String → TelegramLinkCode → Bool
stale user_id row = row.user_id == user_id && unused row.used_at

pub record IssuedCode : Type 0 where
  pub code : String
  pub expires_at : ℕ
  pub expires_in_seconds : ℕ

-- The key of a row that is left is taken: the insertion breaks the primary key, and the session is
-- rolled back (`none`).
unfoldable pub issue_code : String → ℕ → String → LinkTables → Option IssuedCode × LinkTables
unfolding drop_where stale
issue_code code now user_id t =
    let kept = drop_where (stale user_id) t.codes in
    if contains code kept then (none, t) else (
      some (record {
        code = code;
        expires_at = now + seconds code_ttl;
        expires_in_seconds = code_ttl;
      }),
      record t {
        codes = insert code (record { user_id = user_id; created_at = now; used_at = none }) kept;
      },
    )

pub record Linked : Type 0 where
  pub user_id : String
  pub telegram_id_masked : String

refuse : ℕ → String → LinkTables → Result LinkError Linked × LinkTables
refuse status detail t = (err (record { status = status; detail = detail }), t)

-- what `redeem_code` does with the row of the code
unfoldable pub redeem_row :
    String
    → String
    → ℕ
    → Option TelegramLinkCode
    → LinkTables
    → Result LinkError Linked × LinkTables
unfolding refuse
redeem_row code telegram_id now none t = refuse 404 "unknown link code" t
redeem_row code telegram_id now (some row) t =
    if unused row.used_at
    then (if ltb (seconds code_ttl) (now - row.created_at)
        then refuse 410 "link code expired" t
        else (
          ok (record { user_id = row.user_id; telegram_id_masked = mask telegram_id }),
          record {
            codes = insert code (record row { used_at = some now }) t.codes;
            links = insert telegram_id (record { user_id = row.user_id; linked_at = now }) t.links;
          },
        ))
    else refuse 409 "link code already used" t

-- the key under which a code is looked up
abbrev pub code_key : Methods → String → String
code_key py code = py.upper (py.strip code)

unfoldable pub redeem_code :
    Methods → String → String → ℕ → LinkTables → Result LinkError Linked × LinkTables
redeem_code py code telegram_id now t =
    redeem_row (code_key py code) (py.strip telegram_id) now (lookup (code_key py code) t.codes) t

unfoldable pub resolve_user : Methods → String → LinkTables → Option String
resolve_user py telegram_id t = elim (lookup (py.strip telegram_id) t.links) [
  | none ↦ none
  | some row ↦ some row.user_id
]

-- The first of the account's rows; its order is the table's.
unfoldable pub status_for_user : String → LinkTables → Option (String × ℕ)
unfolding select_where mask
status_for_user user_id t =
    elim (select_where (λ (row : TelegramLink). row.user_id == user_id) t.links) [
      | [] ↦ none
      | e ∷ rest ↦ some (mask e.0, e.1.linked_at)
    ]

unfoldable pub unlink_user : String → LinkTables → ℕ × LinkTables
unfolding drop_where select_where
unlink_user user_id t =
    let mine = λ (row : TelegramLink). row.user_id == user_id in
    (length (select_where mine t.links), record t { links = drop_where mine t.links })
