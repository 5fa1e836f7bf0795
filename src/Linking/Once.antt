-- ===== src/Linking/Once.antt =====
-- control_plane/telegram.py: a code is redeemed at most once.
use agent_pay_sentinel.Prelude.{
  ℕ, String, ◌≡◌, refl, Bool, true, false, not, Option, none, some, List, [], ◌∷◌, Dict, lookup,
  lookup-insert, arith, eq_iff, eq_refl,
}
use agent_pay_sentinel.Result.{ok, err}
use agent_pay_sentinel.Linking.{
  Methods, LinkTables, TelegramLinkCode, Linked, drop_where, stale, unused, code_key, issue_code,
  redeem_row, redeem_code, unlink_user,
}
use agent_pay_sentinel.Linking.Calls.{Call, issue, redeem, unlink, after, after_all}

-- whether the row carries the time of its use
abbrev spent : Option TelegramLinkCode → Bool
spent none = false
spent (some row) = not (unused row.used_at)

abbrev Spent : String → LinkTables → Type 0
Spent code t = spent (lookup code t.codes) ≡ true

spent_kept :
    (user_id c : String) (d : Dict TelegramLinkCode)
    → spent (lookup c d) ≡ true
    → spent (lookup c (drop_where (stale user_id) d)) ≡ true
unfolding lookup drop_where stale
spent_kept user_id c [] h = h
spent_kept user_id c ((j, w) ∷ d) h = ground (arith, eq_iff j c, spent_kept user_id c d)

-- A row that is used is not stale, and its key is not given out again.
Spent-issue :
    (c code user_id : String) (now : ℕ) (t : LinkTables)
    → Spent c t
    → Spent c (issue_code code now user_id t).1
unfolding issue_code
Spent-issue c code user_id now t s =
    let kept = drop_where (stale user_id) t.codes in
    let row : TelegramLinkCode = record { user_id = user_id; created_at = now; used_at = none } in
    ground (arith, eq_iff code c, spent_kept user_id c t.codes s, lookup-insert code c row kept)

Spent-redeem_row :
    (c code telegram_id : String) (now : ℕ) (o : Option TelegramLinkCode) (t : LinkTables)
    → lookup code t.codes ≡ o
    → Spent c t
    → Spent c (redeem_row code telegram_id now o t).1
unfolding redeem_row
Spent-redeem_row c code telegram_id now none t e s = s
Spent-redeem_row c code telegram_id now (some r) t e s =
    ground (arith, eq_iff code c, lookup-insert code c (record r { used_at = some now }) t.codes)

Spent-after :
    (py : Methods) (c : String) (call : Call) (t : LinkTables)
    → Spent c t
    → Spent c (after py call t)
unfolding after redeem_code unlink_user
Spent-after py c (issue code now user_id) t s = Spent-issue c code user_id now t s
Spent-after py c (redeem code telegram_id now) t s =
    Spent-redeem_row c (code_key py code) (py.strip telegram_id) now
      (lookup (code_key py code) t.codes) t refl s
Spent-after py c (unlink user_id) t s = s

Spent-after_all :
    (py : Methods) (c : String) (calls : List Call) (t : LinkTables)
    → Spent c t
    → Spent c (after_all py calls t)
unfolding after_all
Spent-after_all py c [] t s = s
Spent-after_all py c (call ∷ calls) t s =
    Spent-after_all py c calls (after py call t) (Spent-after py c call t s)

redeem_row-Spent :
    (c telegram_id : String) (now : ℕ) (linked : Linked) (o : Option TelegramLinkCode)
    (t : LinkTables)
    → (redeem_row c telegram_id now o t).0 ≡ ok linked
    → Spent c (redeem_row c telegram_id now o t).1
unfolding redeem_row
redeem_row-Spent c telegram_id now linked none t h = cc
redeem_row-Spent c telegram_id now linked (some r) t h =
    ground (arith, eq_refl c, lookup-insert c c (record r { used_at = some now }) t.codes)

redeem-Spent :
    (py : Methods) (code telegram_id : String) (now : ℕ) (linked : Linked) (t : LinkTables)
    → (redeem_code py code telegram_id now t).0 ≡ ok linked
    → Spent (code_key py code) (redeem_code py code telegram_id now t).1
unfolding redeem_code
redeem-Spent py code telegram_id now linked t h =
    redeem_row-Spent (code_key py code) (py.strip telegram_id) now linked
      (lookup (code_key py code) t.codes) t h

row_refused :
    (c telegram_id : String) (now : ℕ) (o : Option TelegramLinkCode) (t : LinkTables)
    → spent o ≡ true
    → redeem_row c telegram_id now o t
      ≡ (err (record { status = 409; detail = "link code already used" }), t)
unfolding redeem_row
row_refused c telegram_id now none t h = cc
row_refused c telegram_id now (some r) t h = ground arith

Spent-refused :
    (py : Methods) (code telegram_id : String) (now : ℕ) (t : LinkTables)
    → Spent (code_key py code) t
    → redeem_code py code telegram_id now t
      ≡ (err (record { status = 409; detail = "link code already used" }), t)
unfolding redeem_code
Spent-refused py code telegram_id now t h =
    row_refused (code_key py code) (py.strip telegram_id) now (lookup (code_key py code) t.codes) t
      h

-- Once a code has linked an account, no later call of `redeem_code` with a text of the same key
-- succeeds, whatever calls come between: it answers 409 and writes nothing.
pub redeemed_once :
    (py : Methods) (code again telegram_id other : String) (now later : ℕ) (linked : Linked)
    (calls : List Call) (t : LinkTables)
    → (redeem_code py code telegram_id now t).0 ≡ ok linked
    → code_key py again ≡ code_key py code
    → let t' = after_all py calls (redeem_code py code telegram_id now t).1 in
      redeem_code py again other later t'
      ≡ (err (record { status = 409; detail = "link code already used" }), t')
redeemed_once py code again telegram_id other now later linked calls t h same =
    Spent-refused py again other later _ (
      rw same (
        Spent-after_all py (code_key py code) calls _
          (redeem-Spent py code telegram_id now linked t h)))
