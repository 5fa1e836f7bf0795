-- ===== src/Linking/Latest.antt =====
-- control_plane/telegram.py: which code of an account works, until when, and what it links.
use mathlib.Core.Path.{subst}
use agent_pay_sentinel.Prelude.{
  ℕ, String, ◌≡◌, refl, Bool, true, not, ◌&&◌, ◌||◌, Option, none, some, List, [], ◌∷◌, All, Dict,
  lookup, insert, arith, eq_iff, eq_refl, ◌==◌,
}
use agent_pay_sentinel.Result.{ok}
use agent_pay_sentinel.Linking.{
  Methods, LinkTables, TelegramLinkCode, Linked, IssuedCode, drop_where, stale, code_key,
  issue_code, redeem_row, redeem_code, unlink_user,
}
use agent_pay_sentinel.Linking.Calls.{Call, issue, redeem, unlink, after, after_all}

-- every unused row of the account has this key
abbrev only : String → String → Dict TelegramLinkCode → Bool
only user_id c [] = true
only user_id c ((k, r) ∷ d) = (not (stale user_id r) || k == c) && only user_id c d

only-drop_own :
    (user_id c : String) (d : Dict TelegramLinkCode)
    → only user_id c (drop_where (stale user_id) d) ≡ true
unfolding drop_where
only-drop_own user_id c [] = refl
only-drop_own user_id c ((k, r) ∷ d) = ground (arith, only-drop_own user_id c d)

only-drop :
    (user_id other c : String) (d : Dict TelegramLinkCode)
    → only user_id c d ≡ true
    → only user_id c (drop_where (stale other) d) ≡ true
unfolding drop_where
only-drop user_id other c [] h = refl
only-drop user_id other c ((k, r) ∷ d) h = ground (arith, only-drop user_id other c d)

only-insert :
    (user_id c j : String) (row : TelegramLinkCode) (d : Dict TelegramLinkCode)
    → only user_id c d ≡ true
    → (not (stale user_id row) || j == c) ≡ true
    → only user_id c (insert j row d) ≡ true
unfolding insert
only-insert user_id c j row [] h e = ground arith
only-insert user_id c j row ((k, r) ∷ d) h e = ground (arith, only-insert user_id c j row d)

only-lookup :
    (user_id c j : String) (row : TelegramLinkCode) (d : Dict TelegramLinkCode)
    → only user_id c d ≡ true
    → lookup j d ≡ some row
    → stale user_id row ≡ true
    → j ≡ c
unfolding lookup
only-lookup user_id c j row [] h l e = cc
only-lookup user_id c j row ((k, r) ∷ d) h l e =
    ground (arith, eq_iff k j, eq_iff k c, only-lookup user_id c j row d)

-- A call that issues no code for the account.
abbrev pub issues_none : String → Call → Bool
issues_none user_id (issue code now other) = not (other == user_id)
issues_none user_id (redeem code telegram_id now) = true
issues_none user_id (unlink other) = true

only-redeem_row :
    (user_id c code telegram_id : String) (now : ℕ) (o : Option TelegramLinkCode) (t : LinkTables)
    → only user_id c t.codes ≡ true
    → only user_id c (redeem_row code telegram_id now o t).1.codes ≡ true
unfolding redeem_row stale
only-redeem_row user_id c code telegram_id now none t h = h
only-redeem_row user_id c code telegram_id now (some r) t h =
    let row : TelegramLinkCode = record r { used_at = some now } in
    ground (arith, only-insert user_id c code row t.codes h)

only-after :
    (py : Methods) (user_id c : String) (call : Call) (t : LinkTables)
    → issues_none user_id call ≡ true
    → only user_id c t.codes ≡ true
    → only user_id c (after py call t).codes ≡ true
unfolding after issue_code redeem_code unlink_user stale
only-after py user_id c (issue code now other) t apart h =
    let row : TelegramLinkCode = record { user_id = other; created_at = now; used_at = none } in
    ground (
      arith,
      only-drop user_id other c t.codes h,
      only-insert user_id c code row (drop_where (stale other) t.codes),
    )
only-after py user_id c (redeem code telegram_id now) t apart h =
    only-redeem_row user_id c (code_key py code) (py.strip telegram_id) now
      (lookup (code_key py code) t.codes) t h
only-after py user_id c (unlink other) t apart h = h

only-after_all :
    (py : Methods) (user_id c : String) (calls : List Call) (t : LinkTables)
    → All (λ (call : Call). issues_none user_id call ≡ true) calls
    → only user_id c t.codes ≡ true
    → only user_id c (after_all py calls t).codes ≡ true
unfolding after_all
only-after_all py user_id c [] t apart h = h
only-after_all py user_id c (call ∷ calls) t (a, apart) h =
    only-after_all py user_id c calls (after py call t) apart (only-after py user_id c call t a h)

issued-only :
    (user_id c : String) (now : ℕ) (issued : IssuedCode) (t : LinkTables)
    → (issue_code c now user_id t).0 ≡ some issued
    → only user_id c (issue_code c now user_id t).1.codes ≡ true
unfolding issue_code
issued-only user_id c now issued t h =
    let row : TelegramLinkCode = record { user_id = user_id; created_at = now; used_at = none } in
    ground (
      arith,
      eq_refl c,
      only-insert user_id c c row (drop_where (stale user_id) t.codes)
          (only-drop_own user_id c t.codes),
    )

-- A call of `redeem_code` that succeeds found an unused row of the account that it links.
redeemed_row :
    (code telegram_id : String) (now : ℕ) (linked : Linked) (o : Option TelegramLinkCode)
    (t : LinkTables)
    → (redeem_row code telegram_id now o t).0 ≡ ok linked
    → (row : TelegramLinkCode) × (o ≡ some row) × (stale linked.user_id row ≡ true)
unfolding redeem_row stale
redeemed_row code telegram_id now linked none t h = cc
redeemed_row code telegram_id now linked (some r) t h = (r, refl, ground (arith, eq_refl r.user_id))

-- Once a code is issued for an account, it is the only one that can link the account: whatever
-- calls come between, other than an issue for the same account, a call of `redeem_code` that
-- succeeds and links the account was made with that code.
pub latest_code_only :
    (py : Methods) (user_id c code telegram_id : String) (now later : ℕ) (issued : IssuedCode)
    (linked : Linked) (calls : List Call) (t : LinkTables)
    → (issue_code c now user_id t).0 ≡ some issued
    → All (λ (call : Call). issues_none user_id call ≡ true) calls
    → let t' = after_all py calls (issue_code c now user_id t).1 in
      (redeem_code py code telegram_id later t').0 ≡ ok linked
      → linked.user_id ≡ user_id
      → code_key py code ≡ c
unfolding redeem_code
latest_code_only py user_id c code telegram_id now later issued linked calls t i apart h same =
    let t' = after_all py calls (issue_code c now user_id t).1 in
    let (row, found, mine) =
      redeemed_row (code_key py code) (py.strip telegram_id) later linked
        (lookup (code_key py code) t'.codes) t' h in
    only-lookup user_id c (code_key py code) row t'.codes
      (only-after_all py user_id c calls _ apart (issued-only user_id c now issued t i)) found
      (subst (λ u. stale u row ≡ true) same mine)
