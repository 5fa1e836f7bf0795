-- ===== src/Linking/Links.antt =====
-- control_plane/telegram.py: how long a link lasts.
use agent_pay_sentinel.Prelude.{
  ℕ, String, ◌≡◌, Bool, true, false, not, Option, none, some, List, [], ◌∷◌, All, Dict, lookup,
  lookup-insert, arith, eq_iff, ◌==◌,
}
use agent_pay_sentinel.Linking.{
  Methods, LinkTables, TelegramLinkCode, TelegramLink, drop_where, issue_code, redeem_row,
  redeem_code, unlink_user,
}
use agent_pay_sentinel.Linking.Calls.{Call, issue, redeem, unlink, after, after_all}

-- A call that neither links the Telegram id anew nor unlinks the account.
abbrev pub leaves_link : Methods → String → String → Call → Bool
leaves_link py telegram_id user_id (issue code now other) = true
leaves_link py telegram_id user_id (redeem code other now) =
    not (py.strip other == py.strip telegram_id)
leaves_link py telegram_id user_id (unlink other) = not (other == user_id)

module _ (py : Methods) (telegram_id user_id : String) (row : TelegramLink)
    (mine : row.user_id ≡ user_id) where
  kept :
      (other : String) (d : Dict TelegramLink)
      → (other == user_id) ≡ false
      → lookup (py.strip telegram_id) d ≡ some row
      → lookup (py.strip telegram_id) (drop_where (λ (r : TelegramLink). r.user_id == other) d)
        ≡ some row
  unfolding lookup drop_where
  kept other [] apart h = cc
  kept other ((j, w) ∷ d) apart h = ground (
    arith,
    eq_iff j (py.strip telegram_id),
    eq_iff row.user_id other,
    eq_iff other user_id,
    kept other d,
  )

  redeem_row-other :
      (code other : String) (now : ℕ) (o : Option TelegramLinkCode) (t : LinkTables)
      → (py.strip other == py.strip telegram_id) ≡ false
      → lookup (py.strip telegram_id) t.links ≡ some row
      → lookup (py.strip telegram_id) (redeem_row code (py.strip other) now o t).1.links ≡ some row
  unfolding redeem_row
  redeem_row-other code other now none t apart h = h
  redeem_row-other code other now (some r) t apart h = ground (
    arith,
    lookup-insert (py.strip other) (py.strip telegram_id)
        (record { user_id = r.user_id; linked_at = now }) t.links,
  )

  after-link :
      (call : Call) (t : LinkTables)
      → leaves_link py telegram_id user_id call ≡ true
      → lookup (py.strip telegram_id) t.links ≡ some row
      → lookup (py.strip telegram_id) (after py call t).links ≡ some row
  unfolding after issue_code redeem_code unlink_user
  after-link (issue code now other) t leaves h = ground arith
  after-link (redeem code other now) t leaves h = redeem_row-other _ other now _ t (ground arith) h
  after-link (unlink other) t leaves h = kept other t.links (ground arith) h

  pub after_all-link :
      (calls : List Call) (t : LinkTables)
      → All (λ (call : Call). leaves_link py telegram_id user_id call ≡ true) calls
      → lookup (py.strip telegram_id) t.links ≡ some row
      → lookup (py.strip telegram_id) (after_all py calls t).links ≡ some row
  unfolding after_all
  after_all-link [] t leaves h = h
  after_all-link (call ∷ calls) t (a, leaves) h =
      after_all-link calls (after py call t) leaves (after-link call t a h)
