-- ===== src/Linking/Binding.antt =====
-- control_plane/telegram.py: from the issue of a code to the account that a Telegram id acts as.
use agent_pay_sentinel.Prelude.{
  ℕ, ◌+◌, ◌≤◌, ◌<◌, String, ◌≡◌, refl, ap, ◌⊎◌, inl, inr, Bool-cases, leb, Bool, true, false, not,
  Option, none, some, List, [], ◌∷◌, All, Dict, lookup, lookup-insert, arith, eq_iff, eq_refl, ◌==◌,
}
use agent_pay_sentinel.Clock.{seconds}
use agent_pay_sentinel.Result.{ok, err}
use agent_pay_sentinel.Linking.{
  Methods, LinkTables, TelegramLinkCode, TelegramLink, IssuedCode, code_ttl, drop_where, stale,
  mask, code_key, issue_code, redeem_row, redeem_code, resolve_user, unlink_user,
}
use agent_pay_sentinel.Linking.Links.{leaves_link, after_all-link}
use agent_pay_sentinel.Linking.Calls.{Call, issue, redeem, unlink, after, after_all}

-- A call that neither issues a code for the account nor presents the code.
abbrev pub leaves_code : Methods → String → String → Call → Bool
leaves_code py user_id c (issue code now other) = not (other == user_id)
leaves_code py user_id c (redeem code telegram_id now) = not (code_key py code == c)
leaves_code py user_id c (unlink other) = true

module _ (py : Methods) (user_id c : String) (row : TelegramLinkCode)
    (mine : row.user_id ≡ user_id) where
  kept :
      (other : String) (d : Dict TelegramLinkCode)
      → (other == user_id) ≡ false
      → lookup c d ≡ some row
      → lookup c (drop_where (stale other) d) ≡ some row
  unfolding lookup drop_where stale
  kept other [] apart h = cc
  kept other ((j, w) ∷ d) apart h =
      ground (arith, eq_iff j c, eq_iff row.user_id other, eq_iff other user_id, kept other d)

  redeem_row-other :
      (code telegram_id : String) (now : ℕ) (o : Option TelegramLinkCode) (t : LinkTables)
      → (code == c) ≡ false
      → lookup c t.codes ≡ some row
      → lookup c (redeem_row code telegram_id now o t).1.codes ≡ some row
  unfolding redeem_row
  redeem_row-other code telegram_id now none t apart h = h
  redeem_row-other code telegram_id now (some r) t apart h =
      ground (arith, lookup-insert code c (record r { used_at = some now }) t.codes)

  after-row :
      (call : Call) (t : LinkTables)
      → leaves_code py user_id c call ≡ true
      → lookup c t.codes ≡ some row
      → lookup c (after py call t).codes ≡ some row
  unfolding after issue_code redeem_code unlink_user
  after-row (issue code now other) t apart h = ground (
    arith,
    eq_iff code c,
    kept other t.codes,
    lookup-insert code c (record { user_id = other; created_at = now; used_at = none })
        (drop_where (stale other) t.codes),
  )
  after-row (redeem code telegram_id now) t apart h =
      redeem_row-other (code_key py code) (py.strip telegram_id) now
        (lookup (code_key py code) t.codes) t (ground arith) h
  after-row (unlink other) t apart h = h

  after_all-row :
      (calls : List Call) (t : LinkTables)
      → All (λ (call : Call). leaves_code py user_id c call ≡ true) calls
      → lookup c t.codes ≡ some row
      → lookup c (after_all py calls t).codes ≡ some row
  unfolding after_all
  after_all-row [] t apart h = h
  after_all-row (call ∷ calls) t (a, apart) h =
      after_all-row calls (after py call t) apart (after-row call t a h)

issued-row :
    (user_id c : String) (now : ℕ) (issued : IssuedCode) (t : LinkTables)
    → (issue_code c now user_id t).0 ≡ some issued
    → lookup c (issue_code c now user_id t).1.codes
      ≡ some (record { user_id = user_id; created_at = now; used_at = none })
unfolding issue_code
issued-row user_id c now issued t h = ground (
  arith,
  eq_refl c,
  lookup-insert c c (record { user_id = user_id; created_at = now; used_at = none })
      (drop_where (stale user_id) t.codes),
)

-- What a presented code does, by its row: it links while the code is unused and at most ten minutes
-- old, and it is refused with 410 and no write after that.
redeem-fresh :
    (py : Methods) (user_id telegram_id code : String) (now later : ℕ) (t : LinkTables)
    → lookup (code_key py code) t.codes
      ≡ some (record { user_id = user_id; created_at = now; used_at = none })
    → later ≤ now + seconds code_ttl
    → let (r, t') = redeem_code py code telegram_id later t in
      (r ≡ ok (record { user_id = user_id; telegram_id_masked = mask (py.strip telegram_id) }))
      × (lookup (py.strip telegram_id) t'.links
          ≡ some (record { user_id = user_id; linked_at = later }))
unfolding redeem_code redeem_row
redeem-fresh py user_id telegram_id code now later t h in_time =
    let id = py.strip telegram_id in
    rw h (
      ground arith,
      ground (
        arith,
        eq_refl id,
        lookup-insert id id (record { user_id = user_id; linked_at = later }) t.links,
      ),
    )

redeem-late :
    (py : Methods) (user_id telegram_id code : String) (now later : ℕ) (t : LinkTables)
    → lookup (code_key py code) t.codes
      ≡ some (record { user_id = user_id; created_at = now; used_at = none })
    → now + seconds code_ttl < later
    → redeem_code py code telegram_id later t
      ≡ (err (record { status = 410; detail = "link code expired" }), t)
unfolding redeem_code redeem_row
redeem-late py user_id telegram_id code now later t h late = rw h (ground arith)

resolved :
    (py : Methods) (telegram_id : String) (row : TelegramLink) (t : LinkTables)
    → lookup (py.strip telegram_id) t.links ≡ some row
    → resolve_user py telegram_id t ≡ some row.user_id
unfolding resolve_user
resolved py telegram_id row t h = rw (h, resolve_user) refl

-- A code issued for an account, when it is presented after calls that neither issue a code for the
-- account nor present the code: up to ten minutes after the issue it links the Telegram id, which
-- then resolves to the account, at once and after any issues, redemptions and unlinkings that neither
-- link that Telegram id anew nor unlink the account; later it is refused with 410 and nothing is written.
pub issued_code_links :
    (py : Methods) (user_id code telegram_id : String) (now later : ℕ) (issued : IssuedCode)
    (calls next : List Call) (t : LinkTables)
    → (issue_code (code_key py code) now user_id t).0 ≡ some issued
    → All (λ (call : Call). leaves_code py user_id (code_key py code) call ≡ true) calls
    → All (λ (call : Call). leaves_link py telegram_id user_id call ≡ true) next
    → let t' = after_all py calls (issue_code (code_key py code) now user_id t).1 in
      let (r, t'') = redeem_code py code telegram_id later t' in
      ((later ≤ now + seconds code_ttl)
        × (r ≡ ok (record { user_id = user_id; telegram_id_masked = mask (py.strip telegram_id) }))
        × (resolve_user py telegram_id t'' ≡ some user_id)
        × (resolve_user py telegram_id (after_all py next t'') ≡ some user_id))
      ⊎ ((now + seconds code_ttl < later)
          × (r ≡ err (record { status = 410; detail = "link code expired" }))
          × (t'' ≡ t'))
issued_code_links py user_id code telegram_id now later issued calls next t i apart leaves =
    let t' = after_all py calls (issue_code (code_key py code) now user_id t).1 in
    let found =
      after_all-row py user_id (code_key py code)
        (record { user_id = user_id; created_at = now; used_at = none }) refl calls _ apart
        (issued-row user_id (code_key py code) now issued t i) in
    elim (Bool-cases (leb later (now + seconds code_ttl))) [
      | inl early ↦
          let in_time : later ≤ now + seconds code_ttl = ground arith in
          let (r, linked) = redeem-fresh py user_id telegram_id code now later t' found in_time in
          let t'' = (redeem_code py code telegram_id later t').1 in
          let row : TelegramLink = record { user_id = user_id; linked_at = later } in
          inl (
            in_time,
            r,
            resolved py telegram_id row t'' linked,
            resolved py telegram_id row (after_all py next t'')
                (after_all-link py telegram_id user_id row refl next t'' leaves linked),
          )
      | inr passed ↦
          let late : now + seconds code_ttl < later = ground arith in
          let e = redeem-late py user_id telegram_id code now later t' found late in
          inr (late, ap (λ x. x.0) e, ap (λ x. x.1) e)
    ]
