-- ===== src/Samples/Linking.antt =====
-- The theorems about the linking of Telegram accounts at sample calls.
use agent_pay_sentinel.Prelude.{◌+◌, ◌≤◌, ◌<◌, ◌≡◌, refl, ◌⊎◌, some, [], ◌∷◌, lookup, insert}
use agent_pay_sentinel.Clock.{seconds}
use agent_pay_sentinel.Linking.{
  Methods, LinkTables, Linked, IssuedCode, code_key, code_ttl, issue_code, mask, redeem_code,
  resolve_user, redeem_row, unlink_user,
}
use agent_pay_sentinel.Linking.Binding.{issued_code_links}
use agent_pay_sentinel.Linking.Calls.{unlink, after_all, after}
use agent_pay_sentinel.Linking.Latest.{latest_code_only}
use agent_pay_sentinel.Linking.Once.{redeemed_once}
use agent_pay_sentinel.Result.{ok, err}

abbrev methods : Methods
methods = record { strip = λ s. s; upper = λ s. s }

abbrev no_links : LinkTables
no_links = record { codes = []; links = [] }

abbrev with_code : LinkTables
with_code = (issue_code "LINK-7F3K9Q" 0 "user_ada" no_links).1

abbrev issued : IssuedCode
issued = record { code = "LINK-7F3K9Q"; expires_at = 600000000; expires_in_seconds = 600 }

abbrev linked : Linked
linked = record { user_id = "user_ada"; telegram_id_masked = "12*45" }

redeemed_once_example :
    let t = (redeem_code methods "LINK-7F3K9Q" "12345" 60 with_code).1 in
    let t' = after_all methods (unlink "user_ada" ∷ []) t in
    redeem_code methods "LINK-7F3K9Q" "67890" 120 t'
    ≡ (err (record { status = 409; detail = "link code already used" }), t')
unfolding redeem_code redeem_row lookup issue_code insert mask
redeemed_once_example =
    redeemed_once methods "LINK-7F3K9Q" "LINK-7F3K9Q" "12345" "67890" 60 120 linked
      (unlink "user_ada" ∷ []) with_code refl refl

latest_code_only_example : code_key methods "LINK-7F3K9Q" ≡ "LINK-7F3K9Q"
unfolding issue_code lookup redeem_code redeem_row after_all after unlink_user insert mask
latest_code_only_example =
    latest_code_only methods "user_ada" "LINK-7F3K9Q" "LINK-7F3K9Q" "12345" 0 60 issued linked
      (unlink "user_bob" ∷ []) no_links refl (refl, tt) refl refl

issued_code_links_example :
    let t = after_all methods (unlink "user_ada" ∷ []) with_code in
    let (r, t') = redeem_code methods "LINK-7F3K9Q" "12345" 60 t in
    ((60 ≤ 0 + seconds code_ttl)
      × (r ≡ ok (record { user_id = "user_ada"; telegram_id_masked = mask "12345" }))
      × (resolve_user methods "12345" t' ≡ some "user_ada")
      × (resolve_user methods "12345" (after_all methods (unlink "user_bob" ∷ []) t')
          ≡ some "user_ada"))
    ⊎ ((0 + seconds code_ttl < 60)
        × (r ≡ err (record { status = 410; detail = "link code expired" }))
        × (t' ≡ t))
unfolding issue_code lookup
issued_code_links_example =
    issued_code_links methods "user_ada" "LINK-7F3K9Q" "12345" 0 60 issued (unlink "user_ada" ∷ [])
      (unlink "user_bob" ∷ []) no_links refl (refl, tt) (refl, tt)
