-- ===== src/ControlPlane/Standing.antt =====
-- control_plane/routes.py: the standing of a delegation, in the registry and in the revocation set.
use agent_pay_sentinel.Prelude.{
  Bool-cases, inl, inr, String, ◌≡◌, refl, Bool, true, false, not, ◌&&◌, ◌||◌, Option, none, some,
  arith, lookup, lookup-insert, eq_iff, ◌==◌, if◌then◌else◌,
}
use agent_pay_sentinel.Admin.{AdminPrincipal}
use agent_pay_sentinel.Context.{SpendingPolicy}
use agent_pay_sentinel.ControlPlane.{
  PolicyIn, policy_of, Service, Outside, Plane, AdminRequest, put_agent, put_policy, put_merchant,
  post_revoke, get_revoked, post_reinstate, post_token, read_policy, get_merchants, get_trail,
  post_link_code, post_link, get_link_status, get_whoami, delete_link, post_reset,
}
use agent_pay_sentinel.ControlPlane.Routes.{
  code_reply, link_reply, reset_reply, flag, revoke_bound, perform, upsert_policy,
  revoke_delegation, reinstate_delegation, telegram_link_code, telegram_link, dev_reset,
  issue_token, upsert_agent, upsert_merchant, telegram_unlink,
}
use agent_pay_sentinel.Store.{revocation_set, sismember}
use agent_pay_sentinel.Store.Sets.{sismember-sadd, sismember-srem}

-- What the control plane promises about a delegation.
pub data Standing : Type 0 where
  unbound : Standing
  in_force : Standing
  withdrawn : Standing

abbrev pub is_withdrawn : Standing → Bool
is_withdrawn withdrawn = true
is_withdrawn _ = false

abbrev pub unless_unbound : Standing → Standing → Standing
unless_unbound new unbound = unbound
unless_unbound new _ = new

-- How an admitted request moves it: a bound policy puts it in force, a revocation withdraws it, a
-- reinstatement puts it back, the last two where a policy is bound.
abbrev pub moved : String → AdminRequest → Standing → Standing
moved d (put_policy b) s = if b.delegation_id == d then in_force else s
moved d (post_revoke e) s = if e == d then unless_unbound withdrawn s else s
moved d (post_reinstate e) s = if e == d then unless_unbound in_force s else s
moved d _ s = s

-- How it changes the delegation's membership in the set, by what is bound.
abbrev pub marked : String → (String → Bool) → AdminRequest → Bool → Bool
marked d known (put_policy b) m = not (b.delegation_id == d) && m
marked d known (post_revoke e) m = if known e then e == d || m else m
marked d known (post_reinstate e) m = not (e == d) && m
marked d known _ m = m

abbrev pub bound : Option SpendingPolicy → Bool
bound none = false
bound (some row) = true

abbrev pub standing_of : Option SpendingPolicy → Standing
standing_of none = unbound
standing_of (some row) = if row.revoked then withdrawn else in_force

module _ {V : Type 0} where
  -- as the registry's tables have it
  unfoldable pub standing : String → Plane V → Standing
  standing d p = standing_of (lookup d p.tables.policies)

  -- as the gateway reads it from the store
  abbrev pub in_set : String → Plane V → Bool
  in_set d p = sismember revocation_set d p.store

  module _ (sv : Service) (out : Outside) (admin : AdminPrincipal) where
    standing-flag :
        (b : Bool) (d e : String) (o : Option SpendingPolicy) (p : Plane V)
        → lookup e p.tables.policies ≡ o
        → standing d (flag b e o p) ≡ (
            if e == d
            then unless_unbound (if b then withdrawn else in_force) (standing d p)
            else standing d p)
    unfolding standing flag
    standing-flag b d e none p h = ground (arith, eq_iff e d)
    standing-flag b d e (some row) p h =
        ground (arith, eq_iff e d, lookup-insert e d (record row { revoked = b }) p.tables.policies)

    standing-upsert :
        (d : String) (b : PolicyIn) (p : Plane V)
        → standing d (upsert_policy sv out admin b p).1
          ≡ (if b.delegation_id == d then in_force else standing d p)
    unfolding standing upsert_policy
    standing-upsert d b p =
        ground (arith, lookup-insert b.delegation_id d (policy_of b) p.tables.policies)

    standing-revoke :
        (d e : String) (o : Option SpendingPolicy) (p : Plane V)
        → lookup e p.tables.policies ≡ o
        → standing d (revoke_bound sv out admin e o p).1
          ≡ (if e == d then unless_unbound withdrawn (standing d p) else standing d p)
    unfolding revoke_bound standing
    standing-revoke d e none p h = standing-flag true d e none p h
    standing-revoke d e (some row) p h = elim (Bool-cases out.store_up) [
      | inl up ↦ rw up (standing-flag true d e (some row) p h)
      | inr down ↦ rw down (standing-flag true d e (some row) p h)
    ]

    in_set-upsert :
        (d : String) (b : PolicyIn) (p : Plane V)
        → in_set d (upsert_policy sv out admin b p).1
          ≡ (if out.store_up then not (b.delegation_id == d) && in_set d p else in_set d p)
    unfolding upsert_policy
    in_set-upsert d b p = ground (arith, sismember-srem revocation_set b.delegation_id d p.store)

    in_set-revoke :
        (d e : String) (o : Option SpendingPolicy) (p : Plane V)
        → lookup e p.tables.policies ≡ o
        → in_set d (revoke_bound sv out admin e o p).1
          ≡ (if out.store_up && bound o then e == d || in_set d p else in_set d p)
    unfolding revoke_bound flag
    in_set-revoke d e none p h = ground arith
    in_set-revoke d e (some row) p h = ground (arith, sismember-sadd revocation_set e d p.store)

    in_set-flag :
        (b : Bool) (d e : String) (o : Option SpendingPolicy) (p : Plane V)
        → (flag b e o p).store ≡ p.store
    unfolding flag
    in_set-flag b d e none p = refl
    in_set-flag b d e (some row) p = refl

    in_set-reinstate :
        (d e : String) (p : Plane V)
        → in_set d (reinstate_delegation sv out admin e p).1
          ≡ (if out.store_up then not (e == d) && in_set d p else in_set d p)
    unfolding reinstate_delegation
    in_set-reinstate d e p =
        let o = lookup e p.tables.policies in
        elim (Bool-cases out.store_up) [
          | inl up ↦ rw (up, in_set-flag false d e o p) (sismember-srem revocation_set e d p.store)
          | inr down ↦ rw (down, in_set-flag false d e o p) refl
        ]

    -- The set moves only where the store answers.
    pub in_set-perform :
        (d : String) (r : AdminRequest) (p : Plane V)
        → in_set d (perform sv out admin r p).1 ≡ (
            if out.store_up
            then marked d (λ e. bound (lookup e p.tables.policies)) r (in_set d p)
            else in_set d p)
    unfolding perform revoke_delegation upsert_agent upsert_merchant issue_token telegram_link_code
        telegram_link telegram_unlink dev_reset code_reply link_reply reset_reply sismember
    in_set-perform d (put_agent b) p = ground arith
    in_set-perform d (put_policy b) p = in_set-upsert d b p
    in_set-perform d (put_merchant b) p = ground arith
    in_set-perform d (post_revoke e) p =
        ground (arith, in_set-revoke d e (lookup e p.tables.policies) p refl)
    in_set-perform d get_revoked p = ground arith
    in_set-perform d (post_reinstate e) p = in_set-reinstate d e p
    in_set-perform d (post_token b) p = ground arith
    in_set-perform d (read_policy e) p = ground arith
    in_set-perform d get_merchants p = ground arith
    in_set-perform d (get_trail n) p = ground arith
    in_set-perform d (post_link_code u) p = ground arith
    in_set-perform d (post_link c t) p = ground arith
    in_set-perform d (get_link_status u) p = ground arith
    in_set-perform d (get_whoami t) p = ground arith
    in_set-perform d (delete_link u) p = ground arith
    in_set-perform d post_reset p = ground arith

    -- The tables move as the requests say, whether or not the store answers.
    pub standing-perform :
        (d : String) (r : AdminRequest) (p : Plane V)
        → standing d (perform sv out admin r p).1 ≡ moved d r (standing d p)
    unfolding perform revoke_delegation reinstate_delegation standing upsert_agent upsert_merchant
        issue_token telegram_link_code telegram_link telegram_unlink dev_reset code_reply link_reply
        reset_reply
    standing-perform d (put_agent b) p = refl
    standing-perform d (put_policy b) p = standing-upsert d b p
    standing-perform d (put_merchant b) p = refl
    standing-perform d (post_revoke e) p = standing-revoke d e (lookup e p.tables.policies) p refl
    standing-perform d get_revoked p = refl
    standing-perform d (post_reinstate e) p = elim (Bool-cases out.store_up) [
      | inl up ↦ rw up (standing-flag false d e (lookup e p.tables.policies) p refl)
      | inr down ↦ rw down (standing-flag false d e (lookup e p.tables.policies) p refl)
    ]
    standing-perform d (post_token b) p = ground arith
    standing-perform d (read_policy e) p = refl
    standing-perform d get_merchants p = refl
    standing-perform d (get_trail n) p = refl
    standing-perform d (post_link_code u) p = ground arith
    standing-perform d (post_link c t) p = ground arith
    standing-perform d (get_link_status u) p = refl
    standing-perform d (get_whoami t) p = refl
    standing-perform d (delete_link u) p = refl
    standing-perform d post_reset p = ground arith
