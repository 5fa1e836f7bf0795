-- ===== src/ControlPlane/Revocation.antt =====
-- control_plane/routes.py with gateway/identity.py: revoking a delegation, and what the gateway then
-- refuses.
use agent_pay_sentinel.Prelude.{
  String, ◌≡◌, ◌≢◌, refl, Bool, true, not, Option, none, some, List, [], ◌∷◌, All, arith, lookup,
  eq_iff, eq_refl, ◌==◌, if◌then◌else◌, Bool-cases, inl, inr, ap,
}
use agent_pay_sentinel.Admin.{AdminSettings, AdminHeaders, AdminPrincipal}
use agent_pay_sentinel.Bearer.{Strings}
use agent_pay_sentinel.ControlPlane.{
  Service, Outside, Plane, AdminRequest, Answer, put_policy, post_revoke, post_reinstate, Answer,
}
use agent_pay_sentinel.ControlPlane.Routes.{perform, handle, revoke_bound, revoke_delegation}
use agent_pay_sentinel.ControlPlane.Standing.{
  Standing, is_withdrawn, moved, marked, bound, standing, in_set, standing-perform, in_set-perform,
}
use agent_pay_sentinel.ControlPlane.Door.{keyed, acting, handle-keyed}
use agent_pay_sentinel.Identity.{Decoded, AgentIdentity, authenticate}
use agent_pay_sentinel.Identity.Guards.{authenticate-Passed}
use agent_pay_sentinel.Result.{ok}
use agent_pay_sentinel.Schemas.{PaymentIntent}
use agent_pay_sentinel.Context.{SpendingPolicy}
use agent_pay_sentinel.Store.Sets.{sismember-sadd}
use agent_pay_sentinel.Store.{Store, revocation_set, sismember}

pub record AdminCall : Type 0 where
  pub out : Outside
  pub headers : AdminHeaders
  pub request : AdminRequest

-- the same requests, on the standing of one delegation
unfoldable pub replay : AdminSettings → String → List AdminCall → Standing → Standing
replay settings d [] s = s
replay settings d (c ∷ cs) s =
    replay settings d cs (if keyed settings c.headers then moved d c.request s else s)

-- A request that neither binds nor reinstates the delegation.
abbrev pub leaves_revoked : String → AdminRequest → Bool
leaves_revoked d (put_policy b) = not (b.delegation_id == d)
leaves_revoked d (post_reinstate e) = not (e == d)
leaves_revoked d _ = true

marked_stays :
    (d : String) (known : String → Bool) (r : AdminRequest)
    → leaves_revoked d r ≡ true
    → marked d known r true ≡ true
marked_stays d known (put_policy b) l = ground arith
marked_stays d known (post_revoke e) l = ground arith
marked_stays d known (post_reinstate e) l = ground arith
marked_stays d known _ l = refl

module _ {V : Type 0} where
  marked-moved :
      (d : String) (r : AdminRequest) (p : Plane V)
      → in_set d p ≡ is_withdrawn (standing d p)
      → marked d (λ e. bound (lookup e p.tables.policies)) r (in_set d p)
        ≡ is_withdrawn (moved d r (standing d p))
  unfolding standing
  marked-moved d (put_policy b) p h = ground arith
  marked-moved d (post_revoke e) p h = ground (arith, eq_iff e d)
  marked-moved d (post_reinstate e) p h = ground (arith, eq_iff e d)
  marked-moved d _ p h = ground arith

module _ {V : Type 0} (sv : Service) where
  unfoldable pub serve : List AdminCall → Plane V → Plane V
  serve [] p = p
  serve (c ∷ cs) p = serve cs (handle sv c.out c.headers c.request p).1

  abbrev Agrees : String → Plane V → Type 0
  Agrees d p = in_set d p ≡ is_withdrawn (standing d p)

  -- The set and the registry move together.
  Agrees-perform :
      (out : Outside) (admin : AdminPrincipal) (d : String) (r : AdminRequest) (p : Plane V)
      → out.store_up ≡ true
      → Agrees d p
      → Agrees d (perform sv out admin r p).1
  Agrees-perform out admin d r p up h =
      rw (in_set-perform sv out admin d r p, standing-perform sv out admin d r p, up)
        (marked-moved d r p h)

  -- one request at the door, as the replay has it
  standing-handle :
      (c : AdminCall) (d : String) (p : Plane V)
      → standing d (handle sv c.out c.headers c.request p).1
        ≡ (if keyed sv.settings c.headers then moved d c.request (standing d p) else standing d p)
  standing-handle c d p =
      rw (handle-keyed sv c.out c.headers c.request p)
        (elim (Bool-cases (keyed sv.settings c.headers)) [
          | inl e ↦ rw e (standing-perform sv c.out (acting c.headers) d c.request p)
          | inr e ↦ rw e refl
        ])

  Agrees-handle :
      (c : AdminCall) (d : String) (p : Plane V)
      → c.out.store_up ≡ true
      → Agrees d p
      → Agrees d (handle sv c.out c.headers c.request p).1
  Agrees-handle c d p up h =
      rw (handle-keyed sv c.out c.headers c.request p)
        (elim (Bool-cases (keyed sv.settings c.headers)) [
          | inl e ↦ rw e (Agrees-perform c.out (acting c.headers) d c.request p up h)
          | inr e ↦ rw e h
        ])

  -- Over any sequence of requests, with and without the key, while the store answers: the registry
  -- has each delegation at the standing that replaying the keyed requests gives, and the revocation
  -- set that the gateway reads holds exactly the delegations that the replay has withdrawn, where
  -- that was so at the start.
  pub serve_refines :
      (calls : List AdminCall) (d : String) (p : Plane V)
      → All (λ (c : AdminCall). c.out.store_up ≡ true) calls
      → sismember revocation_set d p.store ≡ is_withdrawn (standing d p)
      → (standing d (serve calls p) ≡ replay sv.settings d calls (standing d p))
        × (sismember revocation_set d (serve calls p).store
            ≡ is_withdrawn (replay sv.settings d calls (standing d p)))
  unfolding serve replay
  serve_refines [] d p up h = (refl, h)
  serve_refines (c ∷ cs) d p (u, up) h =
      rw (← standing-handle c d p)
        (serve_refines cs d (handle sv c.out c.headers c.request p).1 up (Agrees-handle c d p u h))

  -- What happens to the shared state while a delegation is not put in force again: requests to the
  -- control plane, whatever the store and the trail do, and steps of the gateway, which write the
  -- values and windows of the store and none of its sets.
  pub data Elapses (d : String) : Plane V → Plane V → Type 0 where
    none_yet : {p : Plane V} → Elapses d p p
    admin_request :
        {p q : Plane V} (c : AdminCall)
        → leaves_revoked d c.request ≡ true
        → Elapses d (handle sv c.out c.headers c.request p).1 q
        → Elapses d p q
    gateway_step :
        {p q : Plane V} (s : Store V)
        → s.sets ≡ p.store.sets
        → Elapses d (record p { store = s }) q
        → Elapses d p q

  in_set-handle :
      (c : AdminCall) (d : String) (p : Plane V)
      → leaves_revoked d c.request ≡ true
      → in_set d p ≡ true
      → in_set d (handle sv c.out c.headers c.request p).1 ≡ true
  in_set-handle c d p l h =
      rw (handle-keyed sv c.out c.headers c.request p)
        (elim (Bool-cases (keyed sv.settings c.headers)) [
          | inl e ↦
              rw (e, in_set-perform sv c.out (acting c.headers) d c.request p, h)
                (ground
                  (arith, marked_stays d (λ x. bound (lookup x p.tables.policies)) c.request l))
          | inr e ↦ rw e h
        ])

  in_set-Elapses :
      (d : String) {p q : Plane V} → Elapses d p q → in_set d p ≡ true → in_set d q ≡ true
  unfolding sismember
  in_set-Elapses d none_yet h = h
  in_set-Elapses d {p} (admin_request c l rest) h = in_set-Elapses d rest (in_set-handle c d p l h)
  in_set-Elapses d (gateway_step s e rest) h = in_set-Elapses d rest (rw e h)

  revoked-in_set :
      (out : Outside) (admin : AdminPrincipal) (d : String) (o : Option SpendingPolicy)
      (p : Plane V) (a : Answer)
      → (revoke_bound sv out admin d o p).0 ≡ ok a
      → in_set d (revoke_bound sv out admin d o p).1 ≡ true
  unfolding revoke_bound
  revoked-in_set out admin d none p a h = cc
  revoked-in_set out admin d (some row) p a h =
      ground (arith, eq_refl d, sismember-sadd revocation_set d d p.store)

  revoke-in_set :
      (out : Outside) (headers : AdminHeaders) (d : String) (p : Plane V) (a : Answer)
      → (handle sv out headers (post_revoke d) p).0 ≡ ok a
      → in_set d (handle sv out headers (post_revoke d) p).1 ≡ true
  unfolding perform revoke_delegation
  revoke-in_set out headers d p a h =
      let e = handle-keyed sv out headers (post_revoke d) p in
      elim (Bool-cases (keyed sv.settings headers)) [
        | inl k ↦
            let e' = rw k at e in
            rw e'
              (revoked-in_set out (acting headers) d (lookup d p.tables.policies) p a (rw e' at h))
        | inr k ↦ let e' = rw k at e in cc (ap (λ x. x.0) e', h)
      ]

  -- A revocation that was answered holds: after any requests that neither bind nor reinstate the
  -- delegation, failing ones included, and any steps of the gateway, `authenticate` lets no
  -- credentials through for a payment on that delegation, signed and unexpired ones included.
  pub revoked_stays_refused :
      (out : Outside) (headers : AdminHeaders) (d : String) (p q : Plane V) (a : Answer)
      (py : Strings) (decode : String → Decoded) (up : Bool) (header : Option String)
      (intent : PaymentIntent) (i : AgentIdentity)
      → (handle sv out headers (post_revoke d) p).0 ≡ ok a
      → Elapses d (handle sv out headers (post_revoke d) p).1 q
      → intent.delegation_id ≡ d
      → authenticate py decode up header intent q.store ≢ ok i
  revoked_stays_refused out headers d p q a py decode up header intent i h run same passed =
      let through = authenticate-Passed py decode up header intent q.store i passed in
      let marked_now = in_set-Elapses d run (revoke-in_set out headers d p a h) in
      cc (through.unrevoked, through.same_delegation)
