-- ===== src/Store/Sets.antt =====
-- gateway/store.py: the members of a set after an addition and a removal.
use agent_pay_sentinel.Prelude.{
  String, ◌≡◌, not, ◌&&◌, ◌||◌, List, [], ◌∷◌, arith, elem, lookup, lookup-insert, eq_iff, eq_refl,
  ◌==◌, if◌then◌else◌,
}
use agent_pay_sentinel.Store.{Store, sadd, srem, sismember, discard, or_empty}

elem-discard :
    (m j : String) (xs : List String) → elem j (discard m xs) ≡ (not (m == j) && elem j xs)
elem-discard m j [] = ground arith
elem-discard m j (x ∷ xs) = ground (arith, elem-discard m j xs, eq_iff x m, eq_iff x j, eq_iff m j)

elem-add :
    (m j : String) (xs : List String)
    → elem j (if elem m xs then xs else m ∷ xs) ≡ (m == j || elem j xs)
elem-add m j xs = ground (arith, eq_iff m j)

module _ {V : Type 0} where
  pub sismember-sadd :
      (key m j : String) (s : Store V)
      → sismember key j (sadd key m s) ≡ (m == j || sismember key j s)
  unfolding sismember sadd
  sismember-sadd key m j s =
      let old = or_empty (lookup key s.sets) in
      ground (
        arith,
        eq_refl key,
        lookup-insert key key (if elem m old then old else m ∷ old) s.sets,
        elem-add m j old,
      )

  pub sismember-srem :
      (key m j : String) (s : Store V)
      → sismember key j (srem key m s) ≡ (not (m == j) && sismember key j s)
  unfolding sismember srem
  sismember-srem key m j s =
      let old = or_empty (lookup key s.sets) in
      ground
        (arith, eq_refl key, lookup-insert key key (discard m old) s.sets, elem-discard m j old)
