-- ===== src/Samples/Codec.antt =====
-- A text format from which the sample texts are read back: a number in unary, a text after its length,
-- a sequence after its size. An encoder takes the text that follows.
use Prim.Native.Char.{code}
use agent_pay_sentinel.Prelude.{
  ℕ, zero, suc, ◌≤◌, max, String, ◌≡◌, refl, true, false, Option, none, some, List, [], ◌∷◌, eqb,
  if◌then◌else◌, arith,
}
use agent_pay_sentinel.Json.{
  Json, null, text, num, flag, arr, obj, Items, nil, cons, Fields, end, field,
}

unfoldable pub put_nat : ℕ → String → String
put_nat zero r = String.◌∷◌ "0" r
put_nat (suc n) r = String.◌∷◌ "1" (put_nat n r)

pub get_nat : String → ℕ × String
get_nat String.[] = (0, "")
get_nat (String.◌∷◌ c s) = let (n, r) = get_nat s in if eqb (code c) 49 then (suc n, r) else (0, s)

pub get-put_nat : (n : ℕ) (r : String) → get_nat (put_nat n r) ≡ (n, r)
unfolding put_nat get_nat
get-put_nat zero r = refl
get-put_nat (suc n) r = rw (get-put_nat n r) refl

unfoldable pub size : String → ℕ
size String.[] = 0
size (String.◌∷◌ c s) = suc (size s)

unfoldable pub join : String → String → String
join String.[] r = r
join (String.◌∷◌ c s) r = String.◌∷◌ c (join s r)

split : ℕ → String → String × String
split zero s = ("", s)
split (suc n) String.[] = ("", "")
split (suc n) (String.◌∷◌ c s) = let (a, r) = split n s in (String.◌∷◌ c a, r)

split-join : (s r : String) → split (size s) (join s r) ≡ (s, r)
unfolding split size join
split-join String.[] r = refl
split-join (String.◌∷◌ c s) r = rw (split-join s r) refl

unfoldable pub put_text : String → String → String
put_text s r = put_nat (size s) (join s r)

pub get_text : String → String × String
get_text s = let (n, r) = get_nat s in split n r

pub get-put_text : (s r : String) → get_text (put_text s r) ≡ (s, r)
unfolding get_text put_text
get-put_text s r = rw (get-put_nat (size s) (join s r)) (split-join s r)

unfoldable pub put_all : List String → String → String
put_all [] r = r
put_all (x ∷ xs) r = put_text x (put_all xs r)

unfoldable pub length_of : List String → ℕ
length_of [] = 0
length_of (x ∷ xs) = suc (length_of xs)

get_all : ℕ → String → List String × String
get_all zero s = ([], s)
get_all (suc n) s = let (x, r) = get_text s in let (xs, r') = get_all n r in (x ∷ xs, r')

get-put_all : (xs : List String) (r : String) → get_all (length_of xs) (put_all xs r) ≡ (xs, r)
unfolding get_all put_all length_of
get-put_all [] r = refl
get-put_all (x ∷ xs) r = rw (get-put_text x (put_all xs r), get-put_all xs r) refl

unfoldable pub put_texts : List String → String → String
put_texts xs r = put_nat (length_of xs) (put_all xs r)

pub get_texts : String → List String × String
get_texts s = let (n, r) = get_nat s in get_all n r

pub get-put_texts : (xs : List String) (r : String) → get_texts (put_texts xs r) ≡ (xs, r)
unfolding get_texts put_texts
get-put_texts xs r = rw (get-put_nat (length_of xs) (put_all xs r)) (get-put_all xs r)

pub listed : Option String → List String
listed none = []
listed (some s) = s ∷ []

pub unlisted : List String → Option String
unlisted [] = none
unlisted (x ∷ xs) = some x

pub unlisted-listed : (o : Option String) → unlisted (listed o) ≡ o
unfolding listed unlisted
unlisted-listed none = refl
unlisted-listed (some s) = refl

mutual
  put_json : Json → String → String
  put_json null r = put_nat 0 r
  put_json (text s) r = put_nat 1 (put_text s r)
  put_json (num n) r = put_nat 2 (put_nat n r)
  put_json (flag b) r = put_nat 3 (put_nat (if b then 1 else 0) r)
  put_json (arr is) r = put_nat 4 (put_items is r)
  put_json (obj f) r = put_nat 5 (put_fields f r)

  put_items : Items → String → String
  put_items nil r = put_nat 0 r
  put_items (cons j is) r = put_nat 1 (put_json j (put_items is r))

  pub put_fields : Fields → String → String
  put_fields end r = put_nat 0 r
  put_fields (field k j f) r = put_nat 1 (put_text k (put_json j (put_fields f r)))

mutual
  depth : Json → ℕ
  depth null = 1
  depth (text s) = 1
  depth (num n) = 1
  depth (flag b) = 1
  depth (arr is) = suc (items_depth is)
  depth (obj f) = suc (fields_depth f)

  items_depth : Items → ℕ
  items_depth nil = 1
  items_depth (cons j is) = suc (max (depth j) (items_depth is))

  pub fields_depth : Fields → ℕ
  fields_depth end = 1
  fields_depth (field k j f) = suc (max (depth j) (fields_depth f))

mutual
  get_json : ℕ → String → Json × String
  get_json zero s = (null, s)
  get_json (suc n) s =
      let (k, r) = get_nat s in
      let (t, r₁) = get_text r in
      let (m, r₂) = get_nat r in
      let (is, r₃) = get_items n r in
      let (f, r₄) = get_fields n r in
      if eqb k 0
      then (null, r)
      else if eqb k 1
      then (text t, r₁)
      else if eqb k 2
      then (num m, r₂)
      else if eqb k 3
      then (flag (eqb m 1), r₂)
      else if eqb k 4
      then (arr is, r₃)
      else (obj f, r₄)

  get_items : ℕ → String → Items × String
  get_items zero s = (nil, s)
  get_items (suc n) s =
      let (k, r) = get_nat s in
      let (j, r₁) = get_json n r in
      let (is, r₂) = get_items n r₁ in if eqb k 0 then (nil, r) else (cons j is, r₂)

  pub get_fields : ℕ → String → Fields × String
  get_fields zero s = (end, s)
  get_fields (suc n) s =
      let (k, r) = get_nat s in
      let (t, r₁) = get_text r in
      let (j, r₂) = get_json n r₁ in
      let (f, r₃) = get_fields n r₂ in if eqb k 0 then (end, r) else (field t j f, r₃)

depth_pos : (j : Json) → 1 ≤ depth j
unfolding depth
depth_pos null = omega arith
depth_pos (text s) = omega arith
depth_pos (num n) = omega arith
depth_pos (flag b) = omega arith
depth_pos (arr is) = omega arith
depth_pos (obj f) = omega arith

items_depth_pos : (is : Items) → 1 ≤ items_depth is
unfolding items_depth
items_depth_pos nil = omega arith
items_depth_pos (cons j is) = omega arith

fields_depth_pos : (f : Fields) → 1 ≤ fields_depth f
unfolding fields_depth
fields_depth_pos end = omega arith
fields_depth_pos (field k j f) = omega arith

mutual
  unfolding get_json get_items get_fields put_json put_items put_fields depth items_depth
      fields_depth

  get-put_json : (n : ℕ) (j : Json) (r : String) → depth j ≤ n → get_json n (put_json j r) ≡ (j, r)
  get-put_json zero j r h = absurd (omega (arith, depth_pos j))
  get-put_json (suc n) null r h = rw (get-put_nat 0 r) refl
  get-put_json (suc n) (text s) r h = rw (get-put_nat 1 (put_text s r), get-put_text s r) refl
  get-put_json (suc n) (num m) r h = rw (get-put_nat 2 (put_nat m r), get-put_nat m r) refl
  get-put_json (suc n) (flag true) r h = rw (get-put_nat 3 (put_nat 1 r), get-put_nat 1 r) refl
  get-put_json (suc n) (flag false) r h = rw (get-put_nat 3 (put_nat 0 r), get-put_nat 0 r) refl
  get-put_json (suc n) (arr is) r h =
      rw (get-put_nat 4 (put_items is r), get-put_items n is r (omega arith)) refl
  get-put_json (suc n) (obj f) r h =
      rw (get-put_nat 5 (put_fields f r), get-put_fields n f r (omega arith)) refl

  get-put_items :
      (n : ℕ) (is : Items) (r : String)
      → items_depth is ≤ n
      → get_items n (put_items is r) ≡ (is, r)
  get-put_items zero is r h = absurd (omega (arith, items_depth_pos is))
  get-put_items (suc n) nil r h = rw (get-put_nat 0 r) refl
  get-put_items (suc n) (cons j is) r h =
      rw
        (
          get-put_nat 1 (put_json j (put_items is r)),
          get-put_json n j (put_items is r) (omega arith),
          get-put_items n is r (omega arith),
        )
        refl

  pub get-put_fields :
      (n : ℕ) (f : Fields) (r : String)
      → fields_depth f ≤ n
      → get_fields n (put_fields f r) ≡ (f, r)
  get-put_fields zero f r h = absurd (omega (arith, fields_depth_pos f))
  get-put_fields (suc n) end r h = rw (get-put_nat 0 r) refl
  get-put_fields (suc n) (field k j f) r h =
      rw
        (
          get-put_nat 1 (put_text k (put_json j (put_fields f r))),
          get-put_text k (put_json j (put_fields f r)),
          get-put_json n j (put_fields f r) (omega arith),
          get-put_fields n f r (omega arith),
        )
        refl
