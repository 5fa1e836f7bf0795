-- ===== src/Samples/Encoded.antt =====
-- A digest of the sample library: the text of an event's body is one from which the body is read back.
use agent_pay_sentinel.Prelude.{
  ℕ, zero, suc, ◌+◌, String, ◌≡◌, refl, sym, ap, ◌∙◌, Option, List, arith,
}
use Prim.Native.String.{count}
use text.Mathlib.TextLemmas.{length-cons}
use agent_pay_sentinel.Audit.{Body, Digest}
use agent_pay_sentinel.Audit.Append.{HexDigest}
use agent_pay_sentinel.Audit.Contents.{SameBody, Determines, sorted}
use agent_pay_sentinel.Json.{Fields}
use agent_pay_sentinel.Samples.Codec.{
  put_nat, get_nat, get-put_nat, put_text, get_text, get-put_text, put_texts, get_texts,
  get-put_texts, listed, unlisted, unlisted-listed, put_fields, get_fields, fields_depth,
  get-put_fields,
}

abbrev pub put_option : Option String → String → String
put_option o r = put_texts (listed o) r

abbrev pub put_body : Body → String
put_body b = put_text b.event_id (
    put_text b.event_type (
      put_text b.created_at (
        put_option b.payment_authorization_id (
          put_option b.user_id (
            put_option b.agent_id (
              put_option b.decision (
                put_texts b.reason_codes
                  (put_fields b.risk (put_option b.policy_version (put_fields b.payload ""))))))))))

-- what is read from one text is one value and one rest
read_inj :
    {A : Type 0} (get : String → A × String) (p q : String) (v w : A × String)
    → get p ≡ v
    → get q ≡ w
    → p ≡ q
    → (v.0 ≡ w.0) × (v.1 ≡ w.1)
read_inj get p q v w ep eq e =
    let same : v ≡ w = sym ep ∙ ap get e ∙ eq in (ap (λ x. x.0) same, ap (λ x. x.1) same)

text_inj : (s t x y : String) → put_text s x ≡ put_text t y → (s ≡ t) × (x ≡ y)
text_inj s t x y e = read_inj get_text _ _ (s, x) (t, y) (get-put_text s x) (get-put_text t y) e

texts_inj : (s t : List String) (x y : String) → put_texts s x ≡ put_texts t y → (s ≡ t) × (x ≡ y)
texts_inj s t x y e = read_inj get_texts _ _ (s, x) (t, y) (get-put_texts s x) (get-put_texts t y) e

option_inj :
    (s t : Option String) (x y : String) → put_option s x ≡ put_option t y → (s ≡ t) × (x ≡ y)
option_inj s t x y e =
    let (same, rest) = texts_inj (listed s) (listed t) x y e in
    (sym (unlisted-listed s) ∙ ap unlisted same ∙ unlisted-listed t, rest)

fields_inj : (f g : Fields) (x y : String) → put_fields f x ≡ put_fields g y → (f ≡ g) × (x ≡ y)
fields_inj f g x y e =
    let n = fields_depth f + fields_depth g in
    read_inj (get_fields n) _ _ (f, x) (g, y) (get-put_fields n f x (omega arith))
      (get-put_fields n g y (omega arith)) e

body_inj : (b b' : Body) → put_body b ≡ put_body b' → SameBody b b'
body_inj b b' e =
    let (e₁, r₁) = text_inj b.event_id b'.event_id _ _ e in
    let (e₂, r₂) = text_inj b.event_type b'.event_type _ _ r₁ in
    let (e₃, r₃) = text_inj b.created_at b'.created_at _ _ r₂ in
    let (e₄, r₄) = option_inj b.payment_authorization_id b'.payment_authorization_id _ _ r₃ in
    let (e₅, r₅) = option_inj b.user_id b'.user_id _ _ r₄ in
    let (e₆, r₆) = option_inj b.agent_id b'.agent_id _ _ r₅ in
    let (e₇, r₇) = option_inj b.decision b'.decision _ _ r₆ in
    let (e₈, r₈) = texts_inj b.reason_codes b'.reason_codes _ _ r₇ in
    let (e₉, r₉) = fields_inj b.risk b'.risk _ _ r₈ in
    let (f₁, s₁) = option_inj b.policy_version b'.policy_version _ _ r₉ in
    let (f₂, _) = fields_inj b.payload b'.payload _ _ s₁ in
    record {
      event_id = e₁;
      event_type = e₂;
      created_at = e₃;
      payment_authorization_id = e₄;
      user_id = e₅;
      agent_id = e₆;
      decision = e₇;
      reason_codes = e₈;
      risk = ap sorted e₉;
      policy_version = f₁;
      payload = ap sorted f₂;
    }

-- the first 64 characters, and zeroes behind a shorter text
abbrev pub padded : ℕ → String → String
padded zero s = ""
padded (suc n) String.[] = String.◌∷◌ "0" (padded n "")
padded (suc n) (String.◌∷◌ c s) = String.◌∷◌ c (padded n s)

count-padded : (n : ℕ) (s : String) → count (padded n s) ≡ n
count-padded zero s = refl
count-padded (suc n) String.[] = omega (arith, length-cons "0" (padded n ""), count-padded n "")
count-padded (suc n) (String.◌∷◌ c s) = omega (arith, length-cons c (padded n s), count-padded n s)

abbrev pub encoded : Digest
encoded = record { sha256 = padded 64; dumps = put_body; isoformat = λ n. put_nat n "" }

pub encoded-HexDigest : HexDigest encoded
encoded-HexDigest x = count-padded 64 x

pub encoded-Determines : Determines encoded
encoded-Determines = record {
  body = body_inj;
  instant =
      λ s t e. (read_inj get_nat _ _ (s, "") (t, "") (get-put_nat s "") (get-put_nat t "") e).0;
}
