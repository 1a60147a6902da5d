-- ===== src/Credential/Layout.antt =====
-- The layout of the prehash bytes: when they exist, how long they are, and that they determine the
-- message.
use provii_crypto.Prelude.{ℕ, ◌+◌, ◌≤◌, ◌<◌, ◌≡◌, refl, sym, ap, ◌∙◌, ◌⊎◌, arith}
use provii_crypto.Prelude.{List, ◌∷◌, ◌++◌, ok, err, length, leb, ◌&&◌, if◌then◌else◌}
use provii_crypto.Prelude.{length-append, append_inj, cons_inj, append_assoc, inl, inr}
use native.Mathlib.Decide.{dec_lt}
use provii_crypto.Prelude.Bytes.{to_be_bytes, to_be_bytes_inj, length-to_be_bytes}
use provii_crypto.Commons.{field_too_long, cred_dst}
use provii_crypto.Credential.{CredMsgV2, IsTyped, cred_v2_prehash_bytes, prehash}

-- The part before the schema.
abbrev pub front : CredMsgV2 → List ℕ
front m =
    cred_dst
    ++ (m.v ∷ length m.kid ∷ (m.kid ++ (m.c ++ (to_be_bytes 8 m.iat ++ to_be_bytes 8 m.exp))))

abbrev pub layout : CredMsgV2 → List ℕ
layout m = front m ++ (length m.schema ∷ m.schema)

abbrev pub Fits : CredMsgV2 → Type 0
Fits m = (length m.kid ≤ 255) × (length m.schema ≤ 255)

pub prehash-Fits : (m : CredMsgV2) → Fits m → prehash m ≡ ok (layout m)
unfolding cred_v2_prehash_bytes
prehash-Fits m h = ground arith

prehash_too_long :
    (m : CredMsgV2)
    → (255 < length m.kid) ⊎ (255 < length m.schema)
    → prehash m ≡ err field_too_long
unfolding cred_v2_prehash_bytes
prehash_too_long m h = ground arith

-- The bytes behind the length of the key id, bracketed to the right.
abbrev body : CredMsgV2 → List ℕ
body m =
    m.kid ++ (m.c ++ (to_be_bytes 8 m.iat ++ (to_be_bytes 8 m.exp ++ (length m.schema ∷ m.schema))))

layout-body : (m : CredMsgV2) → layout m ≡ cred_dst ++ (m.v ∷ length m.kid ∷ body m)
layout-body m = simp append_assoc

length-body :
    (m : CredMsgV2) → length m.c ≡ 32 → length (body m) ≡ 49 + length m.kid + length m.schema
length-body m h =
    rw (length-append, length-append, length-append, length-append)
      (omega (arith, length-to_be_bytes 8 m.iat, length-to_be_bytes 8 m.exp))

pub length-layout :
    (m : CredMsgV2) → length m.c ≡ 32 → length (layout m) ≡ 65 + length m.kid + length m.schema
length-layout m h = omega (arith, ap length (layout-body m), length-body m h)

-- On a typed message the prehash is the layout of its fields when the key id and the schema have at
-- most 255 bytes each, and `FieldTooLong` otherwise; the layout has 65 fixed bytes besides the two.
pub prehash_outcome :
    (m : CredMsgV2)
    → IsTyped m
    → (prehash m ≡ (
        if leb (length m.kid) 255 && leb (length m.schema) 255
        then ok (layout m)
        else err field_too_long))
      × (length (layout m) ≡ 65 + length m.kid + length m.schema)
unfolding cred_v2_prehash_bytes
prehash_outcome m t = (ground arith, length-layout m (t.3))

body_inj :
    (m n : CredMsgV2)
    → IsTyped m
    → IsTyped n
    → length m.kid ≡ length n.kid
    → body m ≡ body n
    → (m.kid ≡ n.kid) × (m.c ≡ n.c) × (m.iat ≡ n.iat) × (m.exp ≡ n.exp) × (m.schema ≡ n.schema)
body_inj m n hm hn l e =
    let (kid, e1) = append_inj m.kid n.kid _ _ l e in
    let (c, e2) = append_inj m.c n.c _ _ (hm.3 ∙ sym hn.3) e1 in
    let (iat, e3) =
      append_inj (to_be_bytes 8 m.iat) (to_be_bytes 8 n.iat) _ _
        (omega (arith, length-to_be_bytes 8 m.iat, length-to_be_bytes 8 n.iat)) e2 in
    let (exp, e4) =
      append_inj (to_be_bytes 8 m.exp) (to_be_bytes 8 n.exp) _ _
        (omega (arith, length-to_be_bytes 8 m.exp, length-to_be_bytes 8 n.exp)) e3 in
    (
      kid,
      c,
      to_be_bytes_inj 8 m.iat n.iat (omega arith) (omega arith) iat,
      to_be_bytes_inj 8 m.exp n.exp (omega arith) (omega arith) exp,
      (cons_inj e4).1,
    )

pub layout_inj : (m n : CredMsgV2) → IsTyped m → IsTyped n → layout m ≡ layout n → m ≡ n
layout_inj m n hm hn e =
    let (d, e1) = append_inj cred_dst cred_dst _ _ refl (sym (layout-body m) ∙ e ∙ layout-body n) in
    let (v, e2) = cons_inj e1 in
    let (l, e3) = cons_inj e2 in
    let (kid, c, iat, exp, schema) = body_inj m n hm hn l e3 in
    λ i. record { v = v i; kid = kid i; c = c i; iat = iat i; exp = exp i; schema = schema i }

prehash-cases : (m : CredMsgV2) → (prehash m ≡ ok (layout m)) ⊎ (prehash m ≡ err field_too_long)
prehash-cases m = elim (dec_lt 255 (length m.kid)) [
  | yes p ↦ inr (prehash_too_long m (inl p))
  | no p ↦ elim (dec_lt 255 (length m.schema)) [
    | yes q ↦ inr (prehash_too_long m (inr q))
    | no q ↦ inl (prehash-Fits m (omega arith, omega arith))
  ]
]

pub prehash_ok-layout : (m : CredMsgV2) {out : List ℕ} → prehash m ≡ ok out → out ≡ layout m
prehash_ok-layout m h = elim (prehash-cases m) [ inl e ↦ cc | inr e ↦ cc ]

-- Two typed messages with the same prehash bytes are the same message: no field can be moved into
-- another under the signature.
pub prehash_inj :
    (m n : CredMsgV2)
    → IsTyped m
    → IsTyped n
    → (out : List ℕ) → prehash m ≡ ok out
    → prehash n ≡ ok out
    → m ≡ n
prehash_inj m n hm hn out p q =
    layout_inj m n hm hn (sym (prehash_ok-layout m p) ∙ prehash_ok-layout n q)
