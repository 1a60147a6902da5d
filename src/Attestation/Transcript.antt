-- ===== src/Attestation/Transcript.antt =====
-- The transcript of an attestation: when it exists, and that it determines what is attested.
use provii_crypto.Prelude.{ℕ, ◌^◌, ◌<◌, ◌≡◌, refl, sym, ap, ◌∙◌, arith, not}
use provii_crypto.Prelude.{
  List, [], ◌∷◌, ◌++◌, Option, some, none, ok, length, append_assoc, append_inj,
}
use provii_crypto.Prelude.{
  cons_inj, on_bind, on_ok_or, on_guard, ok-injective, ltb, ◌>>=◌, append-nil,
}
use provii_crypto.Prelude.Int.{IsI32, to_bits32, to_bits32-lt, to_bits32_inj}
use provii_crypto.Prelude.Bytes.{to_le_bytes, to_le_bytes_inj, length-to_le_bytes, u8_try_from}
use provii_crypto.Commons.{field_too_long}
use provii_crypto.Prelude.{◌≤◌, false, true, ◌||◌, Bool-cases, inl, inr, ltb-eq_false, lt→ltb}
use provii_crypto.Attestation.{
  is_some, or_empty, Claims, push_short, push_binding, transcript, dob_attestation_dst,
}

-- An `i32`, a `u64` and 32 bytes.
abbrev pub IsTyped : Claims → Type 0
IsTyped a = IsI32 a.dob_days × (a.timestamp < 2 ^ 64) × (length a.nonce ≡ 32)

-- The binding as it is hashed: a missing field beside a present one counts as empty.
abbrev pub binding : Option (List ℕ) → Option (List ℕ) → Option (List ℕ × List ℕ)
binding none none = none
binding none (some c) = some ([], c)
binding (some s) none = some (s, [])
binding (some s) (some c) = some (s, c)

abbrev binding_bytes : Option (List ℕ × List ℕ) → List ℕ
binding_bytes none = []
binding_bytes (some (s, c)) = (length s ∷ s) ++ (length c ∷ c)

push_ok : (h s out : List ℕ) → push_short h s ≡ ok out → out ≡ h ++ (length s ∷ s)
push_ok h s out e = on_guard (not (ltb 255 (length s))) field_too_long _ e λ short e1.
    on_ok_or (u8_try_from (length s)) field_too_long _ e1 λ len hl e2.
      sym (ok-injective e2)
      ∙ append_assoc h (len ∷ []) s
      ∙ ap (λ n. h ++ (n ∷ s)) (sym (try_from (length s) len hl))
  where
    try_from : (n len : ℕ) → u8_try_from n ≡ some len → n ≡ len
    try_from n len h = ground arith

push_two :
    (s c h out : List ℕ)
    → (push_short h s >>= λ h'. push_short h' c) ≡ ok out
    → out ≡ h ++ ((length s ∷ s) ++ (length c ∷ c))
push_two s c h out e = on_bind (push_short h s) _ e λ h' p q.
    push_ok h' c out q
    ∙ ap (λ t. t ++ (length c ∷ c)) (push_ok h s h' p)
    ∙ append_assoc h (length s ∷ s) (length c ∷ c)

push_binding_ok :
    (s c : Option (List ℕ)) (h out : List ℕ)
    → push_binding s c h ≡ ok out
    → out ≡ h ++ binding_bytes (binding s c)
unfolding push_binding
push_binding_ok none none h out e = sym (ok-injective e) ∙ simp append-nil
push_binding_ok none (some c) h out e = push_two [] c h out e
push_binding_ok (some s) none h out e = push_two s [] h out e
push_binding_ok (some s) (some c) h out e = push_two s c h out e

abbrev layout : Claims → List ℕ
layout a =
    dob_attestation_dst
    ++ (to_le_bytes 4 (to_bits32 a.dob_days)
        ++ (length a.issuer_id
            ∷ (a.issuer_id
                ++ (to_le_bytes 8 a.timestamp
                    ++ (a.nonce ++ binding_bytes (binding a.session_id a.client_id))))))

transcript-layout : (a : Claims) {out : List ℕ} → transcript a ≡ ok out → out ≡ layout a
unfolding transcript
transcript-layout a {out} e =
    on_bind (push_short (dob_attestation_dst ++ to_le_bytes 4 (to_bits32 a.dob_days)) a.issuer_id) _
      e
      λ h p q.
        push_binding_ok a.session_id a.client_id _ out q
        ∙ rw (push_ok (dob_attestation_dst ++ to_le_bytes 4 (to_bits32 a.dob_days)) a.issuer_id h p)
            (simp append_assoc)

push_total : (h s : List ℕ) → length s ≤ 255 → (out : List ℕ) × (push_short h s ≡ ok out)
push_total h s l =
    let short : ltb 255 (length s) ≡ false = ltb-eq_false 255 (length s) l in
    let byte : ltb (length s) 256 ≡ true = lt→ltb (length s) 256 (omega arith) in
    ((h ++ (length s ∷ [])) ++ s, rw (short, byte) refl)

push_binding_total :
    (s c : Option (List ℕ)) (h : List ℕ)
    → length (or_empty s) ≤ 255
    → length (or_empty c) ≤ 255
    → (out : List ℕ) × (push_binding s c h ≡ ok out)
unfolding push_binding
push_binding_total s c h l m =
    let (h', e) = push_total h (or_empty s) l in
    let (out, f) = push_total h' (or_empty c) m in
    elim (Bool-cases (is_some s || is_some c)) [
      | inl b ↦ (out, rw b (rw e f))
      | inr b ↦ (h, rw b refl)
    ]

-- A transcript exists when the texts have at most 255 bytes.
pub transcript_total :
    (a : Claims)
    → length a.issuer_id ≤ 255
    → length (or_empty a.session_id) ≤ 255
    → length (or_empty a.client_id) ≤ 255
    → (out : List ℕ) × (transcript a ≡ ok out)
unfolding transcript
transcript_total a i s c =
    let (h, e) =
      push_total (dob_attestation_dst ++ to_le_bytes 4 (to_bits32 a.dob_days)) a.issuer_id i in
    let (out, f) =
      push_binding_total a.session_id a.client_id ((h ++ to_le_bytes 8 a.timestamp) ++ a.nonce) s
        c in
    (out, rw e f)

binding_inj : (x y : Option (List ℕ × List ℕ)) → binding_bytes x ≡ binding_bytes y → x ≡ y
binding_inj none none e = refl
binding_inj none (some (s, c)) e = cc
binding_inj (some (s, c)) none e = cc
binding_inj (some (s, c)) (some (t, d)) e =
    let (l, e1) = cons_inj e in
    let (p, e2) = append_inj s t (length c ∷ c) (length d ∷ d) l e1 in
    let q = (cons_inj e2).1 in λ i. some (p i, q i)

-- Two attestations whose messages are hashes of the same bytes attest the same: date of birth,
-- issuer, time and nonce agree, and so does the session binding, in which a missing field beside a
-- present one counts as empty.
pub transcript_inj :
    (a b : Claims)
    → IsTyped a
    → IsTyped b
    → (out : List ℕ) → transcript a ≡ ok out
    → transcript b ≡ ok out
    → (a.dob_days ≡ b.dob_days)
      × (a.issuer_id ≡ b.issuer_id)
      × (a.timestamp ≡ b.timestamp)
      × (a.nonce ≡ b.nonce)
      × (binding a.session_id a.client_id ≡ binding b.session_id b.client_id)
transcript_inj a b (da, ta, na) (db, tb, nb) out ea eb =
    let same = sym (transcript-layout a ea) ∙ transcript-layout b eb in
    let (g, e1) = append_inj dob_attestation_dst dob_attestation_dst _ _ refl same in
    let len = λ (n v w : ℕ). length-to_le_bytes n v ∙ sym (length-to_le_bytes n w) in
    let (d, e2) =
      append_inj (to_le_bytes 4 (to_bits32 a.dob_days)) (to_le_bytes 4 (to_bits32 b.dob_days)) _ _
        (len 4 _ _) e1 in
    let (l, e3) = cons_inj e2 in
    let (i, e4) = append_inj a.issuer_id b.issuer_id _ _ l e3 in
    let (t, e5) =
      append_inj (to_le_bytes 8 a.timestamp) (to_le_bytes 8 b.timestamp) _ _ (len 8 _ _) e4 in
    let (n, e6) = append_inj a.nonce b.nonce _ _ (na ∙ sym nb) e5 in
    (
      to_bits32_inj a.dob_days b.dob_days da db
          (to_le_bytes_inj 4 _ _ (to_bits32-lt a.dob_days da) (to_bits32-lt b.dob_days db) d),
      i,
      to_le_bytes_inj 8 a.timestamp b.timestamp ta tb t,
      n,
      binding_inj _ _ e6,
    )
