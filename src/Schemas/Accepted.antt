-- ===== src/Schemas/Accepted.antt =====
-- What a body is that the schemas let pass.
use capstone_home_care_be_mi.Common.{
  ◌≡◌, ◌⊎◌, inl, inr, refl, String, true, false, ◌&&◌, Option, some, none, List, [], ◌∷◌, All,
  is_some, arith, eq_iff,
}
use capstone_home_care_be_mi.Auth.{RegisterBody, ForgotPasswordBody}
use capstone_home_care_be_mi.Schemas.Zod.{
  Value, text, Check, min, max, length, regex, string, Fields, lookup, Zod, SoundZod, field_ok,
  shape, has_key,
}
use capstone_home_care_be_mi.Schemas.Bodies.{
  field, optional_field, register_body_schema, register_provider_body_schema,
  forgot_password_body_schema, login_body_schema, same_value,
}
use capstone_home_care_be_mi.Schemas.Fields.{
  field-Passed, field-Trimmed, field-Optional, accepts-fields, accepts-strict, accepts-refined,
}
use capstone_home_care_be_mi.Schemas.Forms.{
  IsRegisterData, IsProviderData, IsCode, IsLoginData, IsForgotData,
}

module _ (z : Zod) (s : SoundZod z) (v out : Fields) where
  -- The six fields that both bodies of a registration have, and that the two passwords agree.
  abbrev Accepted : String → List Check → Type 0
  Accepted key checks =
      field_ok z (field key (string false checks)) (lookup key v) (lookup key out) ≡ true

  IsRegisterData-of_fields :
      Accepted "email" (Check.email ∷ [])
      → Accepted "phone" (min 9 ∷ max 100 ∷ [])
      → Accepted "password" (min 6 ∷ max 100 ∷ [])
      → Accepted "name" (min 1 ∷ max 100 ∷ [])
      → Accepted "confirmPassword" (min 6 ∷ max 100 ∷ [])
      → Accepted "code" (length 6 ∷ [])
      → ((a b : String)
          → lookup "confirmPassword" out ≡ some (text a)
          → lookup "password" out ≡ some (text b)
          → a ≡ b)
      → (body : RegisterBody) × IsRegisterData z out body
  IsRegisterData-of_fields f₁ f₂ f₃ f₄ f₅ f₆ agree =
      let (e, h₁, c₁) =
        field-Passed z "email" (Check.email ∷ []) (lookup "email" v) (lookup "email" out) f₁ in
      let (ph, h₂, c₂) =
        field-Passed z "phone" (min 9 ∷ max 100 ∷ []) (lookup "phone" v) (lookup "phone" out) f₂ in
      let (pw, h₃, c₃) =
        field-Passed z "password" (min 6 ∷ max 100 ∷ []) (lookup "password" v)
          (lookup "password" out) f₃ in
      let (nm, h₄, c₄) =
        field-Passed z "name" (min 1 ∷ max 100 ∷ []) (lookup "name" v) (lookup "name" out) f₄ in
      let (cp, h₅, c₅) =
        field-Passed z "confirmPassword" (min 6 ∷ max 100 ∷ []) (lookup "confirmPassword" v)
          (lookup "confirmPassword" out) f₅ in
      let (cd, h₆, c₆) =
        field-Passed z "code" (length 6 ∷ []) (lookup "code" v) (lookup "code" out) f₆ in
      (
        record {
          email = e;
          password = pw;
          name = nm;
          phone = ph;
          confirm_password = cp;
          code = cd;
        },
        record {
          email = h₁;
          password = h₃;
          name = h₄;
          phone = h₂;
          confirm_password = h₅;
          code = h₆;
          is_email = c₁.0;
          password_min = s.check-min 6 pw c₃.0;
          password_max = s.check-max 100 pw c₃.1.0;
          name_min = s.check-min 1 nm c₄.0;
          phone_min = s.check-min 9 ph c₂.0;
          confirmed = agree cp pw h₅ h₃;
          code_length = (s.check-length 6 cd).0 c₆.0;
        },
      )

  -- Given a library that reads bodies as its documentation says: a body that RegisterBodySchema
  -- lets pass has no field but the six of the schema, and its data is an account with a valid
  -- address, a password of 6 to 100 characters that is confirmed, a name, a phone of 9 characters
  -- at least and a code of six.
  pub register_body_schema-IsRegisterData :
      z.parse register_body_schema v ≡ some out
      → ((body : RegisterBody) × IsRegisterData z out body)
        × All (λ kv. has_key (shape register_body_schema) kv.0 ≡ true) v
  register_body_schema-IsRegisterData h =
      let ok = s.parse-ok register_body_schema v out h in
      let f = accepts-fields z register_body_schema v out ok in
      let r = accepts-refined z register_body_schema v out ok in
      (
        IsRegisterData-of_fields f.0 f.1.0 f.1.1.0 f.1.1.1.0 f.1.1.1.1.0 f.1.1.1.1.1.0 λ a b ha hb.
            (let equal : same_value (some (text a)) (some (text b)) ≡ true =
                ground (arith, rw (ha, hb) at (r.0)) in
              ground (arith, equal, eq_iff a b)),
        accepts-strict z register_body_schema v out ok refl,
      )

  -- Given a library that reads bodies as its documentation says: a body that
  -- RegisterProviderBodySchema lets pass has no field but those of the schema, its data is such an
  -- account, and its tax id and its address are what trimming leaves of the given ones, the tax id
  -- of 10 to 100 characters in the form of one, the address of 10 characters at least.
  pub register_provider_body_schema-IsProviderData :
      z.parse register_provider_body_schema v ≡ some out → IsProviderData z v out
  register_provider_body_schema-IsProviderData h =
      let ok = s.parse-ok register_provider_body_schema v out h in
      let f = accepts-fields z register_provider_body_schema v out ok in
      let r = accepts-refined z register_provider_body_schema v out ok in
      let g = f.1.1.1.1.1 in
      let (body, account) =
        IsRegisterData-of_fields g.0 g.1.0 g.1.1.0 g.1.1.1.0 g.1.1.1.1.0 g.1.1.1.1.1.0 λ a b ha hb.
          (let equal : same_value (some (text b)) (some (text a)) ≡ true =
              ground (arith, rw (ha, hb) at (r.0)) in
            ground (arith, equal, eq_iff b a)) in
      let (t, tax, x, hx, tx, c) =
        field-Trimmed z "taxId" (min 10 ∷ max 100 ∷ regex "^[A-Z0-9-]+$" ∷ []) (lookup "taxId" v)
          (lookup "taxId" out) f.0 in
      let (a, address, y, hy, ty, d) =
        field-Trimmed z "address" (min 10 ∷ []) (lookup "address" v) (lookup "address" out)
          f.1.1.1.1.0 in
      record {
        body = body;
        account = account;
        tax_id = t;
        has_tax_id = tax;
        tax_id_given = (x, hx, tx);
        tax_id_min = s.check-min 10 t c.0;
        tax_id_max = s.check-max 100 t c.1.0;
        tax_id_form = c.1.1.0;
        address = a;
        has_address = address;
        address_given = (y, hy, ty);
        address_min = s.check-min 10 a d.0;
        only = accepts-strict z register_provider_body_schema v out ok refl;
      }

  IsCode-of_field :
      (key : String)
      → field_ok z
          (optional_field key (string false (length 6 ∷ [])))
          (lookup key v)
          (lookup key out)
        ≡ true
      → IsCode (lookup key out)
  IsCode-of_field key h =
      elim (field-Optional z key (length 6 ∷ []) (lookup key v) (lookup key out) h) [
        | inl e ↦ inl e
        | inr (t, e, c) ↦ inr (t, e, (s.check-length 6 t).0 c.0)
      ]

  one_of : (a b : Option Value) → (is_some a && is_some b) ≡ false → (a ≡ none) ⊎ (b ≡ none)
  one_of none b h = inl refl
  one_of (some a) none h = inr refl
  one_of (some a) (some b) h = absurd (ground arith)

  -- Given a library that reads bodies as its documentation says: the data of a body that
  -- LoginBodySchema lets pass has a valid address, a password of 6 characters at least, and one at
  -- most of a TOTP code and a code, of six characters.
  pub login_body_schema-IsLoginData : z.parse login_body_schema v ≡ some out → IsLoginData z out
  login_body_schema-IsLoginData h =
      let ok = s.parse-ok login_body_schema v out h in
      let f = accepts-fields z login_body_schema v out ok in
      let r = accepts-refined z login_body_schema v out ok in
      let (e, h₁, c₁) =
        field-Passed z "email" (Check.email ∷ []) (lookup "email" v) (lookup "email" out) f.0 in
      let (pw, h₂, c₂) =
        field-Passed z "password" (min 6 ∷ max 100 ∷ []) (lookup "password" v)
          (lookup "password" out) f.1.0 in
      record {
        email = e;
        has_email = h₁;
        password = pw;
        has_password = h₂;
        is_email = c₁.0;
        password_min = s.check-min 6 pw c₂.0;
        totp_code = IsCode-of_field "totpCode" f.1.1.0;
        code = IsCode-of_field "code" f.1.1.1.0;
        one_at_most = one_of (lookup "totpCode" out) (lookup "code" out) (ground (arith, r.0));
      }

  pub forgot_password_body_schema-IsForgotData :
      z.parse forgot_password_body_schema v ≡ some out
      → ((body : ForgotPasswordBody) × IsForgotData z out body)
        × All (λ kv. has_key (shape forgot_password_body_schema) kv.0 ≡ true) v
  forgot_password_body_schema-IsForgotData h =
      let ok = s.parse-ok forgot_password_body_schema v out h in
      let f = accepts-fields z forgot_password_body_schema v out ok in
      let r = accepts-refined z forgot_password_body_schema v out ok in
      let (e, h₁, c₁) =
        field-Passed z "email" (Check.email ∷ []) (lookup "email" v) (lookup "email" out) f.0 in
      let (cd, h₂, c₂) =
        field-Passed z "code" (length 6 ∷ []) (lookup "code" v) (lookup "code" out) f.1.0 in
      let (pw, h₃, c₃) =
        field-Passed z "newPassword" (min 6 ∷ max 100 ∷ []) (lookup "newPassword" v)
          (lookup "newPassword" out) f.1.1.0 in
      let (cp, h₄, c₄) =
        field-Passed z "confirmNewPassword" (min 6 ∷ max 100 ∷ []) (lookup "confirmNewPassword" v)
          (lookup "confirmNewPassword" out) f.1.1.1.0 in
      let equal : same_value (some (text cp)) (some (text pw)) ≡ true =
        ground (arith, rw (h₄, h₃) at (r.0)) in
      (
        (
          record { email = e; code = cd; new_password = pw; confirm_new_password = cp },
          record {
            email = h₁;
            code = h₂;
            new_password = h₃;
            confirm_new_password = h₄;
            is_email = c₁.0;
            code_length = (s.check-length 6 cd).0 c₂.0;
            new_password_min = s.check-min 6 pw c₃.0;
            confirmed = ground (arith, equal, eq_iff cp pw);
          },
        ),
        accepts-strict z forgot_password_body_schema v out ok refl,
      )
