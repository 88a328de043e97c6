-- ===== src/Schemas/Environment.antt =====
-- The settings: envSchema.ts, and the start of a service in config.module.ts, which ends the process
-- where the environment does not pass.
use capstone_home_care_be_mi.Common.{
  ℕ, ◌≡◌, refl, ap, String, Bool, true, false, not, ◌&&◌, Option, some, none, List, [], ◌∷◌, any,
  all, All, ◌===◌, arith, eq_iff, Bool-cases, Option-cases, inl, inr,
}
use capstone_home_care_be_mi.Schemas.Zod.{
  Value, text, email, url, Kind, string, Field, Fields, lookup, Schema, object, shape, Zod,
  SoundZod, kind_ok, field_ok,
}
use capstone_home_care_be_mi.Schemas.Bodies.{field, optional_field}
use capstone_home_care_be_mi.Schemas.Fields.{accepts-fields}

abbrev pub env_schema : Schema
env_schema = object (
    field "DATABASE_URL_MAIN" (string false (url ∷ []))
    ∷ field "ACCESS_TOKEN_SECRET" (string false [])
    ∷ field "ACCESS_TOKEN_EXPIRES_IN" (string true [])
    ∷ field "REFRESH_TOKEN_SECRET" (string false [])
    ∷ field "REFRESH_TOKEN_EXPIRES_IN" (string true [])
    ∷ field "APP_NAME" (string false [])
    ∷ field "ADMIN_PASSWORD" (string false [])
    ∷ field "ADMIN_EMAIL" (string false (email ∷ []))
    ∷ field "ADMIN_PHONE_NUMBER" (string false [])
    ∷ field "ADMIN_NAME" (string false [])
    ∷ field "PAYMENT_API_KEY" (string false [])
    ∷ field "RESEND_API_KEY" (string false [])
    ∷ field "MANAGER_HTTP_PORT" (string false [])
    ∷ field "MANAGER_TCP_PORT" (string false [])
    ∷ field "OTP_EXPIRES_IN" (string true [])
    ∷ field "GOOGLE_CLIENT_ID" (string false [])
    ∷ field "GOOGLE_CLIENT_SECRET" (string false [])
    ∷ field "GOOGLE_REDIRECT_URI" (string false (url ∷ []))
    ∷ optional_field "GOOGLE_CLIENT_REDIRECT_URI" (string false [])
    ∷ field "S3_ACCESS_KEY" (string false [])
    ∷ field "S3_SECRET_KEY" (string false [])
    ∷ field "S3_BUCKET_NAME" (string false [])
    ∷ field "S3_REGION" (string false [])
    ∷ field "S3_ENPOINT" (string false (url ∷ []))
    ∷ [])

-- A start that goes on has a configuration; else the process has ended with a status.
pub data Start : Type 0 where
  running : Fields → Start
  exited : ℕ → Start

-- The settings that the libraries and services ask for by `configService.get`.
abbrev pub settings : List String
settings =
    "ACCESS_TOKEN_SECRET" ∷ "ACCESS_TOKEN_EXPIRES_IN" ∷ "REFRESH_TOKEN_SECRET"
    ∷ "REFRESH_TOKEN_EXPIRES_IN" ∷ "APP_NAME" ∷ "PAYMENT_API_KEY" ∷ "RESEND_API_KEY"
    ∷ "OTP_EXPIRES_IN" ∷ "GOOGLE_CLIENT_ID" ∷ "GOOGLE_CLIENT_SECRET" ∷ "GOOGLE_REDIRECT_URI"
    ∷ "S3_ENPOINT" ∷ "S3_REGION" ∷ "S3_SECRET_KEY" ∷ "S3_ACCESS_KEY" ∷ "S3_BUCKET_NAME"
    ∷ "MANAGER_TCP_PORT" ∷ "MANAGER_HTTP_PORT" ∷ []

abbrev is_string : Kind → Bool
is_string (string trimmed checks) = true
is_string _ = false

-- Some field of the key has to be there, as a text.
abbrev requires : List Field → String → Bool
requires fields key =
    any (λ f. f.key === key && (not f.optional && (not f.nullable && is_string f.kind))) fields

module _ (z : Zod) where
  -- `validate`, with `process.exit(1)` where the schema refuses
  unfoldable pub validate : Fields → Start
  validate env = elim (z.parse env_schema env) [
    | some data_read ↦ running data_read
    | none ↦ exited 1
  ]

  kind_ok-text :
      (k : Kind) (x y : Value)
      → is_string k ≡ true
      → kind_ok z k x y ≡ true
      → (s : String) × (y ≡ text s)
  kind_ok-text (string t cs) (text a) (text b) i h = (b, refl)
  kind_ok-text k x y i h = absurd (ground arith)

  field_ok-text :
      (f : Field) (i o : Option Value)
      → f.optional ≡ false
      → f.nullable ≡ false
      → is_string f.kind ≡ true
      → field_ok z f i o ≡ true
      → (s : String) × (o ≡ some (text s))
  field_ok-text f none none p q r h = absurd (ground arith)
  field_ok-text f none (some y) p q r h = absurd (ground arith)
  field_ok-text f (some x) none p q r h = absurd (ground arith)
  field_ok-text f (some x) (some y) p q r h =
      let (s, e) = kind_ok-text f.kind x y r (ground arith) in (s, ap (λ v. some v) e)

  requires-text :
      (fields : List Field) (env data_read : Fields) (key : String)
      → All (λ f. field_ok z f (lookup f.key env) (lookup f.key data_read) ≡ true) fields
      → requires fields key ≡ true
      → (s : String) × (lookup key data_read ≡ some (text s))
  requires-text [] env data_read key h need = absurd (ground arith)
  requires-text (f ∷ fields) env data_read key (here, h) need =
      let this = f.key === key && (not f.optional && (not f.nullable && is_string f.kind)) in
      elim (Bool-cases this) [
        | inl e ↦
            let same : f.key ≡ key = ground (arith, eq_iff f.key key) in
            rw (← same) (
              field_ok-text f (lookup f.key env) (lookup f.key data_read) (ground arith)
                (ground arith) (ground arith) here)
        | inr e ↦ requires-text fields env data_read key h (ground arith)
      ]

  requires-All :
      (fields : List Field) (env data_read : Fields) (keys : List String)
      → All (λ f. field_ok z f (lookup f.key env) (lookup f.key data_read) ≡ true) fields
      → all (requires fields) keys ≡ true
      → All (λ key. (s : String) × (lookup key data_read ≡ some (text s))) keys
  requires-All fields env data_read [] h need = tt
  requires-All fields env data_read (key ∷ keys) h need = (
    requires-text fields env data_read key h (ground arith),
    requires-All fields env data_read keys h (ground arith),
  )

module _ (z : Zod) (s : SoundZod z) where
  -- Given a library that reads values as its documentation says: where the start of a service goes
  -- on, the configuration has a text for every setting of the list, which are those that the
  -- libraries and the auth and manager services ask for and that the schema names.
  pub validate-settings :
      (env configuration : Fields)
      → validate z env ≡ running configuration
      → All (λ key. (t : String) × (lookup key configuration ≡ some (text t))) settings
  unfolding validate
  validate-settings env configuration h = elim (Option-cases (z.parse env_schema env)) [
    | inl e ↦ absurd (ground arith)
    | inr (found, e) ↦
        let same : found ≡ configuration = ground arith in
        rw (← same) (
          requires-All z (shape env_schema) env found settings
            (accepts-fields z env_schema env found (s.parse-ok env_schema env found e)) refl)
  ]
