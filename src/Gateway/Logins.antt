-- ===== src/Gateway/Logins.antt =====
-- A login, from the body that came to the session that is made.
use capstone_home_care_be_mi.Common.{◌≡◌, refl, String, Option, some, none, [], ◌∷◌, arith}
use capstone_home_care_be_mi.Platform.{Platform}
use capstone_home_care_be_mi.Platform.Sound.{SoundTables}
use capstone_home_care_be_mi.World.{World}
use capstone_home_care_be_mi.Auth.{LoginBody, Tokens, login}
use capstone_home_care_be_mi.Auth.Login.{IsLoggedIn, login-IsLoggedIn}
use capstone_home_care_be_mi.Schemas.Zod.{Value, text, Fields, lookup}
use capstone_home_care_be_mi.Schemas.Bodies.{login_body_schema}
use capstone_home_care_be_mi.Schemas.Forms.{IsLoginData}
use capstone_home_care_be_mi.Schemas.Accepted.{login_body_schema-IsLoginData}
use capstone_home_care_be_mi.Gateway.Wire.{Framework, SoundFramework, answer}
use capstone_home_care_be_mi.Gateway.Payloads.{
  Client, object, with_client, read_login, text_of, optional_text_of, without, ◌>>=◌,
}
use capstone_home_care_be_mi.Gateway.Requests.{login_request}
use capstone_home_care_be_mi.Gateway.Deliver.{handle-IsServed}

pub bind-some :
    {A B : Type 0} (m : Option A) (k : A → Option B) (b : B)
    → (m >>= k) ≡ some b
    → (a : A) × (m ≡ some a) × (k a ≡ some b)
bind-some none k b h = absurd (ground arith)
bind-some (some a) k b h = (a, refl, h)

pub text_of-some : (o : Option Value) (s : String) → text_of o ≡ some s → o ≡ some (text s)
text_of-some o s h = ground arith

lookup-without : (key : String) (fields : Fields) → lookup key (without key fields) ≡ none
lookup-without key [] = refl
lookup-without key (x ∷ fields) = ground (arith, lookup-without key fields)

-- The body that the service is called with: fields of the data, and the client's.
pub record IsReadOf (out : Fields) (client : Client) (body : LoginBody) : Type 0 where
  pub email : lookup "email" out ≡ some (text body.email)
  pub password : lookup "password" out ≡ some (text body.password)
  pub totp_code : optional_text_of (lookup "totpCode" out) ≡ some body.totp_code
  pub code : optional_text_of (lookup "code" out) ≡ some body.code
  pub user_agent : client.user_agent ≡ some body.user_agent
  pub ip : body.ip ≡ client.ip

module _ (out : Fields) (ip : String) (body : LoginBody) where
  -- a request without the header makes no body
  read_login-agent :
      (agent : Option String)
      → read_login (object (with_client out (record { ip = ip; user_agent = agent }))) ≡ some body
      → IsReadOf out (record { ip = ip; user_agent = agent }) body
  unfolding read_login with_client
  read_login-agent none h =
      let (email, e₁, h₁) = bind-some (text_of (lookup "email" (without "userAgent" out))) _ _ h in
      let (password, e₂, h₂) =
        bind-some (text_of (lookup "password" (without "userAgent" out))) _ _ h₁ in
      let (totp, e₃, h₃) =
        bind-some (optional_text_of (lookup "totpCode" (without "userAgent" out))) _ _ h₂ in
      let (code, e₄, h₄) =
        bind-some (optional_text_of (lookup "code" (without "userAgent" out))) _ _ h₃ in
      let (agent, e₅, h₅) =
        bind-some (text_of (lookup "userAgent" (without "userAgent" out))) _ _ h₄ in
      let gone = lookup-without "userAgent" out in absurd (ground arith)
  read_login-agent (some agent) h =
      let (email, e₁, h₁) = bind-some (text_of (lookup "email" out)) _ _ h in
      let (password, e₂, h₂) = bind-some (text_of (lookup "password" out)) _ _ h₁ in
      let (totp, e₃, h₃) = bind-some (optional_text_of (lookup "totpCode" out)) _ _ h₂ in
      let (code, e₄, h₄) = bind-some (optional_text_of (lookup "code" out)) _ _ h₃ in
      record {
        email = text_of-some (lookup "email" out) body.email (ground arith);
        password = text_of-some (lookup "password" out) body.password (ground arith);
        totp_code = ground arith;
        code = ground arith;
        user_agent = ground arith;
        ip = ground arith;
      }

-- The data of an accepted body, and the session that was made of it and of the client.
pub record IsLoggedInBy ⦃p : Platform⦄ (f : Framework) (client : Client) (v : Fields) (w w' : World)
    (tokens : Tokens) : Type 0 where
  pub out : Fields
  pub parsed : f.zod.parse login_body_schema v ≡ some out
  pub form : IsLoginData f.zod out
  pub body : LoginBody
  pub called : IsReadOf out client body
  pub made : IsLoggedIn body w w' tokens

module _ ⦃p : Platform⦄ (f : Framework) (sound : SoundFramework f) (s : SoundTables p)
    (w : World) where
  -- Given a framework and a library for bodies as their documentation says, and sound tables: when
  -- the gateway answers a login with tokens, the body passed LoginBodySchema and holds one code at
  -- most, login was called with the address, the password and the codes of its data and with the
  -- client's ip and User-Agent header, which was there, and opened the session that
  -- login-IsLoggedIn says.
  pub login_request-IsLoggedInBy :
      (client : Client) (v : Fields) (tokens : Tokens) {w' : World}
      → login_request f client v w ≡ (answer tokens, w')
      → IsLoggedInBy f client v w w' tokens
  unfolding login_request
  login_request-IsLoggedInBy client v tokens h =
      let i =
        handle-IsServed f login_body_schema (λ b. read_login (object (with_client b client))) login
          v w tokens h in
      record {
        out = i.out;
        parsed = i.parsed;
        form = login_body_schema-IsLoginData f.zod sound.zod v i.out i.parsed;
        body = i.called;
        called = read_login-agent i.out client.ip i.called client.user_agent i.reads;
        made = login-IsLoggedIn s w i.called tokens i.returned;
      }
