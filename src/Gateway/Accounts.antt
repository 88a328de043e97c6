-- ===== src/Gateway/Accounts.antt =====
-- Registrations and new passwords, from the body that came to the tables.
use capstone_home_care_be_mi.Common.{◌≡◌, refl, some}
use capstone_home_care_be_mi.Data.{User}
use capstone_home_care_be_mi.Platform.{Platform}
use capstone_home_care_be_mi.Platform.Sound.{SoundTables, SelectsRoles}
use capstone_home_care_be_mi.World.{World}
use capstone_home_care_be_mi.Auth.{RegisterBody, register}
use capstone_home_care_be_mi.Auth.Register.{IsRegistered, register-IsRegistered}
use capstone_home_care_be_mi.Schemas.Zod.{Fields, Zod}
use capstone_home_care_be_mi.Schemas.Bodies.{register_body_schema}
use capstone_home_care_be_mi.Schemas.Forms.{IsRegisterData}
use capstone_home_care_be_mi.Schemas.Accepted.{register_body_schema-IsRegisterData}
use capstone_home_care_be_mi.Gateway.Wire.{Framework, SoundFramework, answer}
use capstone_home_care_be_mi.Gateway.Payloads.{object, read_register}
use capstone_home_care_be_mi.Gateway.Requests.{register_request}
use capstone_home_care_be_mi.Gateway.Deliver.{handle-IsServed}

pub read_register-data :
    (z : Zod) (out : Fields) (body : RegisterBody)
    → IsRegisterData z out body
    → read_register (object out) ≡ some body
unfolding read_register
read_register-data z out body d =
    rw (d.email, d.password, d.name, d.phone, d.confirm_password, d.code) refl

-- The data of an accepted body, and the account that was made of it.
pub record IsRegisteredBy ⦃p : Platform⦄ (f : Framework) (v : Fields) (w w' : World) (u : User)
    : Type 0 where
  pub out : Fields
  pub parsed : f.zod.parse register_body_schema v ≡ some out
  pub body : RegisterBody
  pub form : IsRegisterData f.zod out body
  pub made : IsRegistered body w w' u

module _ ⦃p : Platform⦄ (f : Framework) (sound : SoundFramework f) (s : SoundTables p)
    (roles : SelectsRoles p) (w : World) where
  -- Given a framework and a library for bodies as their documentation says, sound tables and a
  -- sound selection of roles: when the gateway answers a registration with a user, the body passed
  -- RegisterBodySchema, its data is an account with a valid address, a confirmed password, a name,
  -- a phone of 9 characters at least and a code of six, and register was called with that account
  -- and made the user, as register-IsRegistered says.
  pub register_request-IsRegisteredBy :
      (v : Fields) (u : User) {w' : World}
      → register_request f v w ≡ (answer u, w')
      → IsRegisteredBy f v w w' u
  unfolding register_request
  register_request-IsRegisteredBy v u {w'} h =
      let i =
        handle-IsServed f register_body_schema (λ b. read_register (object b)) register v w u h in
      let ((body, form), _) =
        register_body_schema-IsRegisterData f.zod sound.zod v i.out i.parsed in
      let same : body ≡ i.called =
        (let e = read_register-data f.zod i.out body form in let e' = i.reads in cc) in
      record {
        out = i.out;
        parsed = i.parsed;
        body = i.called;
        form = rw (← same) form;
        made = register-IsRegistered s roles w i.called u i.returned;
      }
