-- ===== src/Auth/Register.antt =====
-- `register` and `registerProvider`: what an account that was opened is, what it took, and what is
-- left behind where the second half fails.
use capstone_home_care_be_mi.Common.{
  ℕ, ◌+◌, ◌≡◌, ◌≢◌, ◌≤◌, ap, String, not, Option, none, [], ◌∷◌, ◌++◌, Memᴰ, keep, count, arith,
  inl, inr, ltb,
}
use capstone_home_care_be_mi.Data.{User, NewUser, Profile, VerificationCode, CodeType}
use capstone_home_care_be_mi.Errors.{Error, ok, is_unique_constraint_prisma_error}
use capstone_home_care_be_mi.Platform.{Platform, MadeUser, user_clash}
use capstone_home_care_be_mi.Platform.Sound.{SoundTables, SelectsRoles}
use capstone_home_care_be_mi.World.{World, promise_all}
use capstone_home_care_be_mi.World.Laws.{step-ok, guard-ok, catch-ok, promise_all-ok}
use capstone_home_care_be_mi.Services.{hash, salt_rounds}
use capstone_home_care_be_mi.Repos.{
  create_user, delete_verification_code, where_code, get_customer_role_id,
}
use capstone_home_care_be_mi.Repos.Laws.{create_user-ok, delete_verification_code-ok}
use capstone_home_care_be_mi.Repos.RoleLaws.{IsRoleId, get_customer_role_id-ok}
use capstone_home_care_be_mi.Auth.Bodies.{RegisterBody}
use capstone_home_care_be_mi.Auth.Service.{
  validate_verification_code, unique_as_email, try_register, register,
}
use capstone_home_care_be_mi.Auth.Codes.{validate-ok}

-- A new row in the table of users with its profile, and the code that it took gone; the rest of
-- the tables as before.
pub record IsOpened (n : NewUser) (code : String) (w w' : World) (u : User) : Type 0 where
  pub made : MadeUser n u
  pub unused : count (user_clash n) w.users ≡ 0
  pub users : w'.users ≡ w.users ++ u ∷ []
  pub profile : (x : Profile) × (x.user_id ≡ u.id) × (w'.profiles ≡ w.profiles ++ x ∷ [])
  pub consumed : w'.codes ≡ keep (λ c. not (where_code n.email CodeType.register code c)) w.codes
  pub devices : w'.devices ≡ w.devices
  pub tokens : w'.tokens ≡ w.tokens
  pub providers : w'.providers ≡ w.providers
  pub roles : w'.roles ≡ w.roles
  pub permissions : w'.permissions ≡ w.permissions
  pub staff : w'.staff ≡ w.staff
  pub categories : w'.categories ≡ w.categories
  pub mails : w'.mails ≡ w.mails
  -- the ids of these roles are remembered as before
  pub admin_role_id : w'.admin_role_id ≡ w.admin_role_id
  pub staff_role_id : w'.staff_role_id ≡ w.staff_role_id

module _ ⦃p : Platform⦄ (s : SoundTables p) (w : World) where
  -- Both halves of the `Promise.all` have been done, in whichever order.
  pub IsOpened-ok :
      (n : NewUser) (code : String) (u : User) (c : VerificationCode) {w' : World}
      → promise_all p (create_user n) (delete_verification_code n.email CodeType.register code) w
        ≡ (ok (u, c), w')
      → IsOpened n code w w' u
  IsOpened-ok n code u c {w'} h =
      elim (promise_all-ok p (create_user n)
        (delete_verification_code n.email CodeType.register code) w u c w' h) [
          | inl (w₁, e₁, e₂) ↦
              let (x, made, unused, _, mine, q₁) = create_user-ok s w n u e₁ in
              let q₂ = delete_verification_code-ok s w₁ n.email code CodeType.register c e₂ in
              record {
                made = made;
                unused = unused;
                users = ground arith;
                profile = (x, mine, ground arith);
                consumed = ground arith;
                devices = ground arith;
                tokens = ground arith;
                providers = ground arith;
                roles = ground arith;
                permissions = ground arith;
                staff = ground arith;
                categories = ground arith;
                mails = ground arith;
                admin_role_id = ground arith;
                staff_role_id = ground arith;
              }
          | inr (w₁, e₁, e₂) ↦
              let q₁ = delete_verification_code-ok s w n.email code CodeType.register c e₁ in
              let (x, made, unused, _, mine, q₂) = create_user-ok s w₁ n u e₂ in
              record {
                made = made;
                unused = ground arith;
                users = ground arith;
                profile = (x, mine, ground arith);
                consumed = ground arith;
                devices = ground arith;
                tokens = ground arith;
                providers = ground arith;
                roles = ground arith;
                permissions = ground arith;
                staff = ground arith;
                categories = ground arith;
                mails = ground arith;
                admin_role_id = ground arith;
                staff_role_id = ground arith;
              }
        ]

-- The code in the request was in the table, for this address and for registering, and had not run
-- out when it was read.
pub record HeldCode ⦃p : Platform⦄ (email code : String) (w : World) : Type 0 where
  pub row : VerificationCode
  pub mem : Memᴰ row w.codes
  pub by_email : row.email ≡ email
  pub by_code : row.code ≡ code
  pub by_type : row.type ≡ CodeType.register
  pub in_time : p.clock (w.tick + 1) ≤ row.expires_at

-- The data of the account that a request asks for.
abbrev pub account_data : RegisterBody → String → ℕ → NewUser
account_data body hashed role = record {
  email = body.email;
  name = body.name;
  password = hashed;
  phone = body.phone;
  avatar = none;
  role_ids = role ∷ [];
}

pub record IsRegistered ⦃p : Platform⦄ (body : RegisterBody) (w w' : World) (u : User)
    : Type 0 where
  pub held : HeldCode body.email body.code w
  pub role : ℕ
  pub is_role : IsRoleId "CUSTOMER" w.customer_role_id w.roles role
  pub hashed : String
  pub is_hashed : (t : ℕ) × (p.hash t body.password salt_rounds ≡ ok hashed)
  pub opened : IsOpened (account_data body hashed role) body.code w w' u

-- What a repository remembers is not part of it, nor is the count of calls.
pub IsOpened-of_tables :
    (n : NewUser) (code : String) (w v w' : World) (u : User) (a b : Option ℕ) (t : ℕ)
    → v ≡ record w { customer_role_id = a; service_provider_role_id = b; tick = t }
    → IsOpened n code v w' u
    → IsOpened n code w w' u
IsOpened-of_tables n code w v w' u a b t e o = record {
  made = o.made;
  unused = ground arith;
  users = ground arith;
  profile = (o.profile.0, o.profile.1, ground arith);
  consumed = ground arith;
  devices = ground arith;
  tokens = ground arith;
  providers = ground arith;
  roles = ground arith;
  permissions = ground arith;
  staff = ground arith;
  categories = ground arith;
  mails = ground arith;
  admin_role_id = ground arith;
  staff_role_id = ground arith;
}

pub never_ok : {A : Type 0} (e : Error) (a : A) (v : World) → (unique_as_email {A = A} e v).0 ≢ ok a
unfolding is_unique_constraint_prisma_error
never_ok e a v = ground arith

-- What the accepted code, the hash and the role come from.
module _ ⦃p : Platform⦄ where
  pub accepted :
      (s : SoundTables p) (w : World) (email code : String) (c : VerificationCode) {v : World}
      → validate_verification_code email code CodeType.register w ≡ (ok c, v)
      → HeldCode email code w × (v ≡ record w { tick = w.tick + 1 + 1 })
  accepted s w email code c h =
      let (mem, by_email, by_code, by_type, in_time, q) =
        validate-ok w email code CodeType.register s c h in
      (
        record {
          row = c;
          mem = mem;
          by_email = by_email;
          by_code = by_code;
          by_type = by_type;
          in_time = in_time;
        },
        q,
      )

  pub hash-ok :
      (w : World) (value hashed : String) {v : World}
      → hash value w ≡ (ok hashed, v)
      → ((t : ℕ) × (p.hash t value salt_rounds ≡ ok hashed)) × (v ≡ record w { tick = w.tick + 1 })
  unfolding hash
  hash-ok w value hashed h = ((w.tick, ground arith), ground arith)

  -- The steps of `register` put together, over the states between them.
  IsRegistered-of_steps :
      (body : RegisterBody) (hashed : String) (role : ℕ) (y u : User) (w v x r m w' : World)
      → HeldCode body.email body.code w × (v ≡ record w { tick = w.tick + 1 + 1 })
      → ((t : ℕ) × (p.hash t body.password salt_rounds ≡ ok hashed))
        × (x ≡ record v { tick = v.tick + 1 + 1 })
      → IsRoleId "CUSTOMER" x.customer_role_id x.roles role
        × (r ≡ record x { customer_role_id = r.customer_role_id; tick = r.tick })
      → IsOpened (account_data body hashed role) body.code r m y
      → y ≡ u
      → m ≡ w'
      → IsRegistered body w w' u
  IsRegistered-of_steps body hashed role y u w v x r m w' (held, q₁) (is_hashed, q₂) (is_role, q₃) o
        q₄ q₅ =
      let same_ids : x.customer_role_id ≡ w.customer_role_id = ground arith in
      let same_roles : x.roles ≡ w.roles = ground arith in
      let opened =
        IsOpened-of_tables _ body.code w r m y r.customer_role_id w.service_provider_role_id r.tick
          (ground arith) o in
      record {
        held = held;
        role = role;
        is_role = rw (← same_ids, ← same_roles) is_role;
        hashed = hashed;
        is_hashed = is_hashed;
        opened = rw (← q₄, ← q₅) opened;
      }

module _ ⦃p : Platform⦄ (s : SoundTables p) (selects : SelectsRoles p) (w : World) where
  -- Given sound tables and a sound selection of roles: when register returns a user, the request
  -- held a REGISTER code for its address that had not expired, no user had the address, and the
  -- tables have changed by exactly this: the user with a hash of the password and the customer
  -- role, its profile, and the code gone.
  pub register-IsRegistered :
      (body : RegisterBody) (u : User) {w' : World}
      → register body w ≡ (ok u, w')
      → IsRegistered body w w' u
  unfolding register try_register
  register-IsRegistered body u {w'} h =
      let run = catch-ok (try_register body) unique_as_email w u w' (λ e v. never_ok e u v) h in
      let (c, e₁, h₁) =
        step-ok (validate_verification_code body.email body.code CodeType.register w) run in
      let (late, h₂) = guard-ok (ltb c.expires_at (p.clock _)) _ _ _ h₁ in
      let (hashed, e₃, h₃) = step-ok (hash body.password _) h₂ in
      let (role, e₄, h₄) = step-ok (get_customer_role_id _) h₃ in
      let (pair, e₅, h₅) = step-ok (promise_all p _ _ _) h₄ in
      IsRegistered-of_steps body hashed role.id pair.0 u w _ _ _ _ w'
        (accepted s w body.email body.code c e₁) (hash-ok _ body.password hashed e₃)
        (get_customer_role_id-ok selects _ role e₄)
        (IsOpened-ok s _ (account_data body hashed role.id) body.code pair.0 pair.1 e₅)
        (ground arith) (ap (λ r. r.1) h₅)
