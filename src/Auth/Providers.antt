-- ===== src/Auth/Providers.antt =====
-- `registerProvider`: the account and the company that it leaves.
use capstone_home_care_be_mi.Common.{
  ℕ, ◌+◌, ◌≡◌, inl, inr, String, false, [], ◌∷◌, ◌++◌, count, ◌===◌, ltb, arith,
}
use capstone_home_care_be_mi.Data.{User, ServiceProvider, NewServiceProvider, pending, CodeType}
use capstone_home_care_be_mi.Errors.{ok}
use capstone_home_care_be_mi.Platform.{Platform, MadeProvider}
use capstone_home_care_be_mi.Platform.Sound.{SoundTables, SelectsRoles}
use capstone_home_care_be_mi.World.{World, promise_all}
use capstone_home_care_be_mi.World.Laws.{step-ok, guard-ok, catch-ok, promise_all-ok}
use capstone_home_care_be_mi.Services.{hash, salt_rounds}
use capstone_home_care_be_mi.Repos.{
  find_user, find_unique_provider_include_name_and_tax_id, get_service_provider_role_id,
}
use capstone_home_care_be_mi.Repos.Laws.{create_service_provider-ok}
use capstone_home_care_be_mi.Repos.RoleLaws.{IsRoleId, get_service_provider_role_id-ok}
use capstone_home_care_be_mi.Auth.Bodies.{RegisterProviderBody}
use capstone_home_care_be_mi.Auth.Service.{
  validate_verification_code, unique_as_email, try_register_provider, register_provider,
}
use capstone_home_care_be_mi.Auth.Register.{
  IsOpened, IsOpened-ok, IsOpened-of_tables, HeldCode, account_data, accepted, hash-ok, never_ok,
}

-- The data of the company that a request asks for, pending.
abbrev pub company_data : RegisterProviderBody → ℕ → NewServiceProvider
company_data body user_id = record {
  address = body.address;
  tax_id = body.tax_id;
  company_type = body.company_type;
  description = body.description;
  user_id = user_id;
  verification_status = pending;
}

-- `between` are the tables after the account was opened and before the company was stored.
pub record IsProvider ⦃p : Platform⦄ (body : RegisterProviderBody) (w w' : World) : Type 0 where
  pub held : HeldCode body.email body.code w
  pub tax_id_free : count (λ s. s.tax_id === body.tax_id) w.providers ≡ 0
  pub name_free : count (λ u. u.name === body.name) w.users ≡ 0
  pub role : ℕ
  pub is_role : IsRoleId "SERVICE PROVIDER" w.service_provider_role_id w.roles role
  pub hashed : String
  pub is_hashed : (t : ℕ) × (p.hash t body.password salt_rounds ≡ ok hashed)
  pub user : User
  pub between : World
  pub opened : IsOpened (account_data body.account hashed role) body.code w between user
  pub company : ServiceProvider
  pub made : MadeProvider (company_data body user.id) company
  pub left :
      w' ≡ record between { providers = between.providers ++ company ∷ []; tick = between.tick + 1 }

module _ ⦃p : Platform⦄ (s : SoundTables p) (w : World) where
  -- The test for a taken name or tax id, when it finds none.
  untaken-ok :
      (name tax_id : String) {w' : World}
      → find_unique_provider_include_name_and_tax_id name tax_id w ≡ (ok false, w')
      → (count (λ s. s.tax_id === tax_id) w.providers ≡ 0)
        × (count (λ u. u.name === name) w.users ≡ 0)
        × (w' ≡ record w { tick = w'.tick })
  unfolding find_unique_provider_include_name_and_tax_id find_user
  untaken-ok name tax_id {w'} h =
      let (pair, e₁, h₁) = step-ok (promise_all p _ _ w) h in
      elim (promise_all-ok p _ _ w pair.0 pair.1 _ e₁) [
        | inl (w₁, e₂, e₃) ↦ (
          s.providers.find-none w.tick (λ s. s.tax_id === tax_id) w.providers (ground arith),
          s.users.find-none (w.tick + 1) (λ u. u.name === name) w.users (ground arith),
          ground arith,
        )
        | inr (w₁, e₂, e₃) ↦ (
          s.providers.find-none (w.tick + 1) (λ s. s.tax_id === tax_id) w.providers (ground arith),
          s.users.find-none w.tick (λ u. u.name === name) w.users (ground arith),
          ground arith,
        )
      ]

  -- The steps of `registerProvider` put together, over the states between them.
  IsProvider-of_steps :
      (body : RegisterProviderBody) (hashed : String) (role : ℕ) (u : User)
      (company : ServiceProvider) (v t x r m w' : World)
      → HeldCode body.email body.code w × (v ≡ record w { tick = v.tick })
      → (count (λ s. s.tax_id === body.tax_id) v.providers ≡ 0)
        × (count (λ u. u.name === body.name) v.users ≡ 0)
        × (t ≡ record v { tick = t.tick })
      → ((a : ℕ) × (p.hash a body.password salt_rounds ≡ ok hashed))
        × (x ≡ record t { tick = t.tick + 1 })
      → IsRoleId "SERVICE PROVIDER" x.service_provider_role_id x.roles role
        × (r ≡ record x { service_provider_role_id = r.service_provider_role_id; tick = r.tick })
      → IsOpened (account_data body.account hashed role) body.code r m u
      → MadeProvider (company_data body u.id) company
      → w' ≡ record m { providers = m.providers ++ company ∷ []; tick = m.tick + 1 }
      → IsProvider body w w'
  IsProvider-of_steps body hashed role u company v t x r m w' (held, q₁) (tax, name, q₂)
        (is_hashed, q₃) (is_role, q₄) o made q₅ =
      let same_ids : x.service_provider_role_id ≡ w.service_provider_role_id = ground arith in
      let same_roles : x.roles ≡ w.roles = ground arith in
      let same_providers : v.providers ≡ w.providers = ground arith in
      let same_users : v.users ≡ w.users = ground arith in
      record {
        held = held;
        tax_id_free = rw (← same_providers) tax;
        name_free = rw (← same_users) name;
        role = role;
        is_role = rw (← same_ids, ← same_roles) is_role;
        hashed = hashed;
        is_hashed = is_hashed;
        user = u;
        between = m;
        opened =
            IsOpened-of_tables _ body.code w r m u w.customer_role_id r.service_provider_role_id
              r.tick (ground arith) o;
        company = company;
        made = made;
        left = q₅;
      }

module _ ⦃p : Platform⦄ (s : SoundTables p) (selects : SelectsRoles p) (w : World) where
  -- Given sound tables and a sound selection of roles: when registerProvider returns, the request
  -- held a REGISTER code for its address that had not expired, no company had its tax id and no
  -- user its name or address; the user with a hash of the password and the provider role, its
  -- profile and a pending company of that user were stored, and the code is gone.
  pub register_provider-IsProvider :
      (body : RegisterProviderBody) {w' : World}
      → register_provider body w ≡ (ok tt, w')
      → IsProvider body w w'
  unfolding register_provider try_register_provider
  register_provider-IsProvider body {w'} h =
      let run =
        catch-ok (try_register_provider body) unique_as_email w tt w' (λ e v. never_ok e tt v) h in
      let (c, e₁, h₁) =
        step-ok (validate_verification_code body.email body.code CodeType.register w) run in
      let v = (validate_verification_code body.email body.code CodeType.register w).1 in
      let (late, h₂) = guard-ok (ltb c.expires_at (p.clock _)) _ _ _ h₁ in
      let (taken, e₃, h₃) =
        step-ok (find_unique_provider_include_name_and_tax_id body.name body.tax_id _) h₂ in
      let (free, h₄) = guard-ok taken _ _ _ h₃ in
      let (hashed, e₅, h₅) = step-ok (hash body.password _) h₄ in
      let (role, e₆, h₆) = step-ok (get_service_provider_role_id _) h₅ in
      let (pair, e₇, h₇) = step-ok (promise_all p _ _ _) h₆ in
      let (company, made, _, left) = create_service_provider-ok s _ _ h₇ in
      let (held, q) = accepted s w body.email body.code c e₁ in
      let w₂ = record v { tick = v.tick + 1 } in
      IsProvider-of_steps s w body hashed role.id pair.0 company w₂ _ _ _ _ w' (held, ground arith)
        (untaken-ok s w₂ body.name body.tax_id (rw free at e₃)) (hash-ok _ body.password hashed e₅)
        (get_service_provider_role_id-ok selects _ role e₆)
        (IsOpened-ok s _ (account_data body.account hashed role.id) body.code pair.0 pair.1 e₇) made
        left
