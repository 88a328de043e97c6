-- ===== src/Auth/Returning.antt =====
-- When `login` and `refreshToken` return.
use capstone_home_care_be_mi.Common.{
  Bool, ◌++◌, ℕ, ◌+◌, ◌≡◌, ◌≢◌, ◌≤◌, ◌⊎◌, inl, inr, refl, String, true, false, Option, some, none,
  List, map, [], ◌∷◌, Memᴰ, count, ◌==◌, is_some, non_empty, non_zero, any, arith,
}
use mathlib.Core.List.Memᴰ.{not-nil}
use capstone_home_care_be_mi.Data.{RoleRef, User, NewDevice}
use capstone_home_care_be_mi.Errors.{ok}
use capstone_home_care_be_mi.Platform.{Platform, find_cases}
use capstone_home_care_be_mi.Platform.Sound.{SoundTables, LiveTables, LiveReads}
use capstone_home_care_be_mi.World.{World}
use capstone_home_care_be_mi.Services.{create_totp, verify_totp, compare}
use capstone_home_care_be_mi.Repos.{
  UserIncludeRole, has_user, has_device, find_user, include_roles, include_provider, include_staff,
  include_all, find_unique_user_include_role, create_device,
}
use capstone_home_care_be_mi.Auth.Bodies.{LoginBody, Tokens}
use capstone_home_care_be_mi.Auth.Service.{second_factor, login}
use capstone_home_care_be_mi.Auth.Recovery.{has_email}
use capstone_home_care_be_mi.Auth.Issuing.{VerifiesFresh, SignsNew, generate_tokens_returns}

module _ ⦃p : Platform⦄ (live : LiveTables p) (reads : LiveReads p) (w : World) where
  pub include_roles_returns :
      (u : User)
      → (roles : List RoleRef) × (include_roles u w ≡ (ok roles, record w { tick = w.tick + 1 }))
  unfolding include_roles
  include_roles_returns u =
      let (found, e) = reads.roles w.tick (λ r. any (λ i. i == r.id) u.role_ids) w.roles in
      (map (λ r. record { id = r.id; name = r.name }) found, rw e refl)

  include_provider_returns :
      (u : User) → (o : Option ℕ) × (include_provider u w ≡ (ok o, record w { tick = w.tick + 1 }))
  unfolding include_provider
  include_provider_returns u =
      let (found, e) = live.providers.find-live w.tick (λ x. x.user_id == u.id) w.providers in
      (elim found [ none ↦ none | some x ↦ some x.id ], rw e refl)

  include_staff_returns :
      (u : User) → (o : Option ℕ) × (include_staff u w ≡ (ok o, record w { tick = w.tick + 1 }))
  unfolding include_staff
  include_staff_returns u =
      let (found, e) = reads.staff w.tick (λ x. x.user_id == u.id) w.staff in
      (elim found [ none ↦ none | some x ↦ some x.provider_id ], rw e refl)

module _ ⦃p : Platform⦄ (live : LiveTables p) (reads : LiveReads p) (w : World) where
  include_all_returns :
      (u : User)
      → (full : UserIncludeRole) × (full.user ≡ u)
        × (include_all u w ≡ (ok full, record w { tick = w.tick + 1 + 1 + 1 }))
  unfolding include_all
  include_all_returns u =
      let (roles, e₁) = include_roles_returns live reads w u in
      let (provider, e₂) = include_provider_returns live reads (record w { tick = w.tick + 1 }) u in
      let (staff, e₃) = include_staff_returns live reads (record w { tick = w.tick + 1 + 1 }) u in
      (
        record { user = u; roles = roles; service_provider = provider; staff = staff },
        refl,
        ground arith,
      )

module _ ⦃p : Platform⦄ (s : SoundTables p) (live : LiveTables p) (reads : LiveReads p)
    (w : World) where
  find_user_include_returns :
      (email : String)
      → count (has_email email) w.users ≢ 0
      → (full : UserIncludeRole) × Memᴰ full.user w.users
        × (has_email email full.user ≡ true)
        × (find_unique_user_include_role email w
            ≡ (ok (some full), record w { tick = w.tick + 1 + 1 + 1 + 1 }))
  unfolding find_unique_user_include_role find_user
  find_user_include_returns email known =
      elim (find_cases s.users live.users w.tick (has_email email) w.users) [
        | inl (e, zero) ↦ absurd (known zero)
        | inr (u, e, hit, mem) ↦
            let (full, same, q) =
              include_all_returns live reads (record w { tick = w.tick + 1 }) u in
            (full, rw same mem, rw same hit, ground arith)
      ]

-- A user with no second factor, or a body with a TOTP code that is valid whenever it is looked at.
abbrev pub FactorReady : ⦃p : Platform⦄ → User → LoginBody → Type 0
FactorReady ⦃p⦄ user body =
    (non_empty user.totp_secret ≡ none)
    ⊎ ((secret : String) × (token : String) × (non_empty user.totp_secret ≡ some secret)
        × (non_empty body.totp_code ≡ some token)
        × ((t : ℕ) → is_some (p.totp_validate t (create_totp user.email secret) token 1) ≡ true))

module _ ⦃p : Platform⦄ (w : World) where
  second_factor_returns :
      (user : UserIncludeRole) (body : LoginBody)
      → FactorReady user.user body
      → (t : ℕ) × (w.tick ≤ t) × (second_factor user body w ≡ (ok tt, record w { tick = t }))
  unfolding second_factor verify_totp
  second_factor_returns user body (inl e) = (w.tick, omega arith, ground arith)
  second_factor_returns user body (inr (secret, token, e, q, valid)) =
      let yes = valid w.tick in (w.tick + 1, omega arith, ground arith)

count-never : {A : Type 0} (xs : List A) → count (λ x. false) xs ≡ 0
count-never [] = refl
count-never (x ∷ xs) = ground (arith, count-never xs)

module _ {A : Type 0} (p : A → Bool) where
  any-of_mem : (xs : List A) {x : A} → Memᴰ x xs → p x ≡ true → any p xs ≡ true
  any-of_mem [] m h = absurd (not-nil m)
  any-of_mem (y ∷ xs) (Memᴰ.head e) h = let hit : p y ≡ true = rw e at h in ground arith
  any-of_mem (y ∷ xs) (Memᴰ.tail m) h = ground (arith, any-of_mem xs m h)

  any-last : (xs : List A) (y : A) → p y ≡ true → any p (xs ++ y ∷ []) ≡ true
  any-last [] y h = ground arith
  any-last (x ∷ xs) y h = ground (arith, any-last xs y h)

-- Tokens that were signed later are as new.
pub SignsNew-later :
    ⦃p : Platform⦄ → (w v : World) → v.tokens ≡ w.tokens → w.tick ≤ v.tick → SignsNew w → SignsNew v
SignsNew-later w v same later new t u payload h before =
    rw same (new t u payload (omega arith) before)

module _ ⦃p : Platform⦄ (s : SoundTables p) (live : LiveTables p) (reads : LiveReads p)
    (fresh : VerifiesFresh) (w : World) (new : SignsNew w) where
  -- Given sound and live tables, tables for reading that answer, refresh tokens that verify right
  -- after they are signed, and no stored token that is signed from now on: login returns tokens
  -- where a user of the address is stored and not deleted, and for each such user the password
  -- matches and no second factor is set up, or a TOTP code is given that is valid whenever it is
  -- looked at.
  pub login_returns :
      (body : LoginBody)
      → count (has_email body.email) w.users ≢ 0
      → ((u : User)
          → Memᴰ u w.users
          → has_email body.email u ≡ true
          → ((t : ℕ) → p.compare t body.password u.password ≡ ok true) × FactorReady u body)
      → (tokens : Tokens) × ((login body w).0 ≡ ok tokens)
  unfolding login compare create_device
  login_returns body known shows =
      let (full, mem, hit, e₁) = find_user_include_returns s live reads w body.email known in
      let (password, factor) = shows full.user mem hit in
      let e₂ = password (w.tick + 1 + 1 + 1 + 1) in
      let w₁ = record w { tick = w.tick + 1 + 1 + 1 + 1 + 1 } in
      let (t, later, e₃) = second_factor_returns w₁ full body factor in
      let device : NewDevice = record {
        user_id = full.user.id;
        user_agent = body.user_agent;
        ip = body.ip;
        is_active = some true;
        last_active = some (p.clock t);
      } in
      let owner : has_user full.user.id w ≡ true =
        any-of_mem (λ u. u.id == full.user.id) w.users mem (ground arith) in
      let (a, q₄) = live.devices.create-live (t + 1) device w.devices tt (count-never w.devices) in
      let (_, added, _, _) = s.devices.create-ok (t + 1) true device w.devices a.0 a.1 q₄ in
      let e₄ : p.devices.create (t + 1) (has_user full.user.id w) device w.devices ≡ ok a =
        rw owner q₄ in
      let opened : has_device (a.0).id (record w { devices = a.1 }) ≡ true =
        rw added (any-last (λ d. d.id == (a.0).id) w.devices a.0 (ground arith)) in
      let w₂ = record w { tick = t + 1 + 1; devices = a.1 } in
      let (tokens, e₅) =
        generate_tokens_returns live fresh w₂ (SignsNew-later w w₂ refl (omega arith) new)
          (record {
            user_id = full.user.id;
            device_id = (a.0).id;
            roles = full.roles;
            provider_id = non_zero full.service_provider;
            staff_provider_id = non_zero full.staff;
          })
          owner opened in
      (tokens, ground arith)
