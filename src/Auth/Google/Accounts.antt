-- ===== src/Auth/Google/Accounts.antt =====
-- `googleCallback`: the account that it opens a session for.
use capstone_home_care_be_mi.Common.{
  ◌+◌, ◌≡◌, ◌⊎◌, inl, inr, refl, ap, ◌∙◌, String, Option, none, some, List, [], ◌∷◌, ◌++◌, Memᴰ,
  count, non_empty, ◌===◌, arith, true,
}
use capstone_home_care_be_mi.Data.{User, NewUser, Device, RefreshToken}
use capstone_home_care_be_mi.Errors.{ok}
use capstone_home_care_be_mi.Platform.{Platform, MadeUser, user_clash, AccessTokenPayloadCreate}
use capstone_home_care_be_mi.Platform.Sound.{SoundTables, SelectsRoles}
use capstone_home_care_be_mi.World.{World}
use capstone_home_care_be_mi.World.Laws.{step-ok, found-ok}
use capstone_home_care_be_mi.Services.{access_options, hash}
use capstone_home_care_be_mi.Repos.{
  UserIncludeRole, create_user_include_role, insert_user, create_device,
  find_unique_user_include_role, get_customer_role_id,
}
use capstone_home_care_be_mi.Repos.Laws.{insert_user-ok, create_device-ok}
use capstone_home_care_be_mi.Repos.RoleLaws.{get_customer_role_id-ok}
use capstone_home_care_be_mi.Repos.FindLaws.{
  find_user_include-some, find_user_include-reads, include_all-reads, include_all-user,
}
use capstone_home_care_be_mi.Auth.Bodies.{Tokens}
use capstone_home_care_be_mi.Auth.Sessions.{IsSigned, generate_tokens-IsIssued}
use capstone_home_care_be_mi.Auth.Google.{
  GoogleClient, GoogleAuthState, UserInfo, found_or_created, open_session, client_of,
  google_callback,
}

-- A device that is active by default and a refresh token for it were added for the user, and the
-- access token names no provider.
pub record IsOpenedFor ⦃p : Platform⦄ (client : GoogleAuthState) (user : UserIncludeRole)
    (w w' : World) (tokens : Tokens) : Type 0 where
  pub device : Device
  pub device_user : device.user_id ≡ user.id
  pub device_agent : device.user_agent ≡ client.user_agent
  pub device_ip : device.ip ≡ client.ip
  pub device_active : device.is_active ≡ true
  pub payload : AccessTokenPayloadCreate
  pub payload_user : payload.user_id ≡ user.id
  pub payload_device : payload.device_id ≡ device.id
  pub no_provider : payload.provider_id ≡ none
  pub access : IsSigned p access_options payload tokens.access_token
  pub row : RefreshToken
  pub row_token : row.token ≡ tokens.refresh_token
  pub row_device : row.device_id ≡ device.id
  -- no stored row had the token
  pub unused : count (λ r. r.token === tokens.refresh_token) w.tokens ≡ 0
  pub left : w' ≡ record w {
    devices = w.devices ++ device ∷ [];
    tokens = w.tokens ++ row ∷ [];
    tick = w'.tick;
  }

module _ ⦃p : Platform⦄ (s : SoundTables p) (w : World) where
  -- A session that `googleCallback` opens for a user: an active device with what the state says of
  -- the client, a refresh token for it, and an access token without a provider, whatever the user is.
  pub open_session-IsOpenedFor :
      (client : GoogleAuthState) (user : UserIncludeRole) (tokens : Tokens) {w' : World}
      → open_session client user w ≡ (ok tokens, w')
      → IsOpenedFor client user w w' tokens
  unfolding open_session
  open_session-IsOpenedFor client user tokens {w'} h =
      let (device, e₁, h₁) = step-ok (create_device _ w) h in
      let (made, _, q₁) = create_device-ok s w _ device e₁ in
      let i = generate_tokens-IsIssued s _ _ tokens h₁ in
      let q₂ = i.left in
      record {
        device = device;
        device_user = made.user_id;
        device_agent = made.user_agent;
        device_ip = made.ip;
        device_active = made.active_default refl;
        payload = _;
        payload_user = refl;
        payload_device = refl;
        no_provider = refl;
        access = i.access;
        row = i.row;
        row_token = i.row_token;
        row_device = i.row_device;
        unused = ground (arith, i.unused);
        left = ground arith;
      }

module _ ⦃p : Platform⦄ (s : SoundTables p) (w : World) where
  create_user_include_role-ok :
      (n : NewUser) (full : UserIncludeRole) {w' : World}
      → create_user_include_role n w ≡ (ok full, w')
      → MadeUser n full.user
        × (count (user_clash n) w.users ≡ 0)
        × (w' ≡ record w { users = w.users ++ full.user ∷ []; tick = w'.tick })
  unfolding create_user_include_role
  create_user_include_role-ok n full {w'} h =
      let (u, e₁, h₁) = step-ok (insert_user n w) h in
      let w₁ = (insert_user n w).1 in
      let (made, unused, _, q₁) = insert_user-ok s w n u e₁ in
      let same : full.user ≡ u = include_all-user w₁ u full {w' = w'} h₁ in
      let reads = include_all-reads w₁ u in (rw same made, unused, ground arith)

-- The user that is given, or a new one of an address that no user has.
abbrev pub Account : String → Option UserIncludeRole → UserIncludeRole → World → World → Type 0
Account email found user v v' =
    ((found ≡ some user) × (v' ≡ v))
    ⊎ ((found ≡ none)
        × (user.email ≡ email)
        × (count (λ u. u.email === email) v.users ≡ 0)
        × (v' ≡ record v {
          users = v.users ++ user.user ∷ [];
          customer_role_id = v'.customer_role_id;
          tick = v'.tick;
        }))

module _ ⦃p : Platform⦄ (s : SoundTables p) (selects : SelectsRoles p) (w : World) where
  found_or_created-Account :
      (email : String) (info : UserInfo) (found : Option UserIncludeRole) (user : UserIncludeRole)
      {w' : World}
      → found_or_created email info found w ≡ (ok user, w')
      → Account email found user w w'
  unfolding found_or_created hash
  found_or_created-Account email info (some u) user h = inl (ground arith, ground arith)
  found_or_created-Account email info none user {w'} h =
      let (role, e₁, h₁) = step-ok (get_customer_role_id w) h in
      let w₁ = (get_customer_role_id w).1 in
      let (_, q₁) = get_customer_role_id-ok selects w role {w' = w₁} e₁ in
      let (hashed, e₂, h₂) = step-ok (hash (p.uuid w₁.tick) _) h₁ in
      let (made, unused, q₂) = create_user_include_role-ok s _ _ user h₂ in
      inr (refl, made.email, ground arith, ground arith)

account_of :
    {u : User} {before between after : List User}
    → (Memᴰ u before × (u.deleted_at ≡ none) × (between ≡ before))
      ⊎ ((count (λ x. x.email === u.email) before ≡ 0) × (between ≡ before ++ u ∷ []))
    → after ≡ between
    → (Memᴰ u before × (u.deleted_at ≡ none) × (after ≡ before))
      ⊎ ((count (λ x. x.email === u.email) before ≡ 0) × (after ≡ before ++ u ∷ []))
account_of (inl (mem, alive, q)) e = inl (mem, alive, e ∙ q)
account_of (inr (unused, q)) e = inr (unused, e ∙ q)

non_empty-some : (o : Option String) (s : String) → non_empty o ≡ some s → o ≡ some s
non_empty-some o s h = ground arith

-- The account and the session of a Google user. The customer profiles are as before, also where the
-- account is new.
pub record IsGoogleLogin ⦃p : Platform⦄ (g : GoogleClient) (code : String) (state : Option String)
    (w w' : World) (tokens : Tokens) : Type 0 where
  -- what Google gave for the code, and said of who that is
  pub credentials : String
  pub info : UserInfo
  pub asked : g.get_token w.tick code ≡ ok credentials
  pub informed : g.user_info (w.tick + 1) credentials ≡ ok info
  pub user : User
  pub by_email : info.email ≡ some user.email
  pub account :
      (Memᴰ user w.users × (user.deleted_at ≡ none) × (w'.users ≡ w.users))
      ⊎ ((count (λ u. u.email === user.email) w.users ≡ 0) × (w'.users ≡ w.users ++ user ∷ []))
  pub profiles : w'.profiles ≡ w.profiles
  pub device : Device
  pub device_user : device.user_id ≡ user.id
  pub device_agent : device.user_agent ≡ (client_of g state).user_agent
  pub device_ip : device.ip ≡ (client_of g state).ip
  pub device_active : device.is_active ≡ true
  pub devices : w'.devices ≡ w.devices ++ device ∷ []
  pub row : RefreshToken
  pub row_token : row.token ≡ tokens.refresh_token
  pub row_device : row.device_id ≡ device.id
  -- no stored row had the token
  pub unused : count (λ r. r.token === tokens.refresh_token) w.tokens ≡ 0
  pub tokens_left : w'.tokens ≡ w.tokens ++ row ∷ []
  -- the access token is signed for the user and the device, and names no provider
  pub payload : AccessTokenPayloadCreate
  pub payload_user : payload.user_id ≡ user.id
  pub payload_device : payload.device_id ≡ device.id
  pub no_provider : payload.provider_id ≡ none
  pub access : IsSigned p access_options payload tokens.access_token

module _ ⦃p : Platform⦄ (s : SoundTables p) (w : World) where
  -- The tables around the lookup and the creation.
  known_or_new :
      (email : String) (found : Option UserIncludeRole) (user : UserIncludeRole) (v₂ : World)
      → (find_unique_user_include_role email w).0 ≡ ok found
      → Account email found user (find_unique_user_include_role email w).1 v₂
      → ((Memᴰ user.user w.users × (user.deleted_at ≡ none) × (v₂.users ≡ w.users))
          ⊎ ((count (λ u. u.email === user.email) w.users ≡ 0)
              × (v₂.users ≡ w.users ++ user.user ∷ [])))
        × (user.email ≡ email)
        × (v₂.profiles ≡ w.profiles)
        × (v₂.devices ≡ w.devices)
        × (v₂.tokens ≡ w.tokens)
  known_or_new email found user v₂ e a =
      let q₁ = find_user_include-reads w email in
      let v₁ = (find_unique_user_include_role email w).1 in
      elim a [
        | inl (same, q₂) ↦
            let (by_email, alive, mem, _) =
              find_user_include-some s w email user {w' = v₁} (ground arith) in
            (inl (mem, alive, ground arith), by_email, ground arith, ground arith, ground arith)
        | inr (nobody, by_email, unused, q₂) ↦
            let before : v₁.users ≡ w.users = ground arith in
            let free : count (λ u. u.email === user.email) w.users ≡ 0 =
              rw by_email (rw before at unused) in
            (inr (free, ground arith), by_email, ground arith, ground arith, ground arith)
      ]

module _ ⦃p : Platform⦄ (s : SoundTables p) (selects : SelectsRoles p) (w : World) where
  -- Given sound tables and a sound selection of roles: when googleCallback returns tokens, Google
  -- gave credentials for the code and an address for them; the user of that address was stored and
  -- not deleted, or is new where no user had the address, without a customer profile; an active
  -- device with what the state says of the client and a refresh token for it were added, and the
  -- access token is signed for the user and the device, with no provider.
  pub google_callback-IsGoogleLogin :
      (g : GoogleClient) (code : String) (state : Option String) (tokens : Tokens) {w' : World}
      → google_callback g code state w ≡ (ok tokens, w')
      → IsGoogleLogin g code state w w' tokens
  unfolding google_callback
  google_callback-IsGoogleLogin g code state tokens {w'} h =
      let (credentials, e₁, h₁) =
        step-ok (g.get_token w.tick code, record w { tick = w.tick + 1 }) h in
      let (info, e₂, h₂) =
        step-ok (g.user_info (w.tick + 1) credentials, record w { tick = w.tick + 1 + 1 }) h₁ in
      let v = record w { tick = w.tick + 1 + 1 } in
      let (email, e₃, h₃) = found-ok (non_empty info.email) _ _ _ h₂ in
      let (found, e₄, h₄) = step-ok (find_unique_user_include_role email v) h₃ in
      let v₁ = (find_unique_user_include_role email v).1 in
      let (user, e₅, h₅) = step-ok (found_or_created email info found v₁) h₄ in
      let v₂ = (found_or_created email info found v₁).1 in
      let a = found_or_created-Account s selects v₁ email info found user {w' = v₂} e₅ in
      let o = open_session-IsOpenedFor s v₂ (client_of g state) user tokens {w' = w'} h₅ in
      let q₂ = o.left in
      let (account, by_email, profiles, devices, tokens_before) =
        known_or_new s v email found user v₂ (ground arith) a in
      record {
        credentials = credentials;
        info = info;
        asked = ground arith;
        informed = ground arith;
        user = user.user;
        by_email = ground (arith, by_email, non_empty-some info.email email (ground arith));
        account = account_of account (ap (λ (x : World). x.users) q₂);
        profiles = ground arith;
        device = o.device;
        device_user = o.device_user;
        device_agent = o.device_agent;
        device_ip = o.device_ip;
        device_active = o.device_active;
        devices = ground arith;
        row = o.row;
        row_token = o.row_token;
        row_device = o.row_device;
        unused = rw tokens_before at (o.unused);
        tokens_left = ground arith;
        payload = o.payload;
        payload_user = o.payload_user;
        payload_device = o.payload_device;
        no_provider = o.no_provider;
        access = o.access;
      }
