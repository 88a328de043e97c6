-- ===== src/System/Rows.antt =====
-- Consistent tables, and rows that are added, changed or taken away.
use capstone_home_care_be_mi.Common.{
  ℕ, ◌≡◌, refl, ◌∙◌, String, Bool, List, [], ◌∷◌, ◌++◌, map, keep, count, ◌==◌, ◌===◌, arith,
  eq_iff, All-append, All-keep, All-impl, All-map, Unique, Unique-append, Unique-keep, Unique-map,
  count_ext, Has-append, Has-map,
}
use capstone_home_care_be_mi.Data.{
  User, Profile, Device, RefreshToken, VerificationCode, CodeType, same_type, ServiceProvider,
}
use capstone_home_care_be_mi.System.Consistent.{
  Consistent, HasUser, HasDevice, same_email, same_user_id, same_device_id, same_token,
  same_purpose, same_owner, same_profile,
}

text_sym : (a b : String) → (a === b) ≡ (b === a)
text_sym a b = ground (arith, eq_iff a b, eq_iff b a)

number_sym : (a b : ℕ) → (a == b) ≡ (b == a)
number_sym a b = ground arith

type_sym : (a b : CodeType) → same_type a b ≡ same_type b a
type_sym a b = ground arith

pub purpose_sym : (a b : VerificationCode) → same_purpose a b ≡ same_purpose b a
purpose_sym a b = ground (arith, text_sym a.email b.email, type_sym a.type b.type)

module _ {users : List User} {profiles : List Profile} {devices : List Device}
    {tokens : List RefreshToken} {codes : List VerificationCode} {providers : List ServiceProvider}
    (c : Consistent users profiles devices tokens codes providers) where
  pub Consistent-add_user :
      (u : User)
      → count (λ x. x.email === u.email) users ≡ 0
      → count (λ x. x.id == u.id) users ≡ 0
      → Consistent (users ++ u ∷ []) profiles devices tokens codes providers
  Consistent-add_user u unused fresh = record {
    emails =
        Unique-append same_email users u (λ a b. text_sym a.email b.email) c.emails
          (count_ext (same_email u) (λ x. x.email === u.email) users (λ x. text_sym u.email x.email)
            ∙ unused);
    user_ids =
        Unique-append same_user_id users u (λ a b. number_sym a.id b.id) c.user_ids
          (count_ext (same_user_id u) (λ x. x.id == u.id) users (λ x. number_sym u.id x.id)
            ∙ fresh);
    profile_owners = c.profile_owners;
    profile_users =
        All-impl profiles (λ x h. Has-append (λ y. y.id == x.user_id) users (u ∷ []) h)
          c.profile_users;
    device_ids = c.device_ids;
    token_texts = c.token_texts;
    token_devices = c.token_devices;
    purposes = c.purposes;
    provider_owners = c.provider_owners;
    provider_users =
        All-impl providers (λ x h. Has-append (λ y. y.id == x.user_id) users (u ∷ []) h)
          c.provider_users;
  }

  pub Consistent-add_profile :
      (x : Profile)
      → count (λ y. y.user_id == x.user_id) profiles ≡ 0
      → HasUser users x.user_id
      → Consistent users (profiles ++ x ∷ []) devices tokens codes providers
  Consistent-add_profile x unused owner = record {
    emails = c.emails;
    user_ids = c.user_ids;
    profile_owners =
        Unique-append same_profile profiles x (λ a b. number_sym a.user_id b.user_id)
          c.profile_owners
          (count_ext (same_profile x) (λ y. y.user_id == x.user_id) profiles
              (λ y. number_sym x.user_id y.user_id)
            ∙ unused);
    profile_users =
        All-append (λ y. HasUser users y.user_id) profiles (x ∷ []) c.profile_users (owner, tt);
    device_ids = c.device_ids;
    token_texts = c.token_texts;
    token_devices = c.token_devices;
    purposes = c.purposes;
    provider_owners = c.provider_owners;
    provider_users = c.provider_users;
  }

  pub Consistent-add_provider :
      (x : ServiceProvider)
      → count (λ y. y.user_id == x.user_id) providers ≡ 0
      → HasUser users x.user_id
      → Consistent users profiles devices tokens codes (providers ++ x ∷ [])
  Consistent-add_provider x unused owner = record {
    emails = c.emails;
    user_ids = c.user_ids;
    profile_owners = c.profile_owners;
    profile_users = c.profile_users;
    device_ids = c.device_ids;
    token_texts = c.token_texts;
    token_devices = c.token_devices;
    purposes = c.purposes;
    provider_owners =
        Unique-append same_owner providers x (λ a b. number_sym a.user_id b.user_id)
          c.provider_owners
          (count_ext (same_owner x) (λ y. y.user_id == x.user_id) providers
              (λ y. number_sym x.user_id y.user_id)
            ∙ unused);
    provider_users =
        All-append (λ y. HasUser users y.user_id) providers (x ∷ []) c.provider_users (owner, tt);
  }

  pub Consistent-add_device :
      (d : Device)
      → count (λ x. x.id == d.id) devices ≡ 0
      → Consistent users profiles (devices ++ d ∷ []) tokens codes providers
  Consistent-add_device d fresh = record {
    emails = c.emails;
    user_ids = c.user_ids;
    profile_owners = c.profile_owners;
    profile_users = c.profile_users;
    device_ids =
        Unique-append same_device_id devices d (λ a b. number_sym a.id b.id) c.device_ids
          (count_ext (same_device_id d) (λ x. x.id == d.id) devices (λ x. number_sym d.id x.id)
            ∙ fresh);
    token_texts = c.token_texts;
    token_devices =
        All-impl tokens (λ r h. Has-append (λ x. x.id == r.device_id) devices (d ∷ []) h)
          c.token_devices;
    purposes = c.purposes;
    provider_owners = c.provider_owners;
    provider_users = c.provider_users;
  }

  -- A change of a device that leaves its id.
  pub Consistent-map_devices :
      (f : Device → Device)
      → ((d : Device) → (f d).id ≡ d.id)
      → Consistent users profiles (map f devices) tokens codes providers
  Consistent-map_devices f same = record {
    emails = c.emails;
    user_ids = c.user_ids;
    profile_owners = c.profile_owners;
    profile_users = c.profile_users;
    device_ids =
        Unique-map same_device_id f devices (λ a b. ground (arith, same a, same b)) c.device_ids;
    token_texts = c.token_texts;
    token_devices =
        All-impl tokens
          (λ r h. Has-map (λ x. x.id == r.device_id) f devices (λ x. ground (arith, same x)) h)
          c.token_devices;
    purposes = c.purposes;
    provider_owners = c.provider_owners;
    provider_users = c.provider_users;
  }

  -- A change of a user that leaves its id and its address.
  pub Consistent-map_users :
      (f : User → User)
      → ((u : User) → (f u).id ≡ u.id)
      → ((u : User) → (f u).email ≡ u.email)
      → Consistent (map f users) profiles devices tokens codes providers
  Consistent-map_users f same_id same_mail = record {
    emails = Unique-map same_email f users (λ a b. rw (same_mail a, same_mail b) refl) c.emails;
    user_ids =
        Unique-map same_user_id f users (λ a b. ground (arith, same_id a, same_id b)) c.user_ids;
    profile_owners = c.profile_owners;
    profile_users =
        All-impl profiles
          (λ x h. Has-map (λ y. y.id == x.user_id) f users (λ y. ground (arith, same_id y)) h)
          c.profile_users;
    device_ids = c.device_ids;
    token_texts = c.token_texts;
    token_devices = c.token_devices;
    purposes = c.purposes;
    provider_owners = c.provider_owners;
    provider_users =
        All-impl providers
          (λ x h. Has-map (λ y. y.id == x.user_id) f users (λ y. ground (arith, same_id y)) h)
          c.provider_users;
  }

  pub Consistent-add_token :
      (r : RefreshToken)
      → count (λ x. x.token === r.token) tokens ≡ 0
      → HasDevice devices r.device_id
      → Consistent users profiles devices (tokens ++ r ∷ []) codes providers
  Consistent-add_token r unused owner = record {
    emails = c.emails;
    user_ids = c.user_ids;
    profile_owners = c.profile_owners;
    profile_users = c.profile_users;
    device_ids = c.device_ids;
    token_texts =
        Unique-append same_token tokens r (λ a b. text_sym a.token b.token) c.token_texts
          (count_ext (same_token r) (λ x. x.token === r.token) tokens
              (λ x. text_sym r.token x.token)
            ∙ unused);
    token_devices =
        All-append (λ x. HasDevice devices x.device_id) tokens (r ∷ []) c.token_devices (owner, tt);
    purposes = c.purposes;
    provider_owners = c.provider_owners;
    provider_users = c.provider_users;
  }

  pub Consistent-keep_tokens :
      (p : RefreshToken → Bool) → Consistent users profiles devices (keep p tokens) codes providers
  Consistent-keep_tokens p = record {
    emails = c.emails;
    user_ids = c.user_ids;
    profile_owners = c.profile_owners;
    profile_users = c.profile_users;
    device_ids = c.device_ids;
    token_texts = Unique-keep same_token p tokens c.token_texts;
    token_devices = All-keep (λ x. HasDevice devices x.device_id) p tokens c.token_devices;
    purposes = c.purposes;
    provider_owners = c.provider_owners;
    provider_users = c.provider_users;
  }

  pub Consistent-set_codes :
      (rows : List VerificationCode)
      → Unique same_purpose rows
      → Consistent users profiles devices tokens rows providers
  Consistent-set_codes rows u = record {
    emails = c.emails;
    user_ids = c.user_ids;
    profile_owners = c.profile_owners;
    profile_users = c.profile_users;
    device_ids = c.device_ids;
    token_texts = c.token_texts;
    token_devices = c.token_devices;
    purposes = u;
    provider_owners = c.provider_owners;
    provider_users = c.provider_users;
  }

  -- A change of a provider that leaves its user.
  pub Consistent-map_providers :
      (f : ServiceProvider → ServiceProvider)
      → ((x : ServiceProvider) → (f x).user_id ≡ x.user_id)
      → Consistent users profiles devices tokens codes (map f providers)
  Consistent-map_providers f same = record {
    emails = c.emails;
    user_ids = c.user_ids;
    profile_owners = c.profile_owners;
    profile_users = c.profile_users;
    device_ids = c.device_ids;
    token_texts = c.token_texts;
    token_devices = c.token_devices;
    purposes = c.purposes;
    provider_owners =
        Unique-map same_owner f providers (λ a b. ground (arith, same a, same b)) c.provider_owners;
    provider_users =
        All-map (λ x. HasUser users x.user_id) f providers (λ x h. rw (same x) h) c.provider_users;
  }
