-- ===== src/Tests/Requests.antt =====
-- The guards and the change of a status, at concrete requests.
use capstone_home_care_be_mi.Common.{
  ℕ, ◌+◌, ◌≡◌, ◌≢◌, ◌↔◌, ◌⊎◌, refl, String, Bool, true, false, Option, none, some, List, [], ◌∷◌,
  Memᴰ, map, All, arith,
}
use capstone_home_care_be_mi.Data.{get, ServiceProvider, verified}
use capstone_home_care_be_mi.Errors.{Error, Result, ok}
use capstone_home_care_be_mi.World.{World}
use capstone_home_care_be_mi.Services.{verify_access_token}
use capstone_home_care_be_mi.Guards.{
  Request, Context, Guard, second_word, payment_api_key_guard, verified_provider_guard, bearer,
  handle_and_condition, handle_or_condition, authentication_guard, access_token_guard, or_condition,
  extract_access_token_from_header, extract_and_validate_token, validate_user_permission,
  roles_with_permissions, include_permissions, payment_api_key,
}
use capstone_home_care_be_mi.Guards.Conditions.{
  AllPass, OnePasses, IsHttp, conditions_iff, authentication_guard-IsHttp,
}
use capstone_home_care_be_mi.Guards.Provider.{verified_provider_guard_iff}
use capstone_home_care_be_mi.Guards.Permission.{IsAdmitted, access_token_guard-IsAdmitted}
use capstone_home_care_be_mi.Gateway.{answered, google_callback, swagger, create_presigned_url}
use capstone_home_care_be_mi.Gateway.Routes.{answered_iff}
use capstone_home_care_be_mi.Managers.{UpdateStatusProviderBody, update_provider_status}
use capstone_home_care_be_mi.Tests.Sample.{
  sample, sample-SoundTables, sample-LiveTables, sample-SoundReads, payload,
}
use capstone_home_care_be_mi.Tests.Cases.{before}

abbrev request : Request
request = record {
  headers = ("authorization", "Bearer abc") ∷ [];
  path = "/managers";
  method = get;
  user = some payload;
}

abbrev here : Context
here = record { request = request; world = before }

abbrev guards : List Guard
guards = payment_api_key_guard ⦃p = sample⦄ ∷ access_token_guard ⦃p = sample⦄ ∷ []

admitted :
    access_token_guard ⦃p = sample⦄ here ≡ (ok true, (access_token_guard ⦃p = sample⦄ here).1)
unfolding access_token_guard extract_and_validate_token extract_access_token_from_header second_word
    verify_access_token validate_user_permission roles_with_permissions include_permissions
    capstone_home_care_be_mi.Common.split
admitted = refl

access_token_guard-IsAdmitted_example :
    IsAdmitted ⦃p = sample⦄ here (access_token_guard ⦃p = sample⦄ here).1
access_token_guard-IsAdmitted_example =
    access_token_guard-IsAdmitted ⦃p = sample⦄ sample-SoundReads here
      (access_token_guard ⦃p = sample⦄ here).1 admitted

conditions_iff_example :
    (handle_and_condition guards here ≡ (ok true, here) ↔ AllPass guards here here)
    × ((last : Option Error)
        → handle_or_condition last guards here ≡ (ok true, here) ↔ OnePasses guards here here)
conditions_iff_example = conditions_iff guards here here

authentication_guard-IsHttp_example :
    IsHttp
      (authentication_guard ⦃p = sample⦄
        (some (record { auth_types = bearer ∷ payment_api_key ∷ []; condition = or_condition }))
        here).0
authentication_guard-IsHttp_example =
    authentication_guard-IsHttp ⦃p = sample⦄
      (some (record { auth_types = bearer ∷ payment_api_key ∷ []; condition = or_condition })) here

verified_provider_guard_iff_example :
    (verified_provider_guard ⦃p = sample⦄ here).0 ≡ ok true
    ↔ ((x : ServiceProvider) × (x.id ≡ 1) × Memᴰ x before.providers)
verified_provider_guard_iff_example =
    verified_provider_guard_iff ⦃p = sample⦄ sample-SoundTables sample-LiveTables here payload 1
      refl refl (λ e. ground arith)

abbrev verify_first : UpdateStatusProviderBody
verify_first = record { id = 1; verification_status = verified }

abbrev run : Result (Unit {0}) × World
run = update_provider_status ⦃p = sample⦄ verify_first (some 1) before

answered_iff_example : answered google_callback ≡ false ↔ (
    (google_callback ≡ google_callback)
    ⊎ ((google_callback ≡ swagger) ⊎ (google_callback ≡ create_presigned_url)))
answered_iff_example = answered_iff google_callback
