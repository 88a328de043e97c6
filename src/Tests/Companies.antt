-- ===== src/Tests/Companies.antt =====
-- A company that registers.
use capstone_home_care_be_mi.Common.{◌≡◌, refl, none, [], ◌∷◌, ◌++◌}
use capstone_home_care_be_mi.Data.{other}
use capstone_home_care_be_mi.Errors.{ok}
use capstone_home_care_be_mi.World.{World, promise_all}
use capstone_home_care_be_mi.Services.{hash}
use capstone_home_care_be_mi.Repos.{
  find_user, insert_user, insert_profile, create_user, find_unique_verification_code,
  delete_verification_code, find_unique_provider_include_name_and_tax_id, create_service_provider,
  get_role, remembered_role, get_service_provider_role_id,
}
use capstone_home_care_be_mi.Auth.{
  RegisterProviderBody, validate_verification_code, try_register_provider, register_provider,
}
use capstone_home_care_be_mi.Auth.Providers.{IsProvider, register_provider-IsProvider}
use capstone_home_care_be_mi.Tests.Sample.{sample, sample-SoundTables, sample-SelectsRoles}
use capstone_home_care_be_mi.Tests.Cases.{before, bob_body}

abbrev with_role : World
with_role = record before {
  roles =
      before.roles
      ++ record { id = 2; name = "SERVICE PROVIDER"; deleted_at = none; permission_ids = [] } ∷ [];
}

abbrev company_body : RegisterProviderBody
company_body = record {
  account = bob_body;
  tax_id = "9";
  company_type = other;
  industry = none;
  address = "Street 1";
  description = none;
}

register_provider-bob :
    register_provider ⦃p = sample⦄ company_body with_role
    ≡ (ok tt, (register_provider ⦃p = sample⦄ company_body with_role).1)
unfolding register_provider try_register_provider validate_verification_code
    find_unique_verification_code find_unique_provider_include_name_and_tax_id find_user hash
    get_service_provider_role_id get_role remembered_role promise_all create_user insert_user
    insert_profile delete_verification_code create_service_provider
register_provider-bob = refl

register_provider-IsProvider_example :
    IsProvider ⦃p = sample⦄ company_body with_role
      (register_provider ⦃p = sample⦄ company_body with_role).1
register_provider-IsProvider_example =
    register_provider-IsProvider ⦃p = sample⦄ sample-SoundTables sample-SelectsRoles with_role
      company_body register_provider-bob
