-- ===== src/Repos.antt =====
-- The repositories: apps/auth/src/auth.repo.ts and libs/common/src/repositories. Each method is a
-- query on one table, or a few of them in turn.
mod Auth
mod Shared
pub mod Others
pub mod Laws
pub mod RoleLaws
pub mod FindLaws
unfoldable pub use Auth.{
  include_roles, include_provider, include_staff, include_all, find_user, insert_user,
  insert_profile, create_user, create_user_include_role, create_verification_code,
  find_unique_verification_code, create_refresh_token, create_device, update_device,
  delete_refresh_token, delete_verification_code, find_unique_user_include_role,
  find_unique_refresh_token_include_user_role, find_unique_provider_include_name_and_tax_id,
  create_service_provider,
}
pub use Auth.{
  UserIncludeRole, TokenIncludeUser, has_user, has_device, has_roles, DeviceUpdate, from_client,
  deactivate, where_code, mark_device,
}
unfoldable pub use Shared.{
  find_unique_user, update_password, get_role, remembered_role, get_customer_role_id,
  get_service_provider_role_id, get_admin_role_id, get_staff_role_id, find_unique_provider,
}
