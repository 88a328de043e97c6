-- ===== src/Gateway.antt =====
-- The controllers of apps/gateway/src, the message patterns that they send, and the patterns that the
-- controllers of the services handle.
pub mod Routes
pub mod Wire
pub mod Payloads
pub mod Requests
pub mod Deliver
pub mod Accounts
pub mod Sessions
pub mod Failures
pub mod Logins
pub mod Verifying
pub mod Kinds
pub mod Refusals
pub mod Readings
pub mod Typed
pub mod Redirect
use capstone_home_care_be_mi.Common.{
  String, Bool, true, false, Option, none, some, List, [], ◌∷◌, any, ◌===◌,
}
use capstone_home_care_be_mi.Data.{HttpMethod, get, post}

pub data Service : Type 0 where
  auth_service manager_service media_service : Service

-- A message pattern: `{ cmd }` or a text.
pub data Pattern : Type 0 where
  cmd : String → Pattern
  plain : String → Pattern

abbrev pub same_pattern : Pattern → Pattern → Bool
same_pattern (cmd a) (cmd b) = a === b
same_pattern (plain a) (plain b) = a === b
same_pattern _ _ = false

-- The handlers of the three gateway controllers.
pub data Route : Type 0 where
  register send_otp login refresh_token logout forgot_password get_authorization_url : Route
  google_callback register_provider pong swagger change_status_provider create_presigned_url : Route

-- `@Get` or `@Post`, under the controller's prefix.
abbrev pub endpoint : Route → HttpMethod × String
endpoint register = (post, "auth/register")
endpoint send_otp = (post, "auth/otp")
endpoint login = (post, "auth/login")
endpoint refresh_token = (post, "auth/refresh-token")
endpoint logout = (post, "auth/logout")
endpoint forgot_password = (post, "auth/forgot-password")
endpoint get_authorization_url = (get, "auth/google-link")
endpoint google_callback = (get, "auth/google/callback")
endpoint register_provider = (post, "auth/register-provider")
endpoint pong = (get, "auth/ping")
endpoint swagger = (get, "auth/api")
endpoint change_status_provider = (post, "managers/change-status-provider")
endpoint create_presigned_url = (post, "media/images/upload/presigned-url")

-- Whether the handler has `@IsPublic()`.
abbrev pub is_public : Route → Bool
is_public change_status_provider = false
is_public _ = true

-- What a handler sends to which service; `pong` answers by itself.
abbrev pub message : Route → Option (Service × Pattern)
message register = some (auth_service, cmd "register")
message send_otp = some (auth_service, cmd "otp")
message login = some (auth_service, cmd "login")
message refresh_token = some (auth_service, cmd "refresh-token")
message logout = some (auth_service, cmd "logout")
message forgot_password = some (auth_service, cmd "forgot-password")
message get_authorization_url = some (auth_service, cmd "google-link")
message google_callback = some (auth_service, cmd "google-callback")
message register_provider = some (auth_service, cmd "register-provider")
message pong = none
message swagger = some (auth_service, cmd "api")
message change_status_provider = some (manager_service, cmd "change-status-provider")
message create_presigned_url = some (media_service, cmd "images/upload/presigned-url")

-- `@MessagePattern` of the services' controllers.
abbrev pub patterns : Service → List Pattern
patterns auth_service =
    cmd "register"
    ∷ cmd "otp"
    ∷ cmd "login"
    ∷ cmd "refresh-token"
    ∷ cmd "logout"
    ∷ cmd "forgot-password"
    ∷ cmd "google-link"
    ∷ cmd "google/callback"
    ∷ cmd "register-provider"
    ∷ []
patterns manager_service = cmd "change-status-provider" ∷ []
patterns media_service = plain "images/upload/presigned-url" ∷ []

-- Whether some handler of the service answers the message of a route.
unfoldable pub answered : Route → Bool
answered r = elim (message r) [
  | none ↦ true
  | some (service, pattern) ↦ any (λ x. same_pattern pattern x) (patterns service)
]
