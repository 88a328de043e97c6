-- ===== src/Gateway/Redirect.antt =====
-- `googleCallback` of apps/gateway/src/auth.gateway.controller.ts: the page that the browser is sent to.
use Prim.Native.String.{◌++◌}
use capstone_home_care_be_mi.Common.{String, Option, some, none}
use capstone_home_care_be_mi.Auth.{Tokens}

-- What `send` answers: the tokens, or what it is rejected with, by its message where it is an `Error`.
pub data CallbackAnswer : Type 0 where
  answered : Tokens → CallbackAnswer
  rejected : Option String → CallbackAnswer

abbrev pub login_failed : String
login_failed = "Đã xảy ra lỗi khi đăng nhập bằng Google, vui lòng thử lại."

-- `uri` is GOOGLE_CLIENT_REDIRECT_URI.
unfoldable pub redirect : String → CallbackAnswer → String
redirect uri (answered tokens) =
    uri ++ ("?accessToken=" ++ (tokens.access_token ++ ("&refreshToken=" ++ tokens.refresh_token)))
redirect uri (rejected none) = uri ++ ("?errorMessage=" ++ login_failed)
redirect uri (rejected (some message)) = uri ++ ("?errorMessage=" ++ message)
