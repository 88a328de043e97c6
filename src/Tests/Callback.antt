-- ===== src/Tests/Callback.antt =====
-- The callback of Google for an address that nobody has, and for one that a user has.
use capstone_home_care_be_mi.Common.{◌≡◌, refl, ◌===◌, if◌then◌else◌, some, none}
use capstone_home_care_be_mi.Errors.{ok, err, failure}
use capstone_home_care_be_mi.World.{promise_all}
use capstone_home_care_be_mi.Services.{
  sign_access_token, sign_refresh_token, verify_refresh_token, hash,
}
use capstone_home_care_be_mi.Repos.{
  include_all, find_user, insert_user, create_user_include_role, create_refresh_token,
  create_device, find_unique_user_include_role, get_role, remembered_role, get_customer_role_id,
}
use capstone_home_care_be_mi.Auth.{Tokens, generate_tokens}
use capstone_home_care_be_mi.Auth.Google.{
  GoogleClient, found_or_created, open_session, google_callback,
}
use capstone_home_care_be_mi.Auth.Google.Accounts.{IsGoogleLogin, google_callback-IsGoogleLogin}
use capstone_home_care_be_mi.Tests.Sample.{sample, sample-SoundTables, sample-SelectsRoles}
use capstone_home_care_be_mi.Tests.Cases.{before}

abbrev client : GoogleClient
client = record {
  print_state = λ s. "ok";
  generate_auth_url = λ options. options.state;
  parse_state = λ s.
      if s === "ok"
      then ok (record { user_agent = "ua"; ip = "ip" })
      else err (failure "SyntaxError");
  get_token = λ t code. ok code;
  user_info = λ t token. ok (record { email = some token; name = some "Zoe"; picture = none });
}

abbrev issued : Tokens
issued = record { access_token = "***********"; refresh_token = "*************" }

callback-zoe :
    google_callback ⦃p = sample⦄ client "zoe@x" (some "ok") before
    ≡ (ok issued, (google_callback ⦃p = sample⦄ client "zoe@x" (some "ok") before).1)
unfolding google_callback found_or_created open_session find_unique_user_include_role find_user
    include_all get_customer_role_id get_role remembered_role hash create_user_include_role
    insert_user create_device generate_tokens promise_all sign_access_token sign_refresh_token
    verify_refresh_token create_refresh_token
callback-zoe = refl

google_callback-IsGoogleLogin_example :
    IsGoogleLogin ⦃p = sample⦄ client "zoe@x"
      (some "ok")
      before
      (google_callback ⦃p = sample⦄ client "zoe@x" (some "ok") before).1
      issued
google_callback-IsGoogleLogin_example =
    google_callback-IsGoogleLogin ⦃p = sample⦄ sample-SoundTables sample-SelectsRoles before client
      "zoe@x" (some "ok") issued callback-zoe
