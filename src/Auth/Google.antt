-- ===== src/Auth/Google.antt =====
-- apps/auth/src/google.service.ts over the client of Google as a parameter.
pub mod Accounts
use capstone_home_care_be_mi.Common.{
  String, Option, none, some, List, [], ◌∷◌, Bool, true, ◌≡◌, ◌≢◌, non_empty, ◌===◌, if◌then◌else◌,
  arith, eq_iff,
}
use capstone_home_care_be_mi.Errors.{Error, Result, ok, err, rpc, google_user_info_error}
use capstone_home_care_be_mi.Common.{ℕ}
use capstone_home_care_be_mi.Platform.{Platform}
use capstone_home_care_be_mi.World.{Action, pure, throw, sample, call, ◌>>=◌, ◌>>◌}
use capstone_home_care_be_mi.Services.{hash}
use capstone_home_care_be_mi.Repos.{
  UserIncludeRole, create_user_include_role, create_device, find_unique_user_include_role,
  get_customer_role_id,
}
use capstone_home_care_be_mi.Auth.Bodies.{Tokens}
use capstone_home_care_be_mi.Auth.Service.{generate_tokens}

-- `GoogleAuthStateType`
pub record GoogleAuthState : Type 0 where
  pub user_agent : String
  pub ip : String

-- The `data` of `oauth2.userinfo.get()`.
pub record UserInfo : Type 0 where
  pub email : Option String
  pub name : Option String
  pub picture : Option String

-- The argument of `generateAuthUrl`.
pub record AuthUrlOptions : Type 0 where
  pub access_type : String
  pub scope : List String
  pub include_granted_scopes : Bool
  pub state : String

pub record GoogleClient : Type 0 where
  -- `Buffer.from(JSON.stringify(state)).toString('base64')`
  pub print_state : GoogleAuthState → String
  -- `generateAuthUrl(options)`
  pub generate_auth_url : AuthUrlOptions → String
  -- `JSON.parse(Buffer.from(state, 'base64').toString())`, which may throw
  pub parse_state : String → Result GoogleAuthState
  -- `getToken({ code })`: the credentials
  pub get_token : ℕ → String → Result String
  -- `userinfo.get()` under the credentials set before
  pub user_info : ℕ → String → Result UserInfo

abbrev pub unknown_client : GoogleAuthState
unknown_client = record { user_agent = "Unknown"; ip = "Unknown" }

abbrev pub or_empty : Option String → String
or_empty none = ""
or_empty (some s) = s

-- The inner `try`: what cannot be read leaves the client unknown.
abbrev pub client_of : GoogleClient → Option String → GoogleAuthState
client_of g state = elim (non_empty state) [
  | none ↦ unknown_client
  | some s ↦ elim (g.parse_state s) [ ok client ↦ client | err e ↦ unknown_client ]
]

abbrev pub auth_url_options : GoogleClient → GoogleAuthState → AuthUrlOptions
auth_url_options g client = record {
  access_type = "offline";
  scope =
      "https://www.googleapis.com/auth/userinfo.profile"
      ∷ "https://www.googleapis.com/auth/userinfo.email" ∷ [];
  include_granted_scopes = true;
  state = g.print_state client;
}

-- The `url` that `getAuthorizationUrl` returns.
unfoldable pub get_authorization_url : GoogleClient → GoogleAuthState → String
get_authorization_url g client = g.generate_auth_url (auth_url_options g client)

-- A state that was printed is not empty, and is parsed back.
pub record SoundState (g : GoogleClient) : Type 0 where
  pub state-ne-empty : (client : GoogleAuthState) → g.print_state client ≢ ""
  pub parse-print : (client : GoogleAuthState) → g.parse_state (g.print_state client) ≡ ok client

-- The state of the address that a client was given says who the client was.
pub client_of-auth_url_options :
    (g : GoogleClient)
    → SoundState g
    → (client : GoogleAuthState) → client_of g (some (auth_url_options g client).state) ≡ client
client_of-auth_url_options g sound client =
    let filled = sound.state-ne-empty client in
    let parsed = sound.parse-print client in
    ground (arith, filled, parsed, eq_iff (g.print_state client) "")

module _ ⦃p : Platform⦄ where
  -- The part of the callback under `if (!user)`.
  unfoldable pub found_or_created :
      String → UserInfo → Option UserIncludeRole → Action UserIncludeRole
  found_or_created email info (some user) = pure user
  found_or_created email info none = do
    client_role_id ← get_customer_role_id
    random_password ← sample p.uuid
    hashed_password ← hash random_password
    create_user_include_role (record {
      email = email;
      name = or_empty info.name;
      password = hashed_password;
      role_ids = client_role_id.id ∷ [];
      phone = "";
      avatar = info.picture;
    })

  -- The session of a user who is known.
  unfoldable pub open_session : GoogleAuthState → UserIncludeRole → Action Tokens
  open_session client user = do
    device ← create_device (record {
      user_id = user.id;
      user_agent = client.user_agent;
      ip = client.ip;
      is_active = none;
      last_active = none;
    })
    generate_tokens (record {
      user_id = user.id;
      device_id = device.id;
      roles = user.roles;
      provider_id = none;
      staff_provider_id = none;
    })

  unfoldable pub google_callback : GoogleClient → String → Option String → Action Tokens
  google_callback g code state = do
    tokens ← call (λ t. g.get_token t code)
    info ← call (λ t. g.user_info t tokens)
    elim (non_empty info.email) [
      | none ↦ throw (rpc google_user_info_error)
      | some email ↦ do
        found ← find_unique_user_include_role email
        user ← found_or_created email info found
        open_session (client_of g state) user
    ]
