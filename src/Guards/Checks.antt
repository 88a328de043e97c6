-- ===== src/Guards/Checks.antt =====
-- The request that a guard sees, and the guards that look at nothing but the request, the
-- configuration and one table: api-key.guard.ts, verified-provider.guard.ts and the two loops of
-- authentication.guard.ts.
use capstone_home_care_be_mi.Common.{
  String, Bool, true, false, Option, some, none, List, [], ◌∷◌, split, second, is_text, non_zero,
  ◌===◌, if◌then◌else◌,
}
use capstone_home_care_be_mi.Data.{HttpMethod}
use capstone_home_care_be_mi.Errors.{
  Error, Result, ok, err, forbidden, failure, plain_unauthorized, is_http_exception,
}
use capstone_home_care_be_mi.Platform.{Platform, AccessTokenPayload}
use capstone_home_care_be_mi.World.{World}
use capstone_home_care_be_mi.Repos.{find_unique_provider}

pub record Request : Type 0 where
  -- the names as Node has them, with the values
  pub headers : List (String × String)
  pub path : String
  pub method : HttpMethod
  -- `request[REQUEST_USER_KEY]`
  pub user : Option AccessTokenPayload

pub record Context : Type 0 where
  pub request : Request
  pub world : World

abbrev pub Guard : Type 0
Guard = Context → Result Bool × Context

-- `headers[name]`
abbrev pub header : String → List (String × String) → Option String
header name [] = none
header name ((key, value) ∷ rest) = if key === name then some value else header name rest

-- `headers[name]?.split(' ')[1]`
unfoldable pub second_word : String → Request → Option String
second_word name r = elim (header name r.headers) [ none ↦ none | some s ↦ second (split 32 s) ]

-- What a loop throws for an error that it caught.
abbrev pub as_http : Error → Error
as_http e = if is_http_exception e then e else plain_unauthorized

abbrev pub last_http : Option Error → Error
last_http none = plain_unauthorized
last_http (some e) = as_http e

-- The loop of `handleAndCondition`.
unfoldable pub handle_and_condition : List Guard → Guard
handle_and_condition [] c = (ok true, c)
handle_and_condition (g ∷ gs) c = elim (g c).0 [
  | ok true ↦ handle_and_condition gs (g c).1
  | ok false ↦ (err plain_unauthorized, (g c).1)
  | err e ↦ (err (as_http e), (g c).1)
]

-- The loop of `handleOrCondition`; `last` is `lastError`.
unfoldable pub handle_or_condition : Option Error → List Guard → Guard
handle_or_condition last [] c = (err (last_http last), c)
handle_or_condition last (g ∷ gs) c = elim (g c).0 [
  | ok true ↦ (ok true, (g c).1)
  | ok false ↦ handle_or_condition last gs (g c).1
  | err e ↦ handle_or_condition (some e) gs (g c).1
]

module _ ⦃p : Platform⦄ where
  unfoldable pub payment_api_key_guard : Guard
  payment_api_key_guard c =
      if is_text (second_word "Authorization" c.request) (p.config "PAYMENT_API_KEY")
      then (ok true, c)
      else (err plain_unauthorized, c)

  -- A status is a text that is not empty, so that `!provider.verificationStatus` never holds.
  unfoldable pub verified_provider_guard : Guard
  verified_provider_guard c = elim c.request.user [
    | none ↦ (err (failure "TypeError"), c)
    | some user ↦ elim (non_zero user.provider_id) [
      | none ↦ (err (forbidden "Missing provider identifier"), c)
      | some id ↦
          let (r, w) = find_unique_provider id c.world in
          elim r [
            | err e ↦ (err e, record c { world = w })
            | ok none ↦ (err (forbidden "ServiceProvider not found"), record c { world = w })
            | ok (some provider) ↦ (ok true, record c { world = w })
          ]
    ]
  ]
