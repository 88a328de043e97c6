-- ===== src/Tests/Sessions.antt =====
-- When sessions are made, exchanged and closed, at concrete requests. The platform signs one and the
-- same text, which no stored token is.
use capstone_home_care_be_mi.Common.{ℕ, ◌≡◌, inl, refl, true, Memᴰ, arith}
use mathlib.Core.List.Memᴰ.{not-nil}
use capstone_home_care_be_mi.Data.{User}
use capstone_home_care_be_mi.Errors.{ok}
use capstone_home_care_be_mi.Platform.{Platform}
use capstone_home_care_be_mi.Platform.Sound.{SoundTables, LiveTables, LiveReads}
use capstone_home_care_be_mi.World.{World}
use capstone_home_care_be_mi.Services.{verify_refresh_token}
use capstone_home_care_be_mi.Auth.{Tokens, login, logout}
use capstone_home_care_be_mi.Auth.Recovery.{has_email}
use capstone_home_care_be_mi.Auth.Issuing.{VerifiesFresh, SignsNew}
use capstone_home_care_be_mi.Auth.Returning.{FactorReady, login_returns}
use capstone_home_care_be_mi.Auth.Closing.{IsClosed, logout-login}
use capstone_home_care_be_mi.Tests.Sample.{sample, sample-SoundTables, sample-LiveTables, payload}
use capstone_home_care_be_mi.Tests.Cases.{before}
use capstone_home_care_be_mi.Tests.Accounts.{login_body, issued, login-ann}

abbrev signer : Platform
signer = record sample { sign = λ t d uuid options. "fresh" }

signer-SoundTables : SoundTables signer
signer-SoundTables = record {
  users = sample-SoundTables.users;
  profiles = sample-SoundTables.profiles;
  devices = sample-SoundTables.devices;
  tokens = sample-SoundTables.tokens;
  codes = sample-SoundTables.codes;
  providers = sample-SoundTables.providers;
}

signer-LiveTables : LiveTables signer
signer-LiveTables = record {
  users = sample-LiveTables.users;
  profiles = sample-LiveTables.profiles;
  devices = sample-LiveTables.devices;
  tokens = sample-LiveTables.tokens;
  codes = sample-LiveTables.codes;
  providers = sample-LiveTables.providers;
}

signer-LiveReads : LiveReads signer
signer-LiveReads = record { roles = λ t test rows. (_, refl); staff = λ t test rows. (_, refl) }

signer-VerifiesFresh : VerifiesFresh ⦃p = signer⦄
signer-VerifiesFresh t u d uuid _ _ = (payload, refl)

signs_new : SignsNew ⦃p = signer⦄ before
signs_new t u d h later = refl

ann_ready :
    (u : User)
    → Memᴰ u before.users
    → has_email login_body.email u ≡ true
    → ((t : ℕ) → signer.compare t login_body.password u.password ≡ ok true)
      × FactorReady ⦃p = signer⦄ u login_body
ann_ready u (Memᴰ.head e) known = rw e (λ t. refl, inl refl)
ann_ready u (Memᴰ.tail m) known = absurd (not-nil m)

login_returns_example : (tokens : Tokens) × ((login ⦃p = signer⦄ login_body before).0 ≡ ok tokens)
login_returns_example =
    login_returns ⦃p = signer⦄ signer-SoundTables signer-LiveTables signer-LiveReads
      signer-VerifiesFresh before signs_new login_body (λ e. ground arith) ann_ready

abbrev opened : World
opened = (login ⦃p = sample⦄ login_body before).1

issued_says : (verify_refresh_token ⦃p = sample⦄ issued.refresh_token opened).0 ≡ ok payload
unfolding verify_refresh_token
issued_says = refl

logout-login_example :
    ((logout ⦃p = sample⦄ issued.refresh_token opened).0 ≡ ok tt)
    × IsClosed login_body before (logout ⦃p = sample⦄ issued.refresh_token opened).1
logout-login_example =
    logout-login ⦃p = sample⦄ sample-SoundTables sample-LiveTables before login_body issued payload
      login-ann issued_says
