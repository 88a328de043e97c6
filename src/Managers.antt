-- ===== src/Managers.antt =====
-- apps/manager/src: managers.service.ts and managers.repo.ts.
pub mod Status
use capstone_home_care_be_mi.Common.{
  ℕ, ◌+◌, ◌≡◌, ◌⊎◌, inl, inr, refl, Bool, true, false, not, Option, none, some, List, map, Memᴰ,
  count, ◌==◌, if◌then◌else◌, arith, Bool-cases,
}
use capstone_home_care_be_mi.Data.{
  ServiceProvider, VerificationStatus, verified, pending, rejected, same_status,
}
use capstone_home_care_be_mi.Errors.{
  Result, ok, err, manager, service_provider_not_found, same_verification_status,
}
use capstone_home_care_be_mi.Platform.{Platform, find_cases}
use capstone_home_care_be_mi.Platform.Sound.{SoundTables, LiveTables}
use capstone_home_care_be_mi.World.{World, Action, pure, throw, throw_if, write, ◌>>=◌, ◌>>◌}
use capstone_home_care_be_mi.Services.{new_date}
use capstone_home_care_be_mi.Repos.{find_unique_provider}

-- `UpdateStatusProviderBody`
pub record UpdateStatusProviderBody : Type 0 where
  pub id : ℕ
  pub verification_status : VerificationStatus

-- The `data` of the update. An `undefined` user leaves the column as it is.
abbrev pub set_verification : VerificationStatus → Option ℕ → ℕ → ServiceProvider → ServiceProvider
set_verification verified none now s = record s {
  verification_status = verified;
  verified_at = some now;
}
set_verification verified (some user) now s = record s {
  verification_status = verified;
  verified_by_id = some user;
  verified_at = some now;
}
set_verification status user now s = record s {
  verification_status = status;
  verified_by_id = none;
  verified_at = none;
}

module _ ⦃p : Platform⦄ where
  -- `VERIFIED` alone reads the clock
  abbrev pub time_of : VerificationStatus → Action ℕ
  time_of verified = new_date
  time_of _ = pure 0

  unfoldable pub accept_provider : UpdateStatusProviderBody → Option ℕ → Action (Unit {0})
  accept_provider body user_id = do
    now ← time_of body.verification_status
    write (λ w rows. record w { providers = rows })
        (λ w.
          p.providers.update w.tick (λ s. s.id == body.id)
            (set_verification body.verification_status user_id now) w.providers)
    pure tt

  unfoldable pub update_provider_status : UpdateStatusProviderBody → Option ℕ → Action (Unit {0})
  update_provider_status body user_id = do
    found ← find_unique_provider body.id
    elim found [
      | none ↦ throw (manager service_provider_not_found)
      | some provider ↦ do
        throw_if (same_status provider.verification_status body.verification_status)
            (manager same_verification_status)
        accept_provider body user_id
    ]
