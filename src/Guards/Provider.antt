-- ===== src/Guards/Provider.antt =====
-- `VerifiedProviderGuard`: which users pass it.
use capstone_home_care_be_mi.Common.{
  ℕ, ◌≡◌, ◌≢◌, ◌↔◌, true, some, Memᴰ, ◌==◌, arith, inl, inr, count-mem,
}
use capstone_home_care_be_mi.Data.{ServiceProvider}
use capstone_home_care_be_mi.Errors.{ok}
use capstone_home_care_be_mi.Platform.{Platform, AccessTokenPayload, find_cases}
use capstone_home_care_be_mi.Platform.Sound.{SoundTables, LiveTables}
use capstone_home_care_be_mi.Repos.{find_unique_provider}
use capstone_home_care_be_mi.Guards.{Context, verified_provider_guard}

module _ ⦃p : Platform⦄ (s : SoundTables p) (live : LiveTables p) where
  -- Given sound and live tables: a user whose token carries a provider id other than 0 passes
  -- VerifiedProviderGuard just where a provider of that id is stored, whatever its verification
  -- status.
  pub verified_provider_guard_iff :
      (c : Context) (user : AccessTokenPayload) (id : ℕ)
      → c.request.user ≡ some user
      → user.provider_id ≡ some id
      → id ≢ 0
      → (verified_provider_guard c).0 ≡ ok true
        ↔ ((x : ServiceProvider) × (x.id ≡ id) × Memᴰ x c.world.providers)
  unfolding verified_provider_guard find_unique_provider
  verified_provider_guard_iff c user id e₁ e₂ nz =
      let w = c.world in
      elim (find_cases s.providers live.providers w.tick (λ x. x.id == id) w.providers) [
        | inl (e, gone) ↦ (
          (λ h. absurd (ground arith)),
          λ (x, same, mem).
              (let never = count-mem (λ (x : ServiceProvider). x.id == id) w.providers gone mem in
                absurd (ground arith)),
        )
        | inr (x, e, hit, mem) ↦ ((λ h. (x, ground arith, mem)), (λ h. ground arith))
      ]
