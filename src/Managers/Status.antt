-- ===== src/Managers/Status.antt =====
-- `updateProviderStatus`: each of its branches.
use capstone_home_care_be_mi.Common.{
  ℕ, count-mem, ◌+◌, ◌≡◌, ◌≢◌, ◌⊎◌, inl, inr, refl, ap, ◌∙◌, true, false, Option, none, some, map,
  Memᴰ, count, ◌==◌, if◌then◌else◌, arith, Bool-cases,
}
use std.Path.{fun_ext}
use capstone_home_care_be_mi.Data.{
  ServiceProvider, VerificationStatus, verified, pending, rejected, same_status,
}
use capstone_home_care_be_mi.Errors.{
  ok, err, manager, service_provider_not_found, same_verification_status,
}
use capstone_home_care_be_mi.Platform.{Platform, find_cases}
use capstone_home_care_be_mi.Platform.Sound.{SoundTables, LiveTables}
use capstone_home_care_be_mi.World.{World}
use capstone_home_care_be_mi.Repos.{find_unique_provider}
use capstone_home_care_be_mi.Managers.{
  UpdateStatusProviderBody, set_verification, time_of, accept_provider, update_provider_status,
}

-- Who has verified a provider after a decision: for VERIFIED the user, where there is one, or else
-- who it was before; for another status nobody.
abbrev pub verifier_left : VerificationStatus → Option ℕ → Option ℕ → Option ℕ
verifier_left verified none before = before
verifier_left verified (some user) before = some user
verifier_left pending user before = none
verifier_left rejected user before = none

-- When a provider was verified, after a decision at that time.
abbrev pub time_left : VerificationStatus → ℕ → Option ℕ
time_left verified now = some now
time_left pending now = none
time_left rejected now = none

abbrev pub decided : VerificationStatus → Option ℕ → ℕ → ServiceProvider → ServiceProvider
decided status user now s = record s {
  verification_status = status;
  verified_by_id = verifier_left status user s.verified_by_id;
  verified_at = time_left status now;
}

-- The row of the provider is rewritten, by the clock at some call, and no other.
abbrev pub IsChanged : ⦃p : Platform⦄ → UpdateStatusProviderBody → Option ℕ → World → World → Type 0
IsChanged ⦃p⦄ body user w w' =
    (t : ℕ) × (w'.providers
      ≡ map
          (λ s. if s.id == body.id then decided body.verification_status user (p.clock t) s else s)
          w.providers)

module _ ⦃p : Platform⦄ (w : World) where
  -- What is written is the decision, by the clock before the update.
  time_of-reads :
      (status : VerificationStatus) (user : Option ℕ)
      → (now : ℕ) × (t : ℕ) × (time_of status w ≡ (ok now, record w { tick = t }))
        × ((s : ServiceProvider)
            → set_verification status user now s ≡ decided status user (p.clock w.tick) s)
  time_of-reads verified none = (p.clock w.tick, w.tick + 1, refl, λ s. refl)
  time_of-reads verified (some user) = (p.clock w.tick, w.tick + 1, refl, λ s. refl)
  time_of-reads pending user = (0, w.tick, refl, λ s. refl)
  time_of-reads rejected user = (0, w.tick, refl, λ s. refl)

module _ ⦃p : Platform⦄ (s : SoundTables p) (live : LiveTables p) (w : World) where
  accept_provider-ok :
      (body : UpdateStatusProviderBody) (user : Option ℕ) (x : ServiceProvider)
      → Memᴰ x w.providers
      → x.id ≡ body.id
      → (accept_provider body user w).0 ≡ ok tt
        × IsChanged body user w (accept_provider body user w).1
  unfolding accept_provider
  accept_provider-ok body user x mem same =
      let (now, t, e, decides) = time_of-reads w body.verification_status user in
      let test = λ (y : ServiceProvider). y.id == body.id in
      let change = set_verification body.verification_status user now in
      let some_row : count test w.providers ≢ 0 =
        λ none_there. let never = count-mem test w.providers none_there mem in ground arith in
      let (a, q) = live.providers.update-live t test change w.providers some_row in
      let (left, _) = s.providers.update-ok t test change w.providers a.0 a.1 q in
      let same_rows : map (λ y. if test y then change y else y) w.providers
          ≡ map
              (λ y. if test y then decided body.verification_status user (p.clock w.tick) y else y)
              w.providers =
        ap
          (λ (g : ServiceProvider → ServiceProvider).
            map (λ y. if test y then g y else y) w.providers)
          (fun_ext decides) in
      let written : (accept_provider body user w).1.providers
          ≡ map (λ y. if test y then change y else y) w.providers =
        ground arith in
      (ground arith, (w.tick, written ∙ same_rows))

module _ ⦃p : Platform⦄ (s : SoundTables p) (live : LiveTables p) (w : World) where
  pub update_provider_status-cases :
      (body : UpdateStatusProviderBody) (user : Option ℕ)
      → let run = update_provider_status body user w in
        ((run.0 ≡ err (manager service_provider_not_found))
          × (count (λ s. s.id == body.id) w.providers ≡ 0)
          × (run.1.providers ≡ w.providers))
        ⊎ ((x : ServiceProvider) × (x.id ≡ body.id)
            × Memᴰ x w.providers
            × (((run.0 ≡ err (manager same_verification_status))
                  × (same_status x.verification_status body.verification_status ≡ true)
                  × (run.1.providers ≡ w.providers))
                ⊎ ((run.0 ≡ ok tt)
                    × (same_status x.verification_status body.verification_status ≡ false)
                    × IsChanged body user w run.1)))
  unfolding update_provider_status find_unique_provider
  update_provider_status-cases body user =
      elim (find_cases s.providers live.providers w.tick (λ x. x.id == body.id) w.providers) [
        | inl (e, gone) ↦ inl (ground arith, gone, ground arith)
        | inr (x, e, hit, mem) ↦
            elim (Bool-cases (same_status x.verification_status body.verification_status)) [
              | inl same ↦ inr (x, ground arith, mem, inl (ground arith, same, ground arith))
              | inr other ↦
                  let (done, (t, left)) =
                    accept_provider-ok s live (record w { tick = w.tick + 1 }) body user x mem
                      (ground arith) in
                  inr (x, ground arith, mem, inr (ground arith, other, (t, ground arith)))
            ]
      ]
