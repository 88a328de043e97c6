-- ===== src/Auth/Rotation.antt =====
-- `refreshToken`: how a refresh token is exchanged.
use capstone_home_care_be_mi.Common.{◌+◌, ◌≡◌, ◌≢◌, refl, none, arith}
use capstone_home_care_be_mi.Errors.{Error, ok}
use capstone_home_care_be_mi.Platform.{Platform}
use capstone_home_care_be_mi.Platform.Sound.{SoundTables}
use capstone_home_care_be_mi.World.{World, promise_all_three}
use capstone_home_care_be_mi.World.Laws.{step-ok, found-ok, catch-ok}
use capstone_home_care_be_mi.Services.{verify_refresh_token}
use capstone_home_care_be_mi.Repos.{find_unique_refresh_token_include_user_role}
use capstone_home_care_be_mi.Repos.FindLaws.{find_token_include-some}
use capstone_home_care_be_mi.Auth.Bodies.{Tokens, RefreshTokenBody}
use capstone_home_care_be_mi.Auth.Service.{refresh_error, try_refresh_token, refresh_token}
use capstone_home_care_be_mi.Auth.Rotated.{IsRotated, IsRotated-of_tables}
use capstone_home_care_be_mi.Auth.Orders.{IsRotated-of_three}

never_ok : {A : Type 0} (e : Error) (a : A) (v : World) → (refresh_error {A = A} e v).0 ≢ ok a
never_ok e a v = ground arith

module _ ⦃p : Platform⦄ (s : SoundTables p) (w : World) where
  pub refresh_token-IsRotated :
      (body : RefreshTokenBody) (tokens : Tokens) {w' : World}
      → refresh_token body w ≡ (ok tokens, w')
      → tokens.refresh_token ≢ body.refresh_token
      → IsRotated body w w' tokens
  unfolding refresh_token try_refresh_token verify_refresh_token
  refresh_token-IsRotated body tokens {w'} h other =
      let run =
        catch-ok (try_refresh_token body) refresh_error w tokens w' (λ e v. never_ok e tokens v)
          h in
      let (decoded, e₁, h₁) = step-ok (verify_refresh_token body.refresh_token w) run in
      let (o, e₂, h₂) =
        step-ok (find_unique_refresh_token_include_user_role body.refresh_token _) h₁ in
      let (full, e₃, h₃) = found-ok o _ _ _ h₂ in
      let (triple, e₄, h₄) = step-ok (promise_all_three p _ _ _ _) h₃ in
      let v =
        (find_unique_refresh_token_include_user_role body.refresh_token
          (record w { tick = w.tick + 1 })).1 in
      let (held_token, mem, q₂) =
        find_token_include-some s (record w { tick = w.tick + 1 }) body.refresh_token full {w' = v}
          (ground arith) in
      let same_tokens : w.tokens ≡ v.tokens = ground arith in
      IsRotated-of_tables body w v w' tokens v.tick (ground arith) (
        IsRotated-of_three s v body full.row
          (record {
            user_id = decoded.user_id;
            device_id = full.device_id;
            roles = full.roles;
            provider_id = none;
            staff_provider_id = none;
          })
          triple.0 triple.1.0 tokens (ground arith) other (rw same_tokens at mem) held_token refl
          refl refl)
