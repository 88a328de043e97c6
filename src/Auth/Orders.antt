-- ===== src/Auth/Orders.antt =====
-- The three promises of `refreshToken`, in each of their six orders.
use capstone_home_care_be_mi.Common.{◌≡◌, ◌≢◌, none, Memᴰ, arith, inl, inr}
use capstone_home_care_be_mi.Data.{RefreshToken, Device}
use capstone_home_care_be_mi.Errors.{ok}
use capstone_home_care_be_mi.Platform.{Platform, AccessTokenPayloadCreate}
use capstone_home_care_be_mi.Platform.Sound.{SoundTables}
use capstone_home_care_be_mi.World.{World, promise_all, promise_all_three}
use capstone_home_care_be_mi.World.Laws.{promise_all-ok, promise_all_three-ok}
use capstone_home_care_be_mi.Repos.{from_client, update_device, delete_refresh_token}
use capstone_home_care_be_mi.Repos.Laws.{update_device-ok, delete_refresh_token-ok}
use capstone_home_care_be_mi.Auth.Bodies.{Tokens, RefreshTokenBody}
use capstone_home_care_be_mi.Auth.Service.{generate_tokens}
use capstone_home_care_be_mi.Auth.Sessions.{generate_tokens-IsIssued}
use capstone_home_care_be_mi.Auth.Rotated.{
  seen_at-left, IsRotated, IsRotated-delete_first, IsRotated-make_first,
}

module _ ⦃p : Platform⦄ (s : SoundTables p) (w : World) where
  -- The deletion before or after both others, in whichever order.
  IsRotated-apart :
      (body : RefreshTokenBody) (held : RefreshToken) (payload : AccessTokenPayloadCreate)
      (d : Device) (r : RefreshToken) (tokens : Tokens) {w' : World}
      → promise_all p
          (delete_refresh_token body.refresh_token)
          (promise_all p
            (update_device held.device_id (from_client body.ip body.user_agent))
            (generate_tokens payload))
          w
        ≡ (ok (r, (d, tokens)), w')
      → tokens.refresh_token ≢ body.refresh_token
      → Memᴰ held w.tokens
      → held.token ≡ body.refresh_token
      → payload.device_id ≡ held.device_id
      → payload.provider_id ≡ none
      → payload.staff_provider_id ≡ none
      → IsRotated body w w' tokens
  IsRotated-apart body held payload d r tokens {w'} h other mem held_token device no_provider
        no_staff =
      let old = body.refresh_token in
      let delete = delete_refresh_token old in
      let update = update_device held.device_id (from_client body.ip body.user_agent) in
      let make = generate_tokens payload in
      elim (promise_all-ok p delete (promise_all p update make) w r (d, tokens) w' h) [
        | inl (a, e₁, e₂) ↦
            let (_, _, q₁) = delete_refresh_token-ok s w old r e₁ in
            elim (promise_all-ok p update make a d tokens w' e₂) [
              | inl (b, e₃, e₄) ↦
                  let q₃ = update_device-ok s a held.device_id _ d e₃ in
                  let i = generate_tokens-IsIssued s b payload tokens e₄ in
                  let q₄ = i.left in
                  IsRotated-delete_first w w' body held payload tokens mem held_token device
                    no_provider no_staff (p.clock a.tick)
                    (seen_at-left w w' body held.device_id (p.clock a.tick) (ground arith))
                    (ground arith) (ground arith) b w' i (ground arith) (ground arith)
              | inr (b, e₃, e₄) ↦
                  let i = generate_tokens-IsIssued s a payload tokens e₃ in
                  let q₃ = i.left in
                  let q₄ = update_device-ok s b held.device_id _ d e₄ in
                  IsRotated-delete_first w w' body held payload tokens mem held_token device
                    no_provider no_staff (p.clock b.tick)
                    (seen_at-left w w' body held.device_id (p.clock b.tick) (ground arith))
                    (ground arith) (ground arith) a b i (ground arith) (ground arith)
            ]
        | inr (b, e₁, e₂) ↦
            let (_, _, q₂) = delete_refresh_token-ok s b old r e₂ in
            elim (promise_all-ok p update make w d tokens b e₁) [
              | inl (a, e₃, e₄) ↦
                  let q₃ = update_device-ok s w held.device_id _ d e₃ in
                  let i = generate_tokens-IsIssued s a payload tokens e₄ in
                  let q₄ = i.left in
                  IsRotated-make_first w w' body held payload tokens mem held_token device
                    no_provider no_staff (p.clock w.tick)
                    (seen_at-left w w' body held.device_id (p.clock w.tick) (ground arith))
                    (ground arith) (ground arith) a b i other (ground arith) (ground arith)
              | inr (a, e₃, e₄) ↦
                  let i = generate_tokens-IsIssued s w payload tokens e₃ in
                  let q₃ = i.left in
                  let q₄ = update_device-ok s a held.device_id _ d e₄ in
                  IsRotated-make_first w w' body held payload tokens mem held_token device
                    no_provider no_staff (p.clock a.tick)
                    (seen_at-left w w' body held.device_id (p.clock a.tick) (ground arith))
                    (ground arith) (ground arith) w a i other (ground arith) (ground arith)
            ]
      ]

  -- The update before or after both others, in whichever order.
  IsRotated-outside :
      (body : RefreshTokenBody) (held : RefreshToken) (payload : AccessTokenPayloadCreate)
      (d : Device) (r : RefreshToken) (tokens : Tokens) {w' : World}
      → promise_all p
          (update_device held.device_id (from_client body.ip body.user_agent))
          (promise_all p (delete_refresh_token body.refresh_token) (generate_tokens payload))
          w
        ≡ (ok (d, (r, tokens)), w')
      → tokens.refresh_token ≢ body.refresh_token
      → Memᴰ held w.tokens
      → held.token ≡ body.refresh_token
      → payload.device_id ≡ held.device_id
      → payload.provider_id ≡ none
      → payload.staff_provider_id ≡ none
      → IsRotated body w w' tokens
  IsRotated-outside body held payload d r tokens {w'} h other mem held_token device no_provider
        no_staff =
      let old = body.refresh_token in
      let delete = delete_refresh_token old in
      let update = update_device held.device_id (from_client body.ip body.user_agent) in
      let make = generate_tokens payload in
      elim (promise_all-ok p update (promise_all p delete make) w d (r, tokens) w' h) [
        | inl (a, e₁, e₂) ↦
            let q₁ = update_device-ok s w held.device_id _ d e₁ in
            elim (promise_all-ok p delete make a r tokens w' e₂) [
              | inl (b, e₃, e₄) ↦
                  let (_, _, q₃) = delete_refresh_token-ok s a old r e₃ in
                  let i = generate_tokens-IsIssued s b payload tokens e₄ in
                  let q₄ = i.left in
                  IsRotated-delete_first w w' body held payload tokens mem held_token device
                    no_provider no_staff (p.clock w.tick)
                    (seen_at-left w w' body held.device_id (p.clock w.tick) (ground arith))
                    (ground arith) (ground arith) b w' i (ground arith) (ground arith)
              | inr (b, e₃, e₄) ↦
                  let i = generate_tokens-IsIssued s a payload tokens e₃ in
                  let q₃ = i.left in
                  let (_, _, q₄) = delete_refresh_token-ok s b old r e₄ in
                  IsRotated-make_first w w' body held payload tokens mem held_token device
                    no_provider no_staff (p.clock w.tick)
                    (seen_at-left w w' body held.device_id (p.clock w.tick) (ground arith))
                    (ground arith) (ground arith) a b i other (ground arith) (ground arith)
            ]
        | inr (b, e₁, e₂) ↦
            let q₂ = update_device-ok s b held.device_id _ d e₂ in
            elim (promise_all-ok p delete make w r tokens b e₁) [
              | inl (a, e₃, e₄) ↦
                  let (_, _, q₃) = delete_refresh_token-ok s w old r e₃ in
                  let i = generate_tokens-IsIssued s a payload tokens e₄ in
                  let q₄ = i.left in
                  IsRotated-delete_first w w' body held payload tokens mem held_token device
                    no_provider no_staff (p.clock b.tick)
                    (seen_at-left w w' body held.device_id (p.clock b.tick) (ground arith))
                    (ground arith) (ground arith) a b i (ground arith) (ground arith)
              | inr (a, e₃, e₄) ↦
                  let i = generate_tokens-IsIssued s w payload tokens e₃ in
                  let q₃ = i.left in
                  let (_, _, q₄) = delete_refresh_token-ok s a old r e₄ in
                  IsRotated-make_first w w' body held payload tokens mem held_token device
                    no_provider no_staff (p.clock b.tick)
                    (seen_at-left w w' body held.device_id (p.clock b.tick) (ground arith))
                    (ground arith) (ground arith) w a i other (ground arith) (ground arith)
            ]
      ]

  pub IsRotated-of_three :
      (body : RefreshTokenBody) (held : RefreshToken) (payload : AccessTokenPayloadCreate)
      (d : Device) (r : RefreshToken) (tokens : Tokens) {w' : World}
      → promise_all_three p
          (update_device held.device_id (from_client body.ip body.user_agent))
          (delete_refresh_token body.refresh_token)
          (generate_tokens payload)
          w
        ≡ (ok (d, (r, tokens)), w')
      → tokens.refresh_token ≢ body.refresh_token
      → Memᴰ held w.tokens
      → held.token ≡ body.refresh_token
      → payload.device_id ≡ held.device_id
      → payload.provider_id ≡ none
      → payload.staff_provider_id ≡ none
      → IsRotated body w w' tokens
  IsRotated-of_three body held payload d r tokens {w'} h other mem held_token device no_provider
        no_staff =
      elim (promise_all_three-ok p
        (update_device held.device_id (from_client body.ip body.user_agent))
        (delete_refresh_token body.refresh_token) (generate_tokens payload) w d r tokens w' h) [
          | inl q ↦
              IsRotated-outside body held payload d r tokens q other mem held_token device
                no_provider no_staff
          | inr q ↦
              IsRotated-apart body held payload d r tokens q other mem held_token device no_provider
                no_staff
        ]
