-- ===== src/Gateway/Routes.antt =====
-- Which routes of the gateway reach a handler of a service, and that no two are at one endpoint.
use capstone_home_care_be_mi.Common.{◌≡◌, ◌↔◌, ◌⊎◌, inl, inr, refl, false, arith}
use capstone_home_care_be_mi.Gateway.{
  Route, register, send_otp, login, refresh_token, logout, forgot_password, get_authorization_url,
  google_callback, register_provider, pong, swagger, change_status_provider, create_presigned_url,
  answered,
}

-- A request is answered on every route of the gateway but the callback of Google, the page of the
-- API and the presigned URL, whose messages no handler takes.
pub answered_iff :
    (r : Route)
    → answered r ≡ false ↔ ((r ≡ google_callback) ⊎ ((r ≡ swagger) ⊎ (r ≡ create_presigned_url)))
unfolding answered
answered_iff r = (go r, back r)
  where
    go :
        (r : Route)
        → answered r ≡ false
        → (r ≡ google_callback) ⊎ ((r ≡ swagger) ⊎ (r ≡ create_presigned_url))
    go google_callback h = inl refl
    go swagger h = inr (inl refl)
    go create_presigned_url h = inr (inr refl)
    go register h = absurd (ground arith)
    go send_otp h = absurd (ground arith)
    go login h = absurd (ground arith)
    go refresh_token h = absurd (ground arith)
    go logout h = absurd (ground arith)
    go forgot_password h = absurd (ground arith)
    go get_authorization_url h = absurd (ground arith)
    go register_provider h = absurd (ground arith)
    go pong h = absurd (ground arith)
    go change_status_provider h = absurd (ground arith)

    back :
        (r : Route)
        → (r ≡ google_callback) ⊎ ((r ≡ swagger) ⊎ (r ≡ create_presigned_url))
        → answered r ≡ false
    back r (inl e) = rw e refl
    back r (inr (inl e)) = rw e refl
    back r (inr (inr e)) = rw e refl
