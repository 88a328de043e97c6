-- ===== src/Auth/Closing.antt =====
-- A session that is opened and closed again.
use capstone_home_care_be_mi.Common.{
  ℕ, ◌≡◌, ◌≢◌, inl, inr, refl, ap, ◌∙◌, String, Bool, true, false, not, List, [], ◌∷◌, ◌++◌, Memᴰ,
  mem_append, map, count, count-mem, count-append, keep, keep-append, ◌==◌, ◌===◌, arith, eq_iff,
  if◌then◌else◌,
}
use mathlib.Core.List.Memᴰ.{not-nil}
use capstone_home_care_be_mi.Data.{RefreshToken, Device}
use capstone_home_care_be_mi.Errors.{ok}
use capstone_home_care_be_mi.Platform.{Platform, AccessTokenPayload}
use capstone_home_care_be_mi.Platform.Sound.{SoundTables, LiveTables}
use capstone_home_care_be_mi.World.{World}
use capstone_home_care_be_mi.Services.{verify_refresh_token}
use capstone_home_care_be_mi.Auth.Bodies.{LoginBody, Tokens}
use capstone_home_care_be_mi.Auth.Service.{login, logout}
use capstone_home_care_be_mi.Auth.Login.{login-IsLoggedIn}
use capstone_home_care_be_mi.Auth.Revocation.{logged_out, logout_returns, logout-IsLoggedOut}

module _ {A : Type 0} (p : A → Bool) where
  keep-untouched : (xs : List A) → count p xs ≡ 0 → keep (λ x. not (p x)) xs ≡ xs
  keep-untouched [] h = refl
  keep-untouched (x ∷ xs) h = ground (arith, keep-untouched xs)

  map-untouched :
      (f : A → A) (xs : List A) → count p xs ≡ 0 → map (λ x. if p x then f x else x) xs ≡ xs
  map-untouched f [] h = refl
  map-untouched f (x ∷ xs) h = ground (arith, map-untouched f xs)

  -- The one row that passes is the last.
  mem-last : (xs : List A) (y z : A) → count p xs ≡ 0 → Memᴰ z (xs ++ y ∷ []) → p z ≡ true → z ≡ y
  mem-last xs y z zero m h = elim (mem_append xs (y ∷ []) m) [
    | inl old ↦ let never = count-mem p xs zero old in absurd (ground arith)
    | inr (Memᴰ.head e) ↦ e
    | inr (Memᴰ.tail none_left) ↦ absurd (not-nil none_left)
  ]

map-append_one :
    {A : Type 0} (f : A → A) (xs : List A) (y : A) → map f (xs ++ y ∷ []) ≡ map f xs ++ f y ∷ []
map-append_one f [] y = refl
map-append_one f (x ∷ xs) y = ap (λ t. f x ∷ t) (map-append_one f xs y)

append-nil' : {A : Type 0} (xs : List A) → xs ++ [] ≡ xs
append-nil' [] = refl
append-nil' (x ∷ xs) = ap (λ t. x ∷ t) (append-nil' xs)

module _ {A : Type 0} (p : A → Bool) (xs : List A) (y : A) (zero : count p xs ≡ 0)
    (last : p y ≡ true) where
  tokens_left : keep (λ x. not (p x)) (xs ++ y ∷ []) ≡ xs
  tokens_left =
      let here : keep (λ x. not (p x)) (y ∷ []) ≡ [] = ground arith in
      keep-append (λ x. not (p x)) xs (y ∷ [])
      ∙ rw (here, keep-untouched p xs zero) (append-nil' xs)

  devices_left : (f : A → A) → map (λ x. if p x then f x else x) (xs ++ y ∷ []) ≡ xs ++ f y ∷ []
  devices_left f =
      map-append_one (λ x. if p x then f x else x) xs y ∙ rw (map-untouched p f xs zero, last) refl

closed_left :
    (w w₁ w₂ : World) (held : RefreshToken) (token : String) (now id : ℕ) (rows : List RefreshToken)
    (devices devices' : List Device)
    → w₁ ≡ record w { devices = devices; tokens = rows; tick = w₁.tick }
    → w₂ ≡ logged_out token held now w₁
    → held.device_id ≡ id
    → keep (λ r. not (r.token === token)) rows ≡ w.tokens
    → map (λ x. if x.id == id then record x { is_active = false; last_active = now } else x) devices
      ≡ devices'
    → w₂ ≡ record w { devices = devices'; tick = w₂.tick }
closed_left w w₁ w₂ held token now id rows devices devices' e₁ e₂ e₃ e₄ e₅ =
    let tokens₁ : w₁.tokens ≡ rows = ap (λ (v : World). v.tokens) e₁ in
    let devices₁ : w₁.devices ≡ devices = ap (λ (v : World). v.devices) e₁ in
    let tokens₂ : (logged_out token held now w₁).tokens ≡ w.tokens = rw tokens₁ e₄ in
    let devices₂ : (logged_out token held now w₁).devices ≡ devices' = rw (devices₁, e₃) e₅ in
    ground arith

-- The session is closed: the tables are as before it, and its device is there, no more active.
pub record IsClosed (body : LoginBody) (w w' : World) : Type 0 where
  pub device : Device
  pub device_agent : device.user_agent ≡ body.user_agent
  pub device_ip : device.ip ≡ body.ip
  pub inactive : device.is_active ≡ false
  pub left : w' ≡ record w { devices = w.devices ++ device ∷ []; tick = w'.tick }

module _ ⦃p : Platform⦄ (s : SoundTables p) (live : LiveTables p) (w : World) where
  -- Given sound and live tables: a refresh token that login gave, where it verifies afterwards, is
  -- accepted by logout, and the state is then as before the login, except that a device with the
  -- client's address and agent is stored, which is not active, and for the number of calls made.
  pub logout-login :
      (body : LoginBody) (tokens : Tokens) (d : AccessTokenPayload) {w₁ : World}
      → login body w ≡ (ok tokens, w₁)
      → (verify_refresh_token tokens.refresh_token w₁).0 ≡ ok d
      → ((logout tokens.refresh_token w₁).0 ≡ ok tt)
        × IsClosed body w (logout tokens.refresh_token w₁).1
  logout-login body tokens d {w₁} h says =
      let i = login-IsLoggedIn s w body tokens h in
      let token = tokens.refresh_token in
      let holds = λ (r : RefreshToken). r.token === token in
      let mine = λ (x : Device). x.id == i.device.id in
      let w₂ = (logout token w₁).1 in
      let left = i.left in
      let tokens₁ : w₁.tokens ≡ w.tokens ++ i.row ∷ [] = ground arith in
      let devices₁ : w₁.devices ≡ w.devices ++ i.device ∷ [] = ground arith in
      let row_token = i.row_token in
      let row_device = i.row_device in
      let only : (r : RefreshToken) → Memᴰ r w₁.tokens → r.token ≡ token → r ≡ i.row = λ r m same.
        mem-last holds w.tokens i.row r i.unused (rw tokens₁ at m)
          ((eq_iff r.token token).1 same) in
      let stored : count holds w₁.tokens ≢ 0 = λ zero. ground (
        arith,
        rw tokens₁ at zero,
        count-append holds w.tokens (i.row ∷ []),
        eq_iff i.row.token token,
      ) in
      let owned : (r : RefreshToken)
          → Memᴰ r w₁.tokens
          → r.token ≡ token
          → count (λ x. x.id == r.device_id) w₁.devices ≢ 0 =
        λ r m same zero.
          let device : r.device_id ≡ i.device.id =
            ap (λ (x : RefreshToken). x.device_id) (only r m same) ∙ row_device in
          ground
            (arith, rw (devices₁, device) at zero, count-append mine w.devices (i.device ∷ [])) in
      let returned = logout_returns s live w₁ token d says stored owned in
      let out = logout-IsLoggedOut s w₁ token {w' = w₂} (ground arith) in
      let held : out.held.device_id ≡ i.device.id =
        ap (λ (x : RefreshToken). x.device_id) (only out.held out.mem out.held_token)
        ∙ row_device in
      let tokens₂ : keep (λ r. not (holds r)) (w.tokens ++ i.row ∷ []) ≡ w.tokens =
        tokens_left holds w.tokens i.row i.unused ((eq_iff i.row.token token).1 row_token) in
      let now = out.now in
      let closed = record i.device { is_active = false; last_active = now } in
      let devices₂ : map
            (λ x. if mine x then record x { is_active = false; last_active = now } else x)
            (w.devices ++ i.device ∷ [])
          ≡ w.devices ++ closed ∷ [] =
        devices_left mine w.devices i.device i.device_new (ground arith)
          (λ x. record x { is_active = false; last_active = now }) in
      let w₂_left = out.left in
      (
        returned,
        record {
          device = closed;
          device_agent = i.device_agent;
          device_ip = i.device_ip;
          inactive = refl;
          left =
              closed_left w w₁ w₂ out.held token now i.device.id _ _ _ i.left out.left held tokens₂
                devices₂;
        },
      )
