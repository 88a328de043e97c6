-- ===== src/Auth/Rotated.antt =====
-- What `refreshToken` leaves: the record of an exchange, and how it follows from the three changes.
use capstone_home_care_be_mi.Common.{
  ℕ, ◌≡◌, ◌≢◌, refl, ap, ◌∙◌, String, not, none, some, List, [], ◌∷◌, ◌++◌, map, Memᴰ, keep,
  keep-append, count, count-keep_none, ◌==◌, ◌===◌, if◌then◌else◌, arith, eq_iff, inl, inr,
  Option-cases,
}
use capstone_home_care_be_mi.Data.{RefreshToken, Device}
use capstone_home_care_be_mi.Platform.{Platform, AccessTokenPayloadCreate}
use capstone_home_care_be_mi.World.{World}
use capstone_home_care_be_mi.Services.{access_options}
use capstone_home_care_be_mi.Repos.{from_client, mark_device}
use capstone_home_care_be_mi.Auth.Bodies.{Tokens, RefreshTokenBody}
use capstone_home_care_be_mi.Auth.Sessions.{IsSigned, IsIssued}

-- The table of tokens after a rotation: the old token gone and a new row at the end.
abbrev pub swapped : String → RefreshToken → List RefreshToken → List RefreshToken
swapped old row tokens = keep (λ r. not (r.token === old)) tokens ++ row ∷ []

-- Deleting after the new row was stored leaves that row, if its token is another.
keep-swapped :
    (old : String) (row : RefreshToken) (tokens : List RefreshToken)
    → row.token ≢ old
    → keep (λ r. not (r.token === old)) (tokens ++ row ∷ []) ≡ swapped old row tokens
keep-swapped old row tokens other =
    rw (keep-append (λ r. not (r.token === old)) tokens (row ∷ []))
      (ground (arith, eq_iff row.token old))

-- The device after the exchange: at the client's address, with its agent where there is one, and
-- last active then.
abbrev pub seen_at : RefreshTokenBody → ℕ → Device → Device
seen_at body now d = record d {
  ip = body.ip;
  user_agent = elim body.user_agent [ none ↦ d.user_agent | some agent ↦ agent ];
  last_active = now;
}

seen_at-mark :
    (body : RefreshTokenBody) (now : ℕ) (id : ℕ) (ds : List Device)
    → map
        (λ d. if d.id == id then mark_device (from_client body.ip body.user_agent) now d else d)
        ds
      ≡ map (λ d. if d.id == id then seen_at body now d else d) ds
seen_at-mark body now id [] = refl
seen_at-mark body now id (d ∷ ds) = elim (Option-cases body.user_agent) [
  | inl e ↦ ground (arith, seen_at-mark body now id ds)
  | inr (agent, e) ↦ ground (arith, seen_at-mark body now id ds)
]

-- The row that `updateDevice` writes is the device after the exchange.
module _ (w w' : World) (body : RefreshTokenBody) (id now : ℕ) where
  pub seen_at-left :
      w'.devices
        ≡ map
            (λ d. if d.id == id then mark_device (from_client body.ip body.user_agent) now d else d)
            w.devices
      → w'.devices ≡ map (λ d. if d.id == id then seen_at body now d else d) w.devices
  seen_at-left e = e ∙ seen_at-mark body now id w.devices

-- A refresh token was exchanged for new tokens of the same device.
pub record IsRotated ⦃p : Platform⦄ (body : RefreshTokenBody) (w w' : World) (tokens : Tokens)
    : Type 0 where
  pub held : RefreshToken
  pub mem : Memᴰ held w.tokens
  pub held_token : held.token ≡ body.refresh_token
  pub payload : AccessTokenPayloadCreate
  pub device : payload.device_id ≡ held.device_id
  pub no_provider : payload.provider_id ≡ none
  pub access : IsSigned p access_options payload tokens.access_token
  pub row : RefreshToken
  pub row_token : row.token ≡ tokens.refresh_token
  pub row_device : row.device_id ≡ held.device_id
  -- no other row that is left has the new token
  pub unused :
      count
        (λ r. r.token === tokens.refresh_token)
        (keep (λ r. not (r.token === body.refresh_token)) w.tokens)
      ≡ 0
  pub tokens_left : w'.tokens ≡ swapped body.refresh_token row w.tokens
  pub now : ℕ
  pub devices_left :
      w'.devices ≡ map (λ d. if d.id == held.device_id then seen_at body now d else d) w.devices
  pub users_left : w'.users ≡ w.users
  pub codes_left : w'.codes ≡ w.codes

-- What an exchange leaves, where the other tables are known.
module _ ⦃p : Platform⦄ (w w' : World) (body : RefreshTokenBody) (held : RefreshToken)
    (payload : AccessTokenPayloadCreate) (tokens : Tokens) (mem : Memᴰ held w.tokens)
    (held_token : held.token ≡ body.refresh_token) (device : payload.device_id ≡ held.device_id)
    (no_provider : payload.provider_id ≡ none) (no_staff : payload.staff_provider_id ≡ none)
    (now : ℕ)
    (devices : w'.devices
      ≡ map (λ d. if d.id == held.device_id then seen_at body now d else d) w.devices)
    (users : w'.users ≡ w.users) (codes : w'.codes ≡ w.codes) where
  pub IsRotated-delete_first :
      (c c' : World) (i : IsIssued payload c c' tokens)
      → c.tokens ≡ keep (λ r. not (r.token === body.refresh_token)) w.tokens
      → w'.tokens ≡ c.tokens ++ i.row ∷ []
      → IsRotated body w w' tokens
  IsRotated-delete_first c c' i before left =
      let plain : record payload { staff_provider_id = none } ≡ payload = ground arith in
      record {
        held = held;
        mem = mem;
        held_token = held_token;
        payload = payload;
        device = device;
        no_provider = no_provider;
        access = rw plain at (i.access);
        row = i.row;
        row_token = i.row_token;
        row_device = i.row_device ∙ device;
        unused = rw before at (i.unused);
        tokens_left = left ∙ ap (λ ts. ts ++ i.row ∷ []) before;
        now = now;
        devices_left = devices;
        users_left = users;
        codes_left = codes;
      }

  pub IsRotated-make_first :
      (c c' : World) (i : IsIssued payload c c' tokens)
      → tokens.refresh_token ≢ body.refresh_token
      → c.tokens ≡ w.tokens
      → w'.tokens ≡ keep (λ r. not (r.token === body.refresh_token)) (c.tokens ++ i.row ∷ [])
      → IsRotated body w w' tokens
  IsRotated-make_first c c' i other before left =
      let plain : record payload { staff_provider_id = none } ≡ payload = ground arith in
      let new : i.row.token ≢ body.refresh_token = rw i.row_token other in
      record {
        held = held;
        mem = mem;
        held_token = held_token;
        payload = payload;
        device = device;
        no_provider = no_provider;
        access = rw plain at (i.access);
        row = i.row;
        row_token = i.row_token;
        row_device = i.row_device ∙ device;
        unused =
            count-keep_none (λ x. not (x.token === body.refresh_token)) _ w.tokens
              (rw before at (i.unused));
        tokens_left =
            left
            ∙ ap (λ ts. keep (λ r. not (r.token === body.refresh_token)) (ts ++ i.row ∷ [])) before
            ∙ keep-swapped body.refresh_token i.row w.tokens new;
        now = now;
        devices_left = devices;
        users_left = users;
        codes_left = codes;
      }

-- Only the count of calls differs between the two states.
pub IsRotated-of_tables :
    ⦃p : Platform⦄ (body : RefreshTokenBody) (w v w' : World) (tokens : Tokens) (t : ℕ)
    → v ≡ record w { tick = t }
    → IsRotated body v w' tokens
    → IsRotated body w w' tokens
IsRotated-of_tables body w v w' tokens t e r =
    let same : v.tokens ≡ w.tokens = ground arith in
    record {
      held = r.held;
      mem = rw same at (r.mem);
      held_token = r.held_token;
      payload = r.payload;
      device = r.device;
      no_provider = r.no_provider;
      access = r.access;
      row = r.row;
      row_token = r.row_token;
      row_device = r.row_device;
      unused = rw same at (r.unused);
      tokens_left = r.tokens_left ∙ ap (swapped body.refresh_token r.row) same;
      now = r.now;
      devices_left = r.devices_left ∙ ap (map _) (ground arith);
      users_left = r.users_left ∙ ground arith;
      codes_left = r.codes_left ∙ ground arith;
    }
