-- ===== src/System/Refines.antt =====
-- The table of refresh tokens, seen as a ledger, and what the requests of auth.service.ts and
-- google.service.ts are on it.
use capstone_home_care_be_mi.Common.{
  ℕ, ◌+◌, ◌≡◌, ◌≢◌, ◌≤◌, refl, sym, ap, ◌∙◌, String, not, Option, none, some, List, [], ◌∷◌, ◌++◌,
  Memᴰ, keep, count-mem, count, Unique, ◌===◌, if◌then◌else◌, arith, eq_iff,
}
use mathlib.Core.List.Memᴰ as MemD
use mathlib.Core.Path.{fun_ext}
use capstone_home_care_be_mi.Data.{RefreshToken}
use capstone_home_care_be_mi.Errors.{ok}
use capstone_home_care_be_mi.Platform.{Platform}
use capstone_home_care_be_mi.Platform.Sound.{SoundTables, SelectsRoles}
use capstone_home_care_be_mi.World.{World}
use capstone_home_care_be_mi.Auth.{
  LoginBody, RefreshTokenBody, Tokens, login, refresh_token, logout,
}
use capstone_home_care_be_mi.Auth.Google.{GoogleClient, google_callback}
use capstone_home_care_be_mi.Auth.Google.Accounts.{google_callback-IsGoogleLogin}
use capstone_home_care_be_mi.System.Others.{google_callback-IsConsistent}
use capstone_home_care_be_mi.Auth.Login.{login-IsLoggedIn}
use capstone_home_care_be_mi.Auth.Rotated.{swapped}
use capstone_home_care_be_mi.Auth.Rotation.{refresh_token-IsRotated}
use capstone_home_care_be_mi.Auth.Revocation.{logout-IsLoggedOut}
use capstone_home_care_be_mi.System.Consistent.{IsConsistent, same_token}
use capstone_home_care_be_mi.System.Runs.{Step, Step-IsConsistent}
use capstone_home_care_be_mi.System.Sessions.{
  login-IsConsistent, refresh_token-IsConsistent, logout-IsConsistent,
}
use capstone_home_care_be_mi.System.Ledger.{
  Ledger, enter, strike, Event, opened, exchanged, closed, idle, Turn, opens, exchanges, closes,
  rests, start, next, Run, held, issued, redeemed, Run-balance,
}

-- The device of the first row of a token.
abbrev pub device_of : List RefreshToken → Ledger
device_of [] t = none
device_of (r ∷ rows) t =
    let rest = device_of rows t in if t === r.token then some r.device_id else rest

abbrev pub ledger : World → Ledger
ledger w = device_of w.tokens

device_of-none :
    (rows : List RefreshToken) (t : String)
    → count (λ r. r.token === t) rows ≡ 0
    → device_of rows t ≡ none
device_of-none [] t h = refl
device_of-none (r ∷ rows) t h =
    ground (arith, device_of-none rows t, eq_iff r.token t, eq_iff t r.token)

device_of-keep :
    (old t : String) (rows : List RefreshToken)
    → device_of (keep (λ r. not (r.token === old)) rows) t ≡ strike old (device_of rows) t
device_of-keep old t [] = ground arith
device_of-keep old t (r ∷ rows) =
    ground (arith, device_of-keep old t rows, eq_iff r.token old, eq_iff t old, eq_iff t r.token)

device_of-append :
    (row : RefreshToken) (t : String) (rows : List RefreshToken)
    → count (λ r. r.token === row.token) rows ≡ 0
    → device_of (rows ++ row ∷ []) t ≡ enter row.token row.device_id (device_of rows) t
device_of-append row t [] h = ground arith
device_of-append row t (r ∷ rows) h = ground (
  arith,
  device_of-append row t rows,
  eq_iff r.token row.token,
  eq_iff t row.token,
  eq_iff t r.token,
)

device_of-mem :
    (row : RefreshToken) (rows : List RefreshToken)
    → Unique same_token rows
    → Memᴰ row rows
    → device_of rows row.token ≡ some row.device_id
device_of-mem row [] u m = absurd (MemD.not-nil m)
device_of-mem row (r ∷ rows) u (Memᴰ.head e) = rw e (ground (arith, eq_iff row.token row.token))
device_of-mem row (r ∷ rows) (apart, u) (Memᴰ.tail m) = ground (
  arith,
  device_of-mem row rows u m,
  eq_iff row.token r.token,
  eq_iff r.token row.token,
  count-mem (same_token r) rows apart m,
)

swapped-enter :
    (old : String) (row : RefreshToken) (rows : List RefreshToken)
    → count (λ r. r.token === row.token) (keep (λ r. not (r.token === old)) rows) ≡ 0
    → device_of (swapped old row rows) ≡ enter row.token row.device_id (strike old (device_of rows))
swapped-enter old row rows unused = fun_ext λ t.
    device_of-append row t (keep (λ r. not (r.token === old)) rows) unused
    ∙ ap (λ (o : Option ℕ). if t === row.token then some row.device_id else o)
        (device_of-keep old t rows)

-- What a request that returned did to the sessions.
pub data Served ⦃p : Platform⦄ : World → Event → World → Type 0 where
  logged_in :
      {w w' : World} (body : LoginBody) (tokens : Tokens)
      → login body w ≡ (ok tokens, w')
      → Served w (opened tokens.refresh_token) w'
  signed_in :
      {w w' : World} (g : GoogleClient) (code : String) (state : Option String) (tokens : Tokens)
      → google_callback g code state w ≡ (ok tokens, w')
      → Served w (opened tokens.refresh_token) w'
  refreshed :
      {w w' : World} (body : RefreshTokenBody) (tokens : Tokens)
      → refresh_token body w ≡ (ok tokens, w')
      → tokens.refresh_token ≢ body.refresh_token
      → Served w (exchanged body.refresh_token tokens.refresh_token) w'
  logged_out :
      {w w' : World} (token : String) → logout token w ≡ (ok tt, w') → Served w (closed token) w'
  -- any request that left the tokens as they were
  other : {w w' : World} → Step w w' → w'.tokens ≡ w.tokens → Served w idle w'

module _ ⦃p : Platform⦄ (s : SoundTables p) {w w' : World} (i : IsConsistent w) where
  google_callback-Turn :
      (selects : SelectsRoles p) (g : GoogleClient) (code : String) (state : Option String)
      (tokens : Tokens)
      → google_callback g code state w ≡ (ok tokens, w')
      → Turn (ledger w) (opened tokens.refresh_token) (ledger w')
  google_callback-Turn selects g code state tokens h =
      let r = google_callback-IsGoogleLogin s selects w g code state tokens h in
      let row = r.row in
      let free : count (λ x. x.token === row.token) w.tokens ≡ 0 = rw r.row_token r.unused in
      let left : ledger w' ≡ enter row.token row.device_id (ledger w) =
        ap device_of r.tokens_left ∙ fun_ext (λ t. device_of-append row t w.tokens free) in
      rw (← r.row_token, left)
        (opens row.token row.device_id (device_of-none w.tokens row.token free))

  login-Turn :
      (body : LoginBody) (tokens : Tokens)
      → login body w ≡ (ok tokens, w')
      → Turn (ledger w) (opened tokens.refresh_token) (ledger w')
  login-Turn body tokens h =
      let r = login-IsLoggedIn s w body tokens h in
      let row = r.row in
      let free : count (λ x. x.token === row.token) w.tokens ≡ 0 = rw r.row_token r.unused in
      let left : ledger w' ≡ enter row.token row.device_id (ledger w) =
        ap (λ (v : World). device_of v.tokens) r.left
        ∙ fun_ext (λ t. device_of-append row t w.tokens free) in
      rw (← r.row_token, left)
        (opens row.token row.device_id (device_of-none w.tokens row.token free))

  refresh_token-Turn :
      (body : RefreshTokenBody) (tokens : Tokens)
      → refresh_token body w ≡ (ok tokens, w')
      → tokens.refresh_token ≢ body.refresh_token
      → Turn (ledger w) (exchanged body.refresh_token tokens.refresh_token) (ledger w')
  refresh_token-Turn body tokens h different =
      let r = refresh_token-IsRotated s w body tokens h different in
      let row = r.row in
      let old = body.refresh_token in
      let rest = keep (λ x. not (x.token === old)) w.tokens in
      let free : count (λ x. x.token === row.token) rest ≡ 0 = rw r.row_token r.unused in
      let left : ledger w' ≡ enter row.token row.device_id (strike old (ledger w)) =
        ap device_of r.tokens_left ∙ swapped-enter old row w.tokens free in
      let here : ledger w old ≡ some row.device_id =
        rw (← r.held_token, r.row_device) (device_of-mem r.held w.tokens i.at.token_texts r.mem) in
      let new : strike old (ledger w) row.token ≡ none =
        sym (device_of-keep old row.token w.tokens) ∙ device_of-none rest row.token free in
      rw (← r.row_token, left) (exchanges old row.token row.device_id here new)

  logout-Turn :
      (token : String) → logout token w ≡ (ok tt, w') → Turn (ledger w) (closed token) (ledger w')
  logout-Turn token h =
      let r = logout-IsLoggedOut s w token h in
      let left : ledger w' ≡ strike token (ledger w) =
        ap (λ (v : World). device_of v.tokens) r.left
        ∙ fun_ext (λ t. device_of-keep token t w.tokens) in
      let here : ledger w token ≡ some r.held.device_id =
        rw (← r.held_token) (device_of-mem r.held w.tokens i.at.token_texts r.mem) in
      rw left (closes token r.held.device_id here)

-- Requests one after the other, with what each did to the sessions, the last one first.
pub data ServedRun ⦃p : Platform⦄ : World → List Event → World → Type 0 where
  none_yet : {w : World} → ServedRun w [] w
  then_served :
      {w v u : World} {es : List Event} {e : Event}
      → ServedRun w es v
      → Served v e u
      → ServedRun w (e ∷ es) u

module _ ⦃p : Platform⦄ (s : SoundTables p) (selects : SelectsRoles p) where
  Served-Turn :
      {w w' : World} {e : Event} → Served w e w' → IsConsistent w → Turn (ledger w) e (ledger w')
  Served-Turn (logged_in body tokens h) i = login-Turn s i body tokens h
  Served-Turn (signed_in g code state tokens h) i =
      google_callback-Turn s i selects g code state tokens h
  Served-Turn (refreshed body tokens h different) i = refresh_token-Turn s i body tokens h different
  Served-Turn (logged_out token h) i = logout-Turn s i token h
  Served-Turn (other {w} step same) i = rw same rests

  Served-IsConsistent :
      {w w' : World} {e : Event} → Served w e w' → IsConsistent w → IsConsistent w'
  Served-IsConsistent (logged_in {w} body tokens h) i =
      ground (arith, h, login-IsConsistent s w i body)
  Served-IsConsistent (signed_in {w} g code state tokens h) i =
      ground (arith, h, google_callback-IsConsistent s selects w i g code state)
  Served-IsConsistent (refreshed {w} body tokens h different) i =
      ground (arith, h, refresh_token-IsConsistent s w i body)
  Served-IsConsistent (logged_out {w} token h) i =
      ground (arith, h, logout-IsConsistent s w i token)
  Served-IsConsistent (other step same) i = Step-IsConsistent s selects step i

  ServedRun-IsConsistent :
      {w w' : World} {es : List Event} → ServedRun w es w' → IsConsistent w → IsConsistent w'
  ServedRun-IsConsistent none_yet i = i
  ServedRun-IsConsistent (then_served run served) i =
      Served-IsConsistent served (ServedRun-IsConsistent run i)

  -- Given sound tables and a sound selection of roles: a run, from consistent tables, of logins,
  -- Google logins, exchanges for another token and logouts that return, and of requests that leave
  -- the refresh tokens alone, is a run of the ledger: a token that is given out was not held, a
  -- token that is taken back was held, the new token of an exchange is for the device of the old
  -- one, and no other token changes.
  pub ServedRun-Run :
      {w w' : World} {es : List Event}
      → ServedRun w es w'
      → IsConsistent w
      → Run (ledger w) es (ledger w')
  ServedRun-Run none_yet i = start
  ServedRun-Run (then_served run served) i =
      next (ServedRun-Run run i) (Served-Turn served (ServedRun-IsConsistent run i))

  -- Given sound tables and a sound selection of roles: along such a run a refresh token is
  -- exchanged or logged out at most as often as it was held at the start and given out.
  pub redeemed_once :
      {w w' : World} {es : List Event} (token : String)
      → IsConsistent w
      → ServedRun w es w'
      → redeemed token es ≤ held token (ledger w) + issued token es
  redeemed_once {w} {w'} {es} token i run =
      let b = Run-balance (ServedRun-Run run i) token in omega (arith, b)
