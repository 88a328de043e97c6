-- ===== src/Platform/Sound.antt =====
-- What is relied on of the whole platform: the queries on every table are sound, and the libraries
-- do what their documentation says.
use capstone_home_care_be_mi.Common.{
  ℕ, ◌≡◌, ◌≤◌, ◌<◌, String, Bool, true, Option, List, ◌∷◌, Memᴰ, is_some,
}
use capstone_home_care_be_mi.Errors.{ok}
use capstone_home_care_be_mi.Data.{Role, Permission, Staff}
use capstone_home_care_be_mi.Platform.{
  Platform, IsSound, IsLive, UserFits, AnyFits, CodeFits, ProviderFits, MadeUser, user_clash,
  MadeProfile, profile_clash, MadeDevice, device_clash, MadeToken, token_clash, MadeCode,
  code_clash, MadeProvider, provider_clash, AccessTokenPayloadCreate, AccessTokenPayload,
  SignOptions,
}

pub record SoundTables (p : Platform) : Type 0 where
  pub users : IsSound MadeUser user_clash (λ u. u.id) p.users
  pub profiles : IsSound MadeProfile profile_clash (λ x. x.id) p.profiles
  pub devices : IsSound MadeDevice device_clash (λ d. d.id) p.devices
  pub tokens : IsSound MadeToken token_clash (λ r. r.id) p.tokens
  pub codes : IsSound MadeCode code_clash (λ c. c.id) p.codes
  pub providers : IsSound MadeProvider provider_clash (λ s. s.id) p.providers

pub record LiveTables (p : Platform) : Type 0 where
  pub users : IsLive UserFits user_clash p.users
  pub profiles : IsLive AnyFits profile_clash p.profiles
  pub devices : IsLive AnyFits device_clash p.devices
  pub tokens : IsLive AnyFits token_clash p.tokens
  pub codes : IsLive CodeFits code_clash p.codes
  pub providers : IsLive ProviderFits provider_clash p.providers

-- The tables that are only read.
pub record SoundReads (p : Platform) : Type 0 where
  pub roles :
      (t : ℕ) (test : Role → Bool) (rows found : List Role)
      → p.roles.find_many t test rows ≡ ok found
      → (r : Role) → Memᴰ r found
      → (test r ≡ true) × Memᴰ r rows
  pub permissions :
      (t : ℕ) (test : Permission → Bool) (rows found : List Permission)
      → p.permissions.find_many t test rows ≡ ok found
      → (x : Permission) → Memᴰ x found
      → (test x ≡ true) × Memᴰ x rows

-- `SELECT * FROM "Role" WHERE name = … AND "deletedAt" IS NULL LIMIT 1`
abbrev pub SelectsRoles : Platform → Type 0
SelectsRoles p =
    (t : ℕ) (name : String) (rows : List Role) (r : Role) (rest : List Role)
    → p.select_role t name rows ≡ ok (r ∷ rest)
    → (r.name ≡ name) × Memᴰ r rows × (is_some r.deleted_at ≡ Bool.false)

-- bcrypt: a hash is recognised as that of its password.
abbrev pub Recognises : Platform → Type 0
Recognises p =
    (t u : ℕ) (value : String) (rounds : ℕ) (hashed : String)
    → p.hash t value rounds ≡ ok hashed
    → p.compare u value hashed ≡ ok true

-- jsonwebtoken: what a token says under the secret that it was signed with is its payload.
abbrev pub Faithful : Platform → Type 0
Faithful p =
    (t u : ℕ) (payload : AccessTokenPayloadCreate) (uuid : String) (options : SignOptions)
    (d : AccessTokenPayload)
    → p.verify u (p.sign t payload uuid options) options.secret ≡ ok d
    → d.payload ≡ payload

-- `randomInt(lo, hi)` lies between its bounds.
abbrev pub InRange : Platform → Type 0
InRange p = (t lo hi : ℕ) → lo < hi → (lo ≤ p.random_int t lo hi) × (p.random_int t lo hi < hi)

-- The connection is up for the tables that are only read.
pub record LiveReads (p : Platform) : Type 0 where
  pub roles :
      (t : ℕ) (test : Role → Bool) (rows : List Role)
      → (found : List Role) × (p.roles.find_many t test rows ≡ ok found)
  pub staff :
      (t : ℕ) (test : Staff → Bool) (rows : List Staff)
      → (o : Option Staff) × (p.staff.find t test rows ≡ ok o)
