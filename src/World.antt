-- ===== src/World.antt =====
-- The state that the services share: the tables, the mails sent, the role ids that
-- `SharedRoleRepository` remembers, and the number of calls made to the platform; and what an
-- `async` function is: it changes the state, and returns or throws. What was written before a
-- throw stays written.
pub mod Laws
pub mod Keeps
use capstone_home_care_be_mi.Common.{ℕ, ◌+◌, Bool, true, false, Option, List, if◌then◌else◌}
use capstone_home_care_be_mi.Errors.{Error, Result, ok, err}
use capstone_home_care_be_mi.Data.{
  User, Profile, Device, RefreshToken, VerificationCode, Role, Permission, ServiceProvider, Staff,
  Category,
}
use capstone_home_care_be_mi.Platform.{Platform, Email}

pub record World : Type 0 where
  pub users : List User
  pub profiles : List Profile
  pub devices : List Device
  pub tokens : List RefreshToken
  pub codes : List VerificationCode
  pub roles : List Role
  pub permissions : List Permission
  pub providers : List ServiceProvider
  pub staff : List Staff
  pub categories : List Category
  pub mails : List Email
  -- `customerRoleId`, `serviceProviderRoleId`, `adminRoleId` and `staffRoleId`
  pub customer_role_id : Option ℕ
  pub service_provider_role_id : Option ℕ
  pub admin_role_id : Option ℕ
  pub staff_role_id : Option ℕ
  pub tick : ℕ

abbrev pub Action : Type 0 → Type 0
Action A = World → Result A × World

module _ {A : Type 0} where
  abbrev pub pure : A → Action A
  pure a w = (ok a, w)

  abbrev pub throw : Error → Action A
  throw e w = (err e, w)

  -- A call of the platform that answers, or that may throw.
  abbrev pub sample : (ℕ → A) → Action A
  sample f w = (ok (f w.tick), record w { tick = w.tick + 1 })

  abbrev pub call : (ℕ → Result A) → Action A
  call f w = (f w.tick, record w { tick = w.tick + 1 })

infixl 5 ◌>>=◌ ◌>>◌
abbrev pub ◌>>=◌ : {A B : Type 0} → Action A → (A → Action B) → Action B
◌>>=◌ m f w = let (r, w') = m w in elim r [ ok a ↦ f a w' | err e ↦ (err e, w') ]

abbrev pub ◌>>◌ : {A B : Type 0} → Action A → Action B → Action B
m >> k = m >>= λ _. k

-- `try { m } catch (e) { h(e) }`
abbrev pub catch : {A : Type 0} → Action A → (Error → Action A) → Action A
catch m h w = let (r, w') = m w in elim r [ ok a ↦ (ok a, w') | err e ↦ h e w' ]

abbrev pub throw_if : Bool → Error → Action (Unit {0})
throw_if c e w = (if c then err e else ok tt, w)

-- A query that writes one table: `put` stores the rows that it leaves.
abbrev pub write :
    {A Rows : Type 0} → (World → Rows → World) → (World → Result (A × Rows)) → Action A
write put f w = elim (f w) [
  | ok (a, rows) ↦ (ok a, put (record w { tick = w.tick + 1 }) rows)
  | err e ↦ (err e, record w { tick = w.tick + 1 })
]

-- The result of two promises that have both been settled, `first` before `later`.
abbrev pub both : {A B : Type 0} → Result A → Result B → Result (A × B)
both (ok a) (ok b) = ok (a, b)
both (ok a) (err e) = err e
both (err e) _ = err e

abbrev pub both_swapped : {A B : Type 0} → Result A → Result B → Result (A × B)
both_swapped (ok a) (ok b) = ok (a, b)
both_swapped (err e) (ok b) = err e
both_swapped _ (err e) = err e

-- `Promise.all([a, b])`. The platform chooses which promise takes effect first, and the first
-- rejection is the one that is thrown. Both promises run to their end, also where one is rejected:
-- the state is the one when both have settled, which may be after the rejection was thrown.
unfoldable pub promise_all : {A B : Type 0} → Platform → Action A → Action B → Action (A × B)
promise_all p a b w = elim (p.second_first w.tick) [
  | false ↦ let (ra, w₁) = a w in let (rb, w₂) = b w₁ in (both ra rb, w₂)
  | true ↦ let (rb, w₁) = b w in let (ra, w₂) = a w₁ in (both_swapped ra rb, w₂)
]

-- The results of three promises in the order of the call.
abbrev pub in_order : {A B C : Type 0} → Result (B × (A × C)) → Result (A × (B × C))
in_order (ok (b, (a, c))) = ok (a, (b, c))
in_order (err e) = err e

-- `Promise.all([a, b, c])`: the six orders are those where `a` takes effect before or after both
-- others, and those where `b` does.
unfoldable pub promise_all_three :
    {A B C : Type 0} → Platform → Action A → Action B → Action C → Action (A × (B × C))
promise_all_three p a b c w = elim (p.second_apart w.tick) [
  | false ↦ promise_all p a (promise_all p b c) w
  | true ↦ let (r, w') = promise_all p b (promise_all p a c) w in (in_order r, w')
]
