-- ===== src/Auth/Codes.antt =====
-- `validateVerificationCode` and `createVerificationCode`: which codes are accepted, and that a new
-- code takes the place of the earlier ones.
use capstone_home_care_be_mi.Common.{
  ◌+◌, ◌≡◌, ◌≢◌, ◌≤◌, ◌<◌, String, Bool, true, not, ◌&&◌, [], ◌∷◌, ◌++◌, Memᴰ, keep, count,
  count-mem, ltb, ◌===◌, arith, eq_iff, inl, inr,
}
use capstone_home_care_be_mi.Data.{VerificationCode, NewVerificationCode, CodeType, same_type}
use capstone_home_care_be_mi.Errors.{ok, err, rpc, invalid_otp, otp_expired}
use capstone_home_care_be_mi.Platform.{Platform, find_cases}
use capstone_home_care_be_mi.Platform.Sound.{SoundTables, LiveTables}
use capstone_home_care_be_mi.World.{World}
use capstone_home_care_be_mi.World.Laws.{step-ok, guard-ok, found-ok, rows-ok}
use capstone_home_care_be_mi.Repos.{
  find_unique_verification_code, create_verification_code, where_code,
}
use capstone_home_care_be_mi.Repos.Laws.{find_code-some}
use capstone_home_care_be_mi.Auth.Service.{validate_verification_code}

pub same_type-eq : (a b : CodeType) → same_type a b ≡ true → a ≡ b
same_type-eq a b h = ground arith

pub same_type_refl : (a : CodeType) → same_type a a ≡ true
same_type_refl a = ground arith

-- What `where` says of the row that it finds.
where_code-fields :
    (email code : String) (type : CodeType) (c : VerificationCode)
    → where_code email type code c ≡ true
    → (c.email ≡ email) × (c.code ≡ code) × (c.type ≡ type)
where_code-fields email code type c h = (
  ground (arith, eq_iff c.email email),
  ground (arith, eq_iff c.code code),
  same_type-eq c.type type (ground arith),
)

module _ ⦃p : Platform⦄ (w : World) (email code : String) (type : CodeType) where
  -- Given sound tables: a code that is accepted is in the table, is the one asked for, and had not
  -- expired when the clock was read; the tables are as before.
  pub validate-ok :
      (s : SoundTables p) (c : VerificationCode) {w' : World}
      → validate_verification_code email code type w ≡ (ok c, w')
      → Memᴰ c w.codes
        × (c.email ≡ email)
        × (c.code ≡ code)
        × (c.type ≡ type)
        × (p.clock (w.tick + 1) ≤ c.expires_at)
        × (w' ≡ record w { tick = w.tick + 1 + 1 })
  unfolding validate_verification_code
  validate-ok s c h =
      let (o, e₁, h₁) = step-ok (find_unique_verification_code email type code w) h in
      let (x, e₂, h₂) = found-ok o _ _ _ h₁ in
      let (hit, mem, w₁) =
        find_code-some s w email code type x
          {w' = (find_unique_verification_code email type code w).1} (ground arith) in
      let (by_email, by_code, by_type) = where_code-fields email code type x hit in
      let (_, h₃) = guard-ok (not (x.code === code)) _ _ _ h₂ in
      let (late, h₄) =
        guard-ok
          (ltb x.expires_at (p.clock (find_unique_verification_code email type code w).1.tick)) _ _
          _ h₃ in
      let same : x ≡ c = ground arith in
      rw (← same) (mem, by_email, by_code, by_type, ground arith, ground arith)

  -- Given sound and live tables: a code that the table does not hold for this address and kind is
  -- refused as wrong, and the tables stay.
  pub validate-wrong :
      (s : SoundTables p) (live : LiveTables p)
      → count (where_code email type code) w.codes ≡ 0
      → validate_verification_code email code type w
        ≡ (err (rpc invalid_otp), record w { tick = w.tick + 1 })
  unfolding validate_verification_code find_unique_verification_code
  validate-wrong s live z =
      elim (find_cases s.codes live.codes w.tick (where_code email type code) w.codes) [
        | inl (e, zero) ↦ ground arith
        | inr (c, e, hit, mem) ↦
            absurd (ground (arith, count-mem (where_code email type code) w.codes z mem))
      ]

  -- Given sound and live tables: a code that the table holds, each match of which has run out when
  -- the clock is read, is refused as expired, and the tables stay.
  pub validate-expired :
      (s : SoundTables p) (live : LiveTables p)
      → count (where_code email type code) w.codes ≢ 0
      → ((c : VerificationCode)
          → Memᴰ c w.codes
          → where_code email type code c ≡ true
          → c.expires_at < p.clock (w.tick + 1))
      → validate_verification_code email code type w
        ≡ (err (rpc otp_expired), record w { tick = w.tick + 1 + 1 })
  unfolding validate_verification_code find_unique_verification_code
  validate-expired s live z late =
      elim (find_cases s.codes live.codes w.tick (where_code email type code) w.codes) [
        | inl (e, zero) ↦ absurd (z zero)
        | inr (c, e, hit, mem) ↦
            ground
              (arith, late c mem hit, where_code-fields email code type c hit, eq_iff c.code code)
      ]

  -- Given sound and live tables: a code that the table holds for this address and kind, each match
  -- of which has not expired when the clock is read, is accepted.
  pub validate_accepts :
      (s : SoundTables p) (live : LiveTables p)
      → count (where_code email type code) w.codes ≢ 0
      → ((c : VerificationCode)
          → Memᴰ c w.codes
          → where_code email type code c ≡ true
          → p.clock (w.tick + 1) ≤ c.expires_at)
      → (c : VerificationCode) × (validate_verification_code email code type w
          ≡ (ok c, record w { tick = w.tick + 1 + 1 }))
  unfolding validate_verification_code find_unique_verification_code
  validate_accepts s live z fresh =
      elim (find_cases s.codes live.codes w.tick (where_code email type code) w.codes) [
        | inl (e, zero) ↦ absurd (z zero)
        | inr (c, e, hit, mem) ↦ (
          c,
          ground
              (arith, fresh c mem hit, where_code-fields email code type c hit, eq_iff c.code code),
        )
      ]

-- The codes of one address and one kind.
abbrev pub codes_for : String → CodeType → VerificationCode → Bool
codes_for email type c = c.email === email && same_type c.type type

module _ ⦃p : Platform⦄ (s : SoundTables p) (w : World) where
  -- A new code is the only one of its address and kind, and no other code is touched.
  pub create_verification_code-ok :
      (n : NewVerificationCode) (c : VerificationCode) {w' : World}
      → create_verification_code n w ≡ (ok c, w')
      → (c.email ≡ n.email)
        × (c.code ≡ n.code)
        × (c.type ≡ n.type)
        × (c.expires_at ≡ n.expires_at)
        × (w' ≡ record w {
          codes = keep (λ x. not (codes_for n.email n.type x)) w.codes ++ c ∷ [];
          tick = w.tick + 1 + 1;
        })
  unfolding create_verification_code
  create_verification_code-ok n c h =
      let test = codes_for n.email n.type in
      let (k, e₁, h₁) = step-ok _ h in
      let (rows₁, q₁, r₁) = rows-ok (p.codes.delete_many w.tick test w.codes) _ _ e₁ in
      let w₁ = record w { codes = rows₁; tick = w.tick + 1 } in
      let (rows, q₂, r₂) = rows-ok (p.codes.create (w.tick + 1) true n rows₁) _ _ (rw r₁ at h₁) in
      let left = s.codes.delete_many-ok w.tick test w.codes k rows₁ q₁ in
      let (made, added, _, _) = s.codes.create-ok (w.tick + 1) true n rows₁ c rows q₂ in
      (made.email, made.code, made.type, made.expires_at, ground arith)
