-- ===== src/Repos/FindLaws.antt =====
-- What the lookups with relations answer: the row that was asked for, and no table is touched.
use capstone_home_care_be_mi.Common.{
  ◌+◌, ◌≡◌, inl, inr, refl, String, Bool, not, ◌&&◌, some, none, Memᴰ, ◌==◌, ◌===◌, is_some, arith,
  eq_iff, Option-cases,
}
use capstone_home_care_be_mi.Data.{User, RefreshToken}
use capstone_home_care_be_mi.Errors.{ok}
use capstone_home_care_be_mi.Platform.{Platform}
use capstone_home_care_be_mi.Platform.Sound.{SoundTables}
use capstone_home_care_be_mi.World.{World}
use capstone_home_care_be_mi.World.Laws.{step-ok, Result-cases}
use capstone_home_care_be_mi.Repos.{
  UserIncludeRole, TokenIncludeUser, include_roles, include_all, find_user,
  find_unique_user_include_role, find_unique_refresh_token_include_user_role,
}

module _ ⦃p : Platform⦄ (w : World) where
  -- Reading never touches a table.
  find_user-reads : (test : User → Bool) → (find_user test w).1 ≡ record w { tick = w.tick + 1 }
  unfolding find_user
  find_user-reads test = refl

  include_roles-reads : (u : User) → (include_roles u w).1 ≡ record w { tick = w.tick + 1 }
  unfolding include_roles
  include_roles-reads u = ground arith

  pub include_all-reads :
      (u : User) → (include_all u w).1 ≡ record w { tick = (include_all u w).1.tick }
  unfolding include_all
  include_all-reads u = ground arith

  pub include_all-user :
      (u : User) (full : UserIncludeRole) {w' : World}
      → include_all u w ≡ (ok full, w')
      → full.user ≡ u
  unfolding include_all
  include_all-user u full h = ground arith

  find_user-ok :
      (test : User → Bool) (u : User)
      → (find_user test w).0 ≡ ok (some u)
      → p.users.find w.tick test w.users ≡ ok (some u)
  unfolding find_user
  find_user-ok test u h = h

module _ ⦃p : Platform⦄ (w : World) where
  -- A lookup of a user with its relations touches no table, whatever it answers.
  pub find_user_include-reads :
      (email : String)
      → (find_unique_user_include_role email w).1
        ≡ record w { tick = (find_unique_user_include_role email w).1.tick }
  unfolding find_unique_user_include_role
  find_user_include-reads email =
      let test = λ (x : User). x.email === email && not (is_some x.deleted_at) in
      let one = find_user-reads w test in
      elim (Result-cases (find_user test w).0) [
        | inr (e, q) ↦ ground arith
        | inl (o, q) ↦ elim (Option-cases o) [
          | inl nobody ↦ ground arith
          | inr (u, known) ↦
              let all = include_all-reads (find_user test w).1 u in
              elim (Result-cases (include_all u (find_user test w).1).0) [
                | inr (e, q₂) ↦ ground arith
                | inl (full, q₂) ↦ ground arith
              ]
        ]
      ]

module _ ⦃p : Platform⦄ (s : SoundTables p) (w : World) where
  pub find_user_include-some :
      (email : String) (full : UserIncludeRole) {w' : World}
      → find_unique_user_include_role email w ≡ (ok (some full), w')
      → (full.user.email ≡ email)
        × (full.user.deleted_at ≡ none)
        × Memᴰ full.user w.users
        × (w' ≡ record w { tick = w'.tick })
  unfolding find_unique_user_include_role
  find_user_include-some email full h =
      let test = λ (x : User). x.email === email && not (is_some x.deleted_at) in
      let (o, e₁, h₁) = step-ok (find_user test w) h in
      elim (Option-cases o) [
        | inl nobody ↦ absurd (ground arith)
        | inr (u, found) ↦
            let (full', e₂, h₂) = step-ok (include_all u (find_user test w).1) (rw found at h₁) in
            let (hit, mem) =
              s.users.find-some w.tick test w.users u (find_user-ok w test u (ground arith)) in
            let same = include_all-user (find_user test w).1 u full' e₂ in
            let all = include_all-reads (find_user test w).1 u in
            let one = find_user-reads w test in
            let this : full'.user ≡ full.user = ground arith in
            let user : u ≡ full.user = ground arith in
            rw (← user) (ground (arith, eq_iff u.email email), ground arith, mem, ground arith)
      ]

  pub find_token_include-some :
      (token : String) (row : TokenIncludeUser) {w' : World}
      → find_unique_refresh_token_include_user_role token w ≡ (ok (some row), w')
      → (row.row.token ≡ token) × Memᴰ row.row w.tokens × (w' ≡ record w { tick = w'.tick })
  unfolding find_unique_refresh_token_include_user_role
  find_token_include-some token row h =
      let test = λ (r : RefreshToken). r.token === token in
      let (o, e₁, h₁) =
        step-ok (p.tokens.find w.tick test w.tokens, record w { tick = w.tick + 1 }) h in
      elim (Option-cases o) [
        | inl nothing ↦ absurd (ground arith)
        | inr (r, found) ↦
            let (hit, mem) = s.tokens.find-some w.tick test w.tokens r (ground arith) in
            let v = record w { tick = w.tick + 1 } in
            let owner = λ (u : User). u.id == r.user_id in
            let (o', e₂, h₂) = step-ok (find_user owner v) (rw found at h₁) in
            let one = find_user-reads v owner in
            elim (Option-cases o') [
              | inl nobody ↦ absurd (ground arith)
              | inr (u, known) ↦
                  let (roles, e₃, h₃) =
                    step-ok (include_roles u (find_user owner v).1) (rw known at h₂) in
                  let two = include_roles-reads (find_user owner v).1 u in
                  let same : r ≡ row.row = ground arith in
                  rw (← same) (ground (arith, eq_iff r.token token), mem, ground arith)
            ]
      ]
