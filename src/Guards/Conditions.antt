-- ===== src/Guards/Conditions.antt =====
-- The two loops of authentication.guard.ts against what they mean: every guard passes, or one does;
-- and what a client is told where they refuse.
use capstone_home_care_be_mi.Common.{
  ◌≡◌, ◌≢◌, ◌↔◌, ◌⊎◌, inl, inr, refl, Bool, true, false, Option, some, none, List, [], ◌∷◌, arith,
  map,
}
use capstone_home_care_be_mi.Errors.{Error, Result, ok, err, is_http_exception, plain_unauthorized}
use capstone_home_care_be_mi.Platform.{Platform}
use capstone_home_care_be_mi.Guards.{
  Context, Guard, handle_and_condition, handle_or_condition, authentication_guard, as_http,
  last_http, AuthTypeDecoratorPayload, get_auth_type_value, ConditionGuard, run_condition,
  and_condition, or_condition, guard_of,
}

-- Every guard passes, one after another.
pub data AllPass : List Guard → Context → Context → Type 0 where
  done : {c : Context} → AllPass [] c c
  next :
      {g : Guard} {gs : List Guard} {c c₁ c₂ : Context}
      → g c ≡ (ok true, c₁)
      → AllPass gs c₁ c₂
      → AllPass (g ∷ gs) c c₂

-- One guard passes, and none before it does.
pub data OnePasses : List Guard → Context → Context → Type 0 where
  here :
      {g : Guard} {gs : List Guard} {c c₁ : Context} → g c ≡ (ok true, c₁) → OnePasses (g ∷ gs) c c₁
  later :
      {g : Guard} {gs : List Guard} {c c₂ : Context}
      → (g c).0 ≢ ok true
      → OnePasses gs (g c).1 c₂
      → OnePasses (g ∷ gs) c c₂

verdict : (r : Result Bool) → (r ≡ ok true) ⊎ ((r ≡ ok false) ⊎ ((e : Error) × (r ≡ err e)))
verdict (ok true) = inl refl
verdict (ok false) = inr (inl refl)
verdict (err e) = inr (inr (e, refl))

handle_and-AllPass :
    (gs : List Guard) (c c' : Context) → handle_and_condition gs c ≡ (ok true, c') → AllPass gs c c'
unfolding handle_and_condition
handle_and-AllPass [] c c' h =
    let same : c ≡ c' = ground arith in rw (← same) (AllPass.done {c = c})
handle_and-AllPass (g ∷ gs) c c' h = elim (verdict (g c).0) [
  | inl e ↦
      AllPass.next {c₁ = (g c).1} (ground arith) (handle_and-AllPass gs (g c).1 c' (ground arith))
  | inr (inl e) ↦ absurd (ground arith)
  | inr (inr (x, e)) ↦ absurd (ground arith)
]

AllPass-handle_and :
    (gs : List Guard) (c c' : Context) → AllPass gs c c' → handle_and_condition gs c ≡ (ok true, c')
unfolding handle_and_condition
AllPass-handle_and [] c c' AllPass.done = refl
AllPass-handle_and (g ∷ gs) c c' (AllPass.next {c₁ = c₁} e rest) =
    let more = AllPass-handle_and gs c₁ c' rest in ground arith

-- The loop for the condition and passes just where every guard passes in turn.
pub handle_and_iff :
    (gs : List Guard) (c c' : Context) → handle_and_condition gs c ≡ (ok true, c') ↔ AllPass gs c c'
handle_and_iff gs c c' = (handle_and-AllPass gs c c', AllPass-handle_and gs c c')

handle_or-OnePasses :
    (last : Option Error) (gs : List Guard) (c c' : Context)
    → handle_or_condition last gs c ≡ (ok true, c')
    → OnePasses gs c c'
unfolding handle_or_condition
handle_or-OnePasses last [] c c' h = absurd (ground arith)
handle_or-OnePasses last (g ∷ gs) c c' h = elim (verdict (g c).0) [
  | inl e ↦ OnePasses.here (ground arith)
  | inr (inl e) ↦
      OnePasses.later (λ q. ground arith) (handle_or-OnePasses last gs (g c).1 c' (ground arith))
  | inr (inr (x, e)) ↦
      OnePasses.later (λ q. ground arith)
        (handle_or-OnePasses (some x) gs (g c).1 c' (ground arith))
]

OnePasses-handle_or :
    (last : Option Error) (gs : List Guard) (c c' : Context)
    → OnePasses gs c c'
    → handle_or_condition last gs c ≡ (ok true, c')
unfolding handle_or_condition
OnePasses-handle_or last [] c c' x = elim x [ ]
OnePasses-handle_or last (g ∷ gs) c c' (OnePasses.here e) = ground arith
OnePasses-handle_or last (g ∷ gs) c c' (OnePasses.later not_here rest) = elim (verdict (g c).0) [
  | inl e ↦ absurd (not_here e)
  | inr (inl e) ↦ let more = OnePasses-handle_or last gs (g c).1 c' rest in ground arith
  | inr (inr (x, e)) ↦ let more = OnePasses-handle_or (some x) gs (g c).1 c' rest in ground arith
]

-- The loop for the condition or passes just where one guard passes and none before it does, on the
-- request as the refusals left it.
pub handle_or_iff :
    (last : Option Error) (gs : List Guard) (c c' : Context)
    → handle_or_condition last gs c ≡ (ok true, c') ↔ OnePasses gs c c'
handle_or_iff last gs c c' = (handle_or-OnePasses last gs c c', OnePasses-handle_or last gs c c')

-- The loop for the condition and passes just where every guard passes in turn; the loop for the
-- condition or passes just where one guard passes and none before it does, on the request as the
-- refusals left it.
pub conditions_iff :
    (gs : List Guard) (c c' : Context)
    → (handle_and_condition gs c ≡ (ok true, c') ↔ AllPass gs c c')
      × ((last : Option Error) → handle_or_condition last gs c ≡ (ok true, c') ↔ OnePasses gs c c')
conditions_iff gs c c' = (handle_and_iff gs c c', λ last. handle_or_iff last gs c c')

-- A refusal of the loops: never `false`, and what is thrown is an `HttpException`.
abbrev pub IsHttp : Result Bool → Type 0
IsHttp r = (r ≡ ok true) ⊎ ((e : Error) × (r ≡ err e) × (is_http_exception e ≡ true))

as_http-IsHttp : (e : Error) → is_http_exception (as_http e) ≡ true
as_http-IsHttp e = ground arith

handle_and-IsHttp : (gs : List Guard) (c : Context) → IsHttp (handle_and_condition gs c).0
unfolding handle_and_condition
handle_and-IsHttp [] c = inl refl
handle_and-IsHttp (g ∷ gs) c = elim (verdict (g c).0) [
  | inl e ↦ rw (e, handle_and_condition) (handle_and-IsHttp gs (g c).1)
  | inr (inl e) ↦ rw (e, handle_and_condition) (inr (plain_unauthorized, refl, refl))
  | inr (inr (x, e)) ↦ rw (e, handle_and_condition) (inr (as_http x, refl, as_http-IsHttp x))
]

last_http-IsHttp : (last : Option Error) → is_http_exception (last_http last) ≡ true
last_http-IsHttp none = refl
last_http-IsHttp (some e) = as_http-IsHttp e

handle_or-IsHttp :
    (last : Option Error) (gs : List Guard) (c : Context) → IsHttp (handle_or_condition last gs c).0
unfolding handle_or_condition
handle_or-IsHttp last [] c = inr (last_http last, refl, last_http-IsHttp last)
handle_or-IsHttp last (g ∷ gs) c = elim (verdict (g c).0) [
  | inl e ↦ rw (e, handle_or_condition) (inl refl)
  | inr (inl e) ↦ rw (e, handle_or_condition) (handle_or-IsHttp last gs (g c).1)
  | inr (inr (x, e)) ↦ rw (e, handle_or_condition) (handle_or-IsHttp (some x) gs (g c).1)
]

run_condition-IsHttp :
    (k : ConditionGuard) (gs : List Guard) (c : Context) → IsHttp (run_condition k gs c).0
run_condition-IsHttp and_condition gs c = handle_and-IsHttp gs c
run_condition-IsHttp or_condition gs c = handle_or-IsHttp none gs c

module _ ⦃p : Platform⦄ where
  -- Whatever the decorator, AuthenticationGuard either answers true or throws an HttpException.
  pub authentication_guard-IsHttp :
      (decorated : Option AuthTypeDecoratorPayload) (c : Context)
      → IsHttp (authentication_guard decorated c).0
  unfolding authentication_guard
  authentication_guard-IsHttp decorated c =
      let value = get_auth_type_value decorated in
      run_condition-IsHttp value.condition (map guard_of value.auth_types) c
