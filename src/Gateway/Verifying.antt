-- ===== src/Gateway/Verifying.antt =====
-- A change of a provider's status, from the request at the gateway to the table of providers.
use capstone_home_care_be_mi.Common.{
  ℕ, ◌≡◌, ◌⊎◌, inl, inr, refl, true, none, some, Option, String, ◌===◌, eq_iff, List, [], ◌∷◌, map,
  Memᴰ, ◌==◌, arith, Bool-cases,
}
use mathlib.Core.List.Memᴰ.{not-nil}
use capstone_home_care_be_mi.Data.{ServiceProvider, VerificationStatus, verified, pending, rejected}
use capstone_home_care_be_mi.Errors.{ok}
use capstone_home_care_be_mi.Platform.{Platform}
use capstone_home_care_be_mi.Platform.Sound.{SoundTables, LiveTables, SoundReads}
use capstone_home_care_be_mi.World.{World}
use capstone_home_care_be_mi.World.Laws.{Result-cases}
use capstone_home_care_be_mi.Guards.{
  Request, Context, Guard, access_token_guard, authentication_guard, guard_of, handle_and_condition,
}
use capstone_home_care_be_mi.Guards.Reading.{access_token_guard-IsTicked, IsTicked-providers}
use capstone_home_care_be_mi.Guards.Permission.{IsAdmitted, access_token_guard-IsAdmitted}
use capstone_home_care_be_mi.Managers.{UpdateStatusProviderBody, update_provider_status}
use capstone_home_care_be_mi.Managers.Status.{
  verifier_left, IsChanged, update_provider_status-cases,
}
use capstone_home_care_be_mi.Schemas.Zod.{Fields, Value, text, number, lookup}
use capstone_home_care_be_mi.Schemas.Bodies.{update_status_provider_body_schema}
use capstone_home_care_be_mi.Gateway.Wire.{Framework, answer}
use capstone_home_care_be_mi.Gateway.Payloads.{
  object, read_update_status, text_of, number_of, verification_status_of,
}
use capstone_home_care_be_mi.Gateway.Requests.{change_status_request}
use capstone_home_care_be_mi.Gateway.Deliver.{handle-IsServed}
use capstone_home_care_be_mi.Gateway.Logins.{bind-some, text_of-some}

-- The user that a provider is verified by is that of a row as it was, if there is one at all.
abbrev pub NoNewVerifier : World → World → Type 0
NoNewVerifier w w' =
    (x : ServiceProvider)
    → Memᴰ x w'.providers
    → (x.verified_by_id ≡ none)
      ⊎ ((y : ServiceProvider) × Memᴰ y w.providers
          × (x.id ≡ y.id)
          × (x.verified_by_id ≡ y.verified_by_id))

mem_map :
    {A B : Type 0} (g : A → B) (xs : List A) (y : B)
    → Memᴰ y (map g xs)
    → (x : A) × Memᴰ x xs × (y ≡ g x)
mem_map g [] y m = absurd (not-nil m)
mem_map g (x ∷ xs) y (Memᴰ.head e) = (x, Memᴰ.head refl, e)
mem_map g (x ∷ xs) y (Memᴰ.tail m) = let (a, n, e) = mem_map g xs y m in (a, Memᴰ.tail n, e)

decided-unsigned :
    (status : VerificationStatus) (before : Option ℕ)
    → (verifier_left status none before ≡ none) ⊎ (verifier_left status none before ≡ before)
decided-unsigned verified before = inr refl
decided-unsigned pending before = inl refl
decided-unsigned rejected before = inl refl

IsChanged-NoNewVerifier :
    ⦃p : Platform⦄ (body : UpdateStatusProviderBody) (w w' : World)
    → IsChanged body none w w'
    → NoNewVerifier w w'
IsChanged-NoNewVerifier body w w' (now, left) x m =
    let (y, n, e) = mem_map _ w.providers x (rw left at m) in
    elim (Bool-cases (y.id == body.id)) [
      | inr other ↦ inr (y, n, ground arith, ground arith)
      | inl same ↦ elim (decided-unsigned body.verification_status y.verified_by_id) [
        | inl q ↦ inl (ground arith)
        | inr r ↦ inr (y, n, ground arith, ground arith)
      ]
    ]

abbrev pub status_text : VerificationStatus → String
status_text pending = "PENDING"
status_text verified = "VERIFIED"
status_text rejected = "REJECTED"

status_text-verification_status_of :
    (s : String) (status : VerificationStatus)
    → verification_status_of s ≡ some status
    → s ≡ status_text status
status_text-verification_status_of s status h = elim (Bool-cases ("PENDING" === s)) [
  | inl e ↦
      let same : pending ≡ status = ground arith in rw (← same) (ground (arith, eq_iff "PENDING" s))
  | inr e ↦ elim (Bool-cases ("VERIFIED" === s)) [
    | inl e' ↦
        let same : verified ≡ status = ground arith in
        rw (← same) (ground (arith, eq_iff "VERIFIED" s))
    | inr e' ↦ elim (Bool-cases ("REJECTED" === s)) [
      | inl e'' ↦
          let same : rejected ≡ status = ground arith in
          rw (← same) (ground (arith, eq_iff "REJECTED" s))
      | inr e'' ↦ absurd (ground arith)
    ]
  ]
]

number_of-some : (o : Option Value) (n : ℕ) → number_of o ≡ some n → o ≡ some (number n)
number_of-some o n h = ground arith

-- The id and the status that the parsed data of a request hold.
pub record IsDecisionOf (out : Fields) (body : UpdateStatusProviderBody) : Type 0 where
  pub id : lookup "id" out ≡ some (number body.id)
  pub status : lookup "verificationStatus" out ≡ some (text (status_text body.verification_status))

read_update_status-IsDecisionOf :
    (out : Fields) (body : UpdateStatusProviderBody)
    → read_update_status (object out) ≡ some body
    → IsDecisionOf out body
unfolding read_update_status
read_update_status-IsDecisionOf out body h =
    let (n, e₁, h₁) = bind-some (number_of (lookup "id" out)) _ _ h in
    let (s, e₂, h₂) = bind-some (text_of (lookup "verificationStatus" out)) _ _ h₁ in
    let (status, e₃, h₃) = bind-some (verification_status_of s) _ _ h₂ in
    let same = status_text-verification_status_of s status e₃ in
    record {
      id = number_of-some (lookup "id" out) body.id (ground arith);
      status = text_of-some (lookup "verificationStatus" out) _ (ground arith);
    }

-- The request was admitted, and the provider that its data name was rewritten with no user to have
-- verified it.
pub record IsVerified ⦃p : Platform⦄ (f : Framework) (request : Request) (v : Fields) (w w' : World)
    : Type 0 where
  pub passed : Context
  pub admitted : IsAdmitted (record { request = request; world = w }) passed
  pub out : Fields
  pub parsed : f.zod.parse update_status_provider_body_schema v ≡ some out
  pub body : UpdateStatusProviderBody
  pub read : IsDecisionOf out body
  pub changed : IsChanged body none w w'
  pub unsigned : NoNewVerifier w w'

and_one :
    (g : Guard) (c : Context)
    → (handle_and_condition (g ∷ []) c).0 ≡ ok true
    → g c ≡ (ok true, (handle_and_condition (g ∷ []) c).1)
unfolding handle_and_condition
and_one g c h = elim (Result-cases (g c).0) [
  | inr (e, q) ↦ absurd (ground arith)
  | inl (b, q) ↦ ground arith
]

module _ ⦃p : Platform⦄ where
  -- A handler with no decorator is behind `AccessTokenGuard` alone.
  guard-admits :
      (c : Context)
      → (authentication_guard none c).0 ≡ ok true
      → access_token_guard c ≡ (ok true, (authentication_guard none c).1)
  unfolding authentication_guard guard_of
  guard-admits c h = and_one access_token_guard c h

module _ ⦃p : Platform⦄ (f : Framework) (s : SoundTables p) (live : LiveTables p)
    (reads : SoundReads p) (w : World) where
  update_unsigned :
      (body : UpdateStatusProviderBody) (v : World) {w' : World}
      → update_provider_status body none v ≡ (ok tt, w')
      → IsChanged body none v w'
  update_unsigned body v h = elim (update_provider_status-cases s live v body none) [
    | inl (e, _, _) ↦ absurd (ground arith)
    | inr (x, _, _, rest) ↦ elim rest [
      | inl (e, _, _) ↦ absurd (ground arith)
      | inr (_, _, (now, left)) ↦ (now, ground arith)
    ]
  ]

  -- Given sound and live tables and sound reads of roles and permissions: when the gateway answers
  -- a change of a provider's status, AccessTokenGuard admitted the request, the provider with the
  -- id in the parsed body has the status there and no other is rewritten, and no provider has a
  -- verifier that it did not have before.
  pub change_status_request-IsVerified :
      (request : Request) (v : Fields) {w' : World}
      → change_status_request f request v w ≡ (answer tt, w')
      → IsVerified f request v w w'
  unfolding change_status_request
  change_status_request-IsVerified request v {w'} h =
      let c : Context = record { request = request; world = w } in
      let passed = (authentication_guard none c).1 in
      elim (Result-cases (authentication_guard none c).0) [
        | inr (e, q) ↦ absurd (ground arith)
        | inl (b, q) ↦ elim (Bool-cases b) [
          | inr e ↦ absurd (ground arith)
          | inl e ↦
              let through = guard-admits c (ground arith) in
              let i =
                handle-IsServed f update_status_provider_body_schema
                  (λ x. read_update_status (object x)) (λ x. update_provider_status x none) v
                  passed.world tt {w' = w'} (ground arith) in
              let kept : passed.world.providers ≡ w.providers =
                (let e' = IsTicked-providers w _ (access_token_guard-IsTicked c) in ground arith) in
              let (now, left) = update_unsigned i.called passed.world i.returned in
              let changed : IsChanged i.called none w w' = (now, rw kept at left) in
              record {
                passed = passed;
                admitted = access_token_guard-IsAdmitted reads c passed through;
                out = i.out;
                parsed = i.parsed;
                body = i.called;
                read = read_update_status-IsDecisionOf i.out i.called i.reads;
                changed = changed;
                unsigned = IsChanged-NoNewVerifier i.called w w' changed;
              }
        ]
      ]
