-- ===== src/Helpers/Names.antt =====
-- `generateCancelPaymentJobId` and `generateRoomUserId`: a name for each number.
use Prim.Native.String.{◌++◌ as str_append}
use text.Mathlib.TextLemmas.{append_cancel_left}
use capstone_home_care_be_mi.Common.{ℕ, ◌≡◌, sym, ap, ◌∙◌, String, arith}
use capstone_home_care_be_mi.Helpers.Otp.{decimal}
use capstone_home_care_be_mi.Helpers.Digits.{number_from, number_from-decimal}

unfoldable pub generate_cancel_payment_job_id : ℕ → String
generate_cancel_payment_job_id payment_id = str_append "paymentId-" (decimal payment_id)

unfoldable pub generate_room_user_id : ℕ → String
generate_room_user_id user_id = str_append "userId-" (decimal user_id)

decimal_inj : (a b : ℕ) → decimal a ≡ decimal b → a ≡ b
decimal_inj a b same =
    let read = sym (number_from-decimal a) ∙ ap (number_from 0) same ∙ number_from-decimal b in
    ground (arith, read)

-- Two payments have two job ids.
generate_cancel_payment_job_id_inj :
    (a b : ℕ) → generate_cancel_payment_job_id a ≡ generate_cancel_payment_job_id b → a ≡ b
unfolding generate_cancel_payment_job_id
generate_cancel_payment_job_id_inj a b same =
    decimal_inj a b (append_cancel_left "paymentId-" (decimal a) (decimal b) same)

-- Two users have two rooms.
generate_room_user_id_inj : (a b : ℕ) → generate_room_user_id a ≡ generate_room_user_id b → a ≡ b
unfolding generate_room_user_id
generate_room_user_id_inj a b same =
    decimal_inj a b (append_cancel_left "userId-" (decimal a) (decimal b) same)
