-- ===== src/Auth/RegisterTests.antt =====
-- A registration beside a member that is there, by backend/src/auth/auth.service.ts.
use hub_assist.Common.{ℕ, ◌≡◌, refl, Bool, true, Option, [], ◌∷◌, ◌==◌, ==_refl, ok, err, arith}
use hub_assist.Auth.Register.{Member, Registration, new_member, register, email_taken}
use hub_assist.Auth.RegisterLaws.{IsWelcome, register-IsWelcome}

abbrev hash : ℕ → ℕ → ℕ
hash salt text = text

abbrev compare_hash : ℕ → ℕ → Bool
compare_hash text hashed = text == hashed

abbrev any_password : ℕ → Bool
any_password password = true

abbrev kept : Option ℕ → Option ℕ
kept column = column

abbrev first : Registration
first = record { now = 1000; id = 1; otp = 123456; password_salt = 5; otp_salt = 6 }

abbrev second : Registration
second = record { now = 2000; id = 2; otp = 654321; password_salt = 7; otp_salt = 8 }

abbrev ann : Member
ann = new_member hash compare_hash any_password kept first 11 77

abbrev bea : Member
bea = new_member hash compare_hash any_password kept second 22 88

bea_registers :
    register hash compare_hash any_password kept second 22 88 (ann ∷ []) ≡ ok (ann ∷ bea ∷ [])
unfolding register
bea_registers = refl

bea_again :
    register hash compare_hash any_password kept second 22 88 (ann ∷ bea ∷ []) ≡ err email_taken
unfolding register
bea_again = refl

register-IsWelcome_example :
    IsWelcome hash compare_hash any_password kept second 22 88 602000 (ann ∷ bea ∷ [])
register-IsWelcome_example =
    register-IsWelcome hash compare_hash any_password kept second 22 88 602000 (ann ∷ [])
      (ann ∷ bea ∷ []) (λ salt text. ==_refl text) bea_registers (omega arith)
