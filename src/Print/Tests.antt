-- ===== src/Print/Tests.antt =====
-- The printers at numbers of one, three and eight digits.
use g_carvin.Base.{◌≡◌, ◌++◌, refl, arith, false, [], ◌∷◌, some}
use g_carvin.NutsBolts.{read_float}
use g_carvin.Print.{print_uint8_base10, print_uint8_base2_ndigit, print_uint32_base10}
use g_carvin.Print.Numbers.{read_float-print_uint32_base10}

three_digits : print_uint8_base10 207 ≡ b'2' ∷ b'0' ∷ b'7' ∷ []
unfolding print_uint8_base10
three_digits = refl

binary : print_uint8_base2_ndigit 5 4 ≡ b'0' ∷ b'1' ∷ b'0' ∷ b'1' ∷ []
unfolding print_uint8_base2_ndigit
binary = refl

read_float-print_uint32_base10_example :
    read_float (print_uint32_base10 90210 ++ b'=' ∷ [])
    ≡ some (record { negative = false; intval = 90210; exp_up = 0; exp_down = 0 }, b'=' ∷ [])
read_float-print_uint32_base10_example =
    read_float-print_uint32_base10 90210 (b'=' ∷ []) (omega arith) (refl, refl)
