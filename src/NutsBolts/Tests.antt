-- ===== src/NutsBolts/Tests.antt =====
-- `read_float` on a word with a sign and a fraction, and on one with too many digits.
use g_carvin.Base.{◌≡◌, refl, false, some, none}
use g_carvin.Examples.{codes}
use g_carvin.NutsBolts.{read_float, scan, scan_digit, finish}

ninth_digit :
    read_float (codes "1234567890.5F")
    ≡ some (record { negative = false; intval = 12345678; exp_up = 2; exp_down = 0 }, codes "F")
unfolding read_float scan scan_digit finish
ninth_digit = refl

no_digit : read_float (codes "-.X1") ≡ none
unfolding read_float scan scan_digit finish
no_digit = refl
