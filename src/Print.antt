-- ===== src/Print.antt =====
-- print.c: the printers of whole numbers. What they give to `serial_write` is a list of bytes.
pub mod Numbers
mod Tests
use g_carvin.Base.{
  ℕ, zero, suc, ◌+◌, ◌/◌, ◌%◌, Bool, true, false, List, [], ◌∷◌, ◌++◌, leb, ◌==◌, if◌then◌else◌,
}

-- `digit_a` and `digit_b` are zero where there is no such digit.
unfoldable pub print_uint8_base10 : ℕ → List ℕ
print_uint8_base10 n =
    if leb 100 n
    then (48 + n / 10 / 10) ∷ (48 + n / 10 % 10) ∷ (48 + n % 10) ∷ []
    else if leb 10 n
    then (48 + n / 10) ∷ (48 + n % 10) ∷ []
    else (48 + n) ∷ []

-- The buffer is filled from the last binary digit on and written backwards.
unfoldable pub print_uint8_base2_ndigit : ℕ → ℕ → List ℕ
print_uint8_base2_ndigit n zero = []
print_uint8_base2_ndigit n (suc digits) =
    print_uint8_base2_ndigit (n / 2) digits ++ (48 + n % 2) ∷ []

-- The loop that fills the buffer, on fuel, and the one that writes it backwards.
unfoldable pub write_digits : ℕ → ℕ → List ℕ
write_digits zero n = []
write_digits (suc fuel) n =
    let written = write_digits fuel (n / 10) ++ (48 + n % 10) ∷ [] in if n == 0 then [] else written

-- The buffer has room for ten digits.
unfoldable pub print_uint32_base10 : ℕ → List ℕ
print_uint32_base10 n = if n == 0 then b'0' ∷ [] else write_digits 10 n
