-- ===== src/Print/Numbers.antt =====
-- The printers of print.c write the decimal notation that `read_float` reads back.
use mathlib.Core.List.{map-append}
use mathlib.Core.Path.{subst}
use g_carvin.Base.{
  ℕ, zero, suc, ◌+◌, ◌*◌, ◌/◌, ◌%◌, ◌^◌, ◌≤◌, ◌<◌, ◌≡◌, refl, sym, ap, ◌∙◌, arith, false, some,
  List, [], ◌∷◌, ◌++◌, length, length-append, ◌==◌, if_false, if_cases, Bool-cases, ltb, ltb→lt,
  inl, inr, ==_iff,
}
use g_carvin.NutsBolts.{read_float}
use g_carvin.NutsBolts.Digits.{AllDigits, chars, value, Ends, read_float-whole}
use g_carvin.Print.{write_digits, print_uint32_base10}

-- Ten to a power.
abbrev pub pow10 : ℕ → ℕ
pow10 zero = 1
pow10 (suc k) = 10 * pow10 k

-- Some bytes are the digits of a number that is not zero, fewer than `k + 1` of them.
record Notation (n k : ℕ) (bytes : List ℕ) : Type 0 where
  pub first : ℕ
  pub others : List ℕ
  pub same : bytes ≡ chars (first ∷ others)
  pub digits : AllDigits (first ∷ others)
  pub number : value 0 (first ∷ others) ≡ n
  pub short : length others < k

AllDigits-append : (xs : List ℕ) (d : ℕ) → AllDigits xs → d < 10 → AllDigits (xs ++ d ∷ [])
AllDigits-append [] d h hd = (hd, tt)
AllDigits-append (x ∷ xs) d h hd = (h.0, AllDigits-append xs d h.1 hd)

value-append : (n : ℕ) (xs : List ℕ) (d : ℕ) → value n (xs ++ d ∷ []) ≡ value n xs * 10 + d
value-append n [] d = refl
value-append n (x ∷ xs) d = value-append (n * 10 + x) xs d

one_digit : (n k : ℕ) → n < 10 → 0 < k → Notation n k ((48 + n % 10) ∷ [])
one_digit n k h hk = record {
  first = n;
  others = [];
  same = ap (λ d. (48 + d) ∷ []) {x = n % 10} {y = n} (omega arith);
  digits = (h, tt);
  number = omega arith;
  short = hk;
}

more_digits :
    (n k : ℕ) (bytes : List ℕ)
    → Notation (n / 10) k bytes
    → Notation n (suc k) (bytes ++ (48 + n % 10) ∷ [])
more_digits n k bytes t = record {
  first = t.first;
  others = t.others ++ n % 10 ∷ [];
  same =
      ap (λ b. b ++ (48 + n % 10) ∷ []) t.same
      ∙ sym (map-append (λ d. 48 + d) (t.first ∷ t.others) (n % 10 ∷ []));
  digits = AllDigits-append (t.first ∷ t.others) (n % 10) t.digits (omega arith);
  number =
      value-append 0 (t.first ∷ t.others) (n % 10)
      ∙ (ap (λ m. m * 10 + n % 10) t.number ∙ omega arith);
  short = omega (arith, length-append t.others (n % 10 ∷ []), t.short);
}

write_digits-zero : (fuel : ℕ) → write_digits fuel 0 ≡ []
unfolding write_digits
write_digits-zero zero = refl
write_digits-zero (suc fuel) = refl

not_zero : (n : ℕ) → 0 < n → (n == 0) ≡ false
not_zero n h = ground arith

write_digits-suc :
    (fuel n : ℕ)
    → 0 < n
    → write_digits (suc fuel) n ≡ write_digits fuel (n / 10) ++ (48 + n % 10) ∷ []
unfolding write_digits
write_digits-suc fuel n pos = if_false _ _ (not_zero n pos)

write_digits-Notation :
    (fuel k n : ℕ) → 0 < n → n < pow10 k → k ≤ fuel → Notation n k (write_digits fuel n)
write_digits-Notation fuel zero n pos h fits = absurd (omega arith)
write_digits-Notation zero (suc k) n pos h fits = absurd (omega arith)
write_digits-Notation (suc fuel) (suc k) n pos h fits =
    subst (Notation n (suc k)) (sym (write_digits-suc fuel n pos)) (elim (Bool-cases (ltb n 10)) [
      | inl small ↦
          subst (λ front. Notation n (suc k) (front ++ (48 + n % 10) ∷ []))
            (sym (
              ap (write_digits fuel) {x = n / 10} {y = 0} (omega (arith, ltb→lt n 10 small))
              ∙ write_digits-zero fuel))
            (one_digit n (suc k) (ltb→lt n 10 small) (omega arith))
      | inr large ↦
          more_digits n k _
            (write_digits-Notation fuel k (n / 10) (ground arith) (omega arith) (omega arith))
    ])

read-Notation :
    (n : ℕ) (bytes rest : List ℕ)
    → Notation n 8 bytes
    → Ends rest
    → read_float (bytes ++ rest)
      ≡ some (record { negative = false; intval = n; exp_up = 0; exp_down = 0 }, rest)
read-Notation n bytes rest t ends =
    ap (λ b. read_float (b ++ rest)) t.same
    ∙ (read_float-whole t.first t.others rest t.digits t.short ends
        ∙ ap (λ m. some (record { negative = false; intval = m; exp_up = 0; exp_down = 0 }, rest))
            t.number)

print_uint32_base10-Notation : (n : ℕ) → n < 100000000 → Notation n 8 (print_uint32_base10 n)
unfolding print_uint32_base10
print_uint32_base10-Notation n h =
    if_cases (Notation n 8) (n == 0)
      (λ e.
        subst (λ d. Notation n 8 (d ∷ [])) {x = 48 + n % 10} {y = 48}
          (omega (arith, (==_iff n 0).0 e))
          (one_digit n 8 (omega (arith, (==_iff n 0).0 e)) (omega arith)))
      (λ e. write_digits-Notation 10 8 n (ground arith) h (omega arith))

-- A number below 2 to the power 24, which a float holds exactly, is printed so that `read_float` reads
-- its sign, digits and exponent back as they were before the conversion to a float, with nothing of
-- what follows, if that is neither a digit nor a point.
pub read_float-print_uint32_base10 :
    (n : ℕ) (rest : List ℕ)
    → n < 2 ^ 24
    → Ends rest
    → read_float (print_uint32_base10 n ++ rest)
      ≡ some (record { negative = false; intval = n; exp_up = 0; exp_down = 0 }, rest)
read_float-print_uint32_base10 n rest h ends =
    read-Notation n (print_uint32_base10 n) rest (print_uint32_base10-Notation n (omega (arith, h)))
      ends
