-- ===== src/NutsBolts/Digits.antt =====
-- What `read_float` of nuts_bolts.c makes of the decimal notation of a number.
use g_carvin.Base.{
  ℕ, ◌+◌, ◌-◌, ◌*◌, ◌≤◌, ◌<◌, ◌≡◌, refl, ap, ◌∙◌, arith, Bool, true, false, not, ◌&&◌, some, List,
  [], ◌∷◌, ◌++◌, map, length, leb, ◌==◌, if◌then◌else◌, if_true, if_false,
}
use g_carvin.NutsBolts.{Scan, start, is_digit, scan_digit, scan, finish, read_float}

abbrev pub AllDigits : List ℕ → Type 0
AllDigits [] = Unit
AllDigits (d ∷ ds) = (d < 10) × AllDigits ds

-- The characters of some digits.
abbrev pub chars : List ℕ → List ℕ
chars ds = map (λ d. 48 + d) ds

-- The number that digits stand for, behind a number that was read before them.
abbrev pub value : ℕ → List ℕ → ℕ
value n [] = n
value n (d ∷ ds) = value (n * 10 + d) ds

-- What follows a number is no digit and no point.
abbrev pub Ends : List ℕ → Type 0
Ends [] = Unit
Ends (c ∷ cs) = (is_digit c ≡ false) × ((c == b'.') ≡ false)

take_in : List ℕ → Scan → Scan
take_in [] s = s
take_in (d ∷ ds) s = take_in ds (scan_digit d s)

le→leb : (a b : ℕ) → a ≤ b → leb a b ≡ true
le→leb a b h = ground arith

char_is_digit : (d : ℕ) → d < 10 → is_digit (48 + d) ≡ true
char_is_digit d h = ground arith

scan-chars :
    (ds rest : List ℕ) (s : Scan)
    → AllDigits ds
    → scan (chars ds ++ rest) s ≡ scan rest (take_in ds s)
unfolding scan take_in
scan-chars [] rest s h = refl
scan-chars (d ∷ ds) rest s h =
    if_true _ _ (char_is_digit d h.0)
    ∙ (ap (λ k. scan (chars ds ++ rest) (scan_digit k s)) {x = 48 + d - 48} {y = d} (omega arith)
        ∙ scan-chars ds rest (scan_digit d s) h.1)

scan-Ends : (rest : List ℕ) (s : Scan) → Ends rest → scan rest s ≡ (s, rest)
unfolding scan
scan-Ends [] s h = refl
scan-Ends (c ∷ cs) s h =
    if_false _ _ h.0 ∙ if_false _ _ (ap (λ point. point && not s.isdecimal) h.1)

-- Digits that there is room for are all taken in.
taken : List ℕ → Scan → Scan
taken ds s = record s {
  intval = value s.intval ds;
  exp_down = if s.isdecimal then s.exp_down + length ds else s.exp_down;
  ndigit = s.ndigit + length ds;
}

scan_digit-room : (d : ℕ) (s : Scan) → s.ndigit + 1 ≤ 8 → scan_digit d s ≡ taken (d ∷ []) s
unfolding scan_digit taken
scan_digit-room d s h = if_true _ _ (le→leb _ 8 h)

taken-taken : (d : ℕ) (ds : List ℕ) (s : Scan) → taken ds (taken (d ∷ []) s) ≡ taken (d ∷ ds) s
unfolding taken
taken-taken d ds s = ground arith

take_in-taken : (ds : List ℕ) (s : Scan) → s.ndigit + length ds ≤ 8 → take_in ds s ≡ taken ds s
unfolding take_in taken
take_in-taken [] s h = ground arith
take_in-taken (d ∷ ds) s h =
    ap (take_in ds) (scan_digit-room d s (omega arith))
    ∙ (take_in-taken ds (taken (d ∷ []) s) (omega arith) ∙ taken-taken d ds s)

-- The decimal notation of a number: a sign, digits, and a point with more digits behind it.
pub data Sign : Type 0 where
  minus plus none : Sign

abbrev pub sign_chars : Sign → List ℕ
sign_chars minus = b'-' ∷ []
sign_chars plus = b'+' ∷ []
sign_chars none = []

abbrev pub is_minus : Sign → Bool
is_minus minus = true
is_minus _ = false

scan-point :
    (cs : List ℕ) (s : Scan)
    → s.isdecimal ≡ false
    → scan (b'.' ∷ cs) s ≡ scan cs (record s { isdecimal = true })
unfolding scan
scan-point cs s h = if_true _ _ (ap not h)

first_char : (d c : ℕ) → c < 48 → ((48 + d) == c) ≡ false
first_char d c h = ground arith

module _ (d : ℕ) (ip fp rest : List ℕ) (hi : AllDigits (d ∷ ip)) (hf : AllDigits fp)
    (room : length ip + length fp < 8) (ends : Ends rest) where
  notation : List ℕ
  notation = chars (d ∷ ip) ++ (b'.' ∷ (chars fp ++ rest))

  before_point : Scan
  before_point = record (taken (d ∷ ip) start) { isdecimal = true }

  scan-notation : scan notation start ≡ (taken fp before_point, rest)
  unfolding notation before_point taken
  scan-notation =
      scan-chars (d ∷ ip) (b'.' ∷ (chars fp ++ rest)) start hi
      ∙ (ap (scan (b'.' ∷ (chars fp ++ rest))) (take_in-taken (d ∷ ip) start (omega arith))
          ∙ (scan-point (chars fp ++ rest) (taken (d ∷ ip) start) refl
              ∙ (scan-chars fp rest before_point hf
                  ∙ (ap (scan rest) (take_in-taken fp before_point (omega arith))
                      ∙ scan-Ends rest (taken fp before_point) ends))))

  finish-notation :
      (negative : Bool)
      → finish negative (scan notation start)
        ≡ some (
          record {
            negative = negative;
            intval = value (value 0 (d ∷ ip)) fp;
            exp_up = 0;
            exp_down = length fp;
          },
          rest,
        )
  unfolding finish taken before_point
  finish-notation negative = ap (finish negative) scan-notation ∙ ground arith

-- A number is read back from its decimal notation, exactly and up to its end, if it has a digit
-- before the point, no more than eight in all, and is followed by neither a digit nor a point.
read_float_lem :
    (sign : Sign) (d : ℕ) (ip fp rest : List ℕ)
    → AllDigits (d ∷ ip)
    → AllDigits fp
    → length ip + length fp < 8
    → Ends rest
    → read_float (sign_chars sign ++ (chars (d ∷ ip) ++ (b'.' ∷ (chars fp ++ rest))))
      ≡ some (
        record {
          negative = is_minus sign;
          intval = value (value 0 (d ∷ ip)) fp;
          exp_up = 0;
          exp_down = length fp;
        },
        rest,
      )
unfolding read_float notation
read_float_lem minus d ip fp rest hi hf room ends =
    finish-notation d ip fp rest hi hf room ends true
read_float_lem plus d ip fp rest hi hf room ends =
    finish-notation d ip fp rest hi hf room ends false
read_float_lem none d ip fp rest hi hf room ends =
    if_false _ _ (first_char d b'-' (omega arith))
    ∙ (if_false _ _ (first_char d b'+' (omega arith))
        ∙ finish-notation d ip fp rest hi hf room ends false)

-- The same for a whole number with no sign and no point.
pub read_float-whole :
    (d : ℕ) (ip rest : List ℕ)
    → AllDigits (d ∷ ip)
    → length ip < 8
    → Ends rest
    → read_float (chars (d ∷ ip) ++ rest)
      ≡ some
          (record { negative = false; intval = value 0 (d ∷ ip); exp_up = 0; exp_down = 0 }, rest)
unfolding read_float finish taken
read_float-whole d ip rest hi room ends =
    if_false _ _ (first_char d b'-' (omega arith))
    ∙ (if_false _ _ (first_char d b'+' (omega arith))
        ∙ (ap (finish false) (
              scan-chars (d ∷ ip) rest start hi
              ∙ (ap (scan rest) (take_in-taken (d ∷ ip) start (omega arith))
                  ∙ scan-Ends rest (taken (d ∷ ip) start) ends))
            ∙ ground arith))
