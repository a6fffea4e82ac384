-- ===== src/Protocol/Line/Clean.antt =====
-- What a G-code line means: blanks, block deletes and comments removed, letters raised.
use g_carvin.Base.{
  ℕ, zero, suc, ◌-◌, ◌<◌, ◌≡◌, refl, ◌&&◌, ◌||◌, List, [], ◌∷◌, leb, ◌==◌, if◌then◌else◌, length,
  arith, take, set,
}

pub data Mode : Type 0 where
  outside in_parentheses in_semicolon : Mode

abbrev pub raise : ℕ → ℕ
raise c = if leb b'a' c && leb c b'z' then c - 32 else c

-- The characters of a line that count. A comment in parentheses ends at the first `)`; one that a
-- semicolon opens lasts to the line's end.
unfoldable pub clean : Mode → List ℕ → List ℕ
clean m [] = []
clean outside (c ∷ cs) =
    let kept = raise c ∷ clean outside cs in
    let skipped = clean outside cs in
    let in_round = clean in_parentheses cs in
    let to_end = clean in_semicolon cs in
    if leb c b' ' || c == b'/'
    then skipped
    else if c == b'('
    then in_round
    else if c == b';'
    then to_end
    else kept
clean in_parentheses (c ∷ cs) =
    let out = clean outside cs in
    let in_round = clean in_parentheses cs in if c == b')' then out else in_round
clean in_semicolon (c ∷ cs) = clean in_semicolon cs

-- A C string: the characters up to the first zero.
unfoldable pub c_string : List ℕ → List ℕ
c_string [] = []
c_string (c ∷ cs) = let rest = c ∷ c_string cs in if c == 0 then [] else rest

abbrev pub AllPositive : List ℕ → Type 0
AllPositive [] = Unit {0}
AllPositive (c ∷ cs) = (0 < c) × AllPositive cs

pub clean-AllPositive : (m : Mode) (cs : List ℕ) → AllPositive (clean m cs)
unfolding clean
clean-AllPositive m [] = tt
clean-AllPositive outside (c ∷ cs) = ground (
  arith,
  clean-AllPositive outside cs,
  clean-AllPositive in_parentheses cs,
  clean-AllPositive in_semicolon cs,
)
clean-AllPositive in_parentheses (c ∷ cs) =
    ground (arith, clean-AllPositive outside cs, clean-AllPositive in_parentheses cs)
clean-AllPositive in_semicolon (c ∷ cs) = clean-AllPositive in_semicolon cs

-- Terminating an array behind `n` characters makes it the string of those.
pub c_string-set :
    (n : ℕ) (xs : List ℕ)
    → n < length xs
    → AllPositive (take n xs)
    → c_string (set xs n 0) ≡ take n xs
unfolding c_string
c_string-set n [] h p = absurd (omega arith)
c_string-set zero (x ∷ xs) h p = refl
c_string-set (suc n) (x ∷ xs) h p = ground (arith, c_string-set n xs)
