-- ===== src/Eeprom/Blocks.antt =====
-- The block copies of eeprom.c: what is read back after a write, and what the checksum misses.
use mathlib.Core.Path.{ap₂}
use g_carvin.Base.{
  ℕ, ◌+◌, ◌%◌, ◌<◌, ◌≡◌, refl, sym, ap, ◌∙◌, arith, ◌==◌, ==_iff, true, Bool, List, [], ◌∷◌, ◌++◌,
  length, if_true,
}
use g_carvin.Eeprom.{
  Mode, Memory, next_address, eeprom_get_char, add_to_checksum, eeprom_put_char, copy_out,
  memcpy_to_eeprom_with_checksum, memcpy_to_eeprom_no_checksum, copy_in,
  memcpy_from_eeprom_with_checksum, memcpy_from_eeprom_no_checksum,
}
use g_carvin.Eeprom.Bytes.{Programs, eeprom_put_char_lem}

pub next_address-suc : (a : ℕ) → a + 1 < 65536 → next_address a ≡ a + 1
unfolding next_address
next_address-suc a h = omega arith

-- The bytes stand one after the other from the address on.
pub HoldsAt : Memory → ℕ → List ℕ → Type 0
HoldsAt mem a [] = Unit
HoldsAt mem a (x ∷ xs) = (mem a ≡ x) × HoldsAt mem (next_address a) xs

pub HoldsAt-cons :
    (mem : Memory) (a x : ℕ) (xs : List ℕ)
    → mem a ≡ x
    → HoldsAt mem (next_address a) xs
    → HoldsAt mem a (x ∷ xs)
unfolding HoldsAt
HoldsAt-cons mem a x xs e h = (e, h)

pub HoldsAt-nil : (mem : Memory) (a : ℕ) → HoldsAt mem a []
unfolding HoldsAt
HoldsAt-nil mem a = tt

-- The checksum of a sequence of bytes.
unfoldable pub checksum_from : ℕ → List ℕ → ℕ
checksum_from c [] = c
checksum_from c (x ∷ xs) = checksum_from (add_to_checksum c x) xs

-- A block read returns the bytes that stand there and compares the byte behind them.
copy_in_lem :
    (xs : List ℕ) (k c a : ℕ) (mem : Memory)
    → HoldsAt mem a (xs ++ k ∷ [])
    → copy_in a c (length xs) mem ≡ (xs, checksum_from c xs == k)
unfolding copy_in HoldsAt checksum_from eeprom_get_char
copy_in_lem [] k c a mem (e, tt) = ap (λ v. ([], c == v)) e
copy_in_lem (x ∷ xs) k c a mem (e, h) =
    ap₂ (λ (v : ℕ) (r : List ℕ × Bool). (v ∷ r.0, r.1)) e
      (ap (λ v. copy_in (next_address a) (add_to_checksum c v) (length xs) mem) e
        ∙ copy_in_lem xs k (add_to_checksum c x) (next_address a) mem h)

module _ (program : Mode → ℕ → ℕ → ℕ) (laws : Programs program) where
  pub put_self : (a v : ℕ) (mem : Memory) → eeprom_put_char program a v mem a ≡ v
  put_self a v mem =
      eeprom_put_char_lem program laws a v mem a ∙ if_true v (mem a) ((==_iff a a).1 refl)

  put_below : (a d v : ℕ) (mem : Memory) → a < d → eeprom_put_char program d v mem a ≡ mem a
  put_below a d v mem h = eeprom_put_char_lem program laws d v mem a ∙ ground arith

  -- Nothing below the destination changes.
  pub copy_out-below :
      (xs : List ℕ) (a d c : ℕ) (mem : Memory)
      → a < d
      → d + length xs < 65536
      → copy_out program d c xs mem a ≡ mem a
  unfolding copy_out
  copy_out-below [] a d c mem h fits = put_below a d c mem h
  copy_out-below (x ∷ xs) a d c mem h fits =
      let next = next_address-suc d (omega arith) in
      copy_out-below xs a (next_address d) (add_to_checksum c x) _ (omega (arith, next))
        (omega (arith, next))
      ∙ put_below a d x mem h

  copy_out-HoldsAt :
      (xs : List ℕ) (d c : ℕ) (mem : Memory)
      → d + length xs < 65536
      → HoldsAt (copy_out program d c xs mem) d (xs ++ checksum_from c xs ∷ [])
  unfolding copy_out HoldsAt checksum_from
  copy_out-HoldsAt [] d c mem fits = (put_self d c mem, tt)
  copy_out-HoldsAt (x ∷ xs) d c mem fits =
      let next = next_address-suc d (omega arith) in
      (
        copy_out-below xs d (next_address d) (add_to_checksum c x) _ (omega (arith, next))
              (omega (arith, next))
            ∙ put_self d x mem,
        copy_out-HoldsAt xs (next_address d) (add_to_checksum c x) _ (omega (arith, next)),
      )

  -- A block that is written with its checksum, inside the address space, is read back as it was
  -- and its checksum is accepted, when the modes program a byte as the data sheet says.
  pub memcpy_with_checksum_round_trip :
      (source : List ℕ) (destination : ℕ) (mem : Memory)
      → destination + length source < 65536
      → memcpy_from_eeprom_with_checksum destination
          (length source)
          (memcpy_to_eeprom_with_checksum program destination source mem)
        ≡ (source, true)
  unfolding memcpy_from_eeprom_with_checksum memcpy_to_eeprom_with_checksum
  memcpy_with_checksum_round_trip source destination mem fits =
      copy_in_lem source (checksum_from 0 source) 0 destination _
        (copy_out-HoldsAt source destination 0 mem fits)
      ∙ ap (λ ok. (source, ok)) ((==_iff (checksum_from 0 source) _).1 refl)

  copy-below :
      (xs : List ℕ) (a d : ℕ) (mem : Memory)
      → a < d
      → d + length xs < 65536
      → memcpy_to_eeprom_no_checksum program d xs mem a ≡ mem a
  unfolding memcpy_to_eeprom_no_checksum
  copy-below [] a d mem h fits = refl
  copy-below (x ∷ xs) a d mem h fits =
      let next = next_address-suc d (omega arith) in
      copy-below xs a (next_address d) _ (omega (arith, next)) (omega (arith, next))
      ∙ put_below a d x mem h

  -- A block that is written without a checksum, inside the address space, is read back as it was,
  -- when the modes program a byte as the data sheet says.
  memcpy_no_checksum_round_trip :
      (source : List ℕ) (destination : ℕ) (mem : Memory)
      → destination + length source < 65536
      → memcpy_from_eeprom_no_checksum destination
          (length source)
          (memcpy_to_eeprom_no_checksum program destination source mem)
        ≡ source
  unfolding memcpy_from_eeprom_no_checksum memcpy_to_eeprom_no_checksum eeprom_get_char
  memcpy_no_checksum_round_trip [] destination mem fits = refl
  memcpy_no_checksum_round_trip (x ∷ xs) destination mem fits =
      let next = next_address-suc destination (omega arith) in
      ap₂ ◌∷◌
        (copy-below xs destination (next_address destination) _ (omega (arith, next))
            (omega (arith, next))
          ∙ put_self destination x mem)
        (memcpy_no_checksum_round_trip xs (next_address destination) _ (omega (arith, next)))

checksum_from-append :
    (xs ys : List ℕ) (c : ℕ) → checksum_from c (xs ++ ys) ≡ checksum_from (checksum_from c xs) ys
unfolding checksum_from
checksum_from-append [] ys c = refl
checksum_from-append (x ∷ xs) ys c = checksum_from-append xs ys (add_to_checksum c x)

add_to_checksum-positive : (c z : ℕ) → 0 < c → add_to_checksum c z ≡ (1 + z) % 256
unfolding add_to_checksum
add_to_checksum-positive c z h = ground arith

-- A block is accepted under a checksum that was made of any other block with the same last byte,
-- if neither running checksum was zero before that byte.
pub checksum_misses :
    (xs ys : List ℕ) (z a : ℕ) (mem : Memory)
    → 0 < checksum_from 0 xs
    → 0 < checksum_from 0 ys
    → HoldsAt mem a ((ys ++ z ∷ []) ++ checksum_from 0 (xs ++ z ∷ []) ∷ [])
    → memcpy_from_eeprom_with_checksum a (length (ys ++ z ∷ [])) mem ≡ (ys ++ z ∷ [], true)
unfolding memcpy_from_eeprom_with_checksum checksum_from
checksum_misses xs ys z a mem hx hy holds =
    let last = λ (zs : List ℕ) (h : 0 < checksum_from 0 zs).
      checksum_from-append zs (z ∷ []) 0 ∙ add_to_checksum-positive (checksum_from 0 zs) z h in
    copy_in_lem (ys ++ z ∷ []) _ 0 a mem holds
    ∙ ap (λ ok. (ys ++ z ∷ [], ok)) ((==_iff _ _).1 (last ys hy ∙ sym (last xs hx)))
