-- ===== src/Gcode/Untouched.antt =====
-- What the commands of gcode.c leave alone in the block: the value words and their tracking bits.
use g_carvin.Base.{ℕ, ◌≡◌, refl, ◌∙◌, ◌&&◌, ◌||◌, [], ◌∷◌, leb, ◌==◌, if◌then◌else◌, if_ind}
use g_carvin.Base.Status.{Result, ok, AllOk, AllOk-bind, AllOk-weaken, ◌>>=◌}
use g_carvin.Gcode.{Block, elem}
use g_carvin.Gcode.Commands.{
  Command, claim_axis, non_modal, non_modal_axis, motion_mode, motion_axis, distance_mode,
  tool_length_mode, g_setting, g_command, m_command,
}

-- The two blocks have the same value words and the same tracking bits of words.
pub record SameWords (b c : Block) : Type 0 where
  pub values : c.values ≡ b.values
  pub value_words : c.value_words ≡ b.value_words
  pub command_words : c.command_words ≡ b.command_words

same :
    {b c : Block}
    → c.values ≡ b.values
    → c.value_words ≡ b.value_words
    → c.command_words ≡ b.command_words
    → SameWords b c
same p q r = record { values = p; value_words = q; command_words = r }

SameWords-trans : (a b c : Block) → SameWords a b → SameWords b c → SameWords a c
SameWords-trans a b c p q = record {
  values = q.values ∙ p.values;
  value_words = q.value_words ∙ p.value_words;
  command_words = q.command_words ∙ p.command_words;
}

abbrev Keeps : Block → Result Command → Type 0
Keeps b = AllOk (λ (d : Command). SameWords b d.block)

claim_axis-SameWords : (by : ℕ) (b : Block) → AllOk (SameWords b) (claim_axis by b)
unfolding claim_axis
claim_axis-SameWords by b =
    if_ind (AllOk (SameWords b)) (b.axis_command == 0) (same refl refl refl) tt

-- A command behind the claim of an axis command.
claimed :
    (b : Block) (r : Result Block) (next : Block → Result Command)
    → AllOk (SameWords b) r
    → ((c : Block) → Keeps c (next c))
    → Keeps b (r >>= next)
claimed b r next h step =
    AllOk-bind (SameWords b) (λ (d : Command). SameWords b d.block) r next h
      (λ c p.
        AllOk-weaken (λ (d : Command). SameWords c d.block) _ (next c) (step c)
          (λ d q. SameWords-trans b c d.block p q))

non_modal-SameWords : (v m : ℕ) (b : Block) → Keeps b (non_modal v m b)
unfolding non_modal
non_modal-SameWords v m b =
    if_ind (Keeps b) (elem v (28 ∷ 30 ∷ 92 ∷ []))
      (if_ind (Keeps b) (m == 0 || m == 10) (same refl refl refl) tt) (same refl refl refl)

non_modal_axis-SameWords : (v m : ℕ) (b : Block) → Keeps b (non_modal_axis v m b)
unfolding non_modal_axis
non_modal_axis-SameWords v m b =
    claimed b (if m == 0 then claim_axis 1 b else ok b) (non_modal v m)
      (if_ind (AllOk (SameWords b)) (m == 0) (claim_axis-SameWords 1 b) (same refl refl refl))
      (non_modal-SameWords v m)

motion_mode-SameWords : (v m : ℕ) (b : Block) → Keeps b (motion_mode v m b)
unfolding motion_mode
motion_mode-SameWords v m b =
    if_ind (Keeps b) (v == 38)
      (if_ind (Keeps b) (elem m (20 ∷ 30 ∷ 40 ∷ 50 ∷ [])) (same refl refl refl) tt)
      (same refl refl refl)

motion_axis-SameWords : (v m : ℕ) (b : Block) → Keeps b (motion_axis v m b)
unfolding motion_axis
motion_axis-SameWords v m b =
    claimed b (claim_axis 2 b) (motion_mode v m) (claim_axis-SameWords 2 b)
      (motion_mode-SameWords v m)

distance_mode-SameWords : (v m : ℕ) (b : Block) → Keeps b (distance_mode v m b)
unfolding distance_mode
distance_mode-SameWords v m b =
    if_ind (Keeps b) (m == 0) (same refl refl refl)
      (if_ind (Keeps b) (m == 10 && v == 91) (same refl refl refl) tt)

tool_length_mode-SameWords : (v m : ℕ) (b : Block) → Keeps b (tool_length_mode v m b)
unfolding tool_length_mode
tool_length_mode-SameWords v m b = claimed b (claim_axis 3 b) _ (claim_axis-SameWords 3 b) (λ c.
    if_ind (Keeps c) (v == 49) (same refl refl refl)
      (if_ind (Keeps c) (m == 10) (same refl refl refl) tt))

g_setting-SameWords : (v m : ℕ) (b : Block) → Keeps b (g_setting v m b)
unfolding g_setting
g_setting-SameWords v m b = if_ind (Keeps b) (leb 93 v && leb v 94) (same refl refl refl) (
    if_ind (Keeps b) (leb 20 v && leb v 21) (same refl refl refl) (
      if_ind (Keeps b) (v == 40) (same refl refl refl) (
        if_ind (Keeps b) (elem v (43 ∷ 49 ∷ [])) (tool_length_mode-SameWords v m b) (
          if_ind (Keeps b) (leb 54 v && leb v 59) (same refl refl refl)
            (if_ind (Keeps b) (v == 61 && m == 0) (same refl refl refl) tt)))))

pub g_command-SameWords : (v m : ℕ) (b : Block) → Keeps b (g_command v m b)
unfolding g_command
g_command-SameWords v m b =
    if_ind (Keeps b) (elem v (10 ∷ 28 ∷ 30 ∷ 92 ∷ [])) (non_modal_axis-SameWords v m b) (
      if_ind (Keeps b) (elem v (4 ∷ 53 ∷ [])) (non_modal-SameWords v m b) (
        if_ind (Keeps b) (elem v (0 ∷ 1 ∷ 2 ∷ 3 ∷ 38 ∷ [])) (motion_axis-SameWords v m b) (
          if_ind (Keeps b) (v == 80) (motion_mode-SameWords v m b) (
            if_ind (Keeps b) (leb 17 v && leb v 19) (same refl refl refl) (
              if_ind (Keeps b) (leb 90 v && leb v 91) (distance_mode-SameWords v m b)
                (g_setting-SameWords v m b))))))

pub m_command-SameWords : (v m : ℕ) (b : Block) → Keeps b (m_command v m b)
unfolding m_command
m_command-SameWords v m b = if_ind (Keeps b) (leb 1 m) tt (
    if_ind (Keeps b) (elem v (0 ∷ 1 ∷ 2 ∷ 30 ∷ [])) (same refl refl refl) (
      if_ind (Keeps b) (leb 3 v && leb v 5) (same refl refl refl)
        (if_ind (Keeps b) (leb 8 v && leb v 9) (same refl refl refl) tt)))
