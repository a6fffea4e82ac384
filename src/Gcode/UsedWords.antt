-- ===== src/Gcode/UsedWords.antt =====
-- A line of gcode.c with a word that nothing uses is refused.
use g_carvin.Base.{
  ℕ, ◌≡◌, ◌⊎◌, inl, inr, refl, sym, ap, ◌∙◌, arith, Bool, true, false, not, ◌&&◌, ◌||◌, Option,
  none, some, List, [], ◌∷◌, ltb, ◌==◌, if_ind, if_cases, Bool-cases,
}
use g_carvin.Base.Status.{Result, ok, fail, ◌>>=◌, Checked, Checked-bind}
use mathlib.Core.Path.{subst}
use g_carvin.Gcode.{Block, elem}
use g_carvin.Gcode.Words.{read_block, is_jog}
use g_carvin.Gcode.Real.{Arithmetic, Vec, isequal_position_vector}
use g_carvin.Gcode.State.{GcState, World}
use g_carvin.Gcode.Checks.{
  Draft, is_empty, clear_words, has_axis, start_draft, imply_motion, check_line_number,
  check_feed_rate, keep_spindle_speed, check_dwell, convert_units, check_tool_length, coord_number,
  selected, changed_coords, or_unreadable, select_coord_system, set_coordinate_data,
  set_coordinate_offset, set_target, go_home, check_other, check_non_modal,
}
use g_carvin.Gcode.Motions.{
  line_or_none, single_words, check_arc, check_probe, check_feed_motion, check_motion, unused,
  check_unused, check_values, check_block,
}
use g_carvin.Gcode.Arcs.{check_arc-Checked}
use g_carvin.Gcode.Execution.{refused, after_checks, after_reading, gc_execute_line}

-- The axis words belong to the motion mode.
abbrev pub moves : Block → Bool
moves b = not (is_empty b.axis_words) && (b.axis_command == 2 || b.axis_command == 0)

-- The words that a block can use: N and F always, S and T outside a jog, the axis words, P with G4 and
-- G10, L with G10, R with an arc, and I, J and K with an arc that has no R.
abbrev pub used : Block → Bool → ℕ → Bool
used b jog w =
    (w == 5 || w == 0)
    || ((not jog && (w == 8 || w == 9))
        || ((w == 10 || (w == 11 || w == 12))
            || ((w == 6 && (b.non_modal_command == 4 || b.non_modal_command == 10))
                || ((w == 4 && b.non_modal_command == 10)
                    || (moves b
                        && (b.modal.motion == 2 || b.modal.motion == 3)
                        && (w == 7
                            || (not (elem 7 b.value_words) && (w == 1 || (w == 2 || w == 3)))))))))

clear-elem :
    (us ws : List ℕ) (w : ℕ)
    → elem w ws ≡ true
    → (elem w (clear_words us ws) ≡ true) ⊎ (elem w us ≡ true)
clear-elem us [] w h = inl h
clear-elem us (x ∷ ws) w h =
    if_cases (λ (q : List ℕ). (elem w q ≡ true) ⊎ (elem w us ≡ true)) (elem x us)
      (λ taken. elim (Bool-cases (w == x)) [
        | inl same ↦ inr (subst (λ y. elem y us ≡ true) {x = x} {y = w} (ground arith) taken)
        | inr other ↦ clear-elem us ws w cc
      ])
      (λ kept. elim (Bool-cases (w == x)) [
        | inl same ↦ inl cc
        | inr other ↦ elim (clear-elem us ws w cc) [ inl there ↦ inl cc | inr taken ↦ inr taken ]
      ])

clear-other : (us ws : List ℕ) (w : ℕ) → elem w us ≡ false → elem w (clear_words us ws) ≡ elem w ws
clear-other us [] w h = refl
clear-other us (x ∷ ws) w h =
    if_cases (λ (q : List ℕ). elem w q ≡ elem w (x ∷ ws)) (elem x us)
      (λ taken. elim (Bool-cases (w == x)) [
        | inl same ↦
            let taken' = subst (λ y. elem y us ≡ true) {x = x} {y = w} (ground arith) taken in
            let clash : false ≡ true = sym h ∙ taken' in cc
        | inr other ↦ let rest = clear-other us ws w h in rw other rest
      ])
      (λ kept. let rest = clear-other us ws w h in rw rest refl)

none_left : (ws : List ℕ) (w : ℕ) → is_empty ws ≡ true → elem w ws ≡ true → ⊥
none_left [] w e h = cc
none_left (x ∷ ws) w e h = cc

module _ {V : Type 0} (float : Arithmetic V) (world : World V) (st : GcState V) (b : Block)
    (jog : Bool) where
  -- Each word of the block is still there, or is one that it can use.
  abbrev Left : List ℕ → Type 0
  Left ws = (w : ℕ) → elem w b.value_words ≡ true → (elem w ws ≡ true) ⊎ (used b jog w ≡ true)

  -- Before the motion the words are still there, the axis words belong to the motion mode if it acts,
  -- and R is there if the line has it.
  pub record Before (axis_command : ℕ) (words : List ℕ) : Type 0 where
    left : Left words
    moving : (axis_command == 2) ≡ true → (b.axis_command == 2 || b.axis_command == 0) ≡ true
    radius : elem 7 words ≡ elem 7 b.value_words

  abbrev pub L : Draft V → Type 0
  L d = Before d.axis_command d.value_words

  abbrev pub M : Draft V → Type 0
  M d = Left d.value_words

  clear-Left :
      (us ws : List ℕ)
      → ((w : ℕ) → elem w us ≡ true → used b jog w ≡ true)
      → Left ws
      → Left (clear_words us ws)
  clear-Left us ws all h w hw = elim (h w hw) [
    | inl there ↦ elim (clear-elem us ws w there) [
      | inl still ↦ inl still
      | inr taken ↦ inr (all w taken)
    ]
    | inr known ↦ inr known
  ]

  clear-Before :
      (us : List ℕ) (c : ℕ) (ws : List ℕ)
      → ((w : ℕ) → elem w us ≡ true → used b jog w ≡ true)
      → elem 7 us ≡ false
      → Before c ws
      → Before c (clear_words us ws)
  clear-Before us c ws all other h = record {
    left = clear-Left us ws all h.left;
    moving = h.moving;
    radius = clear-other us ws 7 other ∙ h.radius;
  }

  or_unreadable-L :
      (o : Option (Vec V)) (next : Vec V → Draft V)
      → ((coords : Vec V) → L (next coords))
      → Checked L (or_unreadable float world st b o next)
  or_unreadable-L none next h = refl
  or_unreadable-L (some coords) next h = h coords

  check_feed_rate-L : (d : Draft V) → L d → Checked L (check_feed_rate float world st b jog d)
  unfolding check_feed_rate
  check_feed_rate-L d h =
      if_ind (Checked L) jog
        (if_ind (Checked L) (not (elem 0 d.value_words)) refl (if_ind L (b.modal.units == 1) h h))
        (if_ind (Checked L) (b.modal.feed_rate == 1)
          (if_ind (Checked L)
            (d.axis_command == 2
              && ((not (b.modal.motion == 80) || not (b.modal.motion == 0))
                  && not (elem 0 d.value_words)))
            refl h)
          (if_ind (Checked L) (st.modal.feed_rate == 0)
            (if_ind L (elem 0 d.value_words) (if_ind L (b.modal.units == 1) h h) h) h))

  keep_spindle_speed-L : (d : Draft V) → L d → L (keep_spindle_speed float world st b d)
  unfolding keep_spindle_speed
  keep_spindle_speed-L d h = if_ind L (elem 8 d.value_words) h h

  check_dwell-L : (d : Draft V) → L d → Checked L (check_dwell float world st b d)
  unfolding check_dwell
  check_dwell-L d h =
      if_cases (Checked L) (b.non_modal_command == 4)
        (λ dwell.
          if_ind (Checked L) (not (elem 6 d.value_words)) refl
            (clear-Before (6 ∷ []) d.axis_command d.value_words (λ w e. ground arith) refl h))
        (λ _. h)

  convert_units-L : (d : Draft V) → L d → L (convert_units float world st b d)
  unfolding convert_units
  convert_units-L d h = if_ind L (b.modal.units == 1) h h

  check_tool_length-L : (d : Draft V) → L d → Checked L (check_tool_length float world st b d)
  unfolding check_tool_length
  check_tool_length-L d h =
      if_ind (Checked L)
        (d.axis_command == 3
          && b.modal.tool_length == 1
          && not (
              has_axis float world st b 2
              && not (has_axis float world st b 0 || has_axis float world st b 1)))
        refl h

  check_values-L : (d : Draft V) → L d → Checked L (check_values float world st b jog d)
  unfolding check_values check_line_number
  check_values-L d h =
      let numbered : Checked L (check_line_number float world st b d) =
        if_ind (Checked L) (elem 5 b.value_words && ltb 10000000 b.values.n) refl h in
      let fed =
        Checked-bind L L (check_line_number float world st b d)
          (check_feed_rate float world st b jog) numbered check_feed_rate-L in
      Checked-bind L L
        (check_line_number float world st b d >>= check_feed_rate float world st b jog)
        (λ e. check_dwell float world st b (keep_spindle_speed float world st b e) >>= λ k.
          check_tool_length float world st b (convert_units float world st b k))
        fed
        (λ e g.
          Checked-bind L L (check_dwell float world st b (keep_spindle_speed float world st b e))
            (λ k. check_tool_length float world st b (convert_units float world st b k))
            (check_dwell-L (keep_spindle_speed float world st b e) (keep_spindle_speed-L e g))
            (λ k r. check_tool_length-L (convert_units float world st b k) (convert_units-L k r)))

  select_coord_system-L : (d : Draft V) → L d → Checked L (select_coord_system float world st b d)
  unfolding select_coord_system
  select_coord_system-L d h =
      if_ind (Checked L) (elem 9 b.command_words)
        (if_ind (Checked L) (ltb 6 b.modal.coord_select) refl (
          if_ind (Checked L) (not (st.modal.coord_select == b.modal.coord_select))
            (or_unreadable-L (world.read_coord_data b.modal.coord_select)
              (λ coords. record d { block_coord_system = coords }) (λ coords. h))
            h))
        h

  set_coordinate_data-L :
      (d : Draft V)
      → (b.non_modal_command == 10) ≡ true
      → L d
      → Checked L (set_coordinate_data float world st b d)
  unfolding set_coordinate_data
  set_coordinate_data-L d e h =
      let n = coord_number float world st b in
      let taken : Before d.axis_command (clear_words (4 ∷ 6 ∷ []) d.value_words) =
        clear-Before (4 ∷ 6 ∷ []) d.axis_command d.value_words (λ w k. ground arith) refl h in
      if_ind (Checked L) (is_empty b.axis_words) refl (
        if_ind (Checked L) (not (elem 6 d.value_words || elem 4 d.value_words)) refl (
          if_ind (Checked L) (ltb 6 n) refl (
            if_ind (Checked L)
              (not (b.values.l == 20) && (not (b.values.l == 2) || elem 7 d.value_words)) refl
              (or_unreadable-L (world.read_coord_data (selected float world st b n))
                (λ coords. record d {
                  value_words = clear_words (4 ∷ 6 ∷ []) d.value_words;
                  coord_select = selected float world st b n;
                  ijk = changed_coords float world st b d coords;
                })
                (λ coords. taken)))))

  go_home-L : (slot : ℕ) (d : Draft V) → L d → Checked L (go_home float world st b slot d)
  unfolding go_home
  go_home-L slot d h =
      let still : Before 0 d.value_words = record {
        left = h.left;
        moving = λ e. absurd (ground arith);
        radius = h.radius;
      } in
      or_unreadable-L (world.read_coord_data slot) _
        (λ coords. if_ind L (not (is_empty b.axis_words)) h still)

  check_other-L : (d : Draft V) → L d → Checked L (check_other float world st b d)
  unfolding check_other
  check_other-L d h = if_ind (Checked L) (b.non_modal_command == 28) (go_home-L 6 d h) (
      if_ind (Checked L) (b.non_modal_command == 30) (go_home-L 7 d h) (
        if_ind (Checked L)
          (b.non_modal_command == 53 && not (b.modal.motion == 0 || b.modal.motion == 1)) refl h))

  check_non_modal-L : (d : Draft V) → L d → Checked L (check_non_modal float world st b d)
  unfolding check_non_modal set_coordinate_offset set_target
  check_non_modal-L d h =
      if_cases (Checked L) (b.non_modal_command == 10) (λ e. set_coordinate_data-L d e h)
        (λ _.
          if_ind (Checked L) (b.non_modal_command == 92)
            (if_ind (Checked L) (is_empty b.axis_words) refl h)
            (check_other-L (set_target float world st b d)
              (if_ind L (not (d.axis_command == 3) && not (is_empty b.axis_words)) h h)))

  check_arc-M :
      (d : Draft V)
      → (b.modal.motion == 2 || b.modal.motion == 3) ≡ true
      → (d.axis_command == 2) ≡ true
      → L d
      → Checked M (check_arc float world st b d)
  check_arc-M d arc acts h =
      let m = h.moving acts in
      check_arc-Checked float world st b M d
        (λ axes r _ ijk. clear-Left (7 ∷ []) d.value_words (λ w k. ground arith) h.left)
        (λ axes no_r _ ijk.
          let no_radius : elem 7 b.value_words ≡ false = sym h.radius ∙ no_r in
          clear-Left (1 ∷ 2 ∷ 3 ∷ []) d.value_words (λ w k. ground arith) h.left)

  check_probe-M : (d : Draft V) → M d → Checked M (check_probe float world st b d)
  unfolding check_probe
  check_probe-M d h =
      if_ind (Checked M) (is_empty b.axis_words) refl
        (if_ind (Checked M) (isequal_position_vector float st.position d.xyz) refl h)

  line_or_none-M : (d : Draft V) → M d → M (line_or_none float world st b d)
  line_or_none-M d h = if_ind M (is_empty b.axis_words) h h

  check_motion-M : (d : Draft V) → L d → Checked M (check_motion float world st b d)
  unfolding check_motion check_feed_motion
  check_motion-M d h =
      let left = h.left in
      if_ind (Checked M) (b.modal.motion == 80)
        (if_ind (Checked M) (is_empty b.axis_words) left refl)
        (if_cases (Checked M) (d.axis_command == 2)
          (λ acts. if_ind (Checked M) (b.modal.motion == 0) (line_or_none-M d left) (
            if_ind (Checked M) (float.is_nought d.feed) refl (
              if_ind (Checked M) (b.modal.motion == 1) (line_or_none-M d left) (
                if_cases (Checked M) (b.modal.motion == 2 || b.modal.motion == 3)
                  (λ arc. check_arc-M d arc acts h)
                  (λ _.
                    if_ind (Checked M) (elem b.modal.motion (140 ∷ 141 ∷ 142 ∷ 143 ∷ []))
                      (check_probe-M d left) left)))))
          (λ _. left))

  -- Nothing is left over at the end.
  AllUsed : Draft V → Type 0
  AllUsed d = (w : ℕ) → elem w b.value_words ≡ true → used b jog w ≡ true

  single-used : (w : ℕ) → elem w (single_words float world st b jog) ≡ true → used b jog w ≡ true
  single-used w h = elim (Bool-cases jog) [ inl e ↦ ground arith | inr e ↦ ground arith ]

  known_at_end :
      (d : Draft V) (w : ℕ)
      → is_empty (unused float world st b jog d) ≡ true
      → elem w d.value_words ≡ true
      → used b jog w ≡ true
  known_at_end d w e h =
      let single = single_words float world st b jog in
      let rest = clear_words single d.value_words in
      if_ind (λ (q : List ℕ). is_empty q ≡ true → used b jog w ≡ true) (d.axis_command == 0)
        (λ none_here. elim (clear-elem single d.value_words w h) [
          | inl there ↦ absurd (none_left rest w none_here there)
          | inr one ↦ single-used w one
        ])
        (λ none_here. elim (clear-elem single d.value_words w h) [
          | inl there ↦ elim (clear-elem (10 ∷ 11 ∷ 12 ∷ []) rest w there) [
            | inl still ↦
                absurd (none_left (clear_words (10 ∷ 11 ∷ 12 ∷ []) rest) w none_here still)
            | inr axis ↦ ground arith
          ]
          | inr one ↦ single-used w one
        ])
        e

  check_unused-AllUsed : (d : Draft V) → M d → Checked AllUsed (check_unused float world st b jog d)
  unfolding check_unused AllUsed
  check_unused-AllUsed d h =
      if_cases (Checked AllUsed) (is_empty (unused float world st b jog d))
        (λ e w hw. elim (h w hw) [ inl there ↦ known_at_end d w e there | inr known ↦ known ])
        (λ _. refl)

  check_block-AllUsed : Checked AllUsed (check_block float world st b jog)
  unfolding check_block imply_motion
  check_block-AllUsed =
      let start = start_draft float world st b in
      let d = imply_motion float world st b start in
      let started : L d =
        if_cases L (not (is_empty b.axis_words) && start.axis_command == 0)
          (λ implied. record { left = λ w h. inl h; moving = λ _. ground arith; radius = refl })
          (λ _. record { left = λ w h. inl h; moving = λ e. ground arith; radius = refl }) in
      let checked = check_values float world st b jog d in
      let selected' = checked >>= select_coord_system float world st b in
      let acted = selected' >>= check_non_modal float world st b in
      Checked-bind M AllUsed (acted >>= check_motion float world st b)
        (check_unused float world st b jog)
        (Checked-bind L M acted (check_motion float world st b)
          (Checked-bind L L selected' (check_non_modal float world st b)
            (Checked-bind L L checked (select_coord_system float world st b)
              (check_values-L d started) select_coord_system-L)
            check_non_modal-L)
          check_motion-M)
        check_unused-AllUsed

  -- The checks refuse with a status that is not 0.
  pub check_block-Checked : Checked {0} (λ d. Unit) (check_block float world st b jog)
  check_block-Checked = any_status (check_block float world st b jog) check_block-AllUsed
    where
      any_status : (r : Result (Draft V)) → Checked AllUsed r → Checked {0} (λ d. Unit) r
      any_status (ok d) h = tt
      any_status (fail status) h = h

  refused_if :
      (r : Result (Draft V))
      → Checked AllUsed r
      → (w : ℕ) → elem w b.value_words ≡ true
      → used b jog w ≡ false
      → (status : ℕ) × ((status == 0) ≡ false)
        × (after_checks float world jog b st r ≡ refused status st)
  unfolding after_checks AllUsed
  refused_if (fail status) h w there unknown = (status, h, refl)
  refused_if (ok d) h w there unknown =
      let known : used b jog w ≡ true = h w there in
      let clash : false ≡ true = sym unknown ∙ known in cc

-- A value word of a line that nothing in the line uses has the line refused with a status that is not
-- 0: there is no call, and the state of the parser stays. R is used by an arc, and I, J and K by an arc
-- without R, where the axis words belong to the motion mode.
pub gc_execute_line-used :
    {V : Type 0} (float : Arithmetic V) (world : World V) (st : GcState V) (line : List ℕ)
    (b : Block) (w : ℕ)
    → read_block world.conversions st.modal line ≡ some (ok b)
    → elem w b.value_words ≡ true
    → used b (is_jog line) w ≡ false
    → (status : ℕ) × ((status == 0) ≡ false)
      × (gc_execute_line float world line st ≡ some (refused status st))
unfolding gc_execute_line after_reading
gc_execute_line-used float world st line b w e there unknown =
    let jog = is_jog line in
    let checks = check_block float world st b jog in
    let (status, wrong, h) =
      refused_if float world st b jog checks (check_block-AllUsed float world st b jog) w there
        unknown in
    (status, wrong, ap (after_reading float world jog st) e ∙ ap some h)
