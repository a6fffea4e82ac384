-- ===== src/Gcode/Modes.antt =====
-- The modal values that the 'G' and 'M' words of gcode.c set.
use g_carvin.Base.{
  ℕ, ◌+◌, ◌-◌, ◌/◌, ◌%◌, ◌≤◌, ◌≡◌, refl, arith, true, ◌&&◌, ◌||◌, [], ◌∷◌, leb, ◌==◌, if◌then◌else◌,
  if_ind, if_cases,
}
use g_carvin.Base.Status.{Result, ok, AllOk, AllOk-bind}
use g_carvin.Gcode.{Modal, Block, elem}
use g_carvin.Gcode.Commands.{
  Command, claim_axis, non_modal, non_modal_axis, motion_mode, motion_axis, distance_mode,
  tool_length_mode, g_setting, g_command, program_flow, spindle_mode, m_command,
}

-- Each modal value is one of the constants of gcode.h for its field.
pub record IsModal (a : Modal) : Type 0 where
  pub motion : elem a.motion (0 ∷ 1 ∷ 2 ∷ 3 ∷ 80 ∷ 140 ∷ 141 ∷ 142 ∷ 143 ∷ []) ≡ true
  pub feed_rate : a.feed_rate ≤ 1
  pub units : a.units ≤ 1
  pub distance : a.distance ≤ 1
  pub plane_select : a.plane_select ≤ 2
  pub tool_length : a.tool_length ≤ 1
  pub coord_select : a.coord_select ≤ 5
  pub program_flow : elem a.program_flow (0 ∷ 2 ∷ 3 ∷ 30 ∷ []) ≡ true
  pub coolant : elem a.coolant (0 ∷ 64 ∷ []) ≡ true
  pub spindle : elem a.spindle (0 ∷ 16 ∷ 32 ∷ []) ≡ true

-- A field that is set to one of its constants.
module _ (a : Modal) (h : IsModal a) (v : ℕ) where
  pub set_motion-IsModal :
      elem v (0 ∷ 1 ∷ 2 ∷ 3 ∷ 80 ∷ 140 ∷ 141 ∷ 142 ∷ 143 ∷ []) ≡ true
      → IsModal (record a { motion = v })
  set_motion-IsModal e = record {
    motion = e;
    feed_rate = h.feed_rate;
    units = h.units;
    distance = h.distance;
    plane_select = h.plane_select;
    tool_length = h.tool_length;
    coord_select = h.coord_select;
    program_flow = h.program_flow;
    coolant = h.coolant;
    spindle = h.spindle;
  }

  pub set_feed_rate-IsModal : v ≤ 1 → IsModal (record a { feed_rate = v })
  set_feed_rate-IsModal e = record {
    motion = h.motion;
    feed_rate = e;
    units = h.units;
    distance = h.distance;
    plane_select = h.plane_select;
    tool_length = h.tool_length;
    coord_select = h.coord_select;
    program_flow = h.program_flow;
    coolant = h.coolant;
    spindle = h.spindle;
  }

  pub set_units-IsModal : v ≤ 1 → IsModal (record a { units = v })
  set_units-IsModal e = record {
    motion = h.motion;
    feed_rate = h.feed_rate;
    units = e;
    distance = h.distance;
    plane_select = h.plane_select;
    tool_length = h.tool_length;
    coord_select = h.coord_select;
    program_flow = h.program_flow;
    coolant = h.coolant;
    spindle = h.spindle;
  }

  pub set_distance-IsModal : v ≤ 1 → IsModal (record a { distance = v })
  set_distance-IsModal e = record {
    motion = h.motion;
    feed_rate = h.feed_rate;
    units = h.units;
    distance = e;
    plane_select = h.plane_select;
    tool_length = h.tool_length;
    coord_select = h.coord_select;
    program_flow = h.program_flow;
    coolant = h.coolant;
    spindle = h.spindle;
  }

  pub set_plane_select-IsModal : v ≤ 2 → IsModal (record a { plane_select = v })
  set_plane_select-IsModal e = record {
    motion = h.motion;
    feed_rate = h.feed_rate;
    units = h.units;
    distance = h.distance;
    plane_select = e;
    tool_length = h.tool_length;
    coord_select = h.coord_select;
    program_flow = h.program_flow;
    coolant = h.coolant;
    spindle = h.spindle;
  }

  pub set_tool_length-IsModal : v ≤ 1 → IsModal (record a { tool_length = v })
  set_tool_length-IsModal e = record {
    motion = h.motion;
    feed_rate = h.feed_rate;
    units = h.units;
    distance = h.distance;
    plane_select = h.plane_select;
    tool_length = e;
    coord_select = h.coord_select;
    program_flow = h.program_flow;
    coolant = h.coolant;
    spindle = h.spindle;
  }

  pub set_coord_select-IsModal : v ≤ 5 → IsModal (record a { coord_select = v })
  set_coord_select-IsModal e = record {
    motion = h.motion;
    feed_rate = h.feed_rate;
    units = h.units;
    distance = h.distance;
    plane_select = h.plane_select;
    tool_length = h.tool_length;
    coord_select = e;
    program_flow = h.program_flow;
    coolant = h.coolant;
    spindle = h.spindle;
  }

  pub set_program_flow-IsModal :
      elem v (0 ∷ 2 ∷ 3 ∷ 30 ∷ []) ≡ true → IsModal (record a { program_flow = v })
  set_program_flow-IsModal e = record {
    motion = h.motion;
    feed_rate = h.feed_rate;
    units = h.units;
    distance = h.distance;
    plane_select = h.plane_select;
    tool_length = h.tool_length;
    coord_select = h.coord_select;
    program_flow = e;
    coolant = h.coolant;
    spindle = h.spindle;
  }

  pub set_coolant-IsModal : elem v (0 ∷ 64 ∷ []) ≡ true → IsModal (record a { coolant = v })
  set_coolant-IsModal e = record {
    motion = h.motion;
    feed_rate = h.feed_rate;
    units = h.units;
    distance = h.distance;
    plane_select = h.plane_select;
    tool_length = h.tool_length;
    coord_select = h.coord_select;
    program_flow = h.program_flow;
    coolant = e;
    spindle = h.spindle;
  }

  pub set_spindle-IsModal : elem v (0 ∷ 16 ∷ 32 ∷ []) ≡ true → IsModal (record a { spindle = v })
  set_spindle-IsModal e = record {
    motion = h.motion;
    feed_rate = h.feed_rate;
    units = h.units;
    distance = h.distance;
    plane_select = h.plane_select;
    tool_length = h.tool_length;
    coord_select = h.coord_select;
    program_flow = h.program_flow;
    coolant = h.coolant;
    spindle = e;
  }

abbrev pub Keeps : Result Command → Type 0
Keeps = AllOk (λ (t : Command). IsModal t.block.modal)

claim_axis-IsModal :
    (by : ℕ) (b : Block)
    → IsModal b.modal
    → AllOk (λ (c : Block). IsModal c.modal) (claim_axis by b)
unfolding claim_axis
claim_axis-IsModal by b h =
    if_ind (AllOk (λ (c : Block). IsModal c.modal)) (b.axis_command == 0) h tt

non_modal-IsModal : (v m : ℕ) (b : Block) → IsModal b.modal → Keeps (non_modal v m b)
unfolding non_modal
non_modal-IsModal v m b h =
    if_ind Keeps (elem v (28 ∷ 30 ∷ 92 ∷ [])) (if_ind Keeps (m == 0 || m == 10) h tt) h

non_modal_axis-IsModal : (v m : ℕ) (b : Block) → IsModal b.modal → Keeps (non_modal_axis v m b)
unfolding non_modal_axis
non_modal_axis-IsModal v m b h =
    AllOk-bind (λ (c : Block). IsModal c.modal) _ (if m == 0 then claim_axis 1 b else ok b)
      (non_modal v m)
      (if_ind (AllOk (λ (c : Block). IsModal c.modal)) (m == 0) (claim_axis-IsModal 1 b h) h)
      (λ c hc. non_modal-IsModal v m c hc)

motion_mode-IsModal :
    (v m : ℕ) (b : Block)
    → elem v (0 ∷ 1 ∷ 2 ∷ 3 ∷ 38 ∷ 80 ∷ []) ≡ true
    → IsModal b.modal
    → Keeps (motion_mode v m b)
unfolding motion_mode
motion_mode-IsModal v m b known h =
    if_cases Keeps (v == 38)
      (λ probe.
        if_cases Keeps (elem m (20 ∷ 30 ∷ 40 ∷ 50 ∷ []))
          (λ kind. set_motion-IsModal b.modal h ((v + (m / 10 + 100)) % 256) (ground arith))
          (λ unknown. tt))
      (λ other. set_motion-IsModal b.modal h v (ground arith))

motion_axis-IsModal :
    (v m : ℕ) (b : Block)
    → elem v (0 ∷ 1 ∷ 2 ∷ 3 ∷ 38 ∷ 80 ∷ []) ≡ true
    → IsModal b.modal
    → Keeps (motion_axis v m b)
unfolding motion_axis
motion_axis-IsModal v m b known h =
    AllOk-bind (λ (c : Block). IsModal c.modal) _ (claim_axis 2 b) (motion_mode v m)
      (claim_axis-IsModal 2 b h) (λ c hc. motion_mode-IsModal v m c known hc)

distance_mode-IsModal :
    (v m : ℕ) (b : Block) → v ≤ 91 → IsModal b.modal → Keeps (distance_mode v m b)
unfolding distance_mode
distance_mode-IsModal v m b le h =
    if_ind Keeps (m == 0) (set_distance-IsModal b.modal h (v - 90) (omega arith))
      (if_ind Keeps (m == 10 && v == 91) h tt)

tool_length_mode-IsModal : (v m : ℕ) (b : Block) → IsModal b.modal → Keeps (tool_length_mode v m b)
unfolding tool_length_mode
tool_length_mode-IsModal v m b h =
    AllOk-bind (λ (c : Block). IsModal c.modal) _ (claim_axis 3 b) _ (claim_axis-IsModal 3 b h)
      (λ c hc.
        if_ind Keeps (v == 49) (set_tool_length-IsModal c.modal hc 0 (omega arith))
          (if_ind Keeps (m == 10) (set_tool_length-IsModal c.modal hc 1 (omega arith)) tt))

le_of_test : (lo v hi : ℕ) → (leb lo v && leb v hi) ≡ true → v ≤ hi
le_of_test lo v hi e = ground arith

g_setting-IsModal : (v m : ℕ) (b : Block) → IsModal b.modal → Keeps (g_setting v m b)
unfolding g_setting
g_setting-IsModal v m b h =
    if_cases Keeps (leb 93 v && leb v 94)
      (λ e. set_feed_rate-IsModal b.modal h (94 - v) (ground arith))
      (λ _.
        if_cases Keeps (leb 20 v && leb v 21)
          (λ e. set_units-IsModal b.modal h (21 - v) (ground arith))
          (λ _. if_ind Keeps (v == 40) h (
            if_ind Keeps (elem v (43 ∷ 49 ∷ [])) (tool_length_mode-IsModal v m b h) (
              if_cases Keeps (leb 54 v && leb v 59)
                (λ e.
                  set_coord_select-IsModal b.modal h (v - 54) (omega (arith, le_of_test 54 v 59 e)))
                (λ _. if_ind Keeps (v == 61 && m == 0) h tt)))))

pub g_command-IsModal : (v m : ℕ) (b : Block) → IsModal b.modal → Keeps (g_command v m b)
unfolding g_command
g_command-IsModal v m b h =
    if_ind Keeps (elem v (10 ∷ 28 ∷ 30 ∷ 92 ∷ [])) (non_modal_axis-IsModal v m b h) (
      if_ind Keeps (elem v (4 ∷ 53 ∷ [])) (non_modal-IsModal v m b h) (
        if_cases Keeps (elem v (0 ∷ 1 ∷ 2 ∷ 3 ∷ 38 ∷ []))
          (λ e. motion_axis-IsModal v m b (ground arith) h)
          (λ _.
            if_cases Keeps (v == 80) (λ e. motion_mode-IsModal v m b (ground arith) h)
              (λ _.
                if_cases Keeps (leb 17 v && leb v 19)
                  (λ e.
                    set_plane_select-IsModal b.modal h (v - 17)
                      (omega (arith, le_of_test 17 v 19 e)))
                  (λ _.
                    if_cases Keeps (leb 90 v && leb v 91)
                      (λ e. distance_mode-IsModal v m b (le_of_test 90 v 91 e) h)
                      (λ _. g_setting-IsModal v m b h))))))

program_flow-IsModal :
    (v : ℕ) (a : Modal)
    → elem v (0 ∷ 1 ∷ 2 ∷ 30 ∷ []) ≡ true
    → IsModal a
    → IsModal (program_flow v a)
unfolding program_flow
program_flow-IsModal v a known h =
    if_cases IsModal (v == 0) (λ _. set_program_flow-IsModal a h 3 refl)
      (λ z. if_cases IsModal (v == 1) (λ _. h) (λ o. set_program_flow-IsModal a h v (ground arith)))

spindle_mode-elem : (v : ℕ) → elem (spindle_mode v) (0 ∷ 16 ∷ 32 ∷ []) ≡ true
unfolding spindle_mode
spindle_mode-elem v =
    if_ind (λ s. elem s (0 ∷ 16 ∷ 32 ∷ []) ≡ true) (v == 3) refl
      (if_ind (λ s. elem s (0 ∷ 16 ∷ 32 ∷ []) ≡ true) (v == 4) refl refl)

pub m_command-IsModal : (v m : ℕ) (b : Block) → IsModal b.modal → Keeps (m_command v m b)
unfolding m_command
m_command-IsModal v m b h = if_ind Keeps (leb 1 m) tt (
    if_cases Keeps (elem v (0 ∷ 1 ∷ 2 ∷ 30 ∷ [])) (λ known. program_flow-IsModal v b.modal known h)
      (λ _.
        if_ind Keeps (leb 3 v && leb v 5)
          (set_spindle-IsModal b.modal h (spindle_mode v) (spindle_mode-elem v))
          (if_ind Keeps (leb 8 v && leb v 9)
            (set_coolant-IsModal b.modal h (if v == 8 then 64 else 0)
              (if_ind (λ c. elem c (0 ∷ 64 ∷ []) ≡ true) (v == 8) refl refl))
            tt)))
