-- ===== src/Protocol/Override/Tests.antt =====
-- The override theorems at a machine in the middle of its range.
use g_carvin.Base.{◌≡◌, arith, true}
use g_carvin.Examples.{idle_machine}
use g_carvin.System.{Machine}
use g_carvin.System.Flags.{no_motion}
use g_carvin.Protocol.Override.{new_f_override, motion_override_block, accessory_override_block}
use g_carvin.Protocol.Override.Bounds.{InRange, override_blocks-InRange, new_f_override_lem}

abbrev slower : Machine
slower = record idle_machine {
  motion_override = record no_motion { feed_coarse_minus = true; feed_fine_minus = true };
}

slower-InRange : InRange slower
slower-InRange = ground arith

override_blocks-InRange_example :
    InRange (motion_override_block slower) × InRange (accessory_override_block slower)
override_blocks-InRange_example = override_blocks-InRange slower slower-InRange

-- At 10 percent both decrements together make the feed override jump to 200 percent.
new_f_override_example : new_f_override slower.motion_override 10 ≡ 200
new_f_override_example = new_f_override_lem slower.motion_override 10 (omega arith) (omega arith)
