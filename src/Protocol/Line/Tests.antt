-- ===== src/Protocol/Line/Tests.antt =====
-- A stream with comments, blanks, both line ends and a line that the lock refuses.
use Prim.Native.Char.{code}
use Prim.Native.String.{String}
use g_carvin.Base.{
  ℕ, zero, suc, ◌<◌, ◌≡◌, refl, arith, false, List, [], ◌∷◌, map, replicate, length,
}
use g_carvin.System.{State, idle, alarm}
use g_carvin.Protocol.Line.{
  LineState, line_loop, line_buffer_size, status_ok, system_execute_line, gc_execute_line,
}
use g_carvin.Protocol.Line.Clean.{c_string}
use g_carvin.Protocol.Line.Feed.{Fresh, feed, char_counter_bounded}
use g_carvin.Protocol.Line.Deliver.{stream, text_of, deliver_all, line_loop_lem}

abbrev codes : String → List ℕ
codes String.[] = []
codes (String.◌∷◌ c s) = code c ∷ codes s

abbrev fresh : LineState
fresh = record {
  line = replicate 80 0;
  char_counter = 0;
  overflow = false;
  parentheses = false;
  semicolon = false;
}

fresh-Fresh : Fresh fresh
fresh-Fresh = record {
  whole = refl;
  empty = refl;
  no_overflow = refl;
  no_parentheses = refl;
  no_semicolon = refl;
}

abbrev lines : List (List ℕ × ℕ)
lines = (codes "g1 (up) x5", 10) ∷ (codes " ; note", 13) ∷ (codes "$h", 10) ∷ []

stream-lines :
    map text_of (line_loop (λ n. idle) (stream lines) fresh).0
    ≡ gc_execute_line (codes "G1X5") ∷ status_ok ∷ system_execute_line (codes "$H") ∷ []
unfolding line_loop stream text_of c_string
stream-lines = refl

-- The machine is unlocked after the first line.
abbrev unlocked : ℕ → State
unlocked zero = alarm
unlocked (suc n) = idle

line_loop_example :
    map text_of (line_loop unlocked (stream lines) fresh).0 ≡ deliver_all unlocked lines
line_loop_example = line_loop_lem unlocked lines fresh (ground arith) fresh-Fresh

char_counter_example :
    ((feed (codes "g1 x5") fresh).char_counter < line_buffer_size)
    × (length (feed (codes "g1 x5") fresh).line ≡ line_buffer_size)
char_counter_example = char_counter_bounded (codes "g1 x5") fresh fresh-Fresh
