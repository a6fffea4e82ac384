-- ===== src/Protocol/Line.antt =====
-- The line assembly in `protocol_main_loop` of protocol.c: how the bytes that `serial_read` returns
-- become the zero-terminated line, and to whom the line is given at its end.
pub mod Clean
pub mod Step
pub mod Feed
pub mod Deliver
mod Tests
use g_carvin.Base.{
  ℕ, suc, ◌+◌, ◌-◌, ◌≡◌, Bool, true, false, ◌&&◌, ◌||◌, List, [], ◌∷◌, leb, ◌==◌, if◌then◌else◌,
  get_or, set,
}
use g_carvin.System.{State, alarm, jog}

-- `line`, `char_counter` and the three bits of `line_flags`.
pub record LineState : Type 0 where
  pub line : List ℕ
  pub char_counter : ℕ
  pub overflow : Bool
  pub parentheses : Bool
  pub semicolon : Bool

abbrev pub line_buffer_size : ℕ
line_buffer_size = 80

-- `line[char_counter++] = c`
abbrev pub append_char : ℕ → LineState → LineState
append_char c s = record s { line = set s.line s.char_counter c; char_counter = s.char_counter + 1 }

-- Inside a comment, or behind an overflow: only `)` is looked at.
unfoldable pub skip_char : ℕ → LineState → LineState
skip_char c s =
    if c == b')' then (if s.parentheses then record s { parentheses = false } else s) else s

-- The branch for a byte that is no line end.
unfoldable pub line_char : ℕ → LineState → LineState
unfolding skip_char
line_char c s =
    if s.overflow || (s.parentheses || s.semicolon)
    then skip_char c s
    else if leb c b' '
    then s
    else if c == b'/'
    then s
    else if c == b'('
    then record s { parentheses = true }
    else if c == b';'
    then record s { semicolon = true }
    else if leb (line_buffer_size - 1) s.char_counter
    then record s { overflow = true }
    else if leb b'a' c && leb c b'z'
    then append_char (c - b'a' + b'A') s
    else append_char c s

-- What becomes of a line: a status is reported, or the line array is given to a parser.
pub data Dispatch : Type 0 where
  status_overflow status_ok status_system_gc_lock : Dispatch
  system_execute_line : List ℕ → Dispatch
  gc_execute_line : List ℕ → Dispatch

abbrev pub is_locked : State → Bool
is_locked alarm = true
is_locked jog = true
is_locked _ = false

-- The branches on the terminated line, in the state that the realtime check left.
unfoldable pub line_dispatch : State → Bool → List ℕ → Dispatch
line_dispatch state overflow line =
    if overflow
    then status_overflow
    else if get_or line 0 0 == 0
    then status_ok
    else if get_or line 0 0 == b'$'
    then system_execute_line line
    else if is_locked state
    then status_system_gc_lock
    else gc_execute_line line

-- The branch for a line end, when no abort is pending: the dispatch, and the counters reset.
unfoldable pub line_end : State → LineState → Dispatch × LineState
unfolding line_dispatch
line_end state s =
    let line = set s.line s.char_counter 0 in
    (
      line_dispatch state s.overflow line,
      record {
        line = line;
        char_counter = 0;
        overflow = false;
        parentheses = false;
        semicolon = false;
      },
    )

abbrev pub is_line_end : ℕ → Bool
is_line_end c = c == b'\n' || c == b'\r'

-- The loop over the bytes that are there, and the dispatches that it makes in order, while no abort is
-- pending; `states` gives the machine state at each line end.
unfoldable pub line_loop : (ℕ → State) → List ℕ → LineState → List Dispatch × LineState
unfolding line_char line_end
line_loop states [] s = ([], s)
line_loop states (c ∷ cs) s =
    let at_end = line_end (states 0) s in
    let after = line_loop (λ n. states (suc n)) cs at_end.1 in
    let inside = line_loop states cs (line_char c s) in
    if is_line_end c then (at_end.0 ∷ after.0, after.1) else inside
