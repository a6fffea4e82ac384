-- ===== src/Protocol/Line/Deliver.antt =====
-- Each line of a stream is delivered as the cleaned line calls for.
use mathlib.Core.Path.{subst, ap₂}
use g_carvin.Base.{
  ℕ, zero, suc, ◌-◌, ◌≡◌, refl, sym, ◌∙◌, ap, Bool, true, false, List, [], ◌∷◌, ◌++◌, map, ltb,
  ◌==◌, if◌then◌else◌, length, length-set, arith, take, set, get_or,
}
use g_carvin.System.{State}
use g_carvin.Protocol.Line.{
  LineState, Dispatch, line_buffer_size, line_char, line_dispatch, line_end, line_loop, is_line_end,
  is_locked, status_overflow, status_ok, status_system_gc_lock, system_execute_line,
  gc_execute_line,
}
use g_carvin.Protocol.Line.Clean.{
  outside, clean, c_string, AllPositive, clean-AllPositive, c_string-set,
}
use g_carvin.Protocol.Line.Feed.{feed, Fed, Fresh, feed-Fed}

-- The characters of a line, none of which ends it.
abbrev pub NoEnd : List ℕ → Type 0
NoEnd [] = Unit {0}
NoEnd (c ∷ cs) = (is_line_end c ≡ false) × NoEnd cs

line_loop-feed :
    (states : ℕ → State) (cs : List ℕ) (nl : ℕ) (rest : List ℕ) (s : LineState)
    → NoEnd cs
    → is_line_end nl ≡ true
    → let at_end = line_end (states 0) (feed cs s) in
      let after = line_loop (λ n. states (suc n)) rest at_end.1 in
      line_loop states (cs ++ nl ∷ rest) s ≡ (at_end.0 ∷ after.0, after.1)
unfolding line_loop
line_loop-feed states [] nl rest s n e = rw e
line_loop-feed states (c ∷ cs) nl rest s (n, ns) e =
    rw n (line_loop-feed states cs nl rest (line_char c s) ns e)

-- A dispatch with the C string that the callee finds in the array.
unfoldable pub text_of : Dispatch → Dispatch
text_of (system_execute_line l) = system_execute_line (c_string l)
text_of (gc_execute_line l) = gc_execute_line (c_string l)
text_of d = d

-- Where a cleaned line goes.
pub deliver : State → List ℕ → Dispatch
deliver state t =
    if ltb (line_buffer_size - 1) (length t)
    then status_overflow
    else if get_or t 0 0 == 0
    then status_ok
    else if get_or t 0 0 == b'$'
    then system_execute_line t
    else if is_locked state
    then status_system_gc_lock
    else gc_execute_line t

get_or-set-take : (n : ℕ) (xs : List ℕ) → get_or (set xs n 0) 0 0 ≡ get_or (take n xs) 0 0
get_or-set-take zero [] = refl
get_or-set-take (suc n) [] = refl
get_or-set-take zero (x ∷ xs) = refl
get_or-set-take (suc n) (x ∷ xs) = refl

line_dispatch-deliver :
    (state : State) (overflow : Bool) (l t : List ℕ)
    → overflow ≡ ltb (line_buffer_size - 1) (length t)
    → (overflow ≡ false → get_or l 0 0 ≡ get_or t 0 0)
    → (overflow ≡ false → c_string l ≡ t)
    → text_of (line_dispatch state overflow l) ≡ deliver state t
unfolding line_dispatch text_of deliver
line_dispatch-deliver state true l t flag head same = rw (← flag)
line_dispatch-deliver state false l t flag head same =
    let e : c_string l ≡ t = same refl in
    let h : get_or l 0 0 ≡ get_or t 0 0 = head refl in rw (← flag, h) (ground arith)

line_end-deliver :
    (state : State) (t : List ℕ) (s : LineState)
    → Fed t s
    → AllPositive t
    → text_of (line_end state s).0 ≡ deliver state t
unfolding line_end
line_end-deliver state t s f pos =
    line_dispatch-deliver state s.overflow (set s.line s.char_counter 0) t f.flag
      (λ o. get_or-set-take s.char_counter s.line ∙ ap (λ u. get_or u 0 0) (f.content o))
      (λ o.
        c_string-set s.char_counter s.line (omega (arith, f.whole, f.bounded))
          (subst AllPositive (sym (f.content o)) pos)
        ∙ f.content o)

-- Lines with their terminators, and the bytes that they stand for.
unfoldable pub stream : List (List ℕ × ℕ) → List ℕ
stream [] = []
stream ((cs, nl) ∷ ls) = cs ++ nl ∷ stream ls

abbrev pub AreLines : List (List ℕ × ℕ) → Type 0
AreLines [] = Unit {0}
AreLines ((cs, nl) ∷ ls) = NoEnd cs × (is_line_end nl ≡ true) × AreLines ls

line_end-Fresh :
    (state : State) (s : LineState) → length s.line ≡ line_buffer_size → Fresh (line_end state s).1
unfolding line_end
line_end-Fresh state s h = record {
  whole = length-set s.line s.char_counter 0 ∙ h;
  empty = refl;
  no_overflow = refl;
  no_parentheses = refl;
  no_semicolon = refl;
}

-- What a list of lines calls for, with the machine state at the end of each.
pub deliver_all : (ℕ → State) → List (List ℕ × ℕ) → List Dispatch
deliver_all states [] = []
deliver_all states ((cs, nl) ∷ ls) =
    deliver (states 0) (clean outside cs) ∷ deliver_all (λ n. states (suc n)) ls

-- From a fresh line state, a stream of lines makes one dispatch for each line, in order, while no abort
-- is pending. Each is what the cleaned line calls for in the state that the machine has at its end: the
-- overflow status where it is longer than 79 characters, `ok` where it is empty, the `$` parser, the
-- lock status in the alarm and jog states, or the G-code parser, and a parser is given a
-- zero-terminated string that is exactly the cleaned line.
pub line_loop_lem :
    (states : ℕ → State) (ls : List (List ℕ × ℕ)) (s : LineState)
    → AreLines ls
    → Fresh s
    → map text_of (line_loop states (stream ls) s).0 ≡ deliver_all states ls
unfolding stream deliver_all
line_loop_lem states [] s ok f = unfold line_loop in refl
line_loop_lem states ((cs, nl) ∷ ls) s (n, e, ok) f =
    let u = feed cs s in
    let fed = feed-Fed cs s f in
    ap (λ (r : List Dispatch × LineState). map text_of r.0)
      (line_loop-feed states cs nl (stream ls) s n e)
    ∙ ap₂ ◌∷◌ (line_end-deliver (states 0) (clean outside cs) u fed (clean-AllPositive outside cs))
        (line_loop_lem (λ n. states (suc n)) ls (line_end (states 0) u).1 ok
          (line_end-Fresh (states 0) u fed.whole))
