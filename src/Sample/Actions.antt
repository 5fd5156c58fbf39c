-- ===== src/Sample/Actions.antt =====
-- example2.c and the thread that it starts: how both loops end.
use speutils_debs.Base.{
  ℕ, zero, suc, ◌+◌, ◌%◌, ◌^◌, ◌<◌, ◌≤◌, get_elem?, ◌≡◌, ◌≢◌, refl, sym, ap, ◌∙◌, Bool, true, false,
  Option, some, List, [], ◌∷◌, ◌++◌, arith, length, ok,
}
use speutils_debs.Thread.{Spe, Turn, success, serve, thread_exit, thread_continue, send_action}
use speutils_debs.Thread.Serve.{IsServed, serve-last, serve-goes_on}
use speutils_debs.Sample.{is_yes, action_loop, counter_loop}

-- A line that is read, and whether it begins with y or Y.
abbrev pub IsLine : Bool → Option ℕ → Type 0
IsLine yes_line line = (c : ℕ) × (line ≡ some c) × (is_yes c ≡ yes_line)

abbrev pub AllLines : List (Option ℕ) → Type 0
AllLines [] = Unit
AllLines (line ∷ lines) = IsLine true line × AllLines lines

abbrev pub actions : ℕ → List ℕ
actions zero = thread_exit ∷ []
actions (suc n) = thread_continue ∷ actions n

pub action_loop-actions :
    (lines : List (Option ℕ)) (last : Option ℕ) (later : List (Option ℕ))
    → AllLines lines
    → IsLine false last
    → action_loop (lines ++ last ∷ later) ≡ ok (actions (length lines))
unfolding action_loop send_action
action_loop-actions [] last later all (c, reads, no_line) = rw reads (rw no_line refl)
action_loop-actions (line ∷ lines) last later ((c, reads, yes_line), all) no_line =
    rw reads (rw yes_line (rw (action_loop-actions lines last later all no_line) refl))

-- The rounds of the thread read these actions from the pipe, and the callback gets these values.
abbrev pub Serves : Spe → ℕ → List Turn → List ℕ → List ℕ → Type 0
Serves spe fd [] [] [] = Unit
Serves spe fd [] [] (v ∷ vs) = ⊥
Serves spe fd [] (a ∷ acts) vs = ⊥
Serves spe fd (t ∷ ts) [] vs = ⊥
Serves spe fd (t ∷ ts) (a ∷ acts) [] = ⊥
Serves spe fd (t ∷ ts) (a ∷ acts) (v ∷ vs) =
    IsServed spe fd t v × (t.action ≡ a) × Serves spe fd ts acts vs

serve-actions :
    (spe : Spe) (fd n : ℕ) (turns : List Turn) (values : List ℕ)
    → Serves spe fd turns (actions n) values
    → serve spe fd turns ≡ ok (values, success)
serve-actions spe fd zero (t ∷ []) (v ∷ []) (served, acts, rest) =
    serve-last spe fd t v [] served acts
serve-actions spe fd (suc n) (t ∷ ts) (v ∷ vs) (served, acts, rest) =
    serve-goes_on spe fd t v ts served (λ e. continue≢exit (sym acts ∙ e))
      (serve-actions spe fd n ts vs rest)
  where
    continue≢exit : thread_continue ≢ thread_exit
    continue≢exit e = omega (arith, e)
serve-actions spe fd zero [] values s = absurd s
serve-actions spe fd zero (t ∷ []) [] s = absurd s
serve-actions spe fd zero (t ∷ []) (v ∷ w ∷ vs) s = absurd s.2
serve-actions spe fd zero (t ∷ u ∷ ts) [] s = absurd s
serve-actions spe fd zero (t ∷ u ∷ ts) (v ∷ vs) s = absurd s.2
serve-actions spe fd (suc n) [] values s = absurd s
serve-actions spe fd (suc n) (t ∷ ts) [] s = absurd s

Serves-length :
    (spe : Spe) (fd : ℕ) (turns : List Turn) (acts values : List ℕ)
    → Serves spe fd turns acts values
    → length values ≡ length acts
Serves-length spe fd [] [] [] s = refl
Serves-length spe fd [] [] (v ∷ vs) s = absurd s
Serves-length spe fd [] (a ∷ acts) vs s = absurd s
Serves-length spe fd (t ∷ ts) [] vs s = absurd s
Serves-length spe fd (t ∷ ts) (a ∷ acts) [] s = absurd s
Serves-length spe fd (t ∷ ts) (a ∷ acts) (v ∷ vs) s = ap suc (Serves-length spe fd ts acts vs s.2)

length-actions : (n : ℕ) → length (actions n) ≡ n + 1
length-actions zero = refl
length-actions (suc n) = omega (arith, length-actions n)

counter_loop-at :
    (rounds myint k : ℕ)
    → myint < 2 ^ 8
    → k < rounds
    → get_elem? (counter_loop rounds myint) k ≡ some ((myint + k) % 2 ^ 8)
unfolding counter_loop
counter_loop-at zero myint k small lt = absurd (omega (arith, lt))
counter_loop-at (suc rounds) myint zero small lt = ap some (omega (arith, small))
counter_loop-at (suc rounds) myint (suc k) small lt =
    counter_loop-at rounds ((myint + 1) % 2 ^ 8) k (omega arith) (omega (arith, lt))
    ∙ ap some (omega arith)

-- When some lines that begin with y or Y are read and then another one, the loop of example2 ends, and
-- the actions that it has written are THREAD_CONTINUE for each of the former and then THREAD_EXIT. When
-- the rounds of spu_loop_thread read these actions, with a context that stops with a signal each time,
-- the callback is called once for each line, and the thread ends. When each run of the context resumes
-- the loop of spu_example2 behind its stop, the SPE has printed, for each of the lines, one more than
-- for the line before it, modulo 2 ^ 8.
pub action_loop-serve :
    (lines : List (Option ℕ)) (last : Option ℕ) (later : List (Option ℕ)) (spe : Spe) (fd : ℕ)
    (turns : List Turn) (values : List ℕ) (myint k : ℕ)
    → AllLines lines
    → IsLine false last
    → Serves spe fd turns (actions (length lines)) values
    → myint < 2 ^ 8
    → k ≤ length lines
    → (action_loop (lines ++ last ∷ later) ≡ ok (actions (length lines)))
      × (serve spe fd turns ≡ ok (values, success))
      × (length values ≡ length lines + 1)
      × (get_elem? (counter_loop (length values) myint) k ≡ some ((myint + k) % 2 ^ 8))
action_loop-serve lines last later spe fd turns values myint k all no_line s small le =
    let calls =
      Serves-length spe fd turns (actions (length lines)) values s
      ∙ length-actions (length lines) in
    (
      action_loop-actions lines last later all no_line,
      serve-actions spe fd (length lines) turns values s,
      calls,
      counter_loop-at (length values) myint k small (omega (arith, calls, le)),
    )
