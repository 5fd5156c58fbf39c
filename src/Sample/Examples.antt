-- ===== src/Sample/Examples.antt =====
-- The example programs: two lines with y, then one with n.
use speutils_debs.Base.{
  ℕ, ◌%◌, ◌^◌, get_elem?, ◌+◌, ◌≡◌, ◌≢◌, refl, inl, inr, Bool, true, false, none, some, [], ◌∷◌,
  arith, u32, ok, fault, exited, ◌==◌, ◌↔◌, if◌then◌else◌,
}
use speutils_debs.Message.{is_hit, count_retries, recieve_message_int}
use speutils_debs.Thread.{Spe, Turn, success, serve, share_bit, callback_value, reports}
use speutils_debs.Thread.Serve.{IsServed}
use speutils_debs.Sample.{is_yes, Question, ask_loop, Poll, count_loop, action_loop, counter_loop}
use speutils_debs.Sample.Ends.{IsAsked, ask_loop-count_loop}
use speutils_debs.Sample.Actions.{action_loop-serve}
use speutils_debs.Thread.{SpuThread, spu_loop, spu_once}
use speutils_debs.Sample.Mains.{Answers, left, example1, example2, example1-frees, example2-returns}
use speutils_debs.Sample.Wakeup.{
  Pair, first, lost, asking, left_loop, polling, Reach, here, go, stops, broadcasts, waits,
}
use speutils_debs.Sample.Wakeup.Stuck.{CanStep, Ends, Reach-stuck_iff, Reach-lost}

-- The first wait reports nothing, and the mailbox of the SPE is full in the first test.
abbrev question : ℕ → Question
question c = record {
  waits =
      record { positive = true; mailbox = false } ∷ record { positive = true; mailbox = true } ∷ [];
  mail = 5;
  line = some c;
  statuses = 0 ∷ 3 ∷ [];
}

question-IsAsked : (b : Bool) (c : ℕ) → is_yes c ≡ b → IsAsked b (question c)
unfolding is_hit count_retries recieve_message_int
question-IsAsked b c e = record {
  msg = 5;
  receives = refl;
  c = c;
  reads = refl;
  answers = e;
  ready = inr (inl (λ full. absurd (omega (arith, full))));
}

y-is_yes : is_yes 121 ≡ true
unfolding is_yes
y-is_yes = refl

capital-is_yes : is_yes 89 ≡ true
unfolding is_yes
capital-is_yes = refl

n-is_yes : is_yes 110 ≡ false
unfolding is_yes
n-is_yes = refl

abbrev poll : ℕ → Poll
poll w = record { outs = 1 ∷ []; ins = 0 ∷ 1 ∷ []; mail = w }

one≢0 : ◌≢◌ {A = ℕ} 1 0
one≢0 e = omega (arith, e)

ask_loop-count_loop_example :
    (ask_loop 4 (question 121 ∷ question 89 ∷ question 110 ∷ []) ≡ ok (4 ∷ 4 ∷ 0xCAFEBABE ∷ []))
    × (count_loop 0x3fff0 1 (poll 4 ∷ poll 4 ∷ poll 0xCAFEBABE ∷ []) 1 ≡ ok (u32 (1 + 2)))
ask_loop-count_loop_example =
    ask_loop-count_loop 4 0x3fff0 1 1 (question 121 ∷ question 89 ∷ []) (question 110) []
      (poll 4 ∷ poll 4 ∷ poll 0xCAFEBABE ∷ []) (λ e. absurd (omega (arith, e))) (omega arith)
      (question-IsAsked true 121 y-is_yes, (question-IsAsked true 89 capital-is_yes, tt))
      (question-IsAsked false 110 n-is_yes)
      (
        refl,
        inl one≢0,
        inr (inl one≢0),
        (refl, inl one≢0, inr (inl one≢0), (refl, inl one≢0, inr (inl one≢0), tt)),
      )

abbrev spe : Spe
spe = record { default_entry = 1; events_enable = 2; mailbox_and_stopped = 3; stop_and_signal = 4 }

-- The descriptor 5 is the read end of the pipe.
abbrev turn : ℕ → Turn
turn action = record {
  run = some (record { reason = 4; signal_code = 0 });
  mail = 77;
  polls = [] ∷ (8 ∷ 5 ∷ []) ∷ [];
  action = action;
}

turn-IsServed : (action : ℕ) → IsServed spe 5 (turn action) 0
unfolding reports callback_value share_bit
turn-IsServed action = record {
  info = record { reason = 4; signal_code = 0 };
  runs = refl;
  signals = refl;
  arrives = inr (inl refl);
  gets = refl;
}

action_loop-serve_example :
    (action_loop (some 121 ∷ some 110 ∷ none ∷ []) ≡ ok (1 ∷ 0 ∷ []))
    × (serve spe 5 (turn 1 ∷ turn 0 ∷ []) ≡ ok (0 ∷ 0 ∷ [], success))
    × (2 ≡ 1 + 1)
    × (get_elem? (counter_loop 2 255) 1 ≡ some ((255 + 1) % 2 ^ 8))
action_loop-serve_example =
    action_loop-serve (some 121 ∷ []) (some 110) (none ∷ []) spe 5 (turn 1 ∷ turn 0 ∷ [])
      (0 ∷ 0 ∷ []) 255 1 ((121, refl, y-is_yes), tt) (110, refl, n-is_yes)
      (turn-IsServed 1, refl, (turn-IsServed 0, refl, tt)) (omega arith) (omega arith)

abbrev answers : Answers
answers = record {
  spe = spe;
  create = λ r. 0;
  array = 0x7fff0;
  epoll = 3;
  read_end = 4;
  write_end = 5;
}

abbrev sput : SpuThread
sput = record {
  kind = 9;
  runflags = 9;
  entry = 9;
  createflags = 9;
  events = 9;
  has_pipe = false;
  thread_id = 9;
}

-- RUN is taken to be 4.
example1-frees_example :
    example1 answers 4 sput (question 121 ∷ question 110 ∷ [])
    ≡ (if answers.create spu_once == 0 then fault else exited (answers.create spu_once))
example1-frees_example =
    example1-frees answers 4 sput (question 121 ∷ []) (question 110) []
      (question-IsAsked true 121 y-is_yes, tt) (question-IsAsked false 110 n-is_yes)

example2-returns_example : example2 answers sput (some 121 ∷ some 110 ∷ none ∷ []) ≡ (
    if answers.create spu_loop == 0
    then ok (1 ∷ 0 ∷ [], left answers)
    else exited (answers.create spu_loop))
example2-returns_example =
    example2-returns answers sput (some 121 ∷ []) (some 110) (none ∷ [])
      (record {
        epoll = λ e. absurd (omega (arith, e));
        read_end = λ e. absurd (omega (arith, e));
        write_end = λ e. absurd (omega (arith, e));
      })
      ((121, refl, y-is_yes), tt) (110, refl, n-is_yes)

-- The broadcast comes before main waits.
abbrev early : Reach first lost
early = go (go (go here (stops refl refl)) (broadcasts refl refl)) (waits refl refl)

Reach-stuck_iff_example : (CanStep lost → ⊥) ↔ Ends lost
Reach-stuck_iff_example = Reach-stuck_iff lost early

abbrev asked : Pair
asked = record { host = asking; thread = polling; pipe = [] }

Reach-lost_example : Reach asked lost
Reach-lost_example =
    Reach-lost asked (go (go (go here (waits refl refl)) (stops refl refl)) (broadcasts refl refl))
      asking≢left_loop
  where
    asking≢left_loop : asking ≢ left_loop
    asking≢left_loop e = cc
