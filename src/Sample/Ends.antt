-- ===== src/Sample/Ends.antt =====
-- example1.c and spu_example1.c: how both loops end.
use speutils_debs.Base.{
  ℕ, zero, suc, ◌+◌, ◌^◌, ◌<◌, ◌≡◌, ◌≢◌, refl, ap, ◌∙◌, ◌⊎◌, inl, inr, Bool, true, false, some,
  List, [], ◌∷◌, ◌++◌, ◌==◌, arith, length, u32, ok,
}
use speutils_debs.Messages
use speutils_debs.Message.{recieve_message_int, send_message}
use speutils_debs.Mailbox.{send_message_int, wait_for_message_poll}
use speutils_debs.Sample.{is_yes, Question, ask_loop, Poll, count_loop}

-- The mailbox is ready in some test.
abbrev pub SomeReady : List ℕ → Type 0
SomeReady [] = ⊥
SomeReady (status ∷ later) = (status ≢ 0) ⊎ SomeReady later

send_message-ready :
    (statuses : List ℕ) (w : ℕ) → SomeReady statuses → send_message statuses w ≡ ok (w ∷ [])
unfolding send_message
send_message-ready [] w n = absurd n
send_message-ready (status ∷ later) w (inl now) = ground (arith, now)
send_message-ready (status ∷ later) w (inr n) = ground (arith, send_message-ready later w n)

send_message_int-ready :
    (statuses : List ℕ) (address w : ℕ)
    → SomeReady statuses
    → send_message_int statuses address w ≡ ok (u32 address ∷ [])
unfolding send_message_int
send_message_int-ready [] address w n = absurd n
send_message_int-ready (status ∷ later) address w (inl now) = ground (arith, now)
send_message_int-ready (status ∷ later) address w (inr n) =
    ground (arith, send_message_int-ready later address w n)

wait_for_message_poll-ready :
    (statuses : List ℕ) (w : ℕ) → SomeReady statuses → wait_for_message_poll statuses w ≡ ok w
unfolding wait_for_message_poll
wait_for_message_poll-ready [] w n = absurd n
wait_for_message_poll-ready (status ∷ later) w (inl now) = ground (arith, now)
wait_for_message_poll-ready (status ∷ later) w (inr n) =
    ground (arith, wait_for_message_poll-ready later w n)

-- A round in which some word or STOP is received, a line is read and the mailbox gets ready.
pub record IsAsked (yes_line : Bool) (q : Question) : Type 0 where
  pub msg : ℕ
  pub receives : recieve_message_int q.waits q.mail ≡ ok msg
  pub c : ℕ
  pub reads : q.line ≡ some c
  pub answers : is_yes c ≡ yes_line
  pub ready : SomeReady q.statuses

abbrev pub AllYes : List Question → Type 0
AllYes [] = Unit
AllYes (q ∷ qs) = IsAsked true q × AllYes qs

abbrev pub words : ℕ → ℕ → List ℕ
words zero run = Messages.stop ∷ []
words (suc n) run = run ∷ words n run

pub ask_loop-words :
    (run : ℕ) (questions : List Question) (last : Question) (later : List Question)
    → AllYes questions
    → IsAsked false last
    → ask_loop run (questions ++ last ∷ later) ≡ ok (words (length questions) run)
unfolding ask_loop
ask_loop-words run [] last later all no_line =
    rw (no_line.receives, no_line.reads)
      (rw no_line.answers (send_message-ready last.statuses Messages.stop no_line.ready))
ask_loop-words run (q ∷ qs) last later (asked, all) no_line =
    rw (asked.receives, asked.reads)
      (rw asked.answers (
        rw
          (
            send_message-ready q.statuses run asked.ready,
            ask_loop-words run qs last later all no_line,
          )
          refl))

-- The SPE meets these words, and its mailboxes get ready.
abbrev pub Meets : List Poll → List ℕ → Type 0
Meets [] [] = Unit
Meets [] (w ∷ ws) = ⊥
Meets (p ∷ ps) [] = ⊥
Meets (p ∷ ps) (w ∷ ws) = (p.mail ≡ w) × SomeReady p.outs × SomeReady p.ins × Meets ps ws

count_loop-words :
    (address ready run n myint : ℕ) (polls : List Poll)
    → run ≢ Messages.stop
    → myint < 2 ^ 32
    → Meets polls (words n run)
    → count_loop address ready polls myint ≡ ok (u32 (myint + n))
unfolding count_loop
count_loop-words address ready run zero myint [] ne lt meets = absurd meets
count_loop-words address ready run zero myint (p ∷ ps) ne lt (mail, outs, ins, rest) =
    rw
      (
        send_message_int-ready p.outs address ready outs,
        wait_for_message_poll-ready p.ins p.mail ins,
      )
      (ground (arith, mail, lt))
count_loop-words address ready run (suc n) myint [] ne lt meets = absurd meets
count_loop-words address ready run (suc n) myint (p ∷ ps) ne lt (mail, outs, ins, rest) =
    let goes_on : (p.mail == Messages.stop) ≡ false = ground (arith, mail, ne) in
    rw
      (
        send_message_int-ready p.outs address ready outs,
        wait_for_message_poll-ready p.ins p.mail ins,
      )
      (rw goes_on (
        count_loop-words address ready run n (u32 (myint + 1)) ps ne (omega arith) rest
        ∙ ap ok (omega arith)))

-- When, in some rounds, a word is received, a line that begins with y or Y is read and the mailbox gets
-- ready, and in the next round the same with another line, the loop of example1 ends. When the SPE then
-- meets the words that it was sent, and its mailboxes get ready, the loop of spu_example1 ends too, and
-- it has counted the rounds up, modulo 2 ^ 32. RUN is a word other than STOP.
pub ask_loop-count_loop :
    (run address ready myint : ℕ) (questions : List Question) (last : Question)
    (later : List Question) (polls : List Poll)
    → run ≢ Messages.stop
    → myint < 2 ^ 32
    → AllYes questions
    → IsAsked false last
    → Meets polls (words (length questions) run)
    → (ask_loop run (questions ++ last ∷ later) ≡ ok (words (length questions) run))
      × (count_loop address ready polls myint ≡ ok (u32 (myint + length questions)))
ask_loop-count_loop run address ready myint questions last later polls ne lt all no_line meets = (
  ask_loop-words run questions last later all no_line,
  count_loop-words address ready run (length questions) myint polls ne lt meets,
)
