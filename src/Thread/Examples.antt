-- ===== src/Thread/Examples.antt =====
-- spu_loop_thread: three stops of the SPE, the second of which asks for a word of the mailbox.
use speutils_debs.Base.{ℕ, ◌≡◌, refl, inl, inr, true, false, some, [], ◌∷◌, arith, ok}
use speutils_debs.Thread.{
  SpuThread, start_spu_thread, Spe, success, Turn, share_bit, callback_value, reports, serve,
}
use speutils_debs.Thread.Serve.{IsServed, serve-callbacks}

abbrev spe : Spe
spe = record { default_entry = 1; events_enable = 2; mailbox_and_stopped = 3; stop_and_signal = 4 }

-- The descriptor 5 is the read end of the pipe.
abbrev turn : ℕ → ℕ → Turn
turn code action = record {
  run = some (record { reason = 4; signal_code = code });
  mail = 77;
  polls = [] ∷ (8 ∷ 5 ∷ []) ∷ [];
  action = action;
}

-- Some code that is not READ_MBOX shares a bit with it: the word of the mailbox is read for it too.
shares_bit : share_bit 32 1 1999 ≡ true
unfolding share_bit
shares_bit = refl

-- A code for which the callback gets the code itself.
apart : share_bit 32 0x3000 1999 ≡ false
unfolding share_bit
apart = refl

turn-IsServed : IsServed spe 5 (turn 0x3000 1) 0x3000
unfolding reports callback_value share_bit
turn-IsServed = record {
  info = record { reason = 4; signal_code = 0x3000 };
  runs = refl;
  signals = refl;
  arrives = inr (inl refl);
  gets = refl;
}

mailbox-IsServed : (action : ℕ) → IsServed spe 5 (turn 1999 action) 77
unfolding reports callback_value share_bit
mailbox-IsServed action = record {
  info = record { reason = 4; signal_code = 1999 };
  runs = refl;
  signals = refl;
  arrives = inr (inl refl);
  gets = refl;
}

serve-callbacks_example :
    serve spe 5 (turn 0x3000 1 ∷ turn 1999 1 ∷ turn 1999 0 ∷ turn 3 1 ∷ [])
    ≡ ok (0x3000 ∷ 77 ∷ 77 ∷ [], success)
serve-callbacks_example =
    serve-callbacks spe 5 (turn 0x3000 1 ∷ turn 1999 1 ∷ []) (0x3000 ∷ 77 ∷ []) (turn 1999 0) 77
      (turn 3 1 ∷ []) (turn-IsServed, omega arith, (mailbox-IsServed 1, omega arith, tt))
      (mailbox-IsServed 0) refl

abbrev thread : SpuThread
thread = record {
  kind = 1;
  runflags = 9;
  entry = 9;
  createflags = 9;
  events = 9;
  has_pipe = false;
  thread_id = 9;
}

-- A thread of the kind THREAD_RUN, as it is started.
abbrev running : SpuThread
running = record {
  kind = 1;
  runflags = 0;
  entry = 1;
  createflags = 2;
  events = 3;
  has_pipe = false;
  thread_id = 0;
}

thread-running : start_spu_thread spe (λ r. 0) thread ≡ ok running
unfolding start_spu_thread
thread-running = refl
