-- ===== src/Thread/Serve.antt =====
-- spu_loop_thread: what reaches the callback, and when the thread ends.
use speutils_debs.Base.{ℕ, ◌≡◌, ◌≢◌, ◌⊎◌, inl, inr, true, some, List, [], ◌∷◌, ◌++◌, arith, ok}
use speutils_debs.Thread.{
  thread_exit, Spe, Ending, success, StopInfo, Turn, callback_value, reports, await_action, serve,
}

-- Some wait reports the read end of the pipe.
abbrev pub SomeReports : ℕ → List (List ℕ) → Type 0
SomeReports fd [] = ⊥
SomeReports fd (events ∷ later) = (reports fd events ≡ true) ⊎ SomeReports fd later

-- The context stopped with a signal, for which the callback gets `value`, and an action arrives.
pub record IsServed (spe : Spe) (fd : ℕ) (t : Turn) (value : ℕ) : Type 0 where
  pub info : StopInfo
  pub runs : t.run ≡ some info
  pub signals : info.reason ≡ spe.stop_and_signal
  pub arrives : SomeReports fd t.polls
  pub gets : callback_value info t.mail ≡ value

-- The same for a list of rounds, none of which brings the action THREAD_EXIT.
abbrev pub GoOn : Spe → ℕ → List Turn → List ℕ → Type 0
GoOn spe fd [] [] = Unit
GoOn spe fd [] (v ∷ vs) = ⊥
GoOn spe fd (t ∷ ts) [] = ⊥
GoOn spe fd (t ∷ ts) (v ∷ vs) = IsServed spe fd t v × (t.action ≢ thread_exit) × GoOn spe fd ts vs

await_action-returns :
    (fd : ℕ) (polls : List (List ℕ)) → SomeReports fd polls → await_action fd polls ≡ ok tt
unfolding await_action
await_action-returns fd [] n = absurd n
await_action-returns fd (events ∷ later) (inl now) = rw now
await_action-returns fd (events ∷ later) (inr n) = ground (arith, await_action-returns fd later n)

module _ (spe : Spe) (fd : ℕ) where
  pub serve-last :
      (t : Turn) (v : ℕ) (later : List Turn)
      → IsServed spe fd t v
      → t.action ≡ thread_exit
      → serve spe fd (t ∷ later) ≡ ok (v ∷ [], success)
  unfolding serve
  serve-last t v later s ends =
      rw s.runs
        (rw (await_action-returns fd t.polls s.arrives) (ground (arith, s.signals, s.gets, ends)))

  pub serve-goes_on :
      (t : Turn) (v : ℕ) (later : List Turn) {values : List ℕ} {ending : Ending}
      → IsServed spe fd t v
      → t.action ≢ thread_exit
      → serve spe fd later ≡ ok (values, ending)
      → serve spe fd (t ∷ later) ≡ ok (v ∷ values, ending)
  unfolding serve
  serve-goes_on t v later s more rest = rw s.runs (
      rw (await_action-returns fd t.polls s.arrives, rest)
        (ground (arith, s.signals, s.gets, more)))

  -- If in each round up to some last one the context stops with a signal and an action arrives, which
  -- is THREAD_EXIT in the last round and in no earlier one, then the loop of spu_loop_thread calls the
  -- callback once for each of these rounds, in order, with their values, and the thread ends.
  pub serve-callbacks :
      (turns : List Turn) (values : List ℕ) (last : Turn) (value : ℕ) (later : List Turn)
      → GoOn spe fd turns values
      → IsServed spe fd last value
      → last.action ≡ thread_exit
      → serve spe fd (turns ++ last ∷ later) ≡ ok (values ++ value ∷ [], success)
  serve-callbacks [] [] last value later go s ends = serve-last last value later s ends
  serve-callbacks [] (v ∷ vs) last value later go s ends = absurd go
  serve-callbacks (t ∷ ts) [] last value later go s ends = absurd go
  serve-callbacks (t ∷ ts) (v ∷ vs) last value later (here, more, go) s ends =
      serve-goes_on t v (ts ++ last ∷ later) here more
        (serve-callbacks ts vs last value later go s ends)
