-- ===== src/Message/Retry.antt =====
-- recieve_message_int: its retries.
use speutils_debs.Base.{
  ℕ, zero, suc, ◌-◌, ◌<◌, ◌≤◌, ltb, if◌then◌else◌, Bool-cases, inl, inr, ◌≡◌, refl, sym, ap, ◌∙◌,
  true, false, List, [], ◌∷◌, ◌++◌, arith, length, ok,
}
use speutils_debs.Messages
use speutils_debs.Message.{Wait, is_hit, count_retries, recieve_message_int}

abbrev pub AllMiss : List Wait → Type 0
AllMiss [] = Unit
AllMiss (w ∷ ws) = (is_hit w ≡ false) × AllMiss ws

count_retries-hit :
    (retries : ℕ) (misses : List Wait) (hit : Wait) (later : List Wait)
    → AllMiss misses
    → is_hit hit ≡ true
    → length misses < retries
    → count_retries retries (misses ++ hit ∷ later) ≡ ok (retries - length misses)
unfolding count_retries
count_retries-hit zero misses hit later all yes_hit lt = absurd (omega arith)
count_retries-hit (suc r) [] hit later all on lt = rw on (ground arith)
count_retries-hit (suc r) (w ∷ ws) hit later (miss, all) on lt =
    rw miss (count_retries-hit r ws hit later all on (omega (arith, lt)) ∙ ap ok (omega arith))

count_retries-none :
    (misses later : List Wait)
    → AllMiss misses
    → count_retries (length misses) (misses ++ later) ≡ ok 0
unfolding count_retries
count_retries-none [] later all = refl
count_retries-none (w ∷ ws) later (miss, all) = rw miss (count_retries-none ws later all)

recieve_message_int-hit :
    (misses : List Wait) (hit : Wait) (later : List Wait) (mail : ℕ)
    → AllMiss misses
    → is_hit hit ≡ true
    → length misses < 10
    → recieve_message_int (misses ++ hit ∷ later) mail ≡ ok mail
unfolding recieve_message_int
recieve_message_int-hit misses hit later mail all on lt =
    rw (count_retries-hit 10 misses hit later all on lt) (ground (arith, lt))

recieve_message_int-stop :
    (misses later : List Wait) (mail : ℕ)
    → AllMiss misses
    → length misses ≡ 10
    → recieve_message_int (misses ++ later) mail ≡ ok Messages.stop
unfolding recieve_message_int
recieve_message_int-stop misses later mail all ten =
    rw (ap (λ n. count_retries n (misses ++ later)) (sym ten) ∙ count_retries-none misses later all)

-- When at most ten waits bring no message and the next one would bring a message: recieve_message_int
-- returns the message if those were fewer than ten, and STOP, without that wait, if they were ten.
pub recieve_message_int-retries :
    (misses : List Wait) (hit : Wait) (later : List Wait) (mail : ℕ)
    → AllMiss misses
    → is_hit hit ≡ true
    → length misses ≤ 10
    → recieve_message_int (misses ++ hit ∷ later) mail
      ≡ ok (if ltb (length misses) 10 then mail else Messages.stop)
recieve_message_int-retries misses hit later mail all on le =
    elim (Bool-cases (ltb (length misses) 10)) [
      | inl early ↦
          rw early (recieve_message_int-hit misses hit later mail all on (ground (arith, early)))
      | inr out ↦
          rw out (recieve_message_int-stop misses (hit ∷ later) mail all (ground (arith, out, le)))
    ]
