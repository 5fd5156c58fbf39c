-- ===== src/Message/Examples.antt =====
-- recieve_message_int: a message after two waits without one, and ten waits without one.
use speutils_debs.Base.{
  ℕ, zero, suc, ◌≡◌, refl, true, false, [], ◌∷◌, ◌++◌, arith, replicate, ok, length, ltb,
  if◌then◌else◌,
}
use speutils_debs.Messages
use speutils_debs.Message.{Wait, is_hit, recieve_message_int, send_message}
use speutils_debs.Message.Retry.{AllMiss, recieve_message_int-retries}

abbrev hit : Wait
hit = record { positive = true; mailbox = true }

abbrev error : Wait
error = record { positive = false; mailbox = true }

abbrev other : Wait
other = record { positive = true; mailbox = false }

hit-is_hit : is_hit hit ≡ true
unfolding is_hit
hit-is_hit = refl

two-AllMiss : AllMiss (error ∷ other ∷ [])
unfolding is_hit
two-AllMiss = (refl, (refl, tt))

miss : is_hit error ≡ false
unfolding is_hit
miss = refl

replicate-AllMiss : (n : ℕ) → AllMiss (replicate n error)
replicate-AllMiss zero = tt
replicate-AllMiss (suc n) = (miss, replicate-AllMiss n)

sends_late : send_message (0 ∷ 0 ∷ 2 ∷ []) 9 ≡ ok (9 ∷ [])
unfolding send_message
sends_late = refl

recieve_message_int-retries_example :
    recieve_message_int (replicate 10 error ++ hit ∷ []) 42
    ≡ ok (if ltb (length (replicate 10 error)) 10 then 42 else Messages.stop)
recieve_message_int-retries_example =
    recieve_message_int-retries (replicate 10 error) hit [] 42 (replicate-AllMiss 10) hit-is_hit
      (omega arith)
