-- ===== src/Samples/Brokers.antt =====
-- Runs of the queue of agent_broker.py, and its theorems at concrete calls.
use echo_veil.Base.{
  ℕ, ◌≤◌, ◌≡◌, refl, true, List, [], ◌∷◌, none, some, String, ok, length, any, count, All, arith,
}
use echo_veil.Base.Int.{ℤ, pos}
use echo_veil.Base.Dict.{lookup, put, without, has}
use echo_veil.Json.{end}
use echo_veil.Broker.{
  Job, new_queue, lane, Call, submitting, cancelling, getting, submitted, got, cancelled, answers,
  after, close,
}
use echo_veil.Broker.Turns.{Lanes, total, reply, replies, AreNew}
use echo_veil.Broker.View.{view}
use echo_veil.Broker.Refine.{promise, Agree}
use echo_veil.Broker.Answers.{answers-promised, after-bounds}
use echo_veil.Broker.Closing.{jobs_of, close-waiting}
use echo_veil.Broker.Waiting.{is_get, serves, spares, answers-serve}

abbrev job : ℕ → String → Job ℤ
job n who = record {
  handle = n;
  request_id = "00";
  caller = who;
  action = "recall";
  arguments = end;
  accepted_at = pos 0;
}

-- Ada submits two jobs and Ben one, between which a fourth is over Ada's quota of two.
abbrev morning : List (Call ℤ)
morning =
    submitting (job 1 "ada")
    ∷ submitting (job 2 "ada")
    ∷ submitting (job 3 "ada")
    ∷ submitting (job 4 "ben")
    ∷ []

abbrev noon : List (Call ℤ)
noon = getting ∷ submitting (job 5 "cy") ∷ cancelling (job 2 "ada") ∷ getting ∷ getting ∷ []

noon_round :
    answers noon (after morning (new_queue 8 2))
    ≡ got (ok (some (job 1 "ada")))
      ∷ submitted none
      ∷ cancelled true
      ∷ got (ok (some (job 4 "ben")))
      ∷ got (ok (some (job 5 "cy")))
      ∷ []
unfolding answers after new_queue lookup put without lane
noon_round = refl

morning_new : AreNew morning (promise (new_queue 8 2))
unfolding new_queue view reply lookup lane put total
morning_new = (refl, (refl, (refl, (refl, tt))))

noon_new : AreNew noon (promise (after morning (new_queue 8 2)))
unfolding after new_queue view reply lookup lane put without total
noon_new = (tt, (refl, (tt, (tt, (tt, tt)))))

ben_waits : has "ben" (after morning (new_queue 8 2)).queues ≡ true
unfolding after new_queue lookup put lane
ben_waits = refl

ben_spared : All (λ c. spares "ben" c ≡ true) noon
unfolding spares
ben_spared = (refl, (refl, (refl, (refl, (refl, tt)))))

enough_gets : length (after morning (new_queue 8 2)).callers ≤ count is_get noon
unfolding after new_queue lookup put lane is_get
enough_gets = omega arith

answers-promised_example :
    answers morning (new_queue 8 2) ≡ replies morning (promise (new_queue 8 2))
answers-promised_example = answers-promised 8 2 morning morning_new

after-bounds_example :
    Agree (after morning (new_queue 8 2)).callers (after morning (new_queue 8 2)).queues
    × ((after morning (new_queue 8 2)).queued
        ≡ total
            (view (after morning (new_queue 8 2)).callers (after morning (new_queue 8 2)).queues))
    × ((after morning (new_queue 8 2)).queued ≤ 8)
    × Lanes 2 (view (after morning (new_queue 8 2)).callers (after morning (new_queue 8 2)).queues)
after-bounds_example = after-bounds 8 2 morning morning_new

answers-serve_example : any (serves "ben") (answers noon (after morning (new_queue 8 2))) ≡ true
answers-serve_example =
    answers-serve 8 2 morning noon "ben" morning_new noon_new ben_waits ben_spared enough_gets

closed_in_the_morning :
    (close (after morning (new_queue 8 2))).0 ≡ job 1 "ada" ∷ job 2 "ada" ∷ job 4 "ben" ∷ []
unfolding after new_queue lookup put lane
closed_in_the_morning = refl

close-waiting_example :
    jobs_of "ada" (close (after morning (new_queue 8 2))).0
    ≡ lane "ada" (after morning (new_queue 8 2)).queues
close-waiting_example = close-waiting 8 2 morning "ada" morning_new
