-- ===== src/Tests/Turns.antt =====
-- The theorems on turns at three items, the second of which is completed first.
use ronro.Prelude.{◌≡◌, refl, none, some, List, [], ◌∷◌}
use ronro.Live.Turns.{
  TurnLedger, new_ledger, append, cursor, request, meaningful, reconcile_empty_commit, change_turn,
}
use ronro.Live.Turns.Observing.{
  delta, speech_started, speech_stopped, committed, observe, commit_of, commit_turn, complete,
  release, release_loop, release_pass, acknowledge, duplicate_final, has_pending,
}
use ronro.Live.Turns.Release.{IsSettled}
use ronro.Live.Turns.Runs.{
  takes, Call, appends, requests, observes, completes, call, run, run-IsSettled,
}
use ronro.Live.Turns.Finals.{complete-once}

-- The definitions that a run of the ledger unfolds.
unfoldable turns_program : Unit {0}
unfolding new_ledger append cursor request meaningful reconcile_empty_commit change_turn observe
    commit_of commit_turn complete release release_loop release_pass acknowledge has_pending call
    run
turns_program = tt

abbrev said : List Call
said =
    appends (0 ∷ 9 ∷ 20 ∷ [])
    ∷ observes (speech_started "i-1" 0)
    ∷ observes (speech_stopped "i-1" 1 none)
    ∷ observes (committed "i-1" none (some "m-1") 10)
    ∷ requests 1 "manual" 11 none
    ∷ observes (committed "i-2" (some "i-1") (some "m-2") 12)
    ∷ completes "i-2" "second"
    ∷ []

abbrev ledger : TurnLedger
ledger = run (new_ledger "server_vad") said

-- The second item waits for the first, and both come out with it.
second_waits : (complete ledger "i-2" "other").0 ≡ duplicate_final "i-2"
unfolding turns_program
second_waits = refl

both_come_out : (complete ledger "i-1" "first").1.ready ≡ "second" ∷ []
unfolding turns_program
both_come_out = refl

run-IsSettled_example : IsSettled ledger
run-IsSettled_example = run-IsSettled "server_vad" said

abbrev in_between : List Call
in_between =
    observes (delta "i-1")
    ∷ takes
    ∷ observes (committed "i-3" (some "i-2") (some "m-3") 13)
    ∷ completes "i-3" "third"
    ∷ []

complete-once_example :
    complete (run (complete ledger "i-1" "first").1 in_between) "i-1" "other"
    ≡ (duplicate_final "i-1", run (complete ledger "i-1" "first").1 in_between)
complete-once_example = complete-once ledger "i-1" "first" in_between "other"
