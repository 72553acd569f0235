-- ===== src/Webproxy/Window/Tests.antt =====
-- Windows at concrete inputs.
use teleparse.Base.{ℕ, ◌+◌, ◌≤◌, ◌<◌, ◌≡◌, refl, List, [], ◌∷◌, none, some, arith}
use teleparse.Webproxy.Window.{
  SendWindow, failed, reserve, grant, abort, new_recv_window, RecvWindow, consume, max_uint32,
  window_refill_threshold,
}
use teleparse.Webproxy.Window.Credit.{
  SendCall, reserves, grants, aborts, step, run, spent, granted, call_grants, call_spends,
  run_credit, run_credit_exact, reserve-abort, consume_all, consume_all_credit,
}

abbrev small : SendWindow ℕ
small = record { available = 100; aborted = none }

abbrev calls : List (SendCall ℕ)
calls = reserves 70 ∷ reserves 70 ∷ grants 500 ∷ aborts 3 ∷ reserves 9 ∷ []

run-calls : run small calls ≡ record { available = 500; aborted = some 3 }
unfolding run step reserve grant abort
run-calls = refl

spent-calls : spent small calls ≡ 100
unfolding spent step call_spends reserve grant abort
spent-calls = refl

-- A grant above the maximum is cut off.
grant-cut : (grant small max_uint32).available ≡ max_uint32
unfolding grant
grant-cut = refl

granted-calls : granted calls ≡ 500
unfolding granted call_grants
granted-calls = refl

run_credit_example :
    ((run small calls).available ≤ max_uint32)
    × ((run small calls).available + spent small calls ≤ 100 + granted calls)
run_credit_example = run_credit calls small (omega arith)

run_credit_exact_test : (run small calls).available + spent small calls ≡ 100 + granted calls
run_credit_exact_test = run_credit_exact calls small (omega (arith, granted-calls))

reserve-abort_test : let w' = run (abort small 5) calls in reserve w' 9 ≡ (failed 5, w')
reserve-abort_test = reserve-abort small 5 calls 9 refl (omega arith)

consume_all-two :
    consume_all new_recv_window (2000000 ∷ 100000 ∷ []) ≡ (2100000, record { ungranted = 0 })
unfolding consume_all consume new_recv_window
consume_all-two = refl

abbrev owing : RecvWindow
owing = record { ungranted = 5 }

consume_all_credit_test :
    let (granted, w') = consume_all owing (2000000 ∷ 100000 ∷ 7 ∷ []) in
    (granted + w'.ungranted ≡ 5 + (2000000 + (100000 + (7 + 0))))
    × (w'.ungranted < window_refill_threshold)
consume_all_credit_test =
    consume_all_credit (2000000 ∷ 100000 ∷ 7 ∷ []) owing (omega arith) (omega arith)
