-- ===== src/Webproxy/Window/Credit.antt =====
-- Credit is neither made nor lost, over any order of calls on a window.
use teleparse.Base.{ℕ, ◌+◌, ◌^◌, ◌≤◌, ◌<◌, ◌≡◌, List, [], ◌∷◌, none, some, arith, ◌⊎◌, All}
use teleparse.Webproxy.Window.{
  SendWindow, Reservation, invalid, failed, got, waits, reserve, grant, abort, RecvWindow, consume,
  window_refill_threshold, max_uint32,
}

-- The calls that goroutines make on one window, in the order in which they get its mutex.
pub data SendCall (E : Type 0) : Type 0 where
  reserves : ℕ → SendCall E
  grants : ℕ → SendCall E
  aborts : E → SendCall E

module _ {E : Type 0} where
  abbrev pub taken : Reservation E → ℕ
  taken (got n) = n
  taken invalid = 0
  taken (failed e) = 0
  taken waits = 0

  unfoldable pub step : SendWindow E → SendCall E → SendWindow E
  step w (reserves n) = (reserve w n).1
  step w (grants d) = grant w d
  step w (aborts e) = abort w e

  unfoldable pub run : SendWindow E → List (SendCall E) → SendWindow E
  run w [] = w
  run w (c ∷ cs) = run (step w c) cs

  unfoldable pub call_spends : SendWindow E → SendCall E → ℕ
  call_spends w (reserves n) = taken (reserve w n).0
  call_spends w (grants d) = 0
  call_spends w (aborts e) = 0

  -- The bytes that the calls were allowed to send.
  unfoldable pub spent : SendWindow E → List (SendCall E) → ℕ
  spent w [] = 0
  spent w (c ∷ cs) = call_spends w c + spent (step w c) cs

  unfoldable pub call_grants : SendCall E → ℕ
  call_grants (grants d) = d
  call_grants (reserves n) = 0
  call_grants (aborts e) = 0

  unfoldable pub granted : List (SendCall E) → ℕ
  granted [] = 0
  granted (c ∷ cs) = call_grants c + granted cs

  -- What `Reserve` hands out, on each of its outcomes.
  pub reserve_cases :
      (w : SendWindow E) (want : ℕ)
      → let (r, w') = reserve w want in
        (w'.available + taken r ≡ w.available)
        × (taken r ≤ want)
        × (w'.aborted ≡ w.aborted)
        × (r ≡ waits → (w.available ≡ 0) × (w.aborted ≡ none) × (0 < want))
        × ((n : ℕ) → r ≡ got n → 0 < n)
  unfolding reserve
  reserve_cases w want =
      (ground arith, ground arith, ground arith, λ h. ground arith, λ n h. ground arith)

  step_credit :
      (w : SendWindow E) (c : SendCall E)
      → w.available ≤ max_uint32
      → ((step w c).available ≤ max_uint32)
        × ((step w c).available + call_spends w c ≤ w.available + call_grants c)
        × (w.available + call_grants c ≤ max_uint32
            → (step w c).available + call_spends w c ≡ w.available + call_grants c)
  unfolding step call_spends call_grants grant abort
  step_credit w (reserves n) h = ground (arith, reserve_cases w n)
  step_credit w (grants d) h = (ground arith, ground arith, λ k. ground arith)
  step_credit w (aborts e) h = (ground arith, ground arith, λ k. ground arith)

  -- Over any calls on a window whose credit is a uint32, the credit stays a uint32, and the credit
  -- left and the credit spent together are at most the credit that was there and the grants.
  pub run_credit :
      (cs : List (SendCall E)) (w : SendWindow E)
      → w.available ≤ max_uint32
      → ((run w cs).available ≤ max_uint32)
        × ((run w cs).available + spent w cs ≤ w.available + granted cs)
  unfolding run spent granted
  run_credit [] w h = (omega arith, omega arith)
  run_credit (c ∷ cs) w h =
      let (small, below, _) = step_credit w c h in
      let ih = run_credit cs (step w c) small in (ih.0, omega (arith, ih.1))

  -- Where the credit that was there and the grants fit a uint32 together, nothing is lost: the
  -- credit left and the credit spent are together exactly the credit that was there and the grants.
  pub run_credit_exact :
      (cs : List (SendCall E)) (w : SendWindow E)
      → w.available + granted cs ≤ max_uint32
      → (run w cs).available + spent w cs ≡ w.available + granted cs
  unfolding run spent granted
  run_credit_exact [] w h = omega arith
  run_credit_exact (c ∷ cs) w h =
      let (_, _, same) = step_credit w c (omega arith) in
      let one = same (omega arith) in
      omega (arith, one, run_credit_exact cs (step w c) (omega (arith, one)))

  step_aborted :
      (w : SendWindow E) (c : SendCall E) (e : E) → w.aborted ≡ some e → (step w c).aborted ≡ some e
  unfolding step grant abort
  step_aborted w (reserves n) e h = ground (arith, reserve_cases w n)
  step_aborted w (grants d) e h = ground arith
  step_aborted w (aborts x) e h = ground arith

  run_aborted :
      (cs : List (SendCall E)) (w : SendWindow E) (e : E)
      → w.aborted ≡ some e
      → (run w cs).aborted ≡ some e
  unfolding run
  run_aborted [] w e h = h
  run_aborted (c ∷ cs) w e h = run_aborted cs (step w c) e (step_aborted w c e h)

  abort-aborted : (w : SendWindow E) (e : E) → w.aborted ≡ none → (abort w e).aborted ≡ some e
  unfolding abort
  abort-aborted w e h = ground arith

  reserve-failed :
      (w : SendWindow E) (want : ℕ) (e : E)
      → w.aborted ≡ some e
      → 0 < want
      → reserve w want ≡ (failed e, w)
  unfolding reserve
  reserve-failed w want e h k = ground arith

  -- The first abort wins: whatever is called after it, later aborts and grants included, a
  -- reservation of a positive amount fails with its error and takes nothing.
  pub reserve-abort :
      (w : SendWindow E) (e : E) (cs : List (SendCall E)) (want : ℕ)
      → w.aborted ≡ none
      → 0 < want
      → let w' = run (abort w e) cs in reserve w' want ≡ (failed e, w')
  reserve-abort w e cs want h k =
      reserve-failed _ want e (run_aborted cs (abort w e) e (abort-aborted w e h)) k

-- The grants that a sequence of reads returns, and the account after it.
unfoldable pub consume_all : RecvWindow → List ℕ → ℕ × RecvWindow
consume_all w [] = (0, w)
consume_all w (n ∷ ns) =
    let (delta, w') = consume w n in let (more, w'') = consume_all w' ns in (delta + more, w'')

abbrev pub total : List ℕ → ℕ
total [] = 0
total (n ∷ ns) = n + total ns

-- A read's size stays where the account cannot pass 2 ^ 32.
abbrev pub IsRead : ℕ → Type 0
IsRead n = n ≤ 2 ^ 31

consume_cases :
    (w : RecvWindow) (n : ℕ)
    → w.ungranted < window_refill_threshold
    → IsRead n
    → let (delta, w') = consume w n in
      (delta + w'.ungranted ≡ w.ungranted + n)
      × (w'.ungranted < window_refill_threshold)
      × ((delta ≡ 0) ⊎ (window_refill_threshold ≤ delta))
unfolding consume
consume_cases w n h k = ground arith

-- Where less than half a window is owed at first and no read is above 2 ^ 31 bytes, every byte that
-- the application reads is granted back once or still owed, and less than half a window is ever owed.
pub consume_all_credit :
    (ns : List ℕ) (w : RecvWindow)
    → All IsRead ns
    → w.ungranted < window_refill_threshold
    → let (granted, w') = consume_all w ns in
      (granted + w'.ungranted ≡ w.ungranted + total ns) × (w'.ungranted < window_refill_threshold)
unfolding consume_all
consume_all_credit [] w hs h = omega arith
consume_all_credit (n ∷ ns) w hs h =
    let (same, small, _) = consume_cases w n h hs.0 in
    let ih = consume_all_credit ns (consume w n).1 hs.1 small in omega arith
