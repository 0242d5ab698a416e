-- ===== src/Client/Waiting/Ends.antt =====
-- A wait ends, and a reply that comes in time is taken.
use distributed_server_clien.Prelude.Bytes.{Bytes}
use distributed_server_clien.Prelude.{
  ℕ, zero, suc, ◌+◌, ◌*◌, ◌≤◌, ◌<◌, ◌≡◌, ap, false, List, [], ◌∷◌, none, some, arith, Bool-cases,
  inl, inr,
}
use distributed_server_clien.Clock.{is_timeout}
use distributed_server_clien.Client.Replies.{Round, fetch_reply, receive_fetch_file_response}
use distributed_server_clien.Client.Waiting.{Wait, turn, add_round, wait_loop}

k_shift : (k i : ℕ) → k + 1 + i ≡ k + suc i
k_shift k i = omega arith

module _ (w : Wait) (ticks : (j : ℕ) → w.clock j < w.clock (j + 1)) where
  two_ticks : (k : ℕ) → w.clock (2 * k) + 2 ≤ w.clock (2 * (k + 1))
  two_ticks k =
      let next : 2 * (k + 1) ≡ 2 * k + 1 + 1 = omega arith in
      rw next (omega (arith, ticks (2 * k), ticks (2 * k + 1)))

  -- If the clock advances with each reading, a waiting loop ends after at most as many turns as
  -- there are nanoseconds left of its timeout, whatever the turns bring.
  pub wait_loop_ends :
      (fuel k : ℕ)
      → w.timeout * 1000000000 ≤ fuel + w.clock (2 * k)
      → (rounds : List Round) × (wait_loop (suc fuel) w k ≡ some rounds)
  unfolding wait_loop is_timeout
  wait_loop_ends zero k h = ([], ground arith)
  wait_loop_ends (suc fuel) k h = elim (Bool-cases (is_timeout (w.clock (2 * k)) w.timeout)) [
    | inl over ↦ ([], rw over)
    | inr more ↦
        let (rounds, run) = wait_loop_ends fuel (k + 1) (omega (arith, two_ticks k)) in
        (turn w k ∷ rounds, rw more (ap (add_round (turn w k)) run))
  ]

  wait_loop_step :
      (fuel k : ℕ)
      → w.timeout * 1000000000 ≤ fuel + w.clock (2 * k)
      → is_timeout (w.clock (2 * k)) w.timeout ≡ false
      → (rounds : List Round) × (wait_loop fuel w (k + 1) ≡ some rounds)
        × (wait_loop (suc fuel) w k ≡ some (turn w k ∷ rounds))
  unfolding wait_loop is_timeout
  wait_loop_step zero k h more = absurd (ground arith)
  wait_loop_step (suc fuel) k h more =
      let (rounds, run) = wait_loop_ends fuel (k + 1) (omega (arith, two_ticks k)) in
      (rounds, run, rw more (ap (add_round (turn w k)) run))

  step-add_round :
      (fuel k : ℕ) (rounds : List Round)
      → is_timeout (w.clock (2 * k)) w.timeout ≡ false
      → wait_loop fuel w (k + 1) ≡ some rounds
      → wait_loop (suc fuel) w k ≡ some (turn w k ∷ rounds)
  unfolding wait_loop
  step-add_round fuel k rounds more run = rw more (ap (add_round (turn w k)) run)

  no_fuel :
      (k : ℕ)
      → w.timeout * 1000000000 ≤ 0 + w.clock (2 * k)
      → is_timeout (w.clock (2 * (k + 0))) w.timeout ≡ false
      → ⊥
  unfolding is_timeout
  no_fuel k h more = let here : k + 0 ≡ k = omega arith in ground (arith, rw here at more)

  -- If the clock advances with each reading, the turns up to some turn start before the timeout,
  -- none of those before it brings a valid reply, whether setsockopt fails there or nothing or
  -- other datagrams arrive, and that turn brings a valid reply to the fetch, then the waiting loop
  -- ends and `receive_fetch_file_response` returns the port of that reply.
  pub wait_loop_fetch :
      (seq : ℕ) (f : Bytes) (port j fuel k : ℕ)
      → w.timeout * 1000000000 ≤ fuel + w.clock (2 * k)
      → ((i : ℕ) → i ≤ j → is_timeout (w.clock (2 * (k + i))) w.timeout ≡ false)
      → ((i : ℕ) → i < j → fetch_reply seq f (turn w (k + i)).datagram ≡ none)
      → fetch_reply seq f (turn w (k + j)).datagram ≡ some port
      → (rounds : List Round) × (wait_loop (suc fuel) w k ≡ some rounds)
        × (receive_fetch_file_response seq f rounds ≡ port)
  unfolding receive_fetch_file_response
  wait_loop_fetch seq f port zero fuel k h time noise reply =
      let here : k + 0 ≡ k = omega arith in
      let (rounds, rest, run) = wait_loop_step fuel k h (rw here at (time 0 (omega arith))) in
      (turn w k ∷ rounds, run, rw (rw here at reply, receive_fetch_file_response))
  wait_loop_fetch seq f port (suc j) zero k h time noise reply =
      absurd (no_fuel k h (time 0 (omega arith)))
  wait_loop_fetch seq f port (suc j) (suc fuel) k h time noise reply =
      let here : k + 0 ≡ k = omega arith in
      let now = rw here at (time 0 (omega arith)) in
      let skipped = rw here at (noise 0 (omega arith)) in
      let (rounds, rest, port_read) =
        wait_loop_fetch seq f port j fuel (k + 1) (omega (arith, two_ticks k))
          (λ i le. rw (k_shift k i) (time (suc i) (omega arith)))
          (λ i lt. rw (k_shift k i) (noise (suc i) (omega arith))) (rw (k_shift k j) reply) in
      (
        turn w k ∷ rounds,
        step-add_round (suc fuel) k rounds now rest,
        rw (skipped, receive_fetch_file_response) port_read,
      )
