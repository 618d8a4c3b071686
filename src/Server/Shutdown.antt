-- ===== src/Server/Shutdown.antt =====
-- crates/pes-server/src/main.rs: the wait for the connections to close, after the signal. The k-th turn reads
-- the counter and the clock, in milliseconds, and sleeps; what they read is an argument.
use prometheus_entity_sync.Base.{
  ℕ, zero, suc, ◌+◌, ◌*◌, ◌≤◌, ◌<◌, ltb, ltb→lt, ltb→le, and_split, Option, none, some, true, false,
  Bool-cases, ◌&&◌, if◌then◌else◌, ◌≡◌, ◌⊎◌, refl, inl, inr, arith,
}
use mathlib.Core.Option

abbrev pub shutdown_drain_timeout : ℕ
shutdown_drain_timeout = 30000

-- How the wait ends, with the count that is read after it.
pub data Exit : Type 0 where
  drained_cleanly : Exit
  forced : ℕ → Exit

unfoldable pub exit_of : ℕ → Exit
exit_of zero = drained_cleanly
exit_of (suc n) = forced (suc n)

module _ (connection_count now : ℕ → ℕ) where
  -- The turn at which the loop is left; `none` says that the fuel ran out.
  unfoldable pub drain_turns : ℕ → ℕ → ℕ → Option ℕ
  drain_turns zero drain_deadline k = none
  drain_turns (suc fuel) drain_deadline k =
      let rest = drain_turns fuel drain_deadline (k + 1) in
      if ltb 0 (connection_count k) && ltb (now k) drain_deadline then rest else some k

  -- What is true of the turn at which the wait ends.
  abbrev Ends : ℕ → ℕ → Option ℕ → Type 0
  Ends deadline k r =
      (j : ℕ) × (r ≡ some j) × (k ≤ j) × ((connection_count j ≡ 0) ⊎ (deadline ≤ now j))

  left :
      (deadline k : ℕ)
      → (ltb 0 (connection_count k) && ltb (now k) deadline) ≡ false
      → (connection_count k ≡ 0) ⊎ (deadline ≤ now k)
  left deadline k h = elim (Bool-cases (ltb 0 (connection_count k))) [
    | inl open_ ↦ inr (ltb→le (now k) deadline (rw open_ at h))
    | inr none_open ↦ inl (omega (arith, ltb→le 0 (connection_count k) none_open))
  ]

  now_before :
      (deadline k : ℕ)
      → (ltb 0 (connection_count k) && ltb (now k) deadline) ≡ true
      → now k < deadline
  now_before deadline k h = ltb→lt (now k) deadline (and_split _ _ h).1

  -- On fuel for the turns until the deadline and one more, the loop ends at a turn that finds no
  -- connection open or the deadline over, if every turn takes at least 100 ms.
  pub drain_turns-Ends :
      ((k : ℕ) → now k + 100 ≤ now (k + 1))
      → (fuel deadline k : ℕ) → deadline ≤ now k + 100 * fuel
      → Ends deadline k (drain_turns (suc fuel) deadline k)
  unfolding drain_turns
  drain_turns-Ends sleeps zero deadline k h =
      elim (Bool-cases (ltb 0 (connection_count k) && ltb (now k) deadline)) [
        | inl on ↦ absurd (omega (arith, h, now_before deadline k on))
        | inr off ↦ (k, rw off refl, omega arith, left deadline k off)
      ]
  drain_turns-Ends sleeps (suc fuel) deadline k h =
      elim (Bool-cases (ltb 0 (connection_count k) && ltb (now k) deadline)) [
        | inl on ↦
            let (j, e, le, why) =
              drain_turns-Ends sleeps fuel deadline (k + 1) (omega (arith, h, sleeps k)) in
            (j, rw on e, omega (arith, le), why)
        | inr off ↦ (k, rw off refl, omega arith, left deadline k off)
      ]

  -- The wait, with the count that is read after it; `start` is the time that the deadline is set from.
  unfoldable pub drain_connections : ℕ → Option Exit
  unfolding drain_turns exit_of
  drain_connections start =
      Option.map (λ k. exit_of (connection_count (k + 1)))
        (drain_turns 301 (start + shutdown_drain_timeout) 0)

  -- The wait ends after at most 301 turns, if every turn takes at least 100 ms.
  pub drain_connections_total :
      ((k : ℕ) → now k + 100 ≤ now (k + 1))
      → (start : ℕ) → start ≤ now 0
      → (k : ℕ) × (drain_connections start ≡ some (exit_of (connection_count (k + 1))))
  unfolding drain_connections
  drain_connections_total sleeps start le =
      let (k, e, _, _) =
        drain_turns-Ends sleeps 300 (start + shutdown_drain_timeout) 0 (omega (arith, le)) in
      (k, rw e refl)
