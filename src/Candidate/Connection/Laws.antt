-- ===== src/Candidate/Connection/Laws.antt =====
-- What the connection monitor tells the candidate is true.
use assaybank.Prelude.{◌∙◌, ℕ, ◌+◌, ◌-◌, ◌<◌, ◌≡◌, refl, false, some, List, [], ◌∷◌, arith}
use assaybank.Candidate.Connection.{
  online, offline, reconnecting, syncing, says_offline, says_reconnected, says_reconnecting,
  Snapshot, initial, Operation, goes_offline, begins_reconnect, goes_online, buffers_write,
  flushes_write, step, run,
}

-- The announcement that stands agrees with the state; nothing is said to be saved while writes wait,
-- and the screen says "syncing" only while some do.
pub record IsHonest (s : Snapshot) : Type 0 where
  pub saved : s.announcement ≡ some says_reconnected → (s.state ≡ online) × (s.pending_writes ≡ 0)
  pub cut : s.announcement ≡ some says_offline → s.state ≡ offline
  pub trying : s.announcement ≡ some says_reconnecting → s.state ≡ reconnecting
  pub busy : s.state ≡ syncing → 0 < s.pending_writes

step-IsHonest : (op : Operation) (s : Snapshot) → IsHonest s → IsHonest (step op s).0
unfolding step
step-IsHonest goes_offline s h = ground arith
step-IsHonest begins_reconnect s h = ground arith
step-IsHonest goes_online s h = ground arith
step-IsHonest buffers_write s h = ground arith
step-IsHonest flushes_write s h = ground arith

run_from-IsHonest : (ops : List Operation) (s : Snapshot) → IsHonest s → IsHonest (run ops s)
unfolding run
run_from-IsHonest [] s h = h
run_from-IsHonest (op ∷ ops) s h = run_from-IsHonest ops (step op s).0 (step-IsHonest op s h)

-- After any history the announcement that stands agrees with the state: "all answers saved" only if
-- the connection is there and no write waits. And "syncing" is shown only while a write waits.
pub run-IsHonest : (ops : List Operation) → IsHonest (run ops initial)
run-IsHonest ops =
    run_from-IsHonest ops initial
      (record { saved = λ e. cc; cut = λ e. cc; trying = λ e. cc; busy = λ e. cc })

-- The writes that a history leaves waiting: a flush with none waiting does nothing.
abbrev pub waiting : List Operation → ℕ → ℕ
waiting [] n = n
waiting (buffers_write ∷ ops) n = waiting ops (n + 1)
waiting (flushes_write ∷ ops) n = waiting ops (n - 1)
waiting (_ ∷ ops) n = waiting ops n

step_pending :
    (op : Operation) (ops : List Operation) (s : Snapshot)
    → waiting ops (step op s).0.pending_writes ≡ waiting (op ∷ ops) s.pending_writes
unfolding step
step_pending goes_offline ops s = ground arith
step_pending begins_reconnect ops s = ground arith
step_pending goes_online ops s = ground arith
step_pending buffers_write ops s = ground arith
step_pending flushes_write ops s = ground arith

run_from_pending :
    (ops : List Operation) (s : Snapshot)
    → (run ops s).pending_writes ≡ waiting ops s.pending_writes
unfolding run
run_from_pending [] s = refl
run_from_pending (op ∷ ops) s = run_from_pending ops (step op s).0 ∙ step_pending op ops s

-- No change of the connection loses count of a buffered write.
pub run_pending : (ops : List Operation) → (run ops initial).pending_writes ≡ waiting ops 0
run_pending ops = run_from_pending ops initial

-- The listeners are called exactly when the snapshot is replaced by another: a call that changes
-- nothing wakes nobody.
pub step_silent : (op : Operation) (s : Snapshot) → (step op s).1 ≡ false → (step op s).0 ≡ s
unfolding step
step_silent op s h = ground arith
