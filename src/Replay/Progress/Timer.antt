-- ===== src/Replay/Progress/Timer.antt =====
-- A task that has ended at a timer is taken on by the poller.
use memable.Prelude.{ℕ, ◌≡◌, ap, sym, ◌∙◌, subst, arith, true, none}
use memable.Text.{Text}
use memable.Outcome.{ok, err, continue}
use memable.Error
use memable.Error.{EngineError}
use memable.Journal.{Bytes, TimerEntry, completed}
use memable.External.{External, TimerKey}
use memable.Store.{IsHealthy}
use memable.Codec.{serialize_step}
use memable.Metadata.Laws.{read_metadata-IsHealthy}
use memable.Shared.{Shared, Task, is_registered}
use memable.Context
use memable.Context.Timer.{timer, timer_entry}
use memable.Execution.{signal_timer, poll_one, deliver, run_task}
use memable.Execution.Finish.{Serialises}
use memable.Execution.Poll.{without_timer, remove_timer-IsHealthy}
use memable.Execution.Ready.{Waiting, Waiting-claim}
use memable.Replay.{Types, Program, interpret, Reaches}
use memable.Replay.Entries.{Journaled}
use memable.Replay.Keeps.{Extends-trans, timer-Extends}
use memable.Replay.Recovery.{ComesTo, Extends-Reaches, interpret-rest}
use memable.Replay.Waking.{Reaches-signal_timer}
use memable.Replay.Parks.Timer.{timer-Parked}
use memable.Replay.Progress.{run_task-Waiting}

module _ ⦃x : External⦄ where
  -- The delivery to a timer at which its instance waits succeeds.
  Waiting-signal_timer :
      (entry : TimerEntry) (s : Shared) (bytes : Bytes)
      → IsHealthy s.db
      → Serialises
      → serialize_step x.unit (completed tt none) entry.step_key ≡ ok bytes
      → is_registered entry.workflow_name s.workflows ≡ true
      → Waiting entry.workflow_name entry.instance_id entry.step_key s.db
      → (signal_timer entry s).0 ≡ ok tt
  unfolding signal_timer
  Waiting-signal_timer entry s bytes h enc e known waits = ground (
    arith,
    Waiting-claim entry.workflow_name entry.instance_id entry.step_key bytes s.db h enc waits,
  )

  -- The row of a timer is no part of what a claim looks at.
  Waiting-without_timer :
      (w i key : Text) (row : TimerKey) (s : Shared)
      → IsHealthy s.db
      → Waiting w i key s.db
      → Waiting w i key (without_timer row s).db
  Waiting-without_timer w i key row s h a = record {
    bytes = a.bytes;
    envelope = a.envelope;
    found = a.found;
    decoded = a.decoded;
    waits = a.waits;
    meta = a.meta;
    stored =
        ap (λ o. o.0) (read_metadata-IsHealthy w i (without_timer row s).db h)
        ∙ sym (ap (λ o. o.0) (read_metadata-IsHealthy w i s.db h))
        ∙ a.stored;
    parked = a.parked;
  }

  -- The poller delivers to an instance that is stored as suspended.
  poll_one-signal_timer :
      (row : TimerKey) (entry : TimerEntry) (s : Shared)
      → IsHealthy s.db
      → Waiting entry.workflow_name entry.instance_id entry.step_key s.db
      → (signal_timer entry (without_timer row s)).0 ≡ ok tt
      → poll_one (row, entry) s ≡ (ok tt, (signal_timer entry (without_timer row s)).1)
  unfolding poll_one deliver
  poll_one-signal_timer row entry s h a sent =
      let b =
        Waiting-without_timer entry.workflow_name entry.instance_id entry.step_key row s h a in
      ground (
        arith,
        remove_timer-IsHealthy row s h,
        read_metadata-IsHealthy entry.workflow_name entry.instance_id (without_timer row s).db h,
        b.stored,
        b.parked,
      )

module _ ⦃x : External⦄ (u : Types) {World : Type 0} where
  -- On a journal that steps have written, whatever faults the storage had: when the task of an
  -- instance has come to a timer and suspends there, and the storage does not fail from then on,
  -- postcard serialises every metadata record and the delivery, and the engine knows the workflow,
  -- then the poller's round for the timer's entry, under whatever row, succeeds, and the run that
  -- follows it, in whatever world, comes to what follows the timer without a call of a closure, a
  -- sleep or a write. The journal is again one that steps have written.
  pub run_task-poll_one :
      (w w' : World) (p rest : Program u World (Unit {0})) (task : Task) (s : Shared) (now tx : ℕ)
      (f' : Context.Frame) (clock : World → ℕ) (key : Text) (duration : ℕ) (row : TimerKey)
      (bytes : Bytes)
      → let f = Context.new task.workflow_name task.instance_id task.tx s in
        Journaled u s.db.steps
        → Reaches w p f (Program.timer clock key duration rest) f'
        → (timer (clock w) key duration f').0 ≡ err (Error.suspended key)
        → IsHealthy (timer (clock w) key duration f').1.shared.db
        → Serialises
        → serialize_step x.unit (completed tt none) key ≡ ok bytes
        → let s1 = run_task now (interpret w p) task s in
          is_registered task.workflow_name s1.workflows ≡ true
          → let (r, s2) = poll_one (row, timer_entry key f) s1 in
            (r ≡ ok tt)
            × ComesTo u w' p rest (Context.new task.workflow_name task.instance_id tx s2)
            × Journaled u s2.db.steps
  unfolding Context.new timer_entry
  run_task-poll_one w w' p rest task s now tx f' clock key duration row bytes j r e h enc ser
        known =
      let wn = task.workflow_name in
      let i = task.instance_id in
      let f = Context.new wn i task.tx s in
      let g = (timer (clock w) key duration f').1 in
      let s1 = run_task now (interpret w p) task s in
      let left = without_timer row s1 in
      let entry = timer_entry key f in
      let a = Extends-Reaches u w p (Program.timer clock key duration rest) f f' r in
      let b = timer-Extends u (clock w) key duration f' in
      let all = Extends-trans u f f' g a b in
      let ends : interpret w p f ≡ (err (Error.suspended key), g) =
        unfold interpret in
        (interpret-rest u w p (Program.timer clock key duration rest) f f' r
          ∙ ap (λ r. continue r (λ _. interpret w rest) g) e) in
      let (accepted, _, parked) =
        timer-Parked u (clock w) key duration key f' g (a.journaled j) (ap (λ r. (r, g)) e) in
      let (steps, healthy, waits) = run_task-Waiting u w p task s now key g ends all parked h enc in
      let sent =
        Waiting-signal_timer entry left bytes healthy enc ser known
          (Waiting-without_timer wn i key row s1 healthy waits) in
      let polled = poll_one-signal_timer row entry s1 healthy waits sent in
      let (comes, journaled) =
        Reaches-signal_timer u w w' p rest f f' clock key duration left tx j r accepted healthy
          (subst (Journaled u) (sym steps) (all.journaled j))
          (λ k c q d. ap (λ s. x.texts.get s k) steps ∙ b.kept k c q d) sent in
      (
        ap (λ o. o.0) polled,
        subst (λ o. ComesTo u w' p rest (Context.new wn i tx o.1)) (sym polled) comes,
        subst (λ o. Journaled u o.1.db.steps) (sym polled) journaled,
      )
