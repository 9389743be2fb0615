-- ===== src/Tests/FanOuts.antt =====
-- Witnesses on fan-outs.
use memable.Prelude.{ℕ, ◌+◌, ◌≡◌, refl, none, List, [], ◌∷◌}
use memable.Text.{Text}
use memable.Outcome.{ok, pure, abort}
use memable.External.{Payload}
use memable.Context.{Frame, Workflow}
use memable.FanOut.Run.{FanOutManifest, FanOutBuilder, FailFast, with_cache}
use memable.FanOut.Again.{with_cache-with_cache}
use memable.Tests.Codes.{number, string, both, many, along}
use memable.Tests.Demo.{demo, payload}
use memable.Tests.Scene.{step_key, empty_db, frame}

abbrev manifest : Payload FanOutManifest
manifest =
    payload
      (along (both (many string) number) (λ m. (m.child_instance_ids, m.count))
        (λ (ids, n). record { child_instance_ids = ids; count = n }) (λ m. refl))
      (b'm' ∷ [])

abbrev numbers : Payload (List ℕ)
numbers = payload (many number) (b'v' ∷ [])

abbrev two : FanOutBuilder ℕ FailFast
two = record { key = step_key; items = 1 ∷ 2 ∷ []; concurrency = none }

abbrev children : List Text → Workflow (List ℕ)
children ids = pure (5 ∷ 6 ∷ [])

abbrev after : Frame
after = (with_cache manifest numbers two children (frame empty_db)).1

with_cache-with_cache_example :
    with_cache manifest numbers two (λ ids. abort) after ≡ (ok (5 ∷ 6 ∷ []), after)
unfolding with_cache
with_cache-with_cache_example =
    with_cache-with_cache manifest numbers two children (λ ids. abort) (frame empty_db) after
      (5 ∷ 6 ∷ []) refl refl refl refl

abbrev adds_one : ℕ → Workflow ℕ
adds_one n = pure (n + 1)
