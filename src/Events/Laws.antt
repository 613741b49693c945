-- ===== src/Events/Laws.antt =====
-- Publishing touches neither the tables nor the clock, and never raises.
use matchmaker_platform.Prelude.{ℕ, String, refl, Option, arith}
use matchmaker_platform.Prelude.Int.{ℤ}
use matchmaker_platform.Text.{Text}
use matchmaker_platform.Api.{QueueEvent}
use matchmaker_platform.Api.Quiet.{Quiet}
use matchmaker_platform.Events.{publish, publish_queue_enter, publish_queue_leave}

publish-Quiet : {S : Type 0} (t : Text) (e : QueueEvent) → Quiet {S = S} (publish t e)
unfolding publish
publish-Quiet t e = record {
  returns = λ w. (tt, refl);
  same_db = λ w. ground arith;
  same_now = λ w. ground arith;
}

pub publish_queue_enter-Quiet :
    {S : Type 0} (k : ℕ) (mode : String) (n : ℕ) (avg : Option ℤ) (region : String) (size : ℕ)
    → Quiet {S = S} (publish_queue_enter k mode n avg region size)
unfolding publish_queue_enter
publish_queue_enter-Quiet k mode n avg region size = publish-Quiet _ _

pub publish_queue_leave-Quiet :
    {S : Type 0} (k : ℕ) (mode region : String) → Quiet {S = S} (publish_queue_leave k mode region)
unfolding publish_queue_leave
publish_queue_leave-Quiet k mode region = publish-Quiet _ _
