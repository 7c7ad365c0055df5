-- ===== src/Controller/RenderTasks/Ttl.antt =====
-- A failed job's secrets are cleaned up in the end: the delay that the controller asks for is long
-- enough.
use solution_arsenal.Prelude.{ℕ, ◌+◌, ◌≤◌, ◌≡◌, true, some, arith}
use solution_arsenal.Api.{Condition}
use solution_arsenal.Api.Integer.{ℤ, pos, negsuc}
use solution_arsenal.Controller.RenderTasks.Statuses.{should_cleanup_secrets, cleanup_delay}

-- Where a task has failed, then at any time that is not before the end of the delay that the
-- controller asks for, and while the condition keeps its time, the clean-up is due.
pub cleanup_is_due :
    (cond : Condition) (now later : ℕ) (ttl : ℤ)
    → now + cleanup_delay (some cond) now ttl ≤ later
    → should_cleanup_secrets (some cond) later ttl ≡ true
unfolding should_cleanup_secrets cleanup_delay
cleanup_is_due cond now later (pos n) h = ground arith
cleanup_is_due cond now later (negsuc n) h = ground arith
