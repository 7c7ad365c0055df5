-- ===== src/Controller/Targets/Owned.antt =====
-- What the target controller deletes of its render tasks and render bindings.
use solution_arsenal.Prelude.{Bool, ◌&&◌, not, List, []}
use solution_arsenal.Str.{Str, contains_str}
use solution_arsenal.Api.{Target, RenderTask, RenderBinding}
use solution_arsenal.Cluster.{render_tasks, render_bindings}
use solution_arsenal.Cluster.Safe.{Safe}
use solution_arsenal.Controller.Targets.{
  owns_task, owns_binding, tasks_of_targets, bindings_in, delete_stale_render_tasks,
  delete_owned_render_tasks, delete_stale_render_bindings, delete_owned_render_bindings,
}
use solution_arsenal.Controller.Targets.Deletes.{DeletesDoomed, ListedGone, delete_listed-Safe}

module _ (target : Target) (current : List Str) where
  abbrev pub is_stale_task : RenderTask → Bool
  is_stale_task rt = owns_task target rt && not (contains_str rt.meta.name current)

  abbrev pub is_stale_binding : RenderBinding → Bool
  is_stale_binding b = owns_binding target b && not (contains_str b.meta.name current)

  -- Whatever the API server answers, the cleanup of stale render tasks deletes only tasks that its
  -- list shows, that the target owns and that are not current; and where it returns no error, all of
  -- these are gone.
  pub delete_stale_render_tasks-Safe :
      Safe
        (DeletesDoomed render_tasks is_stale_task (tasks_of_targets target))
        (ListedGone render_tasks is_stale_task (tasks_of_targets target))
        (ListedGone render_tasks is_stale_task (tasks_of_targets target))
        []
        (delete_stale_render_tasks target current)
  unfolding delete_stale_render_tasks
  delete_stale_render_tasks-Safe =
      delete_listed-Safe render_tasks is_stale_task (tasks_of_targets target) []

  -- Whatever the API server answers, the cleanup of stale render bindings deletes only bindings that
  -- its list shows, that the target owns and that are not current; and where it returns no error,
  -- all of these are gone.
  pub delete_stale_render_bindings-Safe :
      Safe
        (DeletesDoomed render_bindings is_stale_binding (bindings_in target))
        (ListedGone render_bindings is_stale_binding (bindings_in target))
        (ListedGone render_bindings is_stale_binding (bindings_in target))
        []
        (delete_stale_render_bindings target current)
  unfolding delete_stale_render_bindings
  delete_stale_render_bindings-Safe =
      delete_listed-Safe render_bindings is_stale_binding (bindings_in target) []

-- The cleanup for a deleted target deletes only render tasks, and only render bindings, that its
-- list shows and that the target owns; and where it returns no error, all of these are gone.
pub delete_owned-Safe :
    (target : Target)
    → Safe
        (DeletesDoomed render_tasks (owns_task target) (tasks_of_targets target))
        (ListedGone render_tasks (owns_task target) (tasks_of_targets target))
        (ListedGone render_tasks (owns_task target) (tasks_of_targets target))
        []
        (delete_owned_render_tasks target)
      × Safe
          (DeletesDoomed render_bindings (owns_binding target) (bindings_in target))
          (ListedGone render_bindings (owns_binding target) (bindings_in target))
          (ListedGone render_bindings (owns_binding target) (bindings_in target))
          []
          (delete_owned_render_bindings target)
unfolding delete_owned_render_tasks delete_owned_render_bindings
delete_owned-Safe target = (
  delete_listed-Safe render_tasks (owns_task target) (tasks_of_targets target) [],
  delete_listed-Safe render_bindings (owns_binding target) (bindings_in target) [],
)
