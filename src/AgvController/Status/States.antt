-- ===== src/AgvController/Status/States.antt =====
-- src/controller/agv-controller.ts: the action states after the status of an action has changed.
use text.Mathlib.TextEquality.{eq_iff}
use vda_5050_lib_2_0_0_js.Prelude.{
  ◌≡◌, String, Option, none, some, List, [], ◌∷◌, find, arith, if◌then◌else◌, String-Eq, ◌==◌,
}
use vda_5050_lib_2_0_0_js.Types.{ActionState}
use vda_5050_lib_2_0_0_js.AgvController.Model.{
  Controller, ActionContext, ActionStatusChangeInfo, update_state, merge_state,
  publish_current_state,
}
use vda_5050_lib_2_0_0_js.AgvController.Status.{
  put_action_state, new_action_state, set_action_status, with_failure, clone_state,
}

abbrev pub state_of : String → List ActionState → Option ActionState
state_of action_id states = find (λ s. s.action_id == action_id) states

state_of-put :
    (action_id : String) (s : ActionState) (states : List ActionState)
    → state_of action_id (put_action_state s states)
      ≡ (if s.action_id == action_id then some s else state_of action_id states)
unfolding put_action_state
state_of-put action_id s [] = ground arith
state_of-put action_id s (t ∷ states) = ground (
  arith,
  state_of-put action_id s states,
  eq_iff t.action_id s.action_id,
  eq_iff t.action_id action_id,
  eq_iff s.action_id action_id,
)

pub set_action_status-states :
    (context : ActionContext) (change : ActionStatusChangeInfo) (c : Controller)
    → change.linked_state.action_states ≡ none
    → (set_action_status context change c).state.action_states
      ≡ put_action_state (new_action_state context change) c.state.action_states
unfolding set_action_status update_state publish_current_state merge_state with_failure clone_state
set_action_status-states context change c e = ground arith

-- A status change, whose linked state has no action states, is what the state reports of the action from then on, and no other
-- action's state changes.
set_action_status_lem :
    (action_id : String) (context : ActionContext) (change : ActionStatusChangeInfo)
    (c : Controller)
    → change.linked_state.action_states ≡ none
    → state_of action_id (set_action_status context change c).state.action_states ≡ (
        if context.action.action_id == action_id
        then some (new_action_state context change)
        else state_of action_id c.state.action_states)
unfolding new_action_state
set_action_status_lem action_id context change c e = ground (
  arith,
  set_action_status-states context change c e,
  state_of-put action_id (new_action_state context change) c.state.action_states,
)
