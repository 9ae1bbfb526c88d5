-- ===== src/Admin/Phases.antt =====
-- The lifecycle of crates/admin/src/lib.rs: which change of phase is legal.
use virtual_waiting_room.Prelude.{Bool, true, false, ◌||◌, List, [], ◌∷◌}
use virtual_waiting_room.Ids.{Phase, idle, pre_queue, active, post_event, maintenance}

abbrev pub same : Phase → Phase → Bool
same idle idle = true
same pre_queue pre_queue = true
same active active = true
same post_event post_event = true
same maintenance maintenance = true
same from to = false

abbrev forward : Phase → Phase → Bool
forward idle pre_queue = true
forward pre_queue active = true
forward active post_event = true
forward from to = false

unfoldable pub transition_allowed : Phase → Phase → Bool
transition_allowed from to =
    same from to || same to maintenance || same from maintenance || forward from to

unfoldable pub next_phases : Phase → List Phase
next_phases idle = pre_queue ∷ []
next_phases active = post_event ∷ []
next_phases pre_queue = []
next_phases post_event = []
next_phases maintenance = active ∷ idle ∷ []
