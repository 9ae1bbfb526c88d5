-- ===== src/Ids/Wire.antt =====
-- The wire strings of `Phase` and `StoredControl` in crates/wr-common/src/ids.rs, and their
-- parsers.
use Prim.Native.String.{String}
use text.Mathlib.TextEquality.{eq_iff}
use virtual_waiting_room.Prelude.{◌≡◌, ◌↔◌, refl, arith}
use virtual_waiting_room.Prelude.Result.{ok}
use virtual_waiting_room.Ids.{
  Phase, idle, pre_queue, active, post_event, maintenance, StoredControl, open_control,
  paused_control, control_wire, parse_control, phase_wire, parse_phase,
}

parse_phase_back : (p : Phase) → parse_phase (phase_wire p) ≡ ok p
unfolding parse_phase phase_wire
parse_phase_back idle = refl
parse_phase_back pre_queue = refl
parse_phase_back active = refl
parse_phase_back post_event = refl
parse_phase_back maintenance = refl

parse_phase_sound : (s : String) (p : Phase) → parse_phase s ≡ ok p → phase_wire p ≡ s
unfolding parse_phase phase_wire
parse_phase_sound s idle h = ground (arith, eq_iff s "idle")
parse_phase_sound s pre_queue h = ground (arith, eq_iff s "pre_queue")
parse_phase_sound s active h = ground (arith, eq_iff s "active")
parse_phase_sound s post_event h = ground (arith, eq_iff s "post_event")
parse_phase_sound s maintenance h = ground (arith, eq_iff s "maintenance")

-- A stored string is read as a phase exactly when it is the string that the phase is written as.
pub parse_phase-phase_wire : (s : String) (p : Phase) → (parse_phase s ≡ ok p) ↔ (phase_wire p ≡ s)
parse_phase-phase_wire s p = (parse_phase_sound s p, λ e. rw (← e) (parse_phase_back p))

parse_control_back : (c : StoredControl) → parse_control (control_wire c) ≡ ok c
unfolding parse_control control_wire
parse_control_back open_control = refl
parse_control_back paused_control = refl

parse_control_sound : (s : String) (c : StoredControl) → parse_control s ≡ ok c → control_wire c ≡ s
unfolding parse_control control_wire
parse_control_sound s open_control h = ground (arith, eq_iff s "open")
parse_control_sound s paused_control h = ground (arith, eq_iff s "paused")

-- A stored string is read as a control exactly when it is the string that the control is written
-- as.
pub parse_control-control_wire :
    (s : String) (c : StoredControl) → (parse_control s ≡ ok c) ↔ (control_wire c ≡ s)
parse_control-control_wire s c = (parse_control_sound s c, λ e. rw (← e) (parse_control_back c))
