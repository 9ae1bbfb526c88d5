-- ===== src/Controller/Pass.antt =====
-- `run_pass` of crates/controller/src/lib.rs over its persistence port, and the port's guarded
-- write as crates/controller/src/dynamo.rs sends it.
pub mod Race
use Prim.Native.String.{String}
use virtual_waiting_room.Prelude.{
  ℕ, ◌||◌, Bool, true, false, Option, none, some, ◌==◌, if◌then◌else◌,
}
use virtual_waiting_room.Prelude.Result.{Result, ok, err}
use virtual_waiting_room.Ids.{
  Phase, idle, pre_queue, active, post_event, maintenance, StoredControl, AdmissionControl,
  admitting, held, fail_open, resolve,
}
use virtual_waiting_room.Controller.Float.{Float}
use virtual_waiting_room.Controller.Release.{
  ReleaseInputs, NoShowState, ReleaseDecision, compute_release,
}

pub record StoreError : Type 0 where
  pub text : String

pub data ReleaseOutcome : Type 0 where
  advanced lost_race : ReleaseOutcome

unfoldable pub is_lost : ReleaseOutcome → Bool
is_lost advanced = false
is_lost lost_race = true

pub data PassOutcome : Type 0 where
  not_active : Phase → PassOutcome
  holding : AdmissionControl → PassOutcome
  ran : ℕ → PassOutcome

module _ (fl : Float) where
  pub record ControllerState : Type 0 where
    pub phase : Phase
    pub stored_control : StoredControl
    pub fail_open_until : ℕ
    pub inputs : ReleaseInputs
    pub prev_no_show : Option (NoShowState fl)

  -- The trait `Store`: each operation answers in a state of the world, and leaves one.
  pub record Store (S : Type 0) : Type 0 where
    pub read_state : S → Result ControllerState StoreError × S
    pub write_release : ReleaseDecision fl → ℕ → S → Result ReleaseOutcome StoreError × S

  module _ {S : Type 0} (store : Store S) where
    abbrev pub report :
        ReleaseDecision fl → Result ReleaseOutcome StoreError → Result PassOutcome StoreError
    report decision (err e) = err e
    report decision (ok race) = if is_lost race then ok (ran 0) else ok (ran decision.release)

    unfoldable pub release_pass : ControllerState → ℕ → S → Result PassOutcome StoreError × S
    unfolding is_lost
    release_pass state now world =
        let decision = compute_release fl state.inputs state.prev_no_show now in
        let (race, world') = store.write_release decision state.inputs.serving_counter world in
        (report decision race, world')

    abbrev pub gate :
        AdmissionControl
        → (S → Result PassOutcome StoreError × S)
        → S
        → Result PassOutcome StoreError × S
    gate admitting pass world = pass world
    gate held pass world = (ok (holding held), world)
    gate fail_open pass world = (ok (holding fail_open), world)

    abbrev pub if_active :
        Phase → (S → Result PassOutcome StoreError × S) → S → Result PassOutcome StoreError × S
    if_active active pass world = pass world
    if_active idle pass world = (ok (not_active idle), world)
    if_active pre_queue pass world = (ok (not_active pre_queue), world)
    if_active post_event pass world = (ok (not_active post_event), world)
    if_active maintenance pass world = (ok (not_active maintenance), world)

    abbrev pub after_read :
        ℕ → Result ControllerState StoreError × S → Result PassOutcome StoreError × S
    after_read now (err e, world) = (err e, world)
    after_read now (ok state, world) =
        if_active state.phase
          (gate (resolve state.stored_control state.fail_open_until now) (release_pass state now))
          world

    unfoldable pub run_pass : ℕ → S → Result PassOutcome StoreError × S
    unfolding release_pass
    run_pass now world = after_read now (store.read_state world)
