-- ===== src/Admin/Live/Start.antt =====
-- `apply_start_time` of crates/admin/src/lib.rs over the live ports: a start that is announced has
-- its schedule armed, under every failure.
use Prim.Native.String.{String}
use virtual_waiting_room.Prelude.{
  ℕ, if◌then◌else◌, ◌≡◌, refl, sym, ap, ◌∙◌, Bool, true, false, Bool-cases, inl, inr, ◌⊎◌, Option,
  some, none,
}
use virtual_waiting_room.Prelude.Result.{Result, ok}
use virtual_waiting_room.Prelude.Chars.{Text, trim}
use virtual_waiting_room.Admin.{ArrivalTime, epoch_seconds, AdminAction, StartTime, ApplyError}
use virtual_waiting_room.Admin.Actions.{Handler, call, debounce_check}
use virtual_waiting_room.Admin.Actions.Schedule.{
  Calendar, parse_start_time, clear_start, set_start, start_at, is_empty, apply_start_time,
}
use virtual_waiting_room.Admin.Live.World.{Shared, Schedule, World}
use virtual_waiting_room.Admin.Live.Table.{
  dynamo_store, update_starts_at, put_starts_at, debounce_predicate,
}
use virtual_waiting_room.Admin.Live.Scheduler.{
  scheduler_store, set_start_time, send, rewrite, with_target, definition, at_expression,
  get_schedule, update_schedule,
}
use virtual_waiting_room.Admin.Live.Triples.{
  Outcome, Rivals, Triple, access_rule, read_rule, bind_rule, call_rule, call_schedule_rule,
  check_rule, weaken_bad, weaken_good,
}
use virtual_waiting_room.Admin.Live.Loading.{load_event_rule}

-- Others leave the announcement and the schedule alone.
abbrev pub KeepsStart : Shared → Shared → Type 0
KeepsStart s r = (r.row.starts_at ≡ s.row.starts_at) × (r.schedule ≡ s.schedule)

-- What the waiting page counts down to will happen.
abbrev pub IsArmed : Shared → Type 0
IsArmed s = (at : ℕ) → s.row.starts_at ≡ some at → s.schedule.enabled ≡ true

abbrev pub IsCleared : Shared → Type 0
IsCleared s = (s.row.starts_at ≡ none) × (s.schedule.enabled ≡ false)

abbrev IsScheduled : StartTime → Shared → Type 0
IsScheduled start s =
    (s.schedule.enabled ≡ true)
    × (s.schedule.expression ≡ some (at_expression start.expression))
    × (s.schedule.timezone ≡ some start.timezone)

abbrev pub IsAnnounced : StartTime → Shared → Type 0
IsAnnounced start s = (s.row.starts_at ≡ some start.epoch_secs) × IsScheduled start s

IsArmed-stable : (s r : Shared) → KeepsStart s r → IsArmed s → IsArmed r
IsArmed-stable s r k h at e = ap (λ (x : Schedule). x.enabled) k.1 ∙ h at (sym k.0 ∙ e)

module _ (P Good Bad : Shared → Type 0) (at : Option (Text × String))
    (stable : (s r : Shared) → KeepsStart s r → P s → P r)
    (good : (s : Shared) (current : Schedule)
      → P s
      → Good (record s { schedule = definition at current }))
    (bad : (s : Shared) → P s → Bad s) (worse : (s : Shared) → Good s → Bad s) where
  send_rule :
      (current : Schedule) (target window : Option String)
      → Triple KeepsStart P
          (send (with_target target window (definition at current)))
          (λ _. Good)
          Bad
  unfolding update_schedule
  send_rule current none window = record { run = λ w rs p. (bad w.shared p, rs) }
  send_rule current (some target) none = record { run = λ w rs p. (bad w.shared p, rs) }
  send_rule current (some target) (some window) =
      access_rule _ (update_schedule (definition at current)) stable (λ s p. good s current p)
        (λ s p. (bad s p, worse _ (good s current p)))

  set_start_time_rule : Triple KeepsStart P (set_start_time at) (λ _. Good) Bad
  unfolding set_start_time get_schedule rewrite
  set_start_time_rule =
      bind_rule (weaken_bad (read_rule _ get_schedule (λ s. (_, refl)) stable) bad)
        (λ current. send_rule current current.target current.flexible_time_window)

module _ (audit_timestamp : ArrivalTime → String) (at : Option (ℕ × String)) (label : AdminAction)
    (actor : String) (now : ArrivalTime) (P Good Bad : Shared → Type 0)
    (stable : (s r : Shared) → KeepsStart s r → P s → P r)
    (good : (s : Shared) → P s → Good (put_starts_at audit_timestamp at label actor now s))
    (bad : (s : Shared) → P s → Bad s) (worse : (s : Shared) → Good s → Bad s) where
  update_starts_at-start :
      (s : Shared)
      → P s
      → Outcome
          (λ _. Good)
          Bad
          (update_starts_at audit_timestamp at label actor now s).0
          (update_starts_at audit_timestamp at label actor now s).1
        × Bad (update_starts_at audit_timestamp at label actor now s).1
  unfolding update_starts_at
  update_starts_at-start s p = elim (Bool-cases (debounce_predicate s now)) [
    | inl e ↦ rw e (good s p, worse _ (good s p))
    | inr e ↦ rw e (bad s p, bad s p)
  ]

  update_starts_at_rule :
      Triple KeepsStart P
        (call (λ w. (dynamo_store audit_timestamp).set_starts_at at label actor now w))
        (λ _. Good)
        Bad
  update_starts_at_rule = call_rule (
      access_rule _ (update_starts_at audit_timestamp at label actor now) stable
        (λ s p. (update_starts_at-start s p).0) (λ s p. (bad s p, (update_starts_at-start s p).1)))

module _ (audit_timestamp : ArrivalTime → String) (actor : String) (now : ArrivalTime) where
  clear_start_rule :
      Triple KeepsStart IsArmed
        (clear_start (dynamo_store audit_timestamp) scheduler_store actor now)
        (λ _. IsCleared)
        IsArmed
  clear_start_rule =
      bind_rule {mid = λ _ s. s.row.starts_at ≡ none}
        (update_starts_at_rule audit_timestamp none _ actor now IsArmed
          (λ s. s.row.starts_at ≡ none) IsArmed IsArmed-stable (λ s p. refl) (λ s p. p)
          (λ s p at e. cc))
        (λ _. call_schedule_rule (
          set_start_time_rule (λ s. s.row.starts_at ≡ none) IsCleared IsArmed none
            (λ s r k p. k.0 ∙ p) (λ s current p. (p, refl)) (λ s p at e. cc) (λ s p at e. cc)))

  set_start_rule :
      (start : StartTime)
      → Triple KeepsStart IsArmed
          (set_start (dynamo_store audit_timestamp) scheduler_store actor now start)
          (λ _. IsAnnounced start)
          IsArmed
  set_start_rule start =
      bind_rule {mid = λ _. IsScheduled start}
        (call_schedule_rule (
          set_start_time_rule IsArmed (IsScheduled start) IsArmed _ IsArmed-stable
            (λ s current p. (refl, refl, refl)) (λ s p. p) (λ s p at e. p.0)))
        (λ _.
          update_starts_at_rule audit_timestamp (some (start.epoch_secs, start.timezone)) _ actor
            now (IsScheduled start) (IsAnnounced start) IsArmed (λ s r k p. rw (k.1) p)
            (λ s p. (refl, p)) (λ s p at e. p.0) (λ s p at e. p.1.0))

module _ {Zone Civil : Type 0} (calendar : Calendar Zone Civil)
    (audit_timestamp : ArrivalTime → String) (actor : String) (now : ArrivalTime) (at : Text)
    (timezone : String) where
  -- What a success leaves: no start for a blank text, and the start that the text names for another.
  abbrev pub StartOf : Shared → Type 0
  StartOf s =
      ((is_empty (trim at) ≡ true) × IsCleared s)
      ⊎ ((start : StartTime) × (is_empty (trim at) ≡ false)
          × (parse_start_time calendar at timezone (epoch_seconds now) ≡ ok start)
          × IsAnnounced start s)

  abbrev cleared_or_set : Bool → Handler World (Unit {0})
  cleared_or_set blank =
      if blank
      then clear_start (dynamo_store audit_timestamp) scheduler_store actor now
      else start_at calendar (dynamo_store audit_timestamp) scheduler_store actor now at timezone

  branch_rule :
      (blank : Bool)
      → is_empty (trim at) ≡ blank
      → Triple KeepsStart IsArmed (cleared_or_set blank) (λ _. StartOf) IsArmed
  branch_rule true e =
      weaken_good (clear_start_rule audit_timestamp actor now) (λ _ s p. inl (e, p))
  branch_rule false e =
      bind_rule
        {mid = λ start s.
          (parse_start_time calendar at timezone (epoch_seconds now) ≡ ok start) × IsArmed s}
        (check_rule _ (λ start p s h. (p, h)) (λ s h. h))
        (λ start. record {
          run = λ w rs p.
              (weaken_good (set_start_rule audit_timestamp actor now start)
                  (λ _ s q. inr (start, e, p.0, q))).run
                w rs p.1;
        })

  -- `apply_start_time` leaves no announced start without an enabled schedule, whichever of its calls
  -- are lost and wherever it stops, while others leave both alone. Where it succeeds, a blank text
  -- has cleared the start and disabled the schedule, and another has announced the start that the
  -- text names and armed the schedule for it.
  pub apply_start_time-IsArmed :
      (w : World)
      → Rivals KeepsStart w.turns
      → IsArmed w.shared
      → let out : Result (Unit {0}) ApplyError × World =
          apply_start_time calendar
            (dynamo_store audit_timestamp)
            scheduler_store
            actor
            now
            at
            timezone
            w in
        Outcome (λ _. StartOf) IsArmed out.0 out.1.shared
  unfolding apply_start_time
  apply_start_time-IsArmed w rivals armed =
      ((bind_rule
          (load_event_rule KeepsStart IsArmed (λ _. IsArmed) IsArmed-stable (λ s p. p)
            audit_timestamp)
          (λ state.
            bind_rule (check_rule (debounce_check state now) (λ _ _ s h. h) (λ s h. h))
              (λ _. branch_rule (is_empty (trim at)) refl))).run
        w rivals armed).0
