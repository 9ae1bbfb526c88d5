-- ===== src/Admin/Live/Others.antt =====
-- What others do to the item: the service's other updates, and the open of
-- crates/open_event/src/dynamo.rs, keep it that an active event has been opened.
use Prim.Native.String.{String}
use virtual_waiting_room.Prelude.{ℕ, refl, Bool, true, false, Option, some, none}
use virtual_waiting_room.Ids.{StoredControl}
use virtual_waiting_room.OpenEvent.{OpenValues, open_update}
use virtual_waiting_room.Admin.{ArrivalTime, AdminAction}
use virtual_waiting_room.Admin.Live.World.{Shared}
use virtual_waiting_room.Admin.Live.Table.{
  update_if, update_rate, update_message, update_control, update_fail_open, update_starts_at,
  update_rules_audit, update_stamp,
}
use virtual_waiting_room.Admin.Live.Opened.{KeepsOpen}

update_if-KeepsOpen :
    (holds : Bool) (s after : Shared) → KeepsOpen s after → KeepsOpen s (update_if holds s after).1
update_if-KeepsOpen true s after k = k
update_if-KeepsOpen false s after k = ((λ h. h), (λ h. h))

module _ (audit_timestamp : ArrivalTime → String) (actor : String) (now : ArrivalTime)
    (label : AdminAction) (s : Shared) where
  -- No update of the service but a change of phase, and no open, makes an unopened event active or
  -- takes back what the open has written.
  pub updates-KeepsOpen :
      (expected : Option ℕ) (rate until count : ℕ) (message digest : String)
      (from to : StoredControl) (at : Option (ℕ × String)) (values : OpenValues)
      → KeepsOpen s (update_rate audit_timestamp expected rate actor now s).1
        × KeepsOpen s (update_message audit_timestamp message actor now s).1
        × KeepsOpen s (update_control audit_timestamp from to label actor now s).1
        × KeepsOpen s (update_fail_open audit_timestamp until label actor now s).1
        × KeepsOpen s (update_starts_at audit_timestamp at label actor now s).1
        × KeepsOpen s (update_rules_audit audit_timestamp digest count actor now s).1
        × KeepsOpen s (update_stamp audit_timestamp label actor now s).1
        × KeepsOpen s (record s { row = open_update values s.row })
  unfolding update_rate update_message update_control update_fail_open update_starts_at
      update_rules_audit update_stamp open_update
  updates-KeepsOpen expected rate until count message digest from to at values = (
    update_if-KeepsOpen _ s _ ((λ h. h), (λ h. h)),
    update_if-KeepsOpen _ s _ ((λ h. h), (λ h. h)),
    update_if-KeepsOpen _ s _ ((λ h. h), (λ h. h)),
    update_if-KeepsOpen _ s _ ((λ h. h), (λ h. h)),
    starts at,
    update_if-KeepsOpen _ s _ ((λ h. h), (λ h. h)),
    update_if-KeepsOpen _ s _ ((λ h. h), (λ h. h)),
    ((λ h. refl), (λ h a. refl)),
  )
    where
      starts :
          (a : Option (ℕ × String))
          → KeepsOpen s (update_starts_at audit_timestamp a label actor now s).1
      starts none = update_if-KeepsOpen _ s _ ((λ h. h), (λ h. h))
      starts (some (secs, tz)) = update_if-KeepsOpen _ s _ ((λ h. h), (λ h. h))
