-- ===== src/GigE/Reconnect.antt =====
-- What becomes of a camera's slot when it is registered again.
use lpr_refactored.Prelude.{◌<◌, ◌≡◌, some, List, arith, Text, text_eq_refl, lookup, lookup-erase}
use lpr_refactored.GigE.{
  Entry, Coordinator, init, next_of, register_camera, unregister_camera, Call, run,
}
use lpr_refactored.GigE.Slots.{reachable-IsValid}

register_again :
    (s : Text) (e : Entry) (c : Coordinator)
    → lookup s c.cams ≡ some e
    → register_camera s e.nic_group c ≡ (c, e.index)
unfolding register_camera
register_again s e c h = ground (arith, text_eq_refl e.nic_group)

register_anew :
    (s g : Text) (c : Coordinator) → (register_camera s g (unregister_camera s c)).1 ≡ next_of g c
unfolding register_camera unregister_camera
register_anew s g c = ground (arith, lookup-erase s s c.cams, text_eq_refl s)

-- A camera that is still registered keeps its slot when it registers again in its group, and
-- nothing changes; one that was unregistered in between does not: it gets the group's next slot,
-- which is past its old one.
pub reconnect_slot :
    (calls : List Call) (s : Text) (e : Entry)
    → let c = run calls init in
      lookup s c.cams ≡ some e
      → (register_camera s e.nic_group c ≡ (c, e.index))
        × ((register_camera s e.nic_group (unregister_camera s c)).1 ≡ next_of e.nic_group c)
        × (e.index < (register_camera s e.nic_group (unregister_camera s c)).1)
reconnect_slot calls s e h =
    let c = run calls init in
    let again = register_again s e c h in
    let anew = register_anew s e.nic_group c in
    (again, anew, rw anew ((reachable-IsValid calls).below s e h))
