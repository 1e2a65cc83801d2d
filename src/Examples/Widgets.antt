-- ===== src/Examples/Widgets.antt =====
-- Examples for the notes and the status of the services.
use axiom_ai.Common.{[], ◌∷◌, ◌++◌, map, codes, ◌≡◌, refl}
use axiom_ai.Toast.{start, notify, dismiss, success, info}
use axiom_ai.Toast.Laws.{notified, here, next, fire_all}
use axiom_ai.Toast.View.{toast_row, toast_rows, toast_rows-dismiss}
use axiom_ai.Status.{offline}
use axiom_ai.Status.Polling.{backend, cleanup, tick, polled}
use axiom_ai.Status.Watching
use axiom_ai.Status.Watching.{IsFrozen, cleanup-Reach}

toast_rows-dismiss_example :
    let two = notify (codes "b") info (notify (codes "a") success (start 4)) in
    (toast_rows (dismiss 4 two)
      ≡ map toast_row []
        ++ map toast_row (record { id = 5; message = codes "b"; tone = info } ∷ []))
    × (toast_rows (fire_all two) ≡ [])
unfolding notify start
toast_rows-dismiss_example =
    toast_rows-dismiss 4 [] (record { id = 4; message = codes "a"; tone = success })
      (record { id = 5; message = codes "b"; tone = info } ∷ [])
      (next (next here (notified (start 4) (codes "a") success))
        (notified (notify (codes "a") success (start 4)) (codes "b") info))
      refl

cleanup-Reach_example :
    IsFrozen backend (polled offline (record (tick (cleanup backend)) { waiting = [] }))
unfolding backend cleanup tick
cleanup-Reach_example = cleanup-Reach backend (
    Watching.next (Watching.next Watching.here (Watching.ticked (cleanup backend)))
      (Watching.answered (tick (cleanup backend)) [] 0 [] offline refl))
