-- ===== src/Integration/Linked/Reached.antt =====
-- The states that a linked system reaches (csp_lib/integration/registry.py, command_router.py,
-- command_refresh.py).
use csp_lib.Base.{List, [], ◌∷◌, string_equality}
use csp_lib.Integration.Registry.{new}
use csp_lib.Integration.Registry.Calls.{step-IsIndexed, run_registry, run_registry-IsIndexed}
use csp_lib.Integration.Router.{route, route_per_device, refresh_once}
use csp_lib.Integration.Router.Safety.{route-IsRouted}
use csp_lib.Integration.Router.Refresh.{refresh_once-IsRefreshed}
use csp_lib.Integration.Linked.{
  Linked, Event, called, routed, distributed, refreshed, sent, next, run_linked, fresh, IsLinked,
}
use csp_lib.Integration.Linked.Held.{after_writes, held, linked, called-Holds}

next-IsLinked : (e : Event) (s : Linked) → IsLinked s → IsLinked (next e s)
unfolding next
next-IsLinked (called c) s l = linked _ (step-IsIndexed c s.registry l.indexed) (called-Holds c s l)
next-IsLinked (routed env ms cs command) s l = linked _ l.indexed (
    after_writes s.registry env s.desired (route s.registry env ms cs command (sent s.desired))
      (route-IsRouted s.registry env ms cs command [] s.desired l.indexed).0 (held s l))
next-IsLinked (distributed env ms cs command commands) s l = linked _ l.indexed (
    after_writes s.registry env s.desired
      (route_per_device s.registry env ms cs command commands (sent s.desired))
      (route-IsRouted s.registry env ms cs command commands s.desired l.indexed).1 (held s l))
next-IsLinked (refreshed env device_filter) s l = linked _ l.indexed (
    after_writes s.registry env s.desired
      (refresh_once s.registry env device_filter (sent s.desired))
      (refresh_once-IsRefreshed s.registry env device_filter s.desired l.indexed l.formed).1
      (held s l))

run_linked-keeps : (es : List Event) (s : Linked) → IsLinked s → IsLinked (run_linked es s)
unfolding run_linked
run_linked-keeps [] s l = l
run_linked-keeps (e ∷ es) s l = run_linked-keeps es (next e s) (next-IsLinked e s l)

-- Over any calls of the registry, routed commands and refreshes, one after the other, from a new
-- registry and router, every device that the router tracks is registered, so a refresh writes
-- nothing to a device that was taken off; and the registry's indices agree throughout.
pub run_linked-IsLinked : (es : List Event) → IsLinked (run_linked es fresh)
unfolding new run_registry
run_linked-IsLinked es =
    run_linked-keeps es fresh
      (record { indexed = run_registry-IsIndexed []; tracked = λ id h. cc; once = tt; formed = tt })
