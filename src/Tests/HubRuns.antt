-- ===== src/Tests/HubRuns.antt =====
-- Runs of the theorems on the hub.
use flyc.Base.{[], ◌∷◌, codes}
use flyc.Redis.{Event, EventType}
use flyc.Hub.{Sub, Hub}
use flyc.Tests.Data.{sale}

abbrev visitor : Sub
visitor = record { number = 0; ticket = codes "t_a"; ch = [] }

abbrev admission : Event
admission = record {
  type = EventType.admitted;
  admitted_ids = codes "t_a" ∷ [];
  pending = 0;
  head = 0;
  rate = 0;
}

abbrev one_room : Hub
one_room = record { rooms = record { id = sale; subs = visitor ∷ [] } ∷ []; next = 1 }
