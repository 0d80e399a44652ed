-- ===== src/Events/Examples.antt =====
-- One owner and one fence on an empty bus.
use clixor_backend.Prelude.{◌≡◌, refl, some, true, arith, nat_eq, String}
use clixor_backend.Events.{MemoryBus, new_bus, register_session_owner, fence_sessions}
use clixor_backend.Events.Fencing.{calls_owner, fenced_either_way}

abbrev quiet : MemoryBus String
quiet = new_bus

fenced_either_way_example :
    (calls_owner 3 (register_session_owner 3 4 6 60 (fence_sessions 9 4 (some 6) 50 quiet).1).0
      ≡ true)
    × (calls_owner 3 (fence_sessions 9 4 (some 6) 60 (register_session_owner 3 4 6 50 quiet).1).0
        ≡ true)
fenced_either_way_example = fenced_either_way 3 9 4 6 (some 6) 50 60 quiet refl (omega arith)
