-- ===== src/Payments/Clearing.antt =====
-- src/workers/allocation-state.worker.ts: the sweep that clears the allocations of revenue after a while. Of two
-- events of one allocation at the same time, the query may take either; here it takes the later row. The new
-- events are in the order in which their allocations have their last events.
pub mod Progress
use wordclaw.Shared.{
  ℕ, ◌+◌, ◌*◌, Bool, true, false, ◌&&◌, ◌||◌, Option, none, some, List, [], ◌∷◌, ◌++◌,
  if◌then◌else◌, ◌==◌, nat_eq, string_eq, ltb, leb, includes,
}
use wordclaw.Payments.Revenue.{StatusEvent}

abbrev pub days : ℕ → ℕ
days n = n * (24 * 60 * 60 * 1000)

-- The newer of two events.
abbrev pub newer : Option StatusEvent → Option StatusEvent → Option StatusEvent
newer none b = b
newer (some e) none = some e
newer (some e) (some f) = if ltb f.created_at e.created_at then some e else some f

-- `DISTINCT ON (allocation_id) … ORDER BY allocation_id, created_at DESC`, for one allocation.
unfoldable pub latest : ℕ → List StatusEvent → Option StatusEvent
latest id [] = none
latest id (e ∷ es) =
    let rest = latest id es in if e.allocation_id == id then newer (some e) rest else rest

unfoldable pub allocation_ids : List StatusEvent → List ℕ
allocation_ids [] = []
allocation_ids (e ∷ es) =
    let rest = allocation_ids es in
    if includes rest e.allocation_id then rest else e.allocation_id ∷ rest

-- Pending for a week, or disputed for two.
unfoldable pub must_clear : ℕ → StatusEvent → Bool
must_clear now e =
    (e.status == "pending" && leb (e.created_at + days 7) now)
    || (e.status == "disputed" && leb (e.created_at + days 14) now)

abbrev pub cleared : ℕ → ℕ → StatusEvent → StatusEvent
cleared now id e = record {
  domain_id = e.domain_id;
  allocation_id = id;
  status = "cleared";
  created_at = now;
}

abbrev pub cleared_after : ℕ → ℕ → Option StatusEvent → Option StatusEvent
cleared_after now id none = none
cleared_after now id (some e) = if must_clear now e then some (cleared now id e) else none

abbrev pub with_event : Option StatusEvent → List StatusEvent → List StatusEvent
with_event none es = es
with_event (some e) es = e ∷ es

unfoldable pub clear_all : ℕ → List StatusEvent → List ℕ → List StatusEvent
clear_all now es [] = []
clear_all now es (id ∷ ids) =
    let rest = clear_all now es ids in with_event (cleared_after now id (latest id es)) rest

unfoldable pub process_auto_clear : ℕ → List StatusEvent → List StatusEvent
process_auto_clear now es = es ++ clear_all now es (allocation_ids es)
