-- ===== src/Server/Start.antt =====
-- The start of a session: the hardware information, and what follows once it is accepted.
use nw_proj.Base.{◌+◌, ◌*◌, ◌≤◌, ◌≡◌, ◌≢◌, List, [], length, All}
use nw_proj.Memory.Place.{place}
use nw_proj.Instance.{Iface, RtEntry}
use nw_proj.Outcomes.{Safe}
use nw_proj.Routing.Verified.{Resolves}
use nw_proj.Hardware.Laws.{Description}
use nw_proj.Hardware.Message.{IsDescription, hwinfo_body}
use nw_proj.Vns.{framed}
use nw_proj.Server.{Message}

-- There is an interface, there is a route, and each route's interface exists.
pub record IsServable (is : List Iface) (table : List RtEntry) : Type 0 where
  pub some_iface : is ≢ []
  pub some_route : table ≢ []
  pub resolves : All (Resolves is) table

-- The message holds the description, in the memory it was received into.
pub record IsHwinfo (m : Message) (ds : List Description) : Type 0 where
  pub buf : m.buf ≡ place m.env.uninit 0 (framed (hwinfo_body ds))
  pub bytes : All IsDescription ds
  pub short : 8 + 108 * length ds ≤ 10000
