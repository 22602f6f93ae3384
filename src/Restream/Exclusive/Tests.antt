-- ===== src/Restream/Exclusive/Tests.antt =====
-- A manager of restream/restream.go with playouts at work.
use datarhei_core.Prelude.{ℕ, ◌+◌, ◌≤◌, ◌≡◌, refl, false, List, [], ◌∷◌, some, arith}
use datarhei_core.Prelude.Int.{pos}
use datarhei_core.Prelude.Map.{total}
use datarhei_core.Io.Path.{Bytes}
use datarhei_core.Net.Port.{Portrange, first_unused, get, put}
use datarhei_core.Restream.{ConfigIo, Config}
use datarhei_core.Restream.Output.{validate_input_address, validate_output_address}
use datarhei_core.Restream.Server.{Request, creates, adds, reloads, Server, server_of, serve_all}
use datarhei_core.Restream.Ports.{used}
use datarhei_core.Restream.Holders.{hits, playout_hits, holders}
use datarhei_core.Restream.Exclusive.{waiting_holds, IsLeasing, serve_all-holders}
use datarhei_core.Restream.Tests.{env, empty, config}

-- "playout:a"
abbrev playout_input : Bytes → ConfigIo
playout_input id = record {
  id = id;
  address = b'p' ∷ b'l' ∷ b'a' ∷ b'y' ∷ b'o' ∷ b'u' ∷ b't' ∷ b':' ∷ b'a' ∷ [];
  options = [];
  cleanup = [];
}

-- A process with two playouts.
abbrev playouts : Bytes → Config
playouts id = record config {
  id = id;
  input = playout_input (b'i' ∷ []) ∷ playout_input (b'j' ∷ []) ∷ [];
}

-- Ports 10 to 12.
abbrev three : Portrange
three = record { min = 10; ports = false ∷ false ∷ false ∷ []; min_unused = pos 0 }

abbrev with_ports : Server
with_ports = server_of (record empty { ports = some three })

with_ports-IsLeasing : IsLeasing with_ports
unfolding holders total first_unused waiting_holds
with_ports-IsLeasing = record { distinct = tt; pool = refl; fits = λ q. omega arith }

-- Two calls of `AddProcess` overlap. The second process gets one port only, and is not added; after
-- a reload, the first has two again.
abbrev requests : List (ℕ × Request)
requests =
    (4, reloads (b'p' ∷ []))
    ∷ (3, adds 0)
    ∷ (2, creates (playouts (b'q' ∷ [])))
    ∷ (1, creates (playouts (b'p' ∷ [])))
    ∷ []

abbrev served : Server
served = serve_all env with_ports requests

serve_all-holders_example :
    (holders 10 served.manager.tasks + waiting_holds 10 served.created ≤ 1)
    × (holders 10 served.manager.tasks + waiting_holds 10 served.created
        ≤ used 10 served.manager.ports)
serve_all-holders_example = serve_all-holders env with_ports requests 10 with_ports-IsLeasing

-- The first process holds 10 and 11; the third port is lost.
serve_all-ports :
    (holders 10 served.manager.tasks ≡ 1)
    × (holders 11 served.manager.tasks ≡ 1)
    × (holders 12 served.manager.tasks ≡ 0)
    × (used 12 served.manager.ports ≡ 1)
unfolding serve_all validate_input_address validate_output_address holders hits playout_hits total
    used first_unused get put
serve_all-ports = (refl, refl, refl, refl)
