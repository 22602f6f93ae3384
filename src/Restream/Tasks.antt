-- ===== src/Restream/Tasks.antt =====
-- The tasks of restream/restream.go and the ports of their playouts. The process of FFmpeg that a
-- task has is the order that it reports: `process.Process` is the module `Process`.
use datarhei_core.Prelude.{
  ℕ, zero, suc, ◌+◌, ◌/◌, ◌%◌, Bool, true, false, ◌||◌, not, List, [], ◌∷◌, ◌++◌, ltb,
  if◌then◌else◌, Option, none, some, ite,
}
use datarhei_core.Prelude.Int.{pos}
use datarhei_core.Prelude.Map.{insert}
use datarhei_core.Io.Path.{Bytes, Bytes-discrete}
use datarhei_core.Process.{Order}
use datarhei_core.Net.Port.{Portrange, Got, port, no_more_ports, index_panic, get, put}
use datarhei_core.Restream.{ConfigIo, Config, has_prefix}
use datarhei_core.Restream.Validate.{Error, port_panic}
use datarhei_core.Restream.Validate as Validate

-- `app.Process`
pub record AppProcess : Type 0 where
  pub id : Bytes
  pub reference : Bytes
  pub config : Config
  pub order : Order
  pub created_at : ℕ
  pub updated_at : ℕ

-- `task`. `ffmpeg` and `playout` are `none` for nil; `parser` says whether there is a parser.
pub record Task : Type 0 where
  pub valid : Bool
  pub id : Bytes
  pub reference : Bytes
  pub process : AppProcess
  pub config : Config
  pub command : List Bytes
  pub ffmpeg : Option Order
  pub parser : Bool
  pub playout : Option (List (Bytes × ℕ))
  pub uses_disk : Bool
  pub metadata : Option (List (Bytes × Bytes))

abbrev pub avstream_prefix : Bytes
avstream_prefix = b'a' ∷ b'v' ∷ b's' ∷ b't' ∷ b'r' ∷ b'e' ∷ b'a' ∷ b'm' ∷ b':' ∷ []

abbrev pub playout_prefix : Bytes
playout_prefix = b'p' ∷ b'l' ∷ b'a' ∷ b'y' ∷ b'o' ∷ b'u' ∷ b't' ∷ b':' ∷ []

abbrev pub httpport_option : Bytes
httpport_option =
    b'-' ∷ b'p' ∷ b'l' ∷ b'a' ∷ b'y' ∷ b'o' ∷ b'u' ∷ b't' ∷ b'_' ∷ b'h' ∷ b't' ∷ b't' ∷ b'p' ∷ b'p'
    ∷ b'o' ∷ b'r' ∷ b't' ∷ []

-- The loop over the options, with its variable `skip`.
unfoldable pub playout_options : Bool → List Bytes → List Bytes
unfolding Bytes-discrete
playout_options skip [] = []
playout_options true (o ∷ os) = playout_options true os
playout_options false (o ∷ os) =
    let rest = playout_options false os in
    let skipped = playout_options true os in
    ite (Bytes-discrete o httpport_option) skipped (o ∷ rest)

digits : ℕ → ℕ → Bytes → Bytes
digits zero n ds = ds
digits (suc fuel) n ds =
    let rest = digits fuel (n / 10) ((48 + n % 10) ∷ ds) in if ltb n 10 then (48 + n) ∷ ds else rest

-- `strconv.Itoa`, of a number; it has at most as many digits as it is large, and one more.
unfoldable pub itoa : ℕ → Bytes
unfolding digits
itoa n = digits (suc n) n []

-- The pool of ports, the inputs, what `playout` holds, and an error.
pub record Assigned : Type 0 where
  pub ports : Option Portrange
  pub inputs : List ConfigIo
  pub playout : List (Bytes × ℕ)
  pub error : Option Error

unfoldable pub has_playout : ConfigIo → Bool
unfolding has_prefix
has_playout io = has_prefix io.address avstream_prefix || has_prefix io.address playout_prefix

abbrev pub cons_assigned : ConfigIo → Assigned → Assigned
cons_assigned io a = record a { inputs = io ∷ a.inputs }

-- The pool of `GetPort`, and its port, its error, or neither without a range.
unfoldable pub get_port : Option Portrange → Option Portrange × Option Got
get_port none = (none, none)
get_port (some r) = (some (get r).0, some (get r).1)

abbrev pub without_port : ConfigIo → ConfigIo
without_port io = record io { options = playout_options false io.options }

abbrev pub with_port : ℕ → ConfigIo → ConfigIo
with_port p io = record io {
  options = playout_options false io.options ++ httpport_option ∷ itoa p ∷ [];
}

-- The loop of `setPlayoutPorts`.
unfoldable pub assign_ports : Option Portrange → List (Bytes × ℕ) → List ConfigIo → Assigned
unfolding get_port insert has_playout
assign_ports ports playout [] = record {
  ports = ports;
  inputs = [];
  playout = playout;
  error = none;
}
assign_ports ports playout (io ∷ ios) =
    let skipped = assign_ports ports playout ios in
    if not (has_playout io) then cons_assigned io skipped else elim (get_port ports).1 [
      | none ↦ cons_assigned (without_port io) (assign_ports (get_port ports).0 playout ios)
      | some got ↦ elim got [
        | port p ↦
            cons_assigned (with_port p io)
              (assign_ports (get_port ports).0 (insert Bytes-discrete io.id p playout) ios)
        | no_more_ports ↦ record {
          ports = (get_port ports).0;
          inputs = io ∷ ios;
          playout = playout;
          error = some Validate.no_more_ports;
        }
        | index_panic ↦ record {
          ports = (get_port ports).0;
          inputs = io ∷ ios;
          playout = playout;
          error = some port_panic;
        }
      ]
    ]

unfoldable pub put_port : ℕ → Option Portrange → Option Portrange
put_port p none = none
put_port p (some r) = some (put (pos p) r)

unfoldable pub put_all : List (Bytes × ℕ) → Option Portrange → Option Portrange
unfolding put_port
put_all [] ports = ports
put_all ((id, p) ∷ ps) ports = put_all ps (put_port p ports)

-- `unsetPlayoutPorts`
unfoldable pub unset_playout_ports : Option Portrange → Task → Option Portrange × Task
unfolding put_all
unset_playout_ports ports t = elim t.playout [
  | none ↦ (ports, t)
  | some ps ↦ (put_all ps ports, record t { playout = none })
]

-- `setPlayoutPorts`
unfoldable pub set_playout_ports : Option Portrange → Task → Option Portrange × Task × Option Error
unfolding unset_playout_ports assign_ports
set_playout_ports ports t =
    let unset = unset_playout_ports ports t in
    let a = assign_ports unset.0 [] t.config.input in
    (
      a.ports,
      record unset.1 { playout = some a.playout; config = record t.config { input = a.inputs } },
      a.error,
    )
