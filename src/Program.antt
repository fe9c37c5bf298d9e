-- ===== src/Program.antt =====
-- main.cpp: the command line, and what the program runs.
pub mod Arguments
pub mod Addresses
use ynetserver_enet.Base.{
  ℕ, suc, List, [], ◌∷◌, ◌++◌, Option, none, some, Bool, true, false, not, ◌||◌, Bytes, bytes,
  bytes_eq, ◌==◌, if◌then◌else◌, ◌>>=◌, ◌≡◌, arith,
}
use ynetserver_enet.Text.{stoi, wrap}
use ynetserver_enet.Hash.{string_to_hash}
use ynetserver_enet.Resources.{Call, deinitialize}
use ynetserver_enet.Client.Connection.{Answers, fresh, connect, disconnect}
use ynetserver_enet.Server.SetUp.{SetUp, ready, throws, tear_down, set_up}
use ynetserver_enet.Server.SetUp

-- The variables that the loop over `argv` sets.
pub record Options : Type 0 where
  pub test_mode : Bool
  pub client_mode : Bool
  pub server_address : Bytes
  pub protocol : ℕ

abbrev pub defaults : Options
defaults = record {
  test_mode = false;
  client_mode = false;
  server_address = bytes "localhost:7777";
  protocol = 0;
}

-- What the argument before may take as its value.
pub data Pending : Type 0 where
  idle : Pending
  wants_protocol : Pending
  wants_address : Pending

-- `argv[i + 1][0] != '-'`; the first character of an empty text is its NUL.
unfoldable pub is_value : Bytes → Bool
is_value [] = true
is_value (c ∷ s) = not (c == b'-')

unfoldable pub flag : Bytes → Options → Pending × Options
flag arg o =
    if bytes_eq arg (bytes "--debug") || bytes_eq arg (bytes "--d")
    then (idle, record o { test_mode = true })
    else if bytes_eq arg (bytes "--protocol") || bytes_eq arg (bytes "--p")
    then (wants_protocol, o)
    else if bytes_eq arg (bytes "--client") || bytes_eq arg (bytes "--c")
    then (wants_address, record o { client_mode = true })
    else if bytes_eq arg (bytes "--ip")
    then (wants_address, o)
    else (idle, o)

unfoldable pub on_arg : Bytes → Pending → Options → Pending × Options
unfolding flag is_value
on_arg arg idle o = flag arg o
on_arg arg wants_protocol o =
    if is_value arg then (idle, record o { protocol = string_to_hash arg }) else flag arg o
on_arg arg wants_address o =
    if is_value arg then (idle, record o { server_address = arg }) else flag arg o

-- The loop over the arguments behind the program's name.
unfoldable pub parse_args : List Bytes → Pending → Options → Options
unfolding on_arg
parse_args [] p o = o
parse_args (arg ∷ rest) p o = let (p', o') = on_arg arg p o in parse_args rest p' o'

-- The parts before and behind the first colon.
unfoldable pub split_colon : Bytes → Option (Bytes × Bytes)
split_colon [] = none
split_colon (c ∷ s) =
    let rest = split_colon s in
    if c == b':' then some ([], s) else (do (before, behind) ← rest; some (c ∷ before, behind))

-- The host and the port; `none` where `std::stoi` throws. Without a colon both keep their defaults.
unfoldable pub parse_address : Bytes → Option (Bytes × ℕ)
unfolding split_colon
parse_address s = elim (split_colon s) [
  | none ↦ some (bytes "localhost", 7777)
  | some (host, port) ↦ (do z ← stoi port; some (host, wrap 16 z))
]

-- What ends the program: its exit code, with the calls of ENet and mongoose until then, and the
-- host, port and protocol that a client asks for.
pub record Outcome : Type 0 where
  pub exit_code : ℕ
  pub calls : List Call
  pub target : Option (Bytes × ℕ × ℕ)

-- The client: `n` is how often ENet reports something while it disconnects. The destructor runs
-- behind `enet_deinitialize`, and after a failed `connect` has nothing to do.
unfoldable pub run_client : Answers → ℕ → Options → Outcome
unfolding parse_address
run_client a n o = elim (parse_address o.server_address) [
  | none ↦ record { exit_code = 1; calls = deinitialize ∷ []; target = none }
  | some (host, port) ↦
      let (came, l, calls) = connect a o.protocol fresh in
      let (l', more) = disconnect n l in
      record {
        exit_code = if came then 0 else 1;
        calls = calls ++ deinitialize ∷ more;
        target = some (host, port, o.protocol);
      }
]

-- The server: `run` returns only by an exception, which the handler reports.
unfoldable pub run_server : SetUp.Answers → Outcome
run_server a = elim (set_up a) [
  | ready calls ↦ record { exit_code = 1; calls = calls ++ tear_down; target = none }
  | throws e calls ↦ record { exit_code = 1; calls = calls; target = none }
]

unfoldable pub main : Answers → ℕ → SetUp.Answers → List Bytes → Outcome
unfolding parse_args run_client run_server
main a n server args =
    let o = parse_args args idle defaults in
    if o.client_mode then run_client a n o else run_server server

pub parse_args_address :
    (address : Bytes) (rest : List Bytes) (o : Options)
    → is_value address ≡ true
    → parse_args (address ∷ rest) wants_address o
      ≡ parse_args rest idle (record o { server_address = address })
unfolding parse_args on_arg
parse_args_address address rest o h = ground arith

pub parse_args_protocol :
    (text : Bytes) (rest : List Bytes) (o : Options)
    → is_value text ≡ true
    → parse_args (text ∷ rest) wants_protocol o
      ≡ parse_args rest idle (record o { protocol = string_to_hash text })
unfolding parse_args on_arg
parse_args_protocol text rest o h = ground arith
