-- ===== src/Program/Arguments.antt =====
-- main.cpp: the options that a command line sets, and how ENet is used then.
use ynetserver_enet.Base.{
  ℕ, ◌≡◌, refl, ◌∙◌, List, [], ◌∷◌, ◌++◌, none, Bool, true, false, Bytes, bytes, bytes_eq,
  if◌then◌else◌, Option-cases, Bool-cases, inl, inr,
}
use ynetserver_enet.Hash.{string_to_hash}
use ynetserver_enet.Resources.{follow, nothing}
use ynetserver_enet.Client.Connection.{Answers, fresh, connect, setup_client}
use ynetserver_enet.Server.SetUp
use ynetserver_enet.Program.{
  Options, defaults, idle, is_value, flag, on_arg, parse_args, parse_address, run_client, main,
  wants_address, parse_args_address, parse_args_protocol,
}

-- A command line with all that can be set.
unfoldable pub args_of : Bool → Bool → Bytes → Bytes → List Bytes
args_of test client address protocol =
    (if test then bytes "--debug" ∷ [] else [])
    ++ (if client then bytes "--client" else bytes "--ip")
      ∷ address
      ∷ bytes "--protocol"
      ∷ protocol
      ∷ []

-- A command line with or without --debug, with --client or --ip and an address, and with
-- --protocol and a text, where address and text do not start with a dash, sets these options and
-- the hash of the text, and no other.
pub parse_args-args_of :
    (test client : Bool) (address protocol : Bytes)
    → is_value address ≡ true
    → is_value protocol ≡ true
    → parse_args (args_of test client address protocol) idle defaults ≡ record {
      test_mode = test;
      client_mode = client;
      server_address = address;
      protocol = string_to_hash protocol;
    }
unfolding parse_args args_of on_arg flag bytes_eq
parse_args-args_of test client address protocol a p = by_cases test client
  where
    ends :
        (o : Options)
        → parse_args (address ∷ bytes "--protocol" ∷ protocol ∷ []) wants_address o
          ≡ record o { server_address = address; protocol = string_to_hash protocol }
    ends o =
        parse_args_address address (bytes "--protocol" ∷ protocol ∷ []) o a
        ∙ parse_args_protocol protocol [] (record o { server_address = address }) p

    by_cases :
        (t c : Bool)
        → parse_args (args_of t c address protocol) idle defaults ≡ record {
          test_mode = t;
          client_mode = c;
          server_address = address;
          protocol = string_to_hash protocol;
        }
    by_cases true true = ends (record defaults { test_mode = true; client_mode = true })
    by_cases true false = ends (record defaults { test_mode = true })
    by_cases false true = ends (record defaults { client_mode = true })
    by_cases false false = ends defaults

-- A client's first call is of a host or of the shut-down, and neither is allowed yet.
connect_first :
    (a : Answers) (protocol : ℕ) (cs : List _)
    → follow ((connect a protocol fresh).2 ++ cs) nothing ≡ none
unfolding connect setup_client follow
connect_first a protocol cs = elim (Bool-cases a.created) [
  | inl made ↦ elim (Bool-cases a.compressed) [
    | inl small ↦ rw (made, connect, setup_client) (rw (small) refl)
    | inr large ↦ rw (made, connect, setup_client) (rw (large) refl)
  ]
  | inr failed ↦ rw (failed, connect, setup_client) refl
]

-- Whatever the libraries answer, every command line that asks for the client makes the program use
-- ENet in an order that is not allowed from the start, as nothing initializes it.
pub main-uninitialized :
    (a : Answers) (n : ℕ) (server : SetUp.Answers) (args : List Bytes)
    → (parse_args args idle defaults).client_mode ≡ true
    → follow ((main a n server args).calls) nothing ≡ none
unfolding main run_client
main-uninitialized a n server args client =
    let o = parse_args args idle defaults in
    rw (client, main)
      (elim (Option-cases (parse_address o.server_address)) [
        | inl bad ↦ rw (bad, run_client) (unfold follow in refl)
        | inr (target, good) ↦ rw (good, run_client) (connect_first a o.protocol _)
      ])
