-- ===== src/Program/Addresses.antt =====
-- main.cpp: which host and port a client asks for.
use ynetserver_enet.Base.{
  ℕ, ◌<◌, ◌%◌, ◌^◌, ◌≡◌, ◌≢◌, refl, [], ◌∷◌, ◌++◌, none, some, true, false, Bytes, bytes, bytes_eq,
  ◌==◌, arith,
}
use ynetserver_enet.Text.{to_string}
use ynetserver_enet.Text.Decimal.{stoi-to_string}
use ynetserver_enet.Client.Connection.{Answers}
use ynetserver_enet.Server.SetUp
use ynetserver_enet.Program.{
  Options, defaults, is_value, flag, on_arg, parse_args, split_colon, parse_address, run_client,
  main, parse_args_address,
}

abbrev pub NoColon : Bytes → Type 0
NoColon [] = Unit
NoColon (c ∷ s) = (c ≢ b':') × NoColon s

split_colon-none : (s : Bytes) → NoColon s → split_colon s ≡ none
unfolding split_colon
split_colon-none [] h = refl
split_colon-none (c ∷ s) h =
    let no : (c == b':') ≡ false = ground arith in rw (no, split_colon-none s h.1) refl

split_colon_first :
    (host port : Bytes) → NoColon host → split_colon (host ++ b':' ∷ port) ≡ some (host, port)
unfolding split_colon
split_colon_first [] port h = refl
split_colon_first (c ∷ host) port h =
    let no : (c == b':') ≡ false = ground arith in rw (no, split_colon_first host port h.1) refl

-- An address of a host without a colon, a colon, and a decimal number below 2 ^ 31 is read as that
-- host and the number modulo 2 ^ 16 as the port.
pub parse_address-to_string :
    (host : Bytes) (n : ℕ)
    → NoColon host
    → n < 2 ^ 31
    → parse_address (host ++ b':' ∷ to_string n) ≡ some (host, n % 2 ^ 16)
unfolding parse_address
parse_address-to_string host n h small =
    rw (split_colon_first host (to_string n) h, parse_address) (rw (stoi-to_string n small) refl)

-- With --client and an address that has no colon and does not start with a dash, the client asks
-- for localhost at port 7777, with protocol 0.
pub main-no_port :
    (a : Answers) (n : ℕ) (server : SetUp.Answers) (address : Bytes)
    → is_value address ≡ true
    → NoColon address
    → (main a n server (bytes "--client" ∷ address ∷ [])).target ≡ some (bytes "localhost", 7777, 0)
unfolding main on_arg flag bytes_eq run_client
main-no_port a n server address value h =
    let o : Options = record defaults { client_mode = true } in
    rw (parse_args_address address [] o value, main)
      (unfold parse_args in rw (split_colon-none address h, run_client, parse_address) refl)
