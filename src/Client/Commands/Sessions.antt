-- ===== src/Client/Commands/Sessions.antt =====
-- ynetclient.cpp with ynetserver.cpp: what the lines of a session do.
use ynetserver_enet.Base.{
  ℕ, ◌≤◌, ◌≡◌, refl, List, [], ◌∷◌, Option, some, Bool, true, false, Bytes, bytes, bytes_eq,
  is_empty, if-cases, Bool-cases, inl, inr, ◌>>=◌, arith, ◌≢◌,
}
use ynetserver_enet.Base.Int.{ℤ}
use ynetserver_enet.Stream.{Stream, Laws, total}
use ynetserver_enet.Message.{AnyMessage}
use ynetserver_enet.Message.Wire.{encode}
use ynetserver_enet.Message.Wire.Items.{items, IsValid}
use ynetserver_enet.Room.{Peer, Client}
use ynetserver_enet.Server.{World}
use ynetserver_enet.Server.Info.{Json}
use ynetserver_enet.Server.Dispatch.{handle_received_data}
use ynetserver_enet.Text.Streams.{read_word}
use ynetserver_enet.Client.{
  YNetClient, Request, create_room, create_room_with, join_room, join_room_with, join_or_create,
  message_of, is_refused, after_sending, request, send_to_server, max_message_size, leave_room,
  send_room_message,
}
use ynetserver_enet.Client.Requests.{handler_of, request-handled}
use ynetserver_enet.Client.Commands.{
  Command, ask, quit, unknown, Turn, types, hears, loses, parse_line, command_for, with_password,
  obey, turn, run,
}
use ynetserver_enet.Client.Commands.Printed.{line_of, IsTypable, parse_line-line_of}

-- A command whose request, if it has one, has a message.
HasMessage : ℕ → Command → Type 0
HasMessage stale (ask r) = (m : AnyMessage) × (message_of stale r ≡ some m)
HasMessage stale _ = Unit

ask-HasMessage :
    (stale : ℕ) (r : Request) (m : AnyMessage)
    → message_of stale r ≡ some m
    → HasMessage stale (ask r)
unfolding HasMessage
ask-HasMessage stale r m e = (m, e)

quit-HasMessage : (stale : ℕ) → HasMessage stale quit
unfolding HasMessage
quit-HasMessage stale = tt

unknown-HasMessage : (stale : ℕ) → HasMessage stale unknown
unfolding HasMessage
unknown-HasMessage stale = tt

with_password-HasMessage :
    (stale : ℕ) (plain : Bytes → Request) (protected : Bytes → Bytes → Request) (s : Bytes)
    → ((code : Bytes) → HasMessage stale (ask (plain code)))
    → ((code password : Bytes) → HasMessage stale (ask (protected code password)))
    → HasMessage stale (ask (with_password plain protected s))
unfolding with_password
with_password-HasMessage stale plain protected s f g =
    let (code, r) = read_word s in
    let (password, r') = read_word r in
    if-cases (λ r. HasMessage stale (ask r)) (is_empty password) (plain code)
      (protected code password) (λ _. f code) (λ _. g code password)

command_for-HasMessage :
    (stale : ℕ) (before : ℤ) (cmd s : Bytes) → HasMessage stale (command_for before cmd s)
unfolding command_for message_of
command_for-HasMessage stale before cmd s =
    let Q = HasMessage stale in
    let has = ask-HasMessage stale in
    let is = λ (name : Bytes). bytes_eq cmd name in
    if-cases Q (is (bytes "quit")) _ _ (λ _. quit-HasMessage stale)
      λ _.
        if-cases Q (is (bytes "create_room")) _ _
          (λ _.
            with_password-HasMessage stale create_room create_room_with s (λ c. has _ _ refl)
              (λ c p. has _ _ refl))
          λ _.
            if-cases Q (is (bytes "join_room")) _ _
              (λ _.
                with_password-HasMessage stale (λ code. join_room code []) join_room_with s
                  (λ c. has _ _ refl) (λ c p. has _ _ refl))
              λ _.
                if-cases Q (is (bytes "join_or_create")) _ _
                  (λ _.
                    with_password-HasMessage stale (λ code. join_or_create code []) join_or_create s
                      (λ c. has _ _ refl) (λ c p. has _ _ refl))
                  λ _.
                    if-cases Q (is (bytes "join_random")) _ _ (λ _. has _ _ refl)
                      λ _.
                        if-cases Q (is (bytes "leave_room")) _ _ (λ _. has _ _ refl)
                          λ _.
                            if-cases Q (is (bytes "send_message")) _ _ (λ _. has _ _ refl)
                              λ _.
                                if-cases Q (is (bytes "set_password")) _ _ (λ _. has _ _ refl)
                                  λ _.
                                    if-cases Q (is (bytes "set_max_players")) _ _
                                      (λ _. has _ _ refl)
                                      λ _.
                                        if-cases Q (is (bytes "set_private")) _ _
                                          (λ _. has _ _ refl)
                                          λ _.
                                            if-cases Q (is (bytes "set_host_migration")) _ _
                                              (λ _. has _ _ refl)
                                              λ _.
                                                if-cases Q (is (bytes "set_room_name")) _ _
                                                  (λ _. has _ _ refl)
                                                  λ _.
                                                    if-cases Q (is (bytes "set_extra_info")) _ _
                                                      (λ _. has _ _ refl)
                                                      λ _.
                                                        if-cases Q (is (bytes "get_room_info")) _ _
                                                          (λ _. has _ _ refl)
                                                          λ _.
                                                            if-cases Q (is (bytes "get_room_list"))
                                                            _ _ (λ _. has _ _ refl)
                                                            λ _.
                                                            if-cases Q (is (bytes "kick_client")) _
                                                            _ (λ _. has _ _ refl)
                                                            (λ _. unknown-HasMessage stale)

parse_line-HasMessage :
    (stale : ℕ) (before : ℤ) (line : Bytes) → HasMessage stale (parse_line before line)
unfolding parse_line
parse_line-HasMessage stale before line =
    let (cmd, s) = read_word line in command_for-HasMessage stale before cmd s

-- Only lines, nothing from the network.
abbrev pub OnlyTyped : List Turn → Type 0
OnlyTyped [] = Unit
OnlyTyped (types line accepted stale before ∷ turns) = OnlyTyped turns
OnlyTyped (_ ∷ turns) = ⊥

module _ ⦃io : Stream⦄ where
  request-offline :
      (accepted : Bool) (stale : ℕ) (r : Request) (c : YNetClient)
      → HasMessage stale (ask r)
      → c.is_connected ≡ false
      → request accepted stale r c ≡ some (false, c, [])
  unfolding request send_to_server HasMessage
  request-offline accepted stale r c h off = elim (Bool-cases (is_refused r c)) [
    | inl refused ↦ rw (refused, request) refl
    | inr free ↦ let (m, e) = h in ground arith
  ]

  obey-offline :
      (command : Command) (accepted : Bool) (stale : ℕ) (c : YNetClient)
      → HasMessage stale command
      → c.is_connected ≡ false
      → obey command accepted stale c ≡ some (c, [])
  unfolding obey
  obey-offline (ask r) accepted stale c h off = rw (request-offline accepted stale r c h off) refl
  obey-offline quit accepted stale c h off = refl
  obey-offline unknown accepted stale c h off = refl

  turn-offline :
      (command : Command) (accepted : Bool) (stale : ℕ) (c : YNetClient)
      (rest : YNetClient → Option (YNetClient × List Bytes))
      → HasMessage stale command
      → c.is_connected ≡ false
      → rest c ≡ some (c, [])
      → turn command accepted stale c rest ≡ some (c, [])
  unfolding turn
  turn-offline quit accepted stale c rest h off e = refl
  turn-offline unknown accepted stale c rest h off e =
      rw (obey-offline unknown accepted stale c h off, e) refl
  turn-offline (ask r) accepted stale c rest h off e =
      rw (obey-offline (ask r) accepted stale c h off, e) refl

  pub run-offline :
      (turns : List Turn) (c : YNetClient)
      → OnlyTyped turns
      → c.is_connected ≡ false
      → run turns c ≡ some (c, [])
  unfolding run
  run-offline [] c h off = refl
  run-offline (types line accepted stale before ∷ turns) c h off =
      turn-offline (parse_line before line) accepted stale c (run turns)
        (parse_line-HasMessage stale before line) off (run-offline turns c h off)
  run-offline (hears b ∷ turns) c h off = elim h [ ]
  run-offline (loses ∷ turns) c h off = elim h [ ]

-- A request with a message that can be written, on a connection that takes it.
request-sent :
    ⦃io : Stream⦄ (stale : ℕ) (r : Request) (c : YNetClient) (m : AnyMessage) (b : Bytes)
    → message_of stale r ≡ some m
    → encode max_message_size m ≡ some b
    → is_refused r c ≡ false
    → c.is_connected ≡ true
    → request true stale r c ≡ some (true, after_sending r c, b ∷ [])
unfolding request send_to_server
request-sent stale r c m b e encoded free on =
    rw (free, request) (rw (e, ◌>>=◌) (rw (on, send_to_server) (rw encoded refl)))

-- The two requests that want a room have one.
abbrev pub InRoom : Request → YNetClient → Type 0
InRoom leave_room c = c.current_room ≢ []
InRoom (send_room_message s) c = c.current_room ≢ []
InRoom _ c = Unit

occupied : (code : Bytes) → code ≢ [] → is_empty code ≡ false
occupied [] h = absurd (h refl)
occupied (x ∷ code) h = refl

InRoom-free : (r : Request) (c : YNetClient) → InRoom r c → is_refused r c ≡ false
unfolding is_refused
InRoom-free leave_room c h = occupied c.current_room h
InRoom-free (send_room_message s) c h = occupied c.current_room h
InRoom-free _ c h = refl

-- The client in a room with a code.
abbrev pub Holds : Bytes → YNetClient → YNetClient → Type 0
Holds code c c' =
    (c'.current_room ≡ code)
    × (c'.current_room_id ≡ c.current_room_id)
    × (c'.is_connected ≡ c.is_connected)

-- What a request that went out changes: a join takes the room for the current one, leaving forgets
-- the room, and nothing else changes anything.
abbrev pub Moved : Request → YNetClient → YNetClient → Type 0
Moved (join_room code password) c c' = Holds code c c'
Moved (join_room_with code password) c c' = Holds code c c'
Moved (join_or_create code password) c c' = Holds code c c'
Moved leave_room c c' =
    (c'.current_room ≡ []) × (c'.current_room_id ≡ 0) × (c'.is_connected ≡ c.is_connected)
Moved _ c c' = c' ≡ c

after_sending-Moved : (r : Request) (c : YNetClient) → Moved r c (after_sending r c)
unfolding after_sending
after_sending-Moved (join_room code password) c = (refl, refl, refl)
after_sending-Moved (join_room_with code password) c = (refl, refl, refl)
after_sending-Moved (join_or_create code password) c = (refl, refl, refl)
after_sending-Moved leave_room c = (refl, refl, refl)
after_sending-Moved _ c = refl

-- On streams that keep their laws, a connected client that reads the line of a request that can be
-- typed, is in a room if the request is to leave it or to send a message, and has a message for
-- the request that is valid and fits the client's buffer, which ENet accepts, sends one packet, on
-- which handleReceivedData does what the handler meant for that request does, for every client,
-- peer and state of the server; and it then has the code as its current room if the request is to
-- join or to join or create, has no room and room id 0 if it is to leave, and is unchanged
-- otherwise.
pub typed-handled :
    ⦃io : Stream⦄ ⦃json : Json⦄
    → Laws io
    → (stale : ℕ) (before : ℤ) (r : Request) (c : YNetClient) (m : AnyMessage) → IsTypable r
    → message_of stale r ≡ some m
    → IsValid m
    → total (items m) ≤ max_message_size
    → InRoom r c
    → c.is_connected ≡ true
    → (c' : YNetClient) × (b : Bytes) × (run (types (line_of r) true stale before ∷ []) c
        ≡ some (c', b ∷ []))
      × Moved r c c'
      × ((client : Client) (p : Peer) (w : World)
          → handle_received_data client p b w ≡ handler_of r client p b w)
unfolding run turn obey
typed-handled laws stale before r c m typable e valid fits room on =
    let (b, encoded, handled) = request-handled laws stale r m e valid fits in
    let free = InRoom-free r c room in
    (
      after_sending r c,
      b,
      rw (parse_line-line_of before r typable, run)
          (rw (request-sent stale r c m b e encoded free on) refl),
      after_sending-Moved r c,
      handled,
    )
