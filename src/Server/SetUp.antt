-- ===== src/Server/SetUp.antt =====
-- ynetserver.cpp: the constructor and the destructor of `YNetServer`.
use ynetserver_enet.Base.{
  not, ◌&&◌, List, [], ◌∷◌, ◌++◌, some, Bool, true, false, ◌≡◌, refl, Bytes, bytes, if◌then◌else◌,
}
use ynetserver_enet.Resources.{
  Call, nothing, follow, initialize, deinitialize, create_host, compress, destroy_host, init_web,
  listen, free_web,
}

-- What the libraries answer.
pub record Answers : Type 0 where
  pub initialized : Bool
  pub created : Bool
  pub compressed : Bool
  pub listening : Bool

-- A server, or the exception that is thrown; with the calls, in order.
pub data SetUp : Type 0 where
  ready : List Call → SetUp
  throws : Bytes → List Call → SetUp

unfoldable pub set_up : Answers → SetUp
set_up a =
    if not a.initialized
    then throws (bytes "Failed to initialize ENET") (initialize false ∷ [])
    else if not a.created
    then throws (bytes "Failed to create ENET server")
        (initialize true ∷ create_host false ∷ deinitialize ∷ [])
    else if not a.compressed
    then throws (bytes "Failed to enable range coder compression")
        (initialize true ∷ create_host true ∷ compress false ∷ destroy_host ∷ deinitialize ∷ [])
    else if not a.listening
    then throws (bytes "Failed to create web server") (
        initialize true
        ∷ create_host true
        ∷ compress true
        ∷ init_web
        ∷ listen false
        ∷ destroy_host
        ∷ deinitialize
        ∷ [])
    else ready (initialize true ∷ create_host true ∷ compress true ∷ init_web ∷ listen true ∷ [])

abbrev pub tear_down : List Call
tear_down = free_web ∷ destroy_host ∷ deinitialize ∷ []

-- A server that is set up and torn down again leaves nothing; a set-up that throws leaves no
-- ENet behind, and mongoose exactly if it was the web server that failed.
abbrev pub Released : Answers → SetUp → Type 0
Released a (ready calls) = follow (calls ++ tear_down) nothing ≡ some nothing
Released a (throws e calls) =
    follow calls nothing
    ≡ some
        (record nothing { web = a.initialized && (a.created && (a.compressed && not a.listening)) })

-- Whatever ENet and mongoose answer, the calls of the constructor are allowed; followed by those
-- of the destructor, if it does not throw, they leave nothing; and if it throws, they leave
-- neither ENet nor a host, and mongoose's manager exactly if it was the web server that could not
-- listen.
pub set_up-Released : (a : Answers) → Released a (set_up a)
unfolding set_up follow
set_up-Released a = by_cases a.initialized a.created a.compressed a.listening
  where
    by_cases :
        (i c k l : Bool)
        → let a : Answers = record {
          initialized = i;
          created = c;
          compressed = k;
          listening = l;
        } in
          Released a (set_up a)
    by_cases false c k l = refl
    by_cases true false k l = refl
    by_cases true true false l = refl
    by_cases true true true false = refl
    by_cases true true true true = refl
