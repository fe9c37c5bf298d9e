-- ===== src/Resources.antt =====
-- What the program holds of ENet and of mongoose, and the calls that acquire and release it.
use ynetserver_enet.Base.{
  ℕ, List, [], ◌∷◌, ◌++◌, Option, none, some, Bool, true, false, not, ◌&&◌, ◌≡◌, ap, subst,
  Option-cases, inl, inr, arith, ◌>>=◌,
}

-- A call with its success, where the code tests it.
pub data Call : Type 0 where
  initialize : Bool → Call
  deinitialize : Call
  create_host : Bool → Call
  compress : Bool → Call
  destroy_host : Call
  connect_peer : ℕ → Bool → Call
  service : Call
  reset_peer : Call
  disconnect_peer : Call
  init_web : Call
  listen : Bool → Call
  free_web : Call

pub record Held : Type 0 where
  pub enet : Bool
  pub host : Bool
  pub peer : Bool
  pub web : Bool

abbrev pub nothing : Held
nothing = record { enet = false; host = false; peer = false; web = false }

abbrev pub needs : Bool → Held → Option Held
needs true h = some h
needs false h = none

-- How the libraries want to be used: `none` for a call at the wrong time. ENet is initialized
-- before a host is created, no host or peer is given up twice or overwritten, and ENet is shut down
-- without a host.
unfoldable pub allowed : Call → Held → Option Held
allowed (initialize ok) h = needs (not h.enet) (record h { enet = ok })
allowed deinitialize h = needs (h.enet && not h.host) (record h { enet = false })
allowed (create_host ok) h = needs (h.enet && not h.host) (record h { host = ok })
allowed (compress ok) h = needs h.host h
allowed destroy_host h = needs h.host (record h { host = false; peer = false })
allowed (connect_peer protocol ok) h = needs (h.host && not h.peer) (record h { peer = ok })
allowed service h = needs h.host h
allowed reset_peer h = needs h.peer (record h { peer = false })
allowed disconnect_peer h = needs h.peer (record h { peer = false })
allowed init_web h = needs (not h.web) (record h { web = true })
allowed (listen ok) h = needs h.web h
allowed free_web h = needs h.web (record h { web = false })

unfoldable pub follow : List Call → Held → Option Held
unfolding allowed
follow [] h = some h
follow (c ∷ cs) h = do h' ← allowed c h; follow cs h'

-- Calls in a row.
pub follow-append :
    (cs ds : List Call) (h h' : Held) → follow cs h ≡ some h' → follow (cs ++ ds) h ≡ follow ds h'
unfolding follow
follow-append [] ds h h' e = ap (λ o. o >>= follow ds) e
follow-append (c ∷ cs) ds h h' e = elim (Option-cases (allowed c h)) [
  | inl n ↦ absurd (ground arith)
  | inr (k, s) ↦
      rw (s, ◌>>=◌) (follow-append cs ds k h' (subst (λ o. (o >>= follow cs) ≡ some h') s e))
]
