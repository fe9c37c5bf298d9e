-- ===== src/Tests/Directories.antt =====
-- The refinement of the directory at a concrete run.
use ynetserver_enet.Base.{◌≡◌, ◌⊎◌, Bytes, bytes_key}
use ynetserver_enet.Server.Run.{disconnect, step}
use ynetserver_enet.Server.Invariant.Runs.{run-Inv}
use ynetserver_enet.Server.Directory.{protocols, directory, Step}
use ynetserver_enet.Server.Directory.Runs.{step-refines}
use ynetserver_enet.Tests.{stream, no_json, zeros, program, world_of, opening, opened, opened_ran}
use ynetserver_enet.Server.{World}
use ynetserver_enet.Base.{some, refl}

-- The creator of the room goes.
abbrev emptied : World
emptied = world_of (step (disconnect 7) opened)

emptied_ran : step (disconnect 7) opened ≡ some emptied
unfolding step opened program
emptied_ran = refl

step-refines_example :
    ((c : Bytes) → directory emptied.rooms c ≡ directory opened.rooms c)
    ⊎ Step (protocols opened.clients) (directory opened.rooms) (directory emptied.rooms)
step-refines_example =
    step-refines (disconnect 7) opened emptied (run-Inv zeros opening opened opened_ran) emptied_ran
