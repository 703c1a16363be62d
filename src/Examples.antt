-- ===== src/Examples.antt =====
-- Concrete logs, worlds and services, on which the theorems are tried.
mod Logs
mod Capsules
mod Recovery
mod Managers
mod Seals
mod Parts
mod Mesh
mod Trails
mod Volumes
mod Failures
mod Files
mod Objects
mod Tasks
use space.Prelude.{ℕ, ◌≡◌, refl, true, none, List, [], ◌∷◌, lookup}
use space.Common.{Bytes}
use space.Nvram.{NvramLog, open_log}
use space.Registry.{open_registry}
use space.Gc.{World}

abbrev pub empty_log : NvramLog
unfolding open_log
empty_log = open_log [] []
