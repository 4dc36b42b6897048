-- ===== src/Database/Storage.antt =====
-- server/src/database/Database.h and Database.cpp: the manager is read from a file at the start and
-- written to it at the end. The file is a parameter of the constructor and the destructor.
pub mod Restart
pub mod Broken
pub mod Tests
use tin_locus.Base.{Bool, Option, none, some, Result, ok, throws, undefined, if◌then◌else◌}
use tin_locus.Base.Step.{caught, pure}
use tin_locus.Database.Manager.{Manager, new}
use tin_locus.Database.Archive.{Cereal, save_manager, load_manager}

module _ (cereal : Cereal) where
  -- What the name of the file leads to: nothing that can be opened, or what the constructor of
  -- `JSONInputArchive` makes of it, which throws at a text that is not JSON.
  abbrev pub File : Type 0
  File = Option (Result cereal.Node)

  -- `Database()`. An exception is logged, and the manager stays as far as it was read.
  unfoldable pub database : File → Manager
  database none = new
  database (some (ok node)) = (caught (load_manager cereal node new) (pure tt)).1
  database (some throws) = new
  database (some undefined) = new

  -- `~Database()`: the file after it. `opened` says whether the file could be opened for writing.
  unfoldable pub destroyed : Bool → Manager → File → File
  destroyed opened m file = if opened then some (ok (save_manager cereal m)) else file
