-- ===== src/Config/Project.antt =====
-- config/mod.rs: the project configuration nearest to a directory.
pub mod Nearest
use ripmcp.Base.{not, Option, none, some, List, [], ◌∷◌, ◌++◌, map}
use ripmcp.Base.Error.{Result, new, configuration, ok, refuse, ◌>>=◌, ◌>>◌}
use ripmcp.Base.FilePath.{FilePath, Component, normal, root_dir}
use ripmcp.Base.Text.{Text, codes}
use ripmcp.Base.{Bool}
use ripmcp.Config.Types.{Configuration}
use ripmcp.Storage.Transaction.{Bytes}

pub record Project : Type 0 where
  pub root : FilePath
  pub bytes : Bytes
  pub configuration : Configuration
  pub digest : Text

-- The file system, as far as discovery reads it.
pub record Files : Type 0 where
  pub canonicalize : FilePath → Result FilePath
  pub is_dir : FilePath → Bool
  -- `Directory::open(path, false, false)`, then `read("config.json", false)` in it.
  pub open_directory : FilePath → Result (Option (Unit {0}))
  pub read_config : FilePath → Result (Option Bytes)

-- `Path::ancestors`: the path, then each of its parents, down to the root directory.
abbrev under : Component → List FilePath → List FilePath
under c [] = []
under c (p ∷ ps) = (c ∷ p) ∷ under c ps

abbrev prefixes : FilePath → List FilePath
prefixes [] = [] ∷ []
prefixes (c ∷ path) = under c (prefixes path) ++ ([] ∷ [])

unfoldable pub ancestors : FilePath → List FilePath
ancestors (root_dir ∷ path) = under root_dir (prefixes path)
ancestors path = prefixes path

module _ (parse : Bytes → Result Configuration) (digest : Bytes → Text) (fs : Files) where
  -- `Project::from_bytes`
  unfoldable pub from_bytes : FilePath → Bytes → Result Project
  from_bytes root bytes = do
    config ← parse bytes
    ok (record { root = root; bytes = bytes; configuration = config; digest = digest bytes })

  -- What the body of the loop finds at one root.
  unfoldable pub config_at : FilePath → Result (Option Bytes)
  config_at root = do
    directory ← fs.open_directory (root ++ (normal (codes ".ripmcp") ∷ []))
    elim directory [
      | none ↦ ok none
      | some _ ↦ fs.read_config (root ++ (normal (codes ".ripmcp") ∷ []))
    ]

  unfoldable pub search_roots : List FilePath → Result (Option Project)
  search_roots [] = ok none
  search_roots (root ∷ roots) = do
    found ← config_at root
    elim found [
      | none ↦ search_roots roots
      | some bytes ↦ (do project ← from_bytes root bytes; ok (some project))
    ]

  -- `Project::discover`
  unfoldable pub discover : FilePath → Result (Option Project)
  discover start = do
    start ← fs.canonicalize start
    refuse (not (fs.is_dir start)) (new configuration "project discovery requires a directory")
    search_roots (ancestors start)
