-- ===== src/Storage/Paths.antt =====
-- storage/paths.rs: the directories of the program, by the environment, whose values are taken as
-- paths here.
use ripmcp.Base.{Bool, not, ◌&&◌, Option, none, some, [], ◌∷◌, ◌++◌, any, if◌then◌else◌}
use ripmcp.Base.BTreeMap.{BTreeMap, get}
use ripmcp.Base.Error.{Error, Result, new, configuration, ok, ok_or, ◌>>=◌}
use ripmcp.Base.FilePath.{FilePath, normal, is_absolute, is_parent_dir}
use ripmcp.Base.Order.{list_ord, nat_ord}
use ripmcp.Base.Text.{Text, codes}

pub data Location : Type 0 where
  config data_ state cache : Location

-- `Paths`
abbrev pub Environment : Type 0
Environment = BTreeMap Text FilePath

abbrev pub invalid : Error
invalid = new configuration "unsafe or inaccessible storage path"

abbrev pub if_safe : Option FilePath → Option FilePath
if_safe none = none
if_safe (some path) = if is_absolute path && not (any is_parent_dir path) then some path else none

-- `absolute`
unfoldable pub absolute : Environment → Text → Option FilePath
absolute environment key = if_safe (get key environment)

abbrev pub variable : Location → Text
variable config = codes "XDG_CONFIG_HOME"
variable data_ = codes "XDG_DATA_HOME"
variable state = codes "XDG_STATE_HOME"
variable cache = codes "XDG_CACHE_HOME"

abbrev pub default_directory : Location → FilePath
default_directory config = normal (codes ".config") ∷ []
default_directory data_ = normal (codes ".local") ∷ normal (codes "share") ∷ []
default_directory state = normal (codes ".local") ∷ normal (codes "state") ∷ []
default_directory cache = normal (codes ".cache") ∷ []

abbrev pub program : FilePath
program = normal (codes "ripmcp") ∷ []

-- `directory`
unfoldable pub directory : Environment → Location → Result FilePath
unfolding absolute
directory environment location = elim (absolute environment (variable location)) [
  | some path ↦ ok (path ++ program)
  | none ↦ ok_or (absolute environment (codes "HOME")) invalid >>= λ home.
      ok (home ++ (default_directory location ++ program))
]

-- `runtime_at`, by whether the directory of the environment opens; the user is that of the process.
unfoldable pub runtime_at : Environment → (FilePath → Bool) → FilePath → FilePath
unfolding absolute
runtime_at environment opens fallback = elim (absolute environment (codes "XDG_RUNTIME_DIR")) [
  | some base ↦ if opens base then base ++ program else fallback
  | none ↦ fallback
]
