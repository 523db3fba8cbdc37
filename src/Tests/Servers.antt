-- ===== src/Tests/Servers.antt =====
-- The configuration on concrete servers, files and projects.
use mathlib.Core.Path.{subst}
use mathlib.Core.Option.{some-injective}
use ripmcp.Base.{
  true, false, ◌≡◌, refl, ◌⊎◌, Option, none, some, [], ◌∷◌, All, length, ◌++◌, if◌then◌else◌, ◌==◌,
}
use ripmcp.Base.BTreeMap.{keys, get, NodupKeys}
use ripmcp.Base.Error.{Result, ok, ok-injective}
use ripmcp.Base.FilePath.{FilePath, root_dir, normal}
use ripmcp.Base.Text.{Text, codes}
use ripmcp.Config.Authentication.{references, is_bearer, is_authorization}
use ripmcp.Config.Authentication
use ripmcp.Config.Effective.{
  Effective, Entry, Source, Surroundings, load, authorize, parse_or_default, insert,
}
use ripmcp.Base.BTreeMap
use ripmcp.Base.Order.{list_ord, nat_ord}
use ripmcp.Config.Effective.Laws.{FromUser, FromProject, HasDistinctNames, authorize-load}
use ripmcp.Config.Names.{
  validate_reference, is_valid_reference, environment_name, opaque_key, header_name, into_wire,
  try_from,
}
use ripmcp.Config.Project.{Project, Files, search_roots, ancestors, config_at, from_bytes}
use ripmcp.Config.Project.Nearest.{Searched, search_roots-Searched}
use ripmcp.Config.Schema.{
  validate_definition, validate_references, check_references, validate_remote,
}
use ripmcp.Config.Schema.Laws.{IsValidReference, references-All}
use ripmcp.Config.Types.{SecretReference, bearer, Remote, Definition, remote, Server, Configuration}
use ripmcp.Config.Url.{UrlCrate, endpoint}
use ripmcp.Storage.Transaction.{Bytes}

-- Every text is a URL with the scheme https.
abbrev https_only : UrlCrate
https_only = record {
  Url = Text;
  parse = some;
  scheme = λ url. codes "https";
  host_str = some;
  username = λ url. [];
  password = λ url. none;
  query = λ url. none;
  fragment = λ url. none;
}

abbrev tracker : Remote
tracker = record {
  url = codes "https://tracker.example/mcp";
  headers = (codes "x-team", SecretReference.environment (codes "TEAM")) ∷ [];
  authentication = bearer;
  bearer = some (SecretReference.keyring (codes "tracker"));
  oauth_client = none;
}

tracker_valid : validate_definition https_only (remote tracker) ≡ ok tt
unfolding validate_definition validate_references is_valid_reference environment_name
    Authentication.validate validate_reference opaque_key endpoint header_name check_references
    into_wire try_from validate_remote
tracker_valid = refl

references-All_example : All IsValidReference (references (remote tracker))
references-All_example = references-All https_only (remote tracker) tracker_valid

abbrev enabled_server : Definition → Server
enabled_server definition = record { enabled = true; disabled_tools = []; definition = definition }

abbrev with_tracker : Configuration
with_tracker = record {
  servers = (codes "tracker", enabled_server (remote tracker)) ∷ [];
  timeouts = none;
}

-- Every document is a configuration with the tracker.
abbrev parse_one : Bytes → Result Configuration
parse_one bytes = ok with_tracker

abbrev work : FilePath
work = root_dir ∷ normal (codes "work") ∷ []

-- Only /work has a configuration.
abbrev one_project : Files
one_project = record {
  canonicalize = ok;
  is_dir = λ path. true;
  open_directory = λ path. ok (some tt);
  read_config = λ path. ok (if length path == 3 then some (1 ∷ []) else none);
}

abbrev digest : Bytes → Text
digest bytes = bytes

search_roots-Searched_example :
    Searched parse_one digest one_project
      (ancestors (work ++ (normal (codes "src") ∷ [])))
      (search_roots parse_one digest one_project (ancestors (work ++ (normal (codes "src") ∷ []))))
search_roots-Searched_example =
    search_roots-Searched parse_one digest one_project
      (ancestors (work ++ (normal (codes "src") ∷ [])))

abbrev found_project : Project
found_project = record {
  root = work;
  bytes = 1 ∷ [];
  configuration = with_tracker;
  digest = 1 ∷ [];
}

search_finds_work :
    search_roots parse_one digest one_project (ancestors (work ++ (normal (codes "src") ∷ [])))
    ≡ ok (some found_project)
unfolding search_roots ancestors config_at from_bytes
search_finds_work = refl

abbrev surroundings : Surroundings
surroundings = record {
  user_bytes = ok none;
  discovered = ok (some found_project);
  is_approved = λ p. ok true;
  canonical_user_path = λ exists. ok work;
  canonical_start = ok work;
}

user_distinct :
    (bytes : Option Bytes) (config : Configuration)
    → parse_or_default parse_one bytes ≡ ok config
    → NodupKeys config.servers
unfolding get
user_distinct none config p = subst (λ c. NodupKeys c.servers) (ok-injective p) tt
user_distinct (some b) config p = subst (λ c. NodupKeys c.servers) (ok-injective p) (refl, tt)

surroundings_distinct : HasDistinctNames parse_one surroundings
unfolding get
surroundings_distinct = record {
  of_user = λ bytes config u p. user_distinct bytes config p;
  of_project = λ p h.
      subst (λ q. NodupKeys q.configuration.servers) (some-injective _ _ (ok-injective h))
        (refl, tt);
}

abbrev tracker_entry : Entry
tracker_entry = record {
  identity = record {
    source = Source.project work;
    name = codes "tracker";
    configuration_digest = 1 ∷ [];
  };
  server = enabled_server (remote tracker);
  trust_required = false;
}

abbrev in_effect : Effective
in_effect = record {
  entries = (codes "tracker", tracker_entry) ∷ [];
  timeouts = record { operation_seconds = 60; login_seconds = 300 };
  project = some found_project;
  start = work;
}

load-in_effect : load parse_one digest surroundings ≡ ok in_effect
unfolding load insert BTreeMap.insert
load-in_effect = refl

authorize_tracker : authorize in_effect (codes "tracker") ≡ ok tracker_entry
unfolding authorize get
authorize_tracker = refl

authorize-load_example :
    FromUser parse_one surroundings (codes "tracker") tracker_entry
    ⊎ FromProject surroundings (codes "tracker") tracker_entry
authorize-load_example =
    authorize-load parse_one digest surroundings surroundings_distinct {e = in_effect}
      {entry = tracker_entry} (codes "tracker") load-in_effect authorize_tracker
