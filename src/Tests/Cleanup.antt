-- ===== src/Tests/Cleanup.antt =====
-- The removal of an installation's resources on concrete journals.
use ripmcp.Cleanup.Plan.Order.{IsDeepFirst}
use ripmcp.Config.Url.{UrlCrate}
use ripmcp.Cleanup.Plan.Build.{Readings, Request, Plan, retry_of}
use ripmcp.Ownership.Store.{JournalCodec}
use ripmcp.Storage.Locked.{Interference}
use ripmcp.Storage.Transaction.{Outcomes, Disk, Bytes}
use ripmcp.Cleanup.Journal.Steps.{Steps, here, next, begun, Steps-validate_journal}
use ripmcp.Base.{
  true, false, ◌≡◌, refl, Option, none, some, [], ◌∷◌, ◌+◌, length, All, if◌then◌else◌, zero, suc,
}
use ripmcp.Base.BTreeMap.{insert, get, BTreeMap}
use ripmcp.Base.Error.{Result, new, configuration, ok, err}
use ripmcp.Base.FilePath.{root_dir, normal}
use ripmcp.Base.Order.{list_ord, nat_ord}
use ripmcp.Base.Text.{Text, codes}
use ripmcp.Config.Effective.{Source, default_configuration, Effective, default_timeouts}
use ripmcp.Cleanup.Journal.{PlanView, begin, apply, operation_of}
use ripmcp.Cleanup.Journal.Applied.{apply-IsPlanned}
use ripmcp.Cleanup.Plan.{plan_resources}
use ripmcp.Cleanup.Plan.Owned.{IsListed, plan_resources-IsListed}
use ripmcp.Cleanup.Plan.Counts.{count_live, plan_resources-count_live}
use ripmcp.Cleanup.Plan.Resolve.{IsChosen, candidates, resolve, resolve-IsChosen}
use ripmcp.Cleanup.Remove.{Calls, Parent, remove, changed}
use ripmcp.Cleanup.Remove.Safe.{IsSafe, remove-IsSafe}
use ripmcp.Ownership.Model.{
  ResourceIdentity, Filesystem, Resource, ResourceKind, Origin, Ownership, CleanupState,
  Installation, Registration, Verification, Executable, Journal, Artifacts, is_exclusive, Operation,
}
use ripmcp.Ownership.Validation.{
  Metadata, validate_journal, validate_installations, validate_operations,
}

abbrev cache_proof : Filesystem
cache_proof = record {
  root = root_dir ∷ normal (codes "cache") ∷ [];
  parent_device = 1;
  parent_inode = 2;
  device = 1;
  inode = 7;
  directory = true;
  symlink = false;
  created = some 5;
}

abbrev cache : Resource
cache = record {
  kind = ResourceKind.cache;
  identity =
      ResourceIdentity.path (root_dir ∷ normal (codes "cache") ∷ normal (codes "files") ∷ []);
  origin = Origin.standalone;
  ownership = Ownership.exclusive;
  cleanup = CleanupState.pending;
  filesystem = some cache_proof;
}

abbrev config_source : Source
config_source = Source.user (root_dir ∷ normal (codes "config.json") ∷ [])

abbrev entry : Installation
entry = record {
  id = codes "a";
  scope = config_source;
  server = codes "files";
  origin = Origin.standalone;
  registration = Registration.registered;
  verification = Verification.unknown;
  definition = none;
  configuration_digest = none;
  resources = cache ∷ [];
  retained_data = [];
}

abbrev journal : Journal
journal = record {
  installations = (codes "a", entry) ∷ [];
  operations = [];
  executable = Executable.unknown;
}

plan_resources-IsListed_example :
    All
      (IsListed journal [] (codes "a") entry.resources)
      (plan_resources true journal [] (codes "a") entry).deletable
    × IsDeepFirst (plan_resources true journal [] (codes "a") entry).deletable
plan_resources-IsListed_example = plan_resources-IsListed journal [] (codes "a") entry

plan_resources-count_live_example :
    (length (plan_resources true journal [] (codes "a") entry).deletable
        + length (plan_resources true journal [] (codes "a") entry).preserved
      ≡ count_live entry.resources)
    × ((plan_resources false journal [] (codes "a") entry).deletable ≡ [])
plan_resources-count_live_example = plan_resources-count_live true journal [] (codes "a") entry

-- The plan with `--clean` deletes the cache.
cache_is_deleted :
    (plan_resources true journal [] (codes "a") entry).deletable ≡ cache.identity ∷ []
unfolding plan_resources ripmcp.Cleanup.Plan.sort_deep ripmcp.Cleanup.Plan.list_resources
    ripmcp.Cleanup.Plan.preservation ripmcp.Ownership.Model.resources
    ripmcp.Cleanup.Plan.conflicting_reference
cache_is_deleted = refl

resolve-IsChosen_example :
    IsChosen journal
      (candidates journal config_source (codes "files") none)
      (resolve journal config_source (codes "files") none)
resolve-IsChosen_example = resolve-IsChosen journal config_source (codes "files") none

abbrev cache_metadata : Metadata
cache_metadata = record {
  dev = 1;
  ino = 7;
  is_file = false;
  is_dir = true;
  is_symlink = false;
  uid = 1000;
  nlink = 2;
  writable_by_others = false;
  created = some 5;
  empty = true;
}

-- All calls succeed; another directory takes the place of the cache before the rename.
abbrev swapped : Calls
swapped = record {
  open_parent = ok true;
  parent = ok (record cache_metadata { ino = 2 });
  find_target = ok tt;
  find_quarantine = ok tt;
  stat_quarantine = ok tt;
  stat_target = ok tt;
  rename = ok tt;
  stat_moved = ok tt;
  read_dir = ok tt;
  rename_back = ok tt;
  unlink = ok tt;
  sync = ok tt;
  others = λ _. some (record cache_metadata { ino = 8 });
}

abbrev cache_parent : Parent
cache_parent = record { target = some cache_metadata; quarantine = none }

remove-IsSafe_example :
    IsSafe swapped 1000 cache.filesystem cache_parent (remove swapped 1000 cache cache_parent)
remove-IsSafe_example = remove-IsSafe swapped 1000 cache cache_parent

abbrev plan : PlanView
plan = record {
  installation = some (codes "a");
  ownership_digest = codes "d";
  deletable = cache.identity ∷ [];
}

-- Two removals that differ only on what is not exclusive.
abbrev careful : Resource → Result (Unit {0})
careful r = ok tt

abbrev reckless : Resource → Result (Unit {0})
reckless r = if is_exclusive r then ok tt else err changed

apply-IsPlanned_example :
    apply careful plan cache.identity [] journal ≡ apply reckless plan cache.identity [] journal
apply-IsPlanned_example =
    apply-IsPlanned careful reckless [] journal plan cache.identity
      (λ r h. rw h.owned.exclusive refl)

abbrev no_urls : UrlCrate
no_urls = record {
  Url = Text;
  parse = λ url. none;
  scheme = λ url. url;
  host_str = λ url. none;
  username = λ url. [];
  password = λ url. none;
  query = λ url. none;
  fragment = λ url. none;
}

-- The journal is valid, with the server's name and a digest of one letter for an identifier.
started : Steps no_urls journal (record journal {
  operations = (codes "a", operation_of (codes "a") true (cache.identity ∷ [])) ∷ [];
})
unfolding begin get insert ripmcp.Ownership.Validation.validate_identities
    ripmcp.Ownership.Validation.validate_identity
started = next here (begun (λ _. ok (codes "d")) plan true (codes "a") journal _ refl refl)

Steps-validate_journal_example :
    validate_journal no_urls (record journal {
      operations = (codes "a", operation_of (codes "a") true (cache.identity ∷ [])) ∷ [];
    })
    ≡ ok tt
unfolding validate_journal validate_installations validate_operations
    ripmcp.Ownership.Validation.validate_executable
    ripmcp.Ownership.Validation.validate_installation ripmcp.Ownership.Validation.validate_identity
    ripmcp.Ownership.Validation.validate_resources ripmcp.Ownership.Validation.validate_identities
    ripmcp.Ownership.Validation.validate_filesystem
Steps-validate_journal_example = Steps-validate_journal no_urls {start = journal} refl started

abbrev calls : Outcomes
calls = record {
  at_start = ok tt;
  open_directory = ok tt;
  lock_file = ok tt;
  acquire = ok tt;
  read = ok tt;
  remove = ok tt;
  create = ok tt;
  write = ok tt;
  written = [];
  sync = ok tt;
  before_replace = ok tt;
  metadata = ok tt;
  replace = ok tt;
  sync_directory = ok tt;
  ledger = ok tt;
}

abbrev alone : Interference
alone = record {
  first = ok tt;
  second = ok tt;
  early = λ file. file;
  others = λ file. file;
  late = λ file. file;
}

abbrev executable_only : Executable → Journal
executable_only executable = record { installations = []; operations = []; executable = executable }

abbrev encode : BTreeMap Text Installation → BTreeMap Text Operation → Executable → Result Bytes
encode [] [] Executable.unknown = ok (zero ∷ [])
encode [] [] (Executable.package_manager manager) = ok (1 ∷ manager)
encode _ _ _ = err (new configuration "not written")

abbrev decode : Bytes → Option Journal
decode [] = none
decode (zero ∷ rest) = some (executable_only Executable.unknown)
decode (suc n ∷ manager) = some (executable_only (Executable.package_manager manager))

-- Only journals without installations are written.
abbrev small_codec : JournalCodec
small_codec = record {
  from_slice = decode;
  to_vec_pretty = λ j. encode j.installations j.operations j.executable;
}

abbrev by_apt : Journal → Result (Text × Journal)
by_apt j = ok (codes "done", record j { executable = Executable.package_manager (codes "apt") })

abbrev old_disk : Disk
old_disk = record { file = some (zero ∷ []); pending = none }

abbrev no_servers : Effective
no_servers = record {
  entries = [];
  timeouts = default_timeouts;
  project = none;
  start = root_dir ∷ [];
}

abbrev readings : Readings
readings = record {
  effective = ok no_servers;
  config_directory = ok (root_dir ∷ []);
  open_store = λ _. ok tt;
  store_bytes = λ _. ok none;
  parse = λ bytes. ok default_configuration;
  is_approved = λ _. ok false;
  journal = ok journal;
  digest = λ bytes. [];
  journal_digest = λ j. ok (codes "d");
  canonical_cwd = ok (root_dir ∷ []);
  artifacts = ok [];
}

abbrev clean_request : Request
clean_request = record { project = false; clean = true; approval = [] }

abbrev expected_plan : Plan
expected_plan = record {
  server = codes "files";
  scope = config_source;
  installation = some (codes "a");
  configuration_digest = [];
  ownership_digest = codes "d";
  actions =
      "stop_selected_owned_process" ∷ "unregister_selected_scope"
      ∷ "delete_tracked_exclusive_resources" ∷ [];
  deletable = cache.identity ∷ [];
  preserved = [];
  retry = retry_of (codes "files") false true;
  shadowed_by_trusted_project = false;
  project_reapproval_required = false;
  retry_cwd = root_dir ∷ [];
}
