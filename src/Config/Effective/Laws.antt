-- ===== src/Config/Effective/Laws.antt =====
-- config/effective.rs: which entry is in effect for a name, and who may use it.
use mathlib.Core.Option.{some-injective, none-ne-some}
use ripmcp.Base.FilePath.{FilePath}
use ripmcp.Base.{
  Bool, true, false, not, ◌≡◌, refl, ◌⊎◌, inl, inr, Option, none, some, [], ◌∷◌, is_some, arith,
  ◌∙◌, sym, ap,
}
use ripmcp.Base.BTreeMap
use ripmcp.Base.BTreeMap.{BTreeMap, get, get-nil, get-insert, contains_key, NodupKeys}
use ripmcp.Base.Error.{Result, ok, >>=-eq-ok, ok-injective}
use ripmcp.Base.Order.{eqb_iff, list_ord, nat_ord}
use ripmcp.Base.Text.{Text}
use ripmcp.Config.Effective.{
  Source, Entry, Effective, Surroundings, entry_of, insert, add_project, load, parse_or_default,
  trust_of, or_default, effective_timeouts, authorize,
}
use ripmcp.Config.Project.{Project}
use ripmcp.Config.Types.{Server, Configuration}
use ripmcp.Storage.Transaction.{Bytes}

not-false : {b : Bool} → not b ≡ false → b ≡ true
not-false {b} h = ground arith

-- The entry that a configuration gives a name, or else another.
abbrev pub entry_or : Source → Text → Bool → Text → Option Server → Option Entry → Option Entry
entry_or source digest trust_required name none other = other
entry_or source digest trust_required name (some server) other =
    some (entry_of source digest trust_required name server)

entry_or-eq-some :
    (source : Source) (digest : Text) (t : Bool) (name : Text) (o : Option Server)
    (other : Option Entry) {entry : Entry}
    → entry_or source digest t name o other ≡ some entry
    → ((server : Server) × (o ≡ some server) × (entry ≡ entry_of source digest t name server))
      ⊎ ((o ≡ none) × (other ≡ some entry))
entry_or-eq-some source digest t name none other h = inr (refl, h)
entry_or-eq-some source digest t name (some server) other {entry} h =
    inl (server, refl, sym (some-injective _ _ h))

pub get-insert_all :
    (j : Text) (entries : BTreeMap Text Entry) (servers : BTreeMap Text Server) (source : Source)
    (digest : Text) (trust_required : Bool)
    → NodupKeys servers
    → get j (insert entries servers source digest trust_required)
      ≡ entry_or source digest trust_required j (get j servers) (get j entries)
unfolding insert get
get-insert_all j entries [] source digest trust_required h = refl
get-insert_all j entries ((name, server) ∷ servers) source digest trust_required (fresh, h) =
    let entry = entry_of source digest trust_required name server in
    get-insert_all j (BTreeMap.insert name entry entries) servers source digest trust_required h
    ∙ ground (arith, get-insert j name entry entries, eqb_iff j name, fresh)

-- What a successful `load` has read.
pub record Loaded (parse : Bytes → Result Configuration) (digest : Bytes → Text) (w : Surroundings)
    (e : Effective) : Type 0 where
  pub bytes : Option Bytes
  pub config : Configuration
  pub found : Option Project
  pub trusted : Bool
  pub path : FilePath
  pub user_bytes : w.user_bytes ≡ ok bytes
  pub parsed : parse_or_default parse bytes ≡ ok config
  pub discovered : w.discovered ≡ ok found
  pub approval : trust_of w.is_approved found ≡ ok trusted
  pub entries :
      e.entries
      ≡ add_project
          (insert [] config.servers (Source.user path) (digest (or_default bytes [])) false)
          found
          trusted
  pub timeouts : e.timeouts ≡ effective_timeouts config found trusted
  pub project : e.project ≡ found

module _ (parse : Bytes → Result Configuration) (digest : Bytes → Text) (w : Surroundings) where
  pub load-Loaded : {e : Effective} → load parse digest w ≡ ok e → Loaded parse digest w e
  unfolding load
  load-Loaded h =
      let (bytes, h1, k1) = >>=-eq-ok w.user_bytes _ h in
      let (config, h2, k2) = >>=-eq-ok (parse_or_default parse bytes) _ k1 in
      let (found, h3, k3) = >>=-eq-ok w.discovered _ k2 in
      let (trusted, h4, k4) = >>=-eq-ok (trust_of w.is_approved found) _ k3 in
      let (path, h5, k5) = >>=-eq-ok (w.canonical_user_path (is_some bytes)) _ k4 in
      let (start, h6, k6) = >>=-eq-ok w.canonical_start _ k5 in
      record {
        bytes = bytes;
        config = config;
        found = found;
        trusted = trusted;
        path = path;
        user_bytes = h1;
        parsed = h2;
        discovered = h3;
        approval = h4;
        entries = ap (λ (x : Effective). x.entries) (sym (ok-injective k6));
        timeouts = ap (λ (x : Effective). x.timeouts) (sym (ok-injective k6));
        project = ap (λ (x : Effective). x.project) (sym (ok-injective k6));
      }

-- The authorized entry is the one of its name, and wants no approval.
authorize-eq-ok :
    (e : Effective) (name : Text) (entry : Entry)
    → authorize e name ≡ ok entry
    → (get name e.entries ≡ some entry) × (entry.trust_required ≡ false)
unfolding authorize
authorize-eq-ok e name entry h = ground arith

-- In configurations that were parsed, no name has two servers.
pub record HasDistinctNames (parse : Bytes → Result Configuration) (w : Surroundings) : Type 0 where
  pub of_user :
      (bytes : Option Bytes) (config : Configuration)
      → w.user_bytes ≡ ok bytes
      → parse_or_default parse bytes ≡ ok config
      → NodupKeys config.servers
  pub of_project : (p : Project) → w.discovered ≡ ok (some p) → NodupKeys p.configuration.servers

-- The server of that name in the project that was found, if any.
abbrev pub project_server : Result (Option Project) → Text → Option Server
project_server (ok (some p)) name = get name p.configuration.servers
project_server _ name = none

-- The user's server of that name, which no project that was found has.
abbrev pub FromUser : (Bytes → Result Configuration) → Surroundings → Text → Entry → Type 0
FromUser parse w name entry =
    (bytes : Option Bytes) × (config : Configuration) × (w.user_bytes ≡ ok bytes)
    × (parse_or_default parse bytes ≡ ok config)
    × (get name config.servers ≡ some entry.server)
    × (project_server w.discovered name ≡ none)

-- The server of that name in the bytes of the project that was found and is approved.
abbrev pub FromProject : Surroundings → Text → Entry → Type 0
FromProject w name entry =
    (p : Project) × (w.discovered ≡ ok (some p))
    × (w.is_approved p ≡ ok true)
    × (get name p.configuration.servers ≡ some entry.server)
    × (entry.identity
        ≡ record { source = Source.project p.root; name = name; configuration_digest = p.digest })

module _ (parse : Bytes → Result Configuration) (digest : Bytes → Text) (w : Surroundings)
    (d : HasDistinctNames parse w) where
  -- What a name gets from the user's configuration, and from a project over that.
  abbrev from_user : {e : Effective} → Loaded parse digest w e → Text → Option Entry
  from_user l name =
      entry_or (Source.user l.path) (digest (or_default l.bytes [])) false name
        (get name l.config.servers) none

  abbrev from_found :
      {e : Effective} → Loaded parse digest w e → Text → Option Project → Option Entry
  from_found l name none = from_user l name
  from_found l name (some p) =
      entry_or (Source.project p.root) p.digest (not l.trusted) name
        (get name p.configuration.servers) (from_user l name)

  get-add_project :
      {e : Effective} (l : Loaded parse digest w e) (name : Text) (found : Option Project)
      → l.found ≡ found
      → get name (
          add_project
            (insert [] l.config.servers (Source.user l.path) (digest (or_default l.bytes [])) false)
            found
            l.trusted)
        ≡ from_found l name found
  get-add_project l name none h =
      get-insert_all name [] l.config.servers _ _ false
        (d.of_user l.bytes l.config l.user_bytes l.parsed)
      ∙ rw get-nil
  get-add_project l name (some p) h =
      get-insert_all name _ p.configuration.servers _ _ (not l.trusted)
        (d.of_project p (l.discovered ∙ ap ok h))
      ∙ rw (
        get-insert_all name [] l.config.servers _ _ false
            (d.of_user l.bytes l.config l.user_bytes l.parsed),
        get-nil,
      )

  -- The entry of a name after `load`.
  get-load :
      {e : Effective} (l : Loaded parse digest w e) (name : Text)
      → get name e.entries ≡ from_found l name l.found
  get-load l name = ap (get name) l.entries ∙ get-add_project l name l.found refl

  user_origin :
      {e : Effective} (l : Loaded parse digest w e) (name : Text) (entry : Entry)
      → from_user l name ≡ some entry
      → project_server w.discovered name ≡ none
      → FromUser parse w name entry
  user_origin l name entry g alone =
      elim (entry_or-eq-some (Source.user l.path) (digest (or_default l.bytes [])) false name
        (get name l.config.servers) none g) [
          | inl (server, there, same) ↦ (
            l.bytes,
            l.config,
            l.user_bytes,
            l.parsed,
            there ∙ ap some (sym (ap (λ (x : Entry). x.server) same)),
            alone,
          )
          | inr (absent, mine) ↦ absurd (none-ne-some entry mine)
        ]

  -- Whose entry it is, if it wants no approval.
  entry_origin :
      {e : Effective} (l : Loaded parse digest w e) (name : Text) (entry : Entry)
      (found : Option Project)
      → l.found ≡ found
      → from_found l name found ≡ some entry
      → entry.trust_required ≡ false
      → FromUser parse w name entry ⊎ FromProject w name entry
  entry_origin l name entry none h g t =
      inl (user_origin l name entry g (rw (l.discovered, h) refl))
  entry_origin l name entry (some p) h g t =
      elim (entry_or-eq-some (Source.project p.root) p.digest (not l.trusted) name
        (get name p.configuration.servers) (from_user l name) g) [
          | inl (server, there, same) ↦ inr (
            p,
            l.discovered ∙ ap ok h,
            rw (ap (trust_of w.is_approved) h) at l.approval
                ∙ ap ok (not-false (sym (ap (λ (x : Entry). x.trust_required) same) ∙ t)),
            there ∙ ap some (sym (ap (λ (x : Entry). x.server) same)),
            ap (λ (x : Entry). x.identity) same,
          )
          | inr (absent, mine) ↦ inl (user_origin l name entry mine (rw (l.discovered, h) absent))
        ]

  -- Where no name stands twice in a configuration: if `load` and then `authorize` succeed, the entry is the
  -- user's server of that name, and no project that was found has one, or it is the server of that
  -- name in the project that was found, which is approved, and its identity names that project's
  -- root and digest.
  pub authorize-load :
      {e : Effective} {entry : Entry} (name : Text)
      → load parse digest w ≡ ok e
      → authorize e name ≡ ok entry
      → FromUser parse w name entry ⊎ FromProject w name entry
  authorize-load {e} {entry} name h a =
      let l = load-Loaded parse digest w h in
      let (found, approved) = authorize-eq-ok e name entry a in
      entry_origin l name entry l.found refl (sym (get-load l name) ∙ found) approved
