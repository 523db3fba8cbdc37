-- ===== src/Config/Project/Nearest.antt =====
-- config/mod.rs: discovery takes the nearest configuration, and stops at the first failure.
use ripmcp.Base.{◌≡◌, refl, ap, ◌⊎◌, inl, inr, Option, none, some, List, [], ◌∷◌, ◌++◌, All}
use ripmcp.Base.Error.{Result, ok, err, ◌>>=◌}
use ripmcp.Base.FilePath.{FilePath}
use ripmcp.Base.Text.{Text}
use ripmcp.Config.Project.{Project, Files, from_bytes, config_at, search_roots}
use ripmcp.Config.Types.{Configuration}
use ripmcp.Storage.Transaction.{Bytes}

module _ (parse : Bytes → Result Configuration) (digest : Bytes → Text) (fs : Files) where
  abbrev IsEmptyAt : FilePath → Type 0
  IsEmptyAt root = config_at parse digest fs root ≡ ok none

  -- The first root that is not empty, and what is there.
  abbrev FirstAt : List FilePath → FilePath → Type 0
  FirstAt roots root =
      (before : List FilePath) × (after : List FilePath) × (roots ≡ before ++ (root ∷ after))
      × All IsEmptyAt before

  -- What a search may return.
  abbrev pub Searched : List FilePath → Result (Option Project) → Type 0
  Searched roots (ok none) = All IsEmptyAt roots
  Searched roots (ok (some p)) =
      (root : FilePath) × FirstAt roots root
      × (bytes : Bytes) × (config_at parse digest fs root ≡ ok (some bytes))
      × (config : Configuration) × (parse bytes ≡ ok config)
      × (p ≡ record { root = root; bytes = bytes; configuration = config; digest = digest bytes })
  Searched roots (err e) =
      (root : FilePath) × FirstAt roots root
      × ((config_at parse digest fs root ≡ err e)
          ⊎ ((bytes : Bytes) × (config_at parse digest fs root ≡ ok (some bytes))
              × (parse bytes ≡ err e)))

  farther :
      (root : FilePath) (roots : List FilePath) (r : Result (Option Project))
      → IsEmptyAt root
      → Searched roots r
      → Searched (root ∷ roots) r
  farther root roots (ok none) e s = (e, s)
  farther root roots (ok (some p)) e (r, (before, after, same, empty), bytes, c, config, d, f) =
      (r, (root ∷ before, after, ap (λ l. root ∷ l) same, (e, empty)), bytes, c, config, d, f)
  farther root roots (err x) e (r, (before, after, same, empty), why) =
      (r, (root ∷ before, after, ap (λ l. root ∷ l) same, (e, empty)), why)

  abbrev at_once : (root : FilePath) (roots : List FilePath) → FirstAt (root ∷ roots) root
  at_once root roots = ([], roots, refl, tt)

  here :
      (root : FilePath) (roots : List FilePath) (bytes : Bytes) (r : Result Configuration)
      → config_at parse digest fs root ≡ ok (some bytes)
      → parse bytes ≡ r
      → Searched (root ∷ roots) (do
        project ← (do
          config ← r
          ok (record { root = root; bytes = bytes; configuration = config; digest = digest bytes }))
        ok (some project))
  here root roots bytes (ok config) c d = (root, at_once root roots, bytes, c, config, d, refl)
  here root roots bytes (err e) c d = (root, at_once root roots, inr (bytes, c, d))

  search_step :
      (root : FilePath) (roots : List FilePath) (found : Result (Option Bytes))
      → config_at parse digest fs root ≡ found
      → Searched roots (search_roots parse digest fs roots)
      → Searched (root ∷ roots) (do
        o ← found
        elim o [
          | none ↦ search_roots parse digest fs roots
          | some bytes ↦ (do project ← from_bytes parse digest fs root bytes; ok (some project))
        ])
  unfolding from_bytes
  search_step root roots (ok none) c s = farther root roots _ c s
  search_step root roots (ok (some bytes)) c s = here root roots bytes (parse bytes) c refl
  search_step root roots (err e) c s = (root, at_once root roots, inl c)

  -- A search finds nothing only if no root has a configuration. The project that it finds is that
  -- of
  -- the first root that has one, with the bytes, what they parse to, and their digest. It fails
  -- only
  -- where the first root that is not empty cannot be read or does not parse.
  pub search_roots-Searched :
      (roots : List FilePath) → Searched roots (search_roots parse digest fs roots)
  unfolding search_roots
  search_roots-Searched [] = tt
  search_roots-Searched (root ∷ roots) =
      search_step root roots (config_at parse digest fs root) refl (search_roots-Searched roots)
