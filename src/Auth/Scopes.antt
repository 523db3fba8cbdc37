-- ===== src/Auth/Scopes.antt =====
-- auth/challenge.rs, auth/metadata.rs and auth/registration.rs: lists of scopes.
use ripmcp.Base.{
  ℕ, Bool, not, ◌&&◌, ◌||◌, Option, none, some, List, [], ◌∷◌, ◌++◌, any, all, is_empty, ltb, leb,
  ◌==◌, if◌then◌else◌,
}
use ripmcp.Base.BTreeMap.{BTreeSet, keys}
use ripmcp.Base.BTreeMap
use ripmcp.Base.Error.{Result, ok, refuse, ◌>>=◌, ◌>>◌}
use ripmcp.Base.Order.{list_ord, nat_ord}
use ripmcp.Base.Text.{Text, len}
use ripmcp.Config.Types.{OAuthClient}
use ripmcp.Auth.Model.{invalid, Profile}

abbrev pub prepend : ℕ → List Text → List Text
prepend c [] = (c ∷ []) ∷ []
prepend c (word ∷ words) = (c ∷ word) ∷ words

-- `split(' ')`
unfoldable pub split_space : Text → List Text
split_space [] = [] ∷ []
split_space (c ∷ text) =
    let rest = split_space text in if c == 32 then [] ∷ rest else prepend c rest

-- `join(" ")`
unfoldable pub join_space : List Text → Text
join_space [] = []
join_space (word ∷ []) = word
join_space (word ∷ next ∷ words) = word ++ (32 ∷ join_space (next ∷ words))

abbrev pub is_scope_byte : ℕ → Bool
is_scope_byte byte = byte == 33 || (leb 35 byte && leb byte 91) || (leb 93 byte && leb byte 126)

abbrev pub is_scope : Text → Bool
is_scope scope = not (is_empty scope) && all is_scope_byte scope

-- `scopes`
unfoldable pub scopes : Text → Result (Unit {0})
scopes value = refuse (is_empty value || any (λ s. not (is_scope s)) (split_space value)) invalid

unfoldable pub extend : BTreeSet Text → List Text → BTreeSet Text
extend set [] = set
extend set (word ∷ words) = extend (BTreeMap.insert word tt set) words

abbrev pub add_words : BTreeSet Text → Option Text → Result (BTreeSet Text)
add_words set none = ok set
add_words set (some value) = do scopes value; ok (extend set (split_space value))

abbrev pub joined : List Text → Result (Option Text)
joined [] = ok none
joined (word ∷ words) = do
  refuse (ltb 16384 (len (join_space (word ∷ words)))) invalid
  ok (some (join_space (word ∷ words)))

unfoldable pub union : Option Text → Option Text → Result (Option Text)
unfolding scopes
union first second = do one ← add_words [] first; both ← add_words one second; joined (keys both)

-- `Profile::add_scope`
unfoldable pub add_scope : Profile → Option Text → Result Profile
unfolding union
add_scope profile additional = do
  scope ← union profile.scope additional
  ok (record profile { scope = scope })

-- `Registration::add_scopes`
unfoldable pub add_scopes : OAuthClient → Profile → Result Profile
unfolding add_scope
add_scopes configuration profile = elim configuration.scopes [
  | [] ↦ ok profile
  | ◌∷◌ s ss ↦ add_scope profile (some (join_space configuration.scopes))
]
