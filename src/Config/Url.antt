-- ===== src/Config/Url.antt =====
-- The `url` crate, as far as validation uses it, and `endpoint` of config/schema.rs.
use ripmcp.Base.{not, ◌||◌, Option, is_some, is_none, any, is_empty}
use ripmcp.Base.Error.{Result, new, field, configuration, ok, refuse, ok_or, ◌>>=◌, ◌>>◌}
use ripmcp.Base.Order.{eqb, list_ord, nat_ord}
use ripmcp.Base.Text.{Text, codes, is_control}

pub record UrlCrate : Type 1 where
  pub Url : Type 0
  pub parse : Text → Option Url
  pub scheme : Url → Text
  pub host_str : Url → Option Text
  pub username : Url → Text
  pub password : Url → Option Text
  pub query : Url → Option Text
  pub fragment : Url → Option Text

module _ (U : UrlCrate) where
  unfoldable pub endpoint : Text → Result U.Url
  endpoint value = do
    url ← ok_or (U.parse value) (field "servers.definition.url")
    refuse
        (not (eqb (U.scheme url) (codes "http") || eqb (U.scheme url) (codes "https"))
          || is_none (U.host_str url)
          || not (is_empty (U.username url))
          || is_some (U.password url)
          || is_some (U.fragment url)
          || any is_control value)
        (new configuration
          "invalid servers.definition.url: expected HTTP endpoint without userinfo or fragment")
    ok url
