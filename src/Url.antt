-- ===== src/Url.antt =====
-- The `url` crate, as far as the code calls it. It is a parameter.
use openid_tls_connector.Common.{String, Result}

pub record UrlLib : Type 1 where
  pub Url : Type 0
  pub parse : String → Result String Url
  -- `to_string` and `as_str`
  pub to_text : Url → String
  pub join : Url → String → Result String Url
  -- `query_pairs_mut().append_pair(name, value)`
  pub append_pair : Url → String → String → Url
