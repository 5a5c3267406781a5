-- ===== src/Url.antt =====
-- The `url` crate as this repository uses it: a parser that is a parameter, and the components that
-- it reports.
use skyauth.Base.{ℕ, Option}
use skyauth.Base.Text.{Str}

pub record Url : Type 0 where
  pub scheme : Str
  pub host_str : Option Str
  -- `Url::port`: none when the port is the default of the scheme.
  pub port : Option ℕ
  -- `Url::port_or_known_default`.
  pub port_or_known_default : Option ℕ
  pub path : Str
  pub username : Str
  pub password : Option Str
  pub query : Option Str
  pub fragment : Option Str
  -- `Url::origin().ascii_serialization()`.
  pub ascii_origin : Str

-- `Url::parse`.
abbrev pub UrlParser : Type 0
UrlParser = Str → Option Url
