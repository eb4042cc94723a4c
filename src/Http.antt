-- ===== src/Http.antt =====
-- The parts of net/http that the handlers of proxy/ see: a request, its headers, and what a handler
-- writes to its ResponseWriter.
use ssheasy.Base.{List, [], ◌∷◌, Option, none, some}
use ssheasy.Base.Text.{Bytes, codes}
use ssheasy.Base.Maps.{Map}

-- Canonical header names with their values.
abbrev pub Header : Type 0
Header = Map (List Bytes)

-- h[key]
abbrev pub values : Header → Bytes → List Bytes
values h key = elim (h key) [ none ↦ [] | some vs ↦ vs ]

abbrev first : List Bytes → Bytes
first [] = []
first (v ∷ vs) = v

-- Header.Get with a canonical key: the first value, or the empty string.
abbrev pub get : Header → Bytes → Bytes
get h key = first (values h key)

-- `cookie` is what r.Cookie finds, `form_value` what r.FormValue returns.
pub record Request : Type 0 where
  pub method : Bytes
  pub path : Bytes
  pub raw_query : Bytes
  pub header : Header
  pub remote_addr : Bytes
  pub cookie : Bytes → Option Bytes
  pub form_value : Bytes → Bytes

abbrev pub method_get : Bytes
method_get = codes "GET"

abbrev pub method_post : Bytes
method_post = codes "POST"

abbrev pub method_head : Bytes
method_head = codes "HEAD"
