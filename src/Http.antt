-- ===== src/Http.antt =====
-- The parts of net/http that the middleware and the facilitator's handlers use: a request as a
-- handler sees it, and a response writer with its headers. Header names are compared as they are
-- spelled in the program, which spells each in one way.
use cosmos_pay.Prelude.{ℕ, String, Bool, ◌==◌, Option, none, some, List, [], ◌∷◌, if◌then◌else◌}
use cosmos_pay.Adr036.{Bytes}

abbrev pub Header : Type 0
Header = List (String × String)

pub record Request : Type 0 where
  pub method : String
  pub tls : Bool
  pub host : String
  pub path : String
  pub header : Header
  pub body : Bytes

-- h.Get(k): the empty text if it is missing
unfoldable pub get_header : String → Header → String
get_header k [] = ""
get_header k ((j, v) ∷ h) = if j == k then v else get_header k h

-- h.Set(k, v)
unfoldable pub set_header : String → String → Header → Header
set_header k v [] = (k, v) ∷ []
set_header k v ((j, w) ∷ h) = if j == k then (k, v) ∷ h else (j, w) ∷ set_header k v h

-- the writer: its headers, the status once it is written, and what was written after it
pub record ResponseWriter : Type 0 where
  pub header : Header
  pub status : Option ℕ
  pub body : Bytes

abbrev pub new_writer : ResponseWriter
new_writer = record { header = []; status = none; body = [] }

abbrev pub with_header : String → String → ResponseWriter → ResponseWriter
with_header k v w = record w { header = set_header k v w.header }

-- w.WriteHeader(code): only the first call counts
abbrev pub write_status : ℕ → ResponseWriter → ResponseWriter
write_status code w = elim w.status [ none ↦ record w { status = some code } | some c ↦ w ]

abbrev pub status_ok : ℕ
status_ok = 200

abbrev pub status_bad_request : ℕ
status_bad_request = 400

abbrev pub status_payment_required : ℕ
status_payment_required = 402

abbrev pub status_method_not_allowed : ℕ
status_method_not_allowed = 405
