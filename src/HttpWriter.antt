-- ===== src/HttpWriter.antt =====
-- What the code uses of net/http: `http.Header`, and the `http.ResponseWriter` of a request that is
-- served.
use grpc_datacon.Common.{
  ℕ, String, List, [], ◌∷◌, ◌++◌, Option, none, some, Bool, ◌&&◌, not, leb, take, ◌==◌, nat_eq,
  string_eq, if◌then◌else◌,
}
use grpc_datacon.Common.Assoc.{Assoc, get, put, delete}
use grpc_datacon.Common.Text.{canonical_header_key}

abbrev pub Header : Type 0
Header = Assoc String (List String)

abbrev pub values_or_nil : Option (List String) → List String
values_or_nil none = []
values_or_nil (some vs) = vs

unfoldable pub header_add : Header → String → String → Header
header_add h name value =
    let key = canonical_header_key name in put h key (values_or_nil (get h key) ++ value ∷ [])

unfoldable pub header_set : Header → String → String → Header
header_set h name value = put h (canonical_header_key name) (value ∷ [])

unfoldable pub header_del : Header → String → Header
header_del h name = delete h (canonical_header_key name)

abbrev first_or_empty : Option (List String) → String
first_or_empty none = ""
first_or_empty (some []) = ""
first_or_empty (some (v ∷ vs)) = v

unfoldable pub header_get : Header → String → String
header_get h name = first_or_empty (get h (canonical_header_key name))

-- `header` can still be changed; `sent` is the status line and the header as they went out.
pub record ResponseWriter : Type 0 where
  pub header : Header
  pub sent : Option (ℕ × Header)
  pub body : List ℕ

abbrev pub new_writer : ResponseWriter
new_writer = record { header = []; sent = none; body = [] }

-- `checkWriteHeaderCode` panics outside this range.
abbrev pub is_status : ℕ → Bool
is_status code = leb 100 code && leb code 999

-- 1xx, but for 101: sent at once, and a final status is still to come.
abbrev pub is_informational : ℕ → Bool
is_informational code = leb 100 code && leb code 199 && not (code == 101)

abbrev pub commit : Option (ℕ × Header) → ℕ → ResponseWriter → ResponseWriter
commit none code w = record w { sent = some (code, w.header) }
commit (some s) code w = w

-- `none` is the panic. A status that is written again is ignored.
unfoldable pub write_header : ResponseWriter → ℕ → Option ResponseWriter
write_header w code =
    if is_status code
    then some (if is_informational code then w else commit w.sent code w)
    else none

pub data WriteResult : Type 0 where
  wrote : ℕ → WriteResult
  write_failed : ℕ → WriteResult

abbrev pub written : WriteResult → List ℕ → List ℕ
written (wrote n) bytes = take n bytes
written (write_failed n) bytes = take n bytes

-- `Write`, whose outcome the connection decides. The first one sends the status 200.
unfoldable pub write : ResponseWriter → List ℕ → WriteResult → ResponseWriter
write w bytes result =
    let w' = commit w.sent 200 w in record w' { body = w'.body ++ written result bytes }
