-- ===== src/Headers.antt =====
-- removeHopHeaders of internal/app/proxy.go, on a header as net/http keeps it: fields with a name in
-- canonical case and a value, those of one name in order.
pub mod EndToEnd
use tor_rotating_http_proxy.Prelude.{Bool, true, false, List, [], ◌∷◌, ◌++◌, map, if◌then◌else◌}
use tor_rotating_http_proxy.Prelude.Bytes.{Bytes, codes, bytes_eq, to_lower, split, trim_space}

pub record Field : Type 0 where
  pub name : Bytes
  pub value : Bytes

-- Two names that have the same canonical case
abbrev pub same_name : Bytes → Bytes → Bool
same_name a b = bytes_eq (to_lower a) (to_lower b)

-- Header.Values
unfoldable pub values : Bytes → List Field → List Bytes
values name [] = []
values name (f ∷ fs) =
    let rest = values name fs in if same_name f.name name then f.value ∷ rest else rest

-- Header.Del
unfoldable pub del : Bytes → List Field → List Field
del name [] = []
del name (f ∷ fs) = let rest = del name fs in if same_name f.name name then rest else f ∷ rest

unfoldable pub del_all : List Bytes → List Field → List Field
unfolding del
del_all [] h = h
del_all (name ∷ names) h = del_all names (del name h)

-- The names that the values of Connection list
abbrev pub listed : List Bytes → List Bytes
listed [] = []
listed (v ∷ vs) = map trim_space (split b',' v) ++ listed vs

abbrev pub hop_names : List Bytes
hop_names =
    codes "Connection"
    ∷ codes "Proxy-Connection"
    ∷ codes "Keep-Alive"
    ∷ codes "Proxy-Authenticate"
    ∷ codes "Proxy-Authorization"
    ∷ codes "Te"
    ∷ codes "Trailer"
    ∷ codes "Transfer-Encoding"
    ∷ codes "Upgrade"
    ∷ []

-- removeHopHeaders
unfoldable pub remove_hop_headers : List Field → List Field
unfolding del_all values
remove_hop_headers h = del_all hop_names (del_all (listed (values (codes "Connection") h)) h)
