-- ===== src/Http/Request.antt =====
-- include/http/HttpRequest.h and src/http/HttpRequest.cc: the parts of a request. `std::getline` on
-- a string stream takes what stands in front of the delimiter and fails when nothing is left.
pub mod Params
use myoj.Common.{
  ℕ, zero, suc, ◌+◌, ◌==◌, leb, if◌then◌else◌, Bool, true, false, ◌&&◌, ◌||◌, Option, none, some,
  List, [], ◌∷◌, length, take, drop,
}
use myoj.Common.Bytes.{Bytes, codes, find_index, lookup, insert, bytes_eq}

pub data Method : Type 0 where
  invalid get post head put delete : Method

pub data Version : Type 0 where
  unknown http10 http11 : Version

pub record Request : Type 0 where
  pub method : Method
  pub version : Version
  pub path : Bytes
  pub query : Bytes
  pub receive_time : ℕ
  pub headers : List (Bytes × Bytes)
  pub params : List (Bytes × Bytes)
  pub body : Bytes

abbrev pub fresh_request : Request
fresh_request = record {
  method = invalid;
  version = unknown;
  path = [];
  query = [];
  receive_time = 0;
  headers = [];
  params = [];
  body = [];
}

abbrev pub string_to_http_method : List (Bytes × Method)
string_to_http_method =
    (codes "GET", get)
    ∷ (codes "POST", post)
    ∷ (codes "HEAD", head)
    ∷ (codes "PUT", put)
    ∷ (codes "DELETE", delete)
    ∷ []

abbrev pub is_invalid : Method → Bool
is_invalid invalid = true
is_invalid m = false

-- `setMethod(start, end)`.
unfoldable pub set_method : Bytes → Request → Bool × Request
set_method m r =
    if is_invalid r.method
    then elim (lookup m string_to_http_method) [
      | some found ↦ (true, record r { method = found })
      | none ↦ (false, record r { method = invalid })
    ]
    else (false, r)

-- The enumerators' values, in their order.
abbrev method_value : Method → ℕ
method_value invalid = 0
method_value get = 1
method_value post = 2
method_value head = 3
method_value put = 4
method_value delete = 5

-- The loop of `methodString` over the table.
unfoldable pub find_method : Method → List (Bytes × Method) → Bytes
find_method m [] = codes "UNKNOWN"
find_method m ((name, other) ∷ table) =
    if method_value other == method_value m then name else find_method m table

unfoldable pub method_string : Method → Bytes
unfolding find_method
method_string m = find_method m string_to_http_method

unfoldable pub getline : ℕ → Bytes → Option (Bytes × Bytes)
getline delim [] = none
getline delim (x ∷ s) =
    some (take (find_index delim (x ∷ s)) (x ∷ s), drop (suc (find_index delim (x ∷ s))) (x ∷ s))

-- One round of the loop in `setQuery`: `key=value` up to the end of a line.
unfoldable pub store_param : Bytes → List (Bytes × Bytes) → List (Bytes × Bytes)
store_param param params = elim (getline b'=' param) [
  | none ↦ params
  | some (key, rest) ↦ elim (getline 10 rest) [
    | none ↦ params
    | some (value, left) ↦ insert key value params
  ]
]

unfoldable pub parse_params : ℕ → Bytes → List (Bytes × Bytes) → List (Bytes × Bytes)
parse_params zero s params = params
parse_params (suc fuel) s params = elim (getline b'&' s) [
  | none ↦ params
  | some (param, rest) ↦ parse_params fuel rest (store_param param params)
]

unfoldable pub set_query : Bytes → Request → Request
set_query q r = record r { query = q; params = parse_params (length q) q r.params }

unfoldable pub has_param : Bytes → Request → Bool
has_param field r = elim (lookup field r.params) [ some v ↦ true | none ↦ false ]

unfoldable pub get_param : Bytes → Request → Bytes
get_param field r = elim (lookup field r.params) [ some v ↦ v | none ↦ [] ]

-- `std::isspace` in the C locale.
abbrev pub is_space : ℕ → Bool
is_space c = c == 32 || (leb 9 c && leb c 13)

unfoldable pub skip_space : Bytes → Bytes
skip_space [] = []
skip_space (c ∷ s) = if is_space c then skip_space s else c ∷ s

abbrev pub is_blank : ℕ → Bool
is_blank c = c == 32 || c == 9

-- `resize(find_last_not_of(" \t") + 1)`, or `clear()` where all is blank.
unfoldable pub trim_end : Bytes → Bytes
trim_end [] = []
trim_end (c ∷ s) = elim (trim_end s) [ [] ↦ if is_blank c then [] else c ∷ [] | d ∷ t ↦ c ∷ d ∷ t ]

-- `addHeader` on a line with its colon at the given index.
unfoldable pub add_header : Bytes → ℕ → Request → Request
add_header line colon r = record r {
  headers = insert (take colon line) (trim_end (skip_space (drop (suc colon) line))) r.headers;
}

unfoldable pub get_header : Bytes → Request → Bytes
get_header field r = elim (lookup field r.headers) [ some v ↦ v | none ↦ [] ]

-- `swap`: the parameters and the body stay where they are. The first component is `this`.
unfoldable pub swap : Request → Request → Request × Request
swap this that = (
  record that { params = this.params; body = this.body },
  record this { params = that.params; body = that.body },
)
