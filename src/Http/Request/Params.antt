-- ===== src/Http/Request/Params.antt =====
-- The parameters that `setQuery` reads out of a query string.
use myoj.Common.{
  ℕ, zero, suc, ◌<◌, ◌≡◌, ◌≢◌, refl, ap, ◌∙◌, false, Bool-cases, inl, inr, some, List, [], ◌∷◌,
  ◌++◌, All, All-append, length, take, drop, arith, length-append, take-length, take_all, drop_all,
  drop-append_right,
}
use myoj.Common.Bytes.{
  Bytes, find_index, find_index-append, find_index_absent, insert, lookup, bytes_eq, bytes_eq_iff,
}
use myoj.Http.Request.{
  Request, fresh_request, getline, store_param, parse_params, set_query, has_param,
}

getline_nonempty :
    (delim : ℕ) (x : ℕ) (s : Bytes)
    → getline delim (x ∷ s)
      ≡ some
          (take (find_index delim (x ∷ s)) (x ∷ s), drop (suc (find_index delim (x ∷ s))) (x ∷ s))
unfolding getline
getline_nonempty delim x s = refl

-- Up to a delimiter that is there.
getline_inside :
    (delim : ℕ) (piece rest : Bytes)
    → All (λ x. x ≢ delim) piece
    → getline delim (piece ++ delim ∷ rest) ≡ some (piece, rest)
unfolding getline
getline_inside delim [] rest h = rw (find_index-append delim [] rest tt)
getline_inside delim (x ∷ piece) rest h = rw (
  find_index-append delim (x ∷ piece) rest h,
  take-length piece (delim ∷ rest),
  drop-append_right (suc (length piece)) 1 piece (delim ∷ rest) (omega arith),
)

-- Up to the end.
getline_last :
    (delim : ℕ) (x : ℕ) (piece : Bytes)
    → All (λ y. y ≢ delim) (x ∷ piece)
    → getline delim (x ∷ piece) ≡ some (x ∷ piece, [])
unfolding getline
getline_last delim x piece h = rw (
  find_index_absent delim (x ∷ piece) h,
  take_all (length piece) piece (omega arith),
  drop_all (suc (length piece)) piece (omega arith),
)

-- A key and a value, which has a first byte.
pub record Param : Type 0 where
  pub key : Bytes
  pub first : ℕ
  pub others : Bytes

abbrev pub value : Param → Bytes
value p = p.first ∷ p.others

abbrev pub print_param : Param → Bytes
print_param p = p.key ++ 61 ∷ value p

pub record IsPlain (p : Param) : Type 0 where
  pub key_eq : All (λ x. x ≢ 61) p.key
  pub key_and : All (λ x. x ≢ 38) p.key
  pub value_and : All (λ x. x ≢ 38) (value p)
  pub value_line : All (λ x. x ≢ 10) (value p)

-- `key=value` pairs with `&` between them.
abbrev pub print_params : Param → List Param → Bytes
print_params p [] = print_param p
print_params p (q ∷ ps) = print_param p ++ 38 ∷ print_params q ps

abbrev pub insert_params : List Param → List (Bytes × Bytes) → List (Bytes × Bytes)
insert_params [] m = m
insert_params (p ∷ ps) m = insert_params ps (insert p.key (value p) m)

store_param_lem :
    (p : Param) (m : List (Bytes × Bytes))
    → IsPlain p
    → store_param (print_param p) m ≡ insert p.key (value p) m
unfolding store_param
store_param_lem p m h = rw (
  getline_inside 61 p.key (value p) h.key_eq,
  getline_last 10 p.first p.others h.value_line,
  store_param,
)

print_param-plain : (p : Param) → IsPlain p → All (λ x. x ≢ 38) (print_param p)
print_param-plain p h =
    All-append (λ x. x ≢ 38) p.key (61 ∷ value p) h.key_and (omega arith, h.value_and)

getline_end :
    (delim : ℕ) (s : Bytes) → All (λ y. y ≢ delim) s → s ≢ [] → getline delim s ≡ some (s, [])
getline_end delim [] h live = absurd (live refl)
getline_end delim (x ∷ s) h live = getline_last delim x s h

print_param-ne-nil : (p : Param) → print_param p ≢ []
print_param-ne-nil p e =
    let n : length (print_param p) ≡ 0 = ap length e in
    omega (arith, length-append {0} p.key (61 ∷ value p))

parse_params_nil : (fuel : ℕ) (m : List (Bytes × Bytes)) → parse_params fuel [] m ≡ m
unfolding parse_params getline
parse_params_nil zero m = refl
parse_params_nil (suc fuel) m = refl

parse_params_step :
    (fuel : ℕ) (s param rest : Bytes) (m : List (Bytes × Bytes))
    → getline 38 s ≡ some (param, rest)
    → parse_params (suc fuel) s m ≡ parse_params fuel rest (store_param param m)
unfolding parse_params
parse_params_step fuel s param rest m e = rw (e, parse_params) refl

parse_params-print :
    (fuel : ℕ) (p : Param) (ps : List Param) (m : List (Bytes × Bytes))
    → length ps < fuel
    → IsPlain p
    → All IsPlain ps
    → parse_params fuel (print_params p ps) m ≡ insert_params (p ∷ ps) m
parse_params-print zero p ps m h w ws = absurd (omega arith)
parse_params-print (suc fuel) p [] m h w ws =
    parse_params_step fuel (print_param p) (print_param p) [] m
      (getline_end 38 (print_param p) (print_param-plain p w) (print_param-ne-nil p))
    ∙ parse_params_nil fuel _
    ∙ store_param_lem p m w
parse_params-print (suc fuel) p (q ∷ ps) m h w (v, vs) =
    parse_params_step fuel (print_params p (q ∷ ps)) (print_param p) (print_params q ps) m
      (getline_inside 38 (print_param p) (print_params q ps) (print_param-plain p w))
    ∙ ap (parse_params fuel (print_params q ps)) (store_param_lem p m w)
    ∙ parse_params-print fuel q ps (insert p.key (value p) m) (omega arith) v vs

length-print_params : (p : Param) (ps : List Param) → length ps < length (print_params p ps)
length-print_params p [] = omega (arith, length-append {0} p.key (61 ∷ value p))
length-print_params p (q ∷ ps) =
    omega
      (arith, length-append {0} (print_param p) (38 ∷ print_params q ps), length-print_params q ps)

-- What the server passes to setQuery: the query with its question mark in front.
abbrev pub query_string : Param → List Param → Bytes
query_string p ps = 63 ∷ print_params p ps

-- The first key as it is stored.
abbrev pub marked : Param → Param
marked p = record p { key = 63 ∷ p.key }

marked-IsPlain : (p : Param) → IsPlain p → IsPlain (marked p)
marked-IsPlain p w = record {
  key_eq = (omega arith, w.key_eq);
  key_and = (omega arith, w.key_and);
  value_and = w.value_and;
  value_line = w.value_line;
}

print_params-marked : (p : Param) (ps : List Param) → query_string p ps ≡ print_params (marked p) ps
print_params-marked p [] = refl
print_params-marked p (q ∷ ps) = refl

-- setQuery stores every `key=value` pair of a query whose keys and values are free of delimiters
-- and whose values are not empty, in order; but the first key is stored with the question mark in
-- front of it.
pub set_query-query_string :
    (p : Param) (ps : List Param) (r : Request)
    → IsPlain p
    → All IsPlain ps
    → set_query (query_string p ps) r
      ≡ record r { query = query_string p ps; params = insert_params (marked p ∷ ps) r.params }
unfolding set_query
set_query-query_string p ps r w ws =
    ap (λ (m : List (Bytes × Bytes)). record r { query = query_string p ps; params = m })
      (ap (λ s. parse_params (length s) s r.params) (print_params-marked p ps)
        ∙ parse_params-print _ (marked p) ps r.params (length-print_params (marked p) ps)
            (marked-IsPlain p w) ws)

pub bytes_eq_longer : (c : ℕ) (s : Bytes) → bytes_eq (c ∷ s) s ≡ false
bytes_eq_longer c s = elim (Bool-cases (bytes_eq (c ∷ s) s)) [
  | inl same ↦
      let n : suc (length s) ≡ length s = ap length ((bytes_eq_iff (c ∷ s) s).0 same) in
      absurd (omega arith)
  | inr other ↦ other
]

-- So a request with the query `?key=value` does not have the parameter `key`.
pub has_param-single :
    (p : Param) → IsPlain p → has_param p.key (set_query (query_string p []) fresh_request) ≡ false
unfolding has_param insert lookup
has_param-single p w =
    rw (set_query-query_string p [] fresh_request w tt, bytes_eq_longer 63 p.key) refl
