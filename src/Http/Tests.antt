-- ===== src/Http/Tests.antt =====
-- Runs of the requests of http/src/lib.rs.
use jsonrpc_client_rs.Base.{
  ℕ, ◌≡◌, ◌≢◌, refl, true, none, some, [], ◌∷◌, num_eq, if◌then◌else◌, arith, String, ◌++◌, ◌==◌,
  string_key,
}
use jsonrpc_client_rs.Base.Action.{ok, err}
use jsonrpc_client_rs.Poll.{after, now, never, then_fut, outcome}
use jsonrpc_client_rs.Http.{request_timeout}
use jsonrpc_client_rs.Http.TimeLimited.{new, run, select2}
use jsonrpc_client_rs.Http.Processing.{Hyper, process}
use jsonrpc_client_rs.Http.Limits.{time_limit}
use jsonrpc_client_rs.Base.Assoc.{Assoc, insert, lookup, lookup-insert_self, lookup-insert_ne}
use jsonrpc_client_rs.Http.Handle.{Headers, HttpHandle, create_request, set_header}
use jsonrpc_client_rs.Http.Headers.{HeadersLaws, or_else, set_header-create_request}
use jsonrpc_client_rs.Http.Service.{process_stuck}

-- Responses are their statuses, and request 3 has a body that never ends.
abbrev hyper : Hyper ℕ (ℕ × ℕ) ℕ
hyper = record {
  request = λ r. now (ok (200, r));
  status = λ p. p.0;
  body = λ p. if num_eq p.1 3 then never else now (ok p.1);
  timer = λ n. after n (ok tt);
  tie = true;
}

time_limit_example :
    (outcome (run {A = ℕ} (new true hyper.timer (after 1 (ok 7)) (some 2))) ≡ some (ok 7))
    × (outcome (run {A = ℕ} (new true hyper.timer (after 4 (ok 7)) (some 2)))
        ≡ some (err request_timeout))
    × (outcome (run {A = ℕ} (new true hyper.timer never (some 2))) ≡ some (err request_timeout))
    × (outcome (run {A = ℕ} (new true hyper.timer (after 4 (ok 7)) none)) ≡ some (ok 7))
time_limit_example =
    time_limit true hyper.timer 2 1 4 2 (ok 7) (ok tt) refl (omega arith) (omega arith)

head_in_time : outcome (run (new true hyper.timer (hyper.request 3) (some 2))) ≡ some (ok (200, 3))
unfolding outcome run new select2 after then_fut
head_in_time = refl

process_stuck_example :
    process hyper (some 2) ((1, 10) ∷ (3, 11) ∷ (2, 12) ∷ [])
    ≡ process hyper (some 2) ((1, 10) ∷ [])
unfolding outcome
process_stuck_example =
    process_stuck hyper (some 2) ((1, 10) ∷ []) 3 11 ((2, 12) ∷ []) (200, 3) head_in_time refl refl

-- Names that differ in the case of a letter are the same.
abbrev fold : String → String
fold name = if name == "Accept" then "accept" else name

-- Headers as a list of names and values, of which the last that was set counts.
abbrev headers : Headers (Assoc String String)
headers = record {
  empty = [];
  set = λ name value h. insert (fold name) value h;
  extend = λ g h. h ++ g;
  get = λ name h. lookup (fold name) h;
  json = "application/json";
  content_length = λ n. "length";
}

abbrev local_handle : HttpHandle (Assoc String String)
local_handle = record { uri = "http://localhost"; headers = ("Host", "local") ∷ [] }

lookup-append :
    (name : String) (h g : Assoc String String)
    → lookup name (h ++ g) ≡ or_else (lookup name h) (lookup name g)
unfolding lookup
lookup-append name [] g = refl
lookup-append name ((n, v) ∷ h) g = ground (arith, lookup-append name h g)

get_set-fold :
    (name same value : String) (h : Assoc String String)
    → fold same ≡ fold name
    → lookup (fold same) (insert (fold name) value h) ≡ some value
get_set-fold name same value h e = rw e (lookup-insert_self (fold name) value h)

content_names : ◌≢◌ {A = String} "Content-Type" "Content-Length"
content_names e = cc ((string_key.exact "Content-Type" "Content-Length").1 e)

abbrev laws : HeadersLaws fold headers
laws = record {
  get_empty = λ name. unfold lookup in refl;
  get_set = get_set-fold;
  get_set_ne = λ name other value h ne. lookup-insert_ne (fold other) (fold name) value h ne;
  get_extend = λ name g h. lookup-append (fold name) h g;
  content_names = content_names;
}

other_name : ◌≢◌ {A = String} "Host" "accept"
other_name e = cc ((string_key.exact "Host" "accept").1 e)

set_header-create_request_example :
    let request =
      create_request headers (set_header headers "Accept" "*/*" local_handle) (1 ∷ []) in
    let plain = create_request headers (record local_handle { headers = [] }) (1 ∷ []) in
    (lookup "accept" request.headers ≡ some "*/*")
    × (lookup "Host" request.headers
        ≡ lookup "Host" (create_request headers local_handle (1 ∷ [])).headers)
    × (lookup "Content-Type" plain.headers ≡ some "application/json")
    × (lookup "Content-Length" plain.headers ≡ some "length")
    × (request.body ≡ 1 ∷ [])
    × (request.uri ≡ "http://localhost")
set_header-create_request_example =
    set_header-create_request fold headers laws local_handle "Accept" "accept" "Host" "*/*" (1 ∷ [])
      refl other_name
