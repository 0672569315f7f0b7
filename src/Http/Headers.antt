-- ===== src/Http/Headers.antt =====
-- The headers of the requests that `HttpHandle` of http/src/lib.rs makes.
use jsonrpc_client_rs.Base.{String, ◌≡◌, ◌≢◌, refl, Option, none, some, length, arith}
use jsonrpc_client_rs.Http.Handle.{Bytes, Headers, HttpHandle, set_header, create_request}

abbrev pub or_else : Option String → Option String → Option String
or_else none b = b
or_else (some a) b = some a

-- What hyper documents of its headers: an empty set has none, `set` replaces the value of one name,
-- and `extend` takes the other set's value where it has one. Names are compared without regard to
-- case: two of them are the same when `fold` makes the same of them, which tells the two names that
-- the library sets apart.
pub record HeadersLaws {H : Type 0} (fold : String → String) (hyper : Headers H) : Type 0 where
  pub get_empty : (name : String) → hyper.get name hyper.empty ≡ none
  pub get_set :
      (name same value : String) (h : H)
      → fold same ≡ fold name
      → hyper.get same (hyper.set name value h) ≡ some value
  pub get_set_ne :
      (name other value : String) (h : H)
      → fold other ≢ fold name
      → hyper.get other (hyper.set name value h) ≡ hyper.get other h
  pub get_extend :
      (name : String) (g h : H)
      → hyper.get name (hyper.extend g h) ≡ or_else (hyper.get name h) (hyper.get name g)
  pub content_names : fold "Content-Type" ≢ fold "Content-Length"

module _ {H : Type 0} (fold : String → String) (hyper : Headers H)
    (laws : HeadersLaws fold hyper) where
  -- If hyper's headers do what it documents, a header that is set on a handle is in the requests
  -- that the handle makes with its value, under each spelling of its name that differs in case
  -- alone, also in place of one that the library sets, any header of another name is as without
  -- it, a handle without headers makes requests with the JSON content type and the length of the
  -- body, and the body and the URI are those given.
  pub set_header-create_request :
      (h : HttpHandle H) (name same other value : String) (body : Bytes)
      → fold same ≡ fold name
      → fold other ≢ fold name
      → let request = create_request hyper (set_header hyper name value h) body in
        let plain = create_request hyper (record h { headers = hyper.empty }) body in
        (hyper.get same request.headers ≡ some value)
        × (hyper.get other request.headers ≡ hyper.get other (create_request hyper h body).headers)
        × (hyper.get "Content-Type" plain.headers ≡ some hyper.json)
        × (hyper.get "Content-Length" plain.headers ≡ some (hyper.content_length (length body)))
        × (request.body ≡ body)
        × (request.uri ≡ h.uri)
  unfolding set_header create_request
  set_header-create_request h name same other value body eq ne =
      let sized =
        hyper.set "Content-Length" (hyper.content_length (length body))
          (hyper.set "Content-Type" hyper.json hyper.empty) in
      ground (
        arith,
        laws.get_set name same value h.headers eq,
        laws.get_set_ne name other value h.headers ne,
        laws.get_extend same sized (hyper.set name value h.headers),
        laws.get_extend other sized (hyper.set name value h.headers),
        laws.get_extend other sized h.headers,
        laws.get_extend "Content-Type" sized hyper.empty,
        laws.get_extend "Content-Length" sized hyper.empty,
        laws.get_empty "Content-Type",
        laws.get_empty "Content-Length",
        laws.get_set "Content-Length" "Content-Length" (hyper.content_length (length body))
            (hyper.set "Content-Type" hyper.json hyper.empty) refl,
        laws.get_set_ne "Content-Length" "Content-Type" (hyper.content_length (length body))
            (hyper.set "Content-Type" hyper.json hyper.empty) laws.content_names,
        laws.get_set "Content-Type" "Content-Type" hyper.json hyper.empty refl,
      )
