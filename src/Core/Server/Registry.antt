-- ===== src/Core/Server/Registry.antt =====
-- The registry of callbacks: `Handlers::add` and `Handlers::remove`, and the messages by which a
-- `ServerHandle` reaches them.
use jsonrpc_client_rs.Base.{
  ℕ, String, ◌≡◌, ◌≢◌, refl, ◌∙◌, ap, none, some, List, [], ◌∷◌, string_key, arith,
}
use jsonrpc_client_rs.Base.Action.{ok, err}
use jsonrpc_client_rs.Base.Assoc.{
  lookup, insert, lookup-insert_self, lookup-insert_ne, lookup-erase_self, lookup-erase_ne,
}
use jsonrpc_client_rs.Core.Server.Handlers.{
  Handler, already_exists, no_handler, Handlers, add, remove,
}
use jsonrpc_client_rs.Core.Server.State.{
  Server, HandlerMsg, add_handler, remove_handler, Event, arrives, closes, quiet, Reply, handle_msg,
  drain,
}

-- A handler that is added under a free name is found there, and is what remove returns, after
-- which the name is free; a second add before that hands its own handler back with AlreadyExists
-- and changes nothing; no other name is touched.
pub add_then :
    (name j : String) (first second : Handler) (h : Handlers)
    → lookup name h.handlers ≡ none
    → j ≢ name
    → let (r1, h1) = add name first h in
      let (r2, h2) = remove name h1 in
      (r1 ≡ ok tt)
      × (lookup name h1.handlers ≡ some first)
      × (add name second h1 ≡ (err (record { handler = second; kind = already_exists }), h1))
      × (r2 ≡ ok first)
      × (lookup name h2.handlers ≡ none)
      × (lookup j h1.handlers ≡ lookup j h.handlers)
      × (lookup j h2.handlers ≡ lookup j h.handlers)
unfolding add remove
add_then name j first second h free ne = ground (
  arith,
  lookup-insert_self name first h.handlers,
  lookup-insert_ne j name first h.handlers ne,
  lookup-erase_self name (insert name first h.handlers),
  lookup-erase_ne j name (insert name first h.handlers) ne,
)

-- `remove` of a name without a handler fails and changes nothing.
pub remove_absent :
    (name : String) (h : Handlers)
    → lookup name h.handlers ≡ none
    → remove name h ≡ (err no_handler, h)
unfolding remove
remove_absent name h e = rw (e, remove)

-- The reply channels of the messages that a run of events brings, up to the first at which the
-- channel has nothing or is closed, in front of those that were served before; the newest first.
abbrev channel : HandlerMsg → ℕ
channel (add_handler name handler tx) = tx
channel (remove_handler name tx) = tx

abbrev pub served : List Event → List ℕ → List ℕ
served [] acc = acc
served (arrives m ∷ l) acc = served l (channel m ∷ acc)
served (closes ∷ l) acc = acc
served (quiet ∷ l) acc = acc

abbrev pub replied : List (ℕ × Reply) → List ℕ
replied [] = []
replied ((tx, r) ∷ l) = tx ∷ replied l

handle_msg-replied :
    {T : Type 0} (m : HandlerMsg) (s : Server T)
    → replied (handle_msg m s).replies ≡ channel m ∷ replied s.replies
unfolding handle_msg
handle_msg-replied (add_handler name handler tx) s = refl
handle_msg-replied (remove_handler name tx) s = refl

-- Draining the channel of the server handles answers each message that it brings exactly once, in
-- the order of arrival, up to where the channel has nothing or is closed.
pub drain-replied :
    {T : Type 0} (l : List Event) (s : Server T)
    → replied (drain l s).replies ≡ served l (replied s.replies)
unfolding drain
drain-replied [] s = refl
drain-replied (arrives m ∷ l) s =
    drain-replied l (handle_msg m s) ∙ ap (served l) (handle_msg-replied m s)
drain-replied (closes ∷ l) s = refl
drain-replied (quiet ∷ l) s = refl
