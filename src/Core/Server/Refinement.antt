-- ===== src/Core/Server/Refinement.antt =====
-- The registry of callbacks of core/src/server.rs as the function that it stands for: the callback
-- of each name, in which the order of the entries does not show.
use jsonrpc_client_rs.Base.{
  ℕ, String, ◌≡◌, refl, ◌∙◌, Option, none, some, List, [], ◌∷◌, if◌then◌else◌, ◌==◌, string_key,
  Option-cases, inl, inr,
}
use std.Path.{fun_ext}
use jsonrpc_client_rs.Base.Action.{ok, err}
use jsonrpc_client_rs.Base.Assoc.{lookup, lookup-insert, lookup-erase}
use jsonrpc_client_rs.Core.Server.Handlers.{
  Handler, already_exists, no_handler, Handlers, add, remove,
}
use jsonrpc_client_rs.Core.Server.State.{
  Server, HandlerMsg, add_handler, remove_handler, Event, arrives, closes, quiet, Reply, added,
  removed, handle_msg, drain,
}

abbrev pub Registry : Type 0
Registry = String → Option Handler

-- What a `Handlers` stands for.
abbrev pub view : Handlers → Registry
view h name = lookup name h.handlers

abbrev pub update : String → Option Handler → Registry → Registry
update name value f other = if other == name then value else f other

-- The specification of a message: a callback is set under a name that is free, and taken from a
-- name that has one.
abbrev pub set_free : String → Handler → Option Handler → Registry → Reply × Registry
set_free name handler none f = (added (ok tt), update name (some handler) f)
set_free name handler (some _) f =
    (added (err (record { handler = handler; kind = already_exists })), f)

abbrev pub take_set : String → Option Handler → Registry → Reply × Registry
take_set name none f = (removed (err no_handler), f)
take_set name (some handler) f = (removed (ok handler), update name none f)

abbrev pub replay_msg : HandlerMsg → Registry → Reply × Registry
replay_msg (add_handler name handler tx) f = set_free name handler (f name) f
replay_msg (remove_handler name tx) f = take_set name (f name) f

abbrev reply_channel : HandlerMsg → ℕ
reply_channel (add_handler name handler tx) = tx
reply_channel (remove_handler name tx) = tx

-- The specification of the messages that come up to the first moment at which the channel has
-- nothing or is closed, with the replies in front of those that were sent before.
abbrev pub replay : List Event → Registry → List (ℕ × Reply) → Registry × List (ℕ × Reply)
replay [] f replies = (f, replies)
replay (arrives m ∷ l) f replies =
    replay l (replay_msg m f).1 ((reply_channel m, (replay_msg m f).0) ∷ replies)
replay (closes ∷ l) f replies = (f, replies)
replay (quiet ∷ l) f replies = (f, replies)

module _ {T : Type 0} where
  -- A message does to the function what the specification says, and sends its reply.
  handle_msg-view :
      (m : HandlerMsg) (s : Server T)
      → let (reply, f) = replay_msg m (view s.handler_map) in
        (view (handle_msg m s).handler_map ≡ f)
        × ((handle_msg m s).replies ≡ (reply_channel m, reply) ∷ s.replies)
  unfolding handle_msg add remove
  handle_msg-view (add_handler name handler tx) s =
      elim (Option-cases (lookup name s.handler_map.handlers)) [
        | inl e ↦ rw e (fun_ext (λ i. lookup-insert i name handler s.handler_map.handlers), refl)
        | inr (h, e) ↦ rw e (refl, refl)
      ]
  handle_msg-view (remove_handler name tx) s =
      elim (Option-cases (lookup name s.handler_map.handlers)) [
        | inl e ↦ rw (e, handle_msg, remove) (refl, refl)
        | inr (h, e) ↦
            rw (e, handle_msg, remove)
              (fun_ext (λ i. lookup-erase i name s.handler_map.handlers), refl)
      ]

  -- Draining the channel of the server handles does to the function from names to callbacks, in
  -- which the order of the entries does not show, exactly what the specification says of the
  -- messages up to where the channel has nothing or is closed, and sends the replies of the
  -- specification in the order of arrival.
  pub drain-refines :
      (l : List Event) (s : Server T)
      → (view (drain l s).handler_map, (drain l s).replies)
        ≡ replay l (view s.handler_map) s.replies
  unfolding drain
  drain-refines [] s = refl
  drain-refines (arrives m ∷ l) s =
      let (f, r) = handle_msg-view m s in drain-refines l (handle_msg m s) ∙ rw (f, r) refl
  drain-refines (closes ∷ l) s = refl
  drain-refines (quiet ∷ l) s = refl
