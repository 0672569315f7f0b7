-- ===== src/Core/Handle/Registration.antt =====
-- Setting and unsetting handlers through a `ServerHandle`, with the server at the other end.
use jsonrpc_client_rs.Base.{
  ℕ, String, ◌≡◌, ◌≢◌, refl, ap, ◌∙◌, none, some, List, arith, nat_key, string_key, ==_self,
}
use jsonrpc_client_rs.Base.Action.{Result, ok, err}
use jsonrpc_client_rs.Base.Assoc.{lookup}
use jsonrpc_client_rs.Poll.{Fut, now, later, never, then_fut, map_err_fut, outcome}
use jsonrpc_client_rs.Core.Server.Handlers.{
  Handler, HandlerError, HandlerSettingError, already_exists, no_handler, shutdown,
}
use jsonrpc_client_rs.Core.Server.Handlers
use jsonrpc_client_rs.Core.Server.State.{
  Server, Reply, added, removed, HandlerMsg, add_handler, remove_handler, handle_msg,
}
use jsonrpc_client_rs.Core.Server.Registry.{add_then}
use jsonrpc_client_rs.Core.Handle.{refused, panicked, refuse, add, remove}

-- The receiving ends of the reply channels, by what the server sent into them.
unfoldable pub added_to :
    ℕ → List (ℕ × Reply) → Fut (Result (Unit {0}) HandlerSettingError) (Unit {0})
added_to tx replies = elim (lookup tx replies) [ some (added r) ↦ now (ok r) | _ ↦ never ]

unfoldable pub removed_to : ℕ → List (ℕ × Reply) → Fut (Result Handler HandlerError) (Unit {0})
removed_to tx replies = elim (lookup tx replies) [ some (removed r) ↦ now (ok r) | _ ↦ never ]

module _ (send : HandlerMsg → Fut (Unit {0}) (Unit {0})) where
  add-sent :
      (name : String) (handler : Handler) (tx : ℕ) (s : Fut (Unit {0}) (Unit {0}))
      (r : Result (Unit {0}) HandlerSettingError)
      → outcome s ≡ some (ok tt)
      → outcome (
          then_fut
            (then_fut
              (map_err_fut (λ _. refused (record { handler = handler; kind = shutdown })) s)
              λ _. map_err_fut {E = Unit {0}} (λ _. panicked) (now (ok r)))
            λ r. now (refuse r))
        ≡ some (refuse r)
  unfolding outcome then_fut map_err_fut
  add-sent name handler tx (now (ok _)) r h = refl
  add-sent name handler tx (now (err _)) r h = cc
  add-sent name handler tx (later s) r h = add-sent name handler tx s r h
  add-sent name handler tx never r h = cc

  remove-sent :
      (s : Fut (Unit {0}) (Unit {0})) (r : Result Handler HandlerError)
      → outcome s ≡ some (ok tt)
      → outcome (
          then_fut
            (then_fut
              (map_err_fut (λ _. shutdown) s)
              λ _. map_err_fut {E = Unit {0}} (λ _. shutdown) (now (ok r)))
            now)
        ≡ some r
  unfolding outcome then_fut map_err_fut
  remove-sent (now (ok _)) r h = refl
  remove-sent (now (err _)) r h = cc
  remove-sent (later s) r h = remove-sent s r h
  remove-sent never r h = cc

  added_to-handle_msg :
      {T : Type 0} (name : String) (handler : Handler) (tx : ℕ) (s : Server T)
      → added_to tx (handle_msg (add_handler name handler tx) s).replies
        ≡ now (ok (Handlers.add name handler s.handler_map).0)
  unfolding added_to handle_msg lookup
  added_to-handle_msg name handler tx s = ground (arith, ==_self tx)

  removed_to-handle_msg :
      {T : Type 0} (name : String) (tx : ℕ) (s : Server T)
      → removed_to tx (handle_msg (remove_handler name tx) s).replies
        ≡ now (ok (Handlers.remove name s.handler_map).0)
  unfolding removed_to handle_msg lookup
  removed_to-handle_msg name tx s = ground (arith, ==_self tx)

  pub add_lem :
      {T : Type 0} (name : String) (handler : Handler) (tx : ℕ) (s : Server T)
      → outcome (send (add_handler name handler tx)) ≡ some (ok tt)
      → outcome (
          add send name handler tx
            (added_to tx (handle_msg (add_handler name handler tx) s).replies))
        ≡ some (refuse (Handlers.add name handler s.handler_map).0)
  unfolding add
  add_lem name handler tx s h =
      rw (added_to-handle_msg name handler tx s)
        (add-sent name handler tx (send (add_handler name handler tx)) _ h)

  pub remove_lem :
      {T : Type 0} (name : String) (tx : ℕ) (s : Server T)
      → outcome (send (remove_handler name tx)) ≡ some (ok tt)
      → outcome
          (remove send name tx (removed_to tx (handle_msg (remove_handler name tx) s).replies))
        ≡ some (Handlers.remove name s.handler_map).0
  unfolding remove
  remove_lem name tx s h =
      rw (removed_to-handle_msg name tx s) (remove-sent (send (remove_handler name tx)) _ h)

  -- On a server where a name is free, whose channel takes three messages of a handle, add under
  -- the name succeeds, a second add before the removal fails with AlreadyExists and its own
  -- handler, remove gives the first handler back, and any other name is as it was.
  pub register_unregister :
      {T : Type 0} (name other : String) (first second : Handler) (tx tx2 tx3 : ℕ) (s : Server T)
      → lookup name s.handler_map.handlers ≡ none
      → other ≢ name
      → outcome (send (add_handler name first tx)) ≡ some (ok tt)
      → outcome (send (add_handler name second tx2)) ≡ some (ok tt)
      → outcome (send (remove_handler name tx3)) ≡ some (ok tt)
      → let s1 = handle_msg (add_handler name first tx) s in
        let s2 = handle_msg (add_handler name second tx2) s1 in
        let s3 = handle_msg (remove_handler name tx3) s2 in
        (outcome (add send name first tx (added_to tx s1.replies)) ≡ some (ok tt))
        × (outcome (add send name second tx2 (added_to tx2 s2.replies))
            ≡ some (err (refused (record { handler = second; kind = already_exists }))))
        × (outcome (remove send name tx3 (removed_to tx3 s3.replies)) ≡ some (ok first))
        × (lookup other s3.handler_map.handlers ≡ lookup other s.handler_map.handlers)
  register_unregister name other first second tx tx2 tx3 s free ne h1 h2 h3 =
      let (r, found, again, gave, _, _, kept) =
        add_then name other first second s.handler_map free ne in
      let s1 = handle_msg (add_handler name first tx) s in
      let s2 = handle_msg (add_handler name second tx2) s1 in
      let m1 : s1.handler_map ≡ (Handlers.add name first s.handler_map).1 =
        unfold handle_msg in refl in
      let m2 : s2.handler_map ≡ s1.handler_map =
        unfold handle_msg in rw (m1) (ap (λ p. p.1) again) in
      let s3 = handle_msg (remove_handler name tx3) s2 in
      let m3 : s3.handler_map ≡ (Handlers.remove name s2.handler_map).1 =
        unfold handle_msg in refl in
      (
        add_lem name first tx s h1 ∙ rw r refl,
        add_lem name second tx2 s1 h2 ∙ rw (m1, again) refl,
        remove_lem name tx3 s2 h3 ∙ rw (m2, m1, gave) refl,
        ap (λ m. lookup other m.handlers) (m3 ∙ ap (λ h. (Handlers.remove name h).1) (m2 ∙ m1))
            ∙ kept,
      )
