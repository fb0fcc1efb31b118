-- ===== src/System/Answers.antt =====
-- The routes of fastapi/extension.py over the SQL unit of work.
-- a call whose result is only translated leaves the store as the call does
use db_connections.Api.Responses.{ResponseSchemas, build_read_response, to_http_exception}
use db_connections.Api.Routes.{delete_route, get_route, route}
use db_connections.Errors.{
  Error, code, connection_not_found, details, map_exception, message, status_code_of,
}
use db_connections.Exec.{Exec, lift, ◌>>=◌}
use db_connections.Infra.Encryption.{EncryptionProvider}
use db_connections.Infra.OptionsColumn.{Imports}
use db_connections.Infra.Session.{IsFaithful, Session}
use db_connections.Prelude.{String, [], arith, inl, inr, none, ◌∷◌, ◌≡◌}
use db_connections.Result.{Result, Result-cases, err, ok}
use db_connections.Service.{ConnectionService, delete_connection, get_connection}
use db_connections.System.Durable.{IsDurable, over_sql}
use db_connections.System.Visible.{get_connection-delete_connection}
use db_connections.Value.{Value, str}

lifted_store :
    {S A B : Type 0} (m : Exec S A) (f : A → Result B) (s : S)
    → ((m >>= λ a. lift (f a)) s).1 ≡ (m s).1
lifted_store m f s = elim (Result-cases (m s).0) [
  | inl (a, e) ↦ ground arith
  | inr (x, e) ↦ ground arith
]

-- an answer other than an exception came from a call that returned
answered :
    {S A B : Type 0} (m : Exec S A) (f : A → Result B) (s : S) (b : B)
    → (route (m >>= λ a. lift (f a)) s).0 ≡ inr b
    → (a : A) × ((m s).0 ≡ ok a)
unfolding route
answered m f s b h = elim (Result-cases (m s).0) [ inl (a, e) ↦ (a, e) | inr (x, e) ↦ ground arith ]

-- a route whose call raises answers its exception
raised :
    {S A B : Type 0} (m : Exec S A) (f : A → Result B) (s : S) (e : Error)
    → (m s).0 ≡ err e
    → (route (m >>= λ a. lift (f a)) s).0 ≡ inl (to_http_exception e)
unfolding route
raised m f s e h = ground arith

module _ {S : Type 0} (session : Session S) (provider : EncryptionProvider) (imports : Imports)
    (service : ConnectionService S) (actor : Value) (schemas : ResponseSchemas)
    (faithful : IsFaithful session) (durable : IsDurable session) where
  abbrev routed_service : ConnectionService S
  routed_service = over_sql session provider imports service actor

  -- After a deletion that was answered, the route that gets the connection answers 404, if the
  -- session is faithful and durable.
  pub get_route-delete_route :
      (i : String) (response : Value) (s : S)
      → (route (delete_route routed_service schemas actor none i) s).0 ≡ inr response
      → (route
          (get_route routed_service schemas actor none i)
          (route (delete_route routed_service schemas actor none i) s).1).0
        ≡ inl (record {
          status_code = 404;
          code = "connection_not_found";
          message = "Connection not found.";
          details = ("connection_id", str i) ∷ [];
          headers = [];
        })
  unfolding route delete_route get_route to_http_exception map_exception status_code_of code message
      details
  get_route-delete_route i response s h =
      let (r, returned) =
        answered (delete_connection routed_service actor i none)
          (build_read_response routed_service.registry schemas) s response h in
      let moved =
        lifted_store (delete_connection routed_service actor i none)
          (build_read_response routed_service.registry schemas) s in
      let gone =
        get_connection-delete_connection session provider imports service actor faithful durable i r
          s returned in
      raised (get_connection routed_service actor i none)
        (build_read_response routed_service.registry schemas) _ (connection_not_found i)
        (rw moved gone)
