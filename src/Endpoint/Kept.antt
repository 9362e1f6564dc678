-- ===== src/Endpoint/Kept.antt =====
-- The configuration of an endpoint across its calls.
use cnf_nsm.Common.{◌≡◌, refl, List, [], ◌∷◌, Option, arith}
use cnf_nsm.External.{Os, SdkNames, Connection}
use cnf_nsm.Endpoint.{
  NsmConnection, NsmEndpoint, Next, close_connection, close_all, admit, drop_duplicate, request,
  close,
}
use cnf_nsm.Endpoint.Invariant.{close_connection_cases, admit_cases}

module _ (os : Os) (names : SdkNames) where
  pub cfg-close_connection :
      (e : NsmEndpoint) (conn : Connection) → (close_connection os names e conn).1.cfg ≡ e.cfg
  cfg-close_connection e conn =
      close_connection_cases os names (λ r. r.1.cfg ≡ e.cfg) e conn (λ x h. refl) (λ c i h. refl)

  cfg-admit :
      (next : Option Next) (e : NsmEndpoint) (conn : Connection)
      → (admit os names next e conn).1.cfg ≡ e.cfg
  cfg-admit next e conn =
      admit_cases os names (λ r. r.1.cfg ≡ e.cfg) next e conn (λ x. refl) (λ c i h room r. refl)

  pub cfg-drop_duplicate :
      (e : NsmEndpoint) (conn : Connection) → (drop_duplicate os names e conn).1.cfg ≡ e.cfg
  unfolding drop_duplicate
  cfg-drop_duplicate e conn = ground (arith, cfg-close_connection e conn)

  pub cfg-request :
      (next : Option Next) (e : NsmEndpoint) (conn : Connection)
      → (request os names next e conn).1.cfg ≡ e.cfg
  unfolding request
  cfg-request next e conn =
      ground
        (arith, cfg-drop_duplicate e conn, cfg-admit next (drop_duplicate os names e conn).1 conn)

  pub cfg-close :
      (next : Option Next) (e : NsmEndpoint) (conn : Connection)
      → (close os names next e conn).1.cfg ≡ e.cfg
  unfolding close
  cfg-close next e conn = ground (arith, cfg-close_connection e conn)

  pub cfg-close_all :
      (e : NsmEndpoint) (order : List NsmConnection) → (close_all os names e order).1.cfg ≡ e.cfg
  unfolding close_all
  cfg-close_all e [] = refl
  cfg-close_all e (c ∷ order) = ground (
    arith,
    cfg-close_connection e c.conn,
    cfg-close_all (close_connection os names e c.conn).1 order,
  )
