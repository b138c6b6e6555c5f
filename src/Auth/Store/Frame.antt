-- ===== src/Auth/Store/Frame.antt =====
-- internal/adminauth/pgstore: what an operation on a session and the use of a proof keep of the tables.
use waiting_room.Base.{
  ℕ, ◌≡◌, arith, Bool, false, not, ◌&&◌, Option, none, some, ◌==◌, if_cases, some_cases, Text,
  length, lookup, Result, ok, err,
}
use waiting_room.Auth.Session
use waiting_room.Auth.Session.{AuthPolicy, validate, is_none}
use waiting_room.Auth.Csrf.{Request, get}
use waiting_room.Auth.Store.{SessionRow, Proof, Tables, Commit, Library, token_hash}
use waiting_room.Auth.Store.Counters.{SameTables, audit_auth-same}
use waiting_room.Auth.Store.Sessions.{
  Operation, Error, SessionView, Snapshot, commit, operate, authorized, admitted, permit, run,
  load_session, is_post, mutates, forgotten, touched, view, may_touch, unauthenticated, forbidden,
}
use waiting_room.Auth.Store.Reauth.{
  Command, consume_reauth, is_usable, spent, session_hash, action_request_digest,
}

-- A property of tables that no operation on a session ends.
pub record IsSteady (P : Tables → Type 0) : Type 0 where
  pub by_audit : {a w : Tables} → SameTables w a → P a → P w
  pub by_logout : {a : Tables} (hash : Text) → P a → P (forgotten a hash)
  pub by_touch :
      {a : Tables} (hash : Text) (r : SessionRow) (at : ℕ)
      → lookup hash a.sessions ≡ some r
      → P a
      → P (touched a hash r at)

module _ {P : Tables → Type 0} (steady : IsSteady P) where
  commit_keeps : (k : Commit) (db w : Tables) (v : SessionView) → P db → P w → P (commit k db w v).0
  commit_keeps Commit.committed db w v p q = q
  commit_keeps Commit.aborted db w v p q = p
  commit_keeps Commit.lost db w v p q = q

  operate-Keeps :
      (lib : Library) (origin : Text) (drawn : Bool) (touch_at : ℕ) (k : Commit) (op : Operation)
      (hash : Text) (s : Snapshot) (db : Tables)
      → P db
      → P (operate lib origin drawn touch_at k op hash s db).0
  unfolding operate
  operate-Keeps lib origin drawn touch_at k Operation.read hash s db p =
      commit_keeps k db db (view s) p p
  operate-Keeps lib origin drawn touch_at k Operation.logout hash s db p =
      some_cases (λ (o : Tables × Result Error SessionView). P o.0) _ (db, err Error.unavailable) _
        (λ e. p)
        (λ w e.
          commit_keeps k db w (view s) p
            (steady.by_audit (audit_auth-same _ _ _ _ _ _ w e) (steady.by_logout hash p)))
  operate-Keeps lib origin drawn touch_at k Operation.touch hash s db p =
      some_cases (λ (o : Tables × Result Error SessionView). P o.0) (lookup hash db.sessions)
        (db, err unauthenticated) _ (λ e. p)
        (λ row e.
          if_cases (λ (o : Tables × Result Error SessionView). P o.0) (not (may_touch row touch_at))
            (λ i. p)
            (λ i.
              commit_keeps k db (touched db hash row touch_at) _ p
                (steady.by_touch hash row touch_at e p)))

  pub run_keeps :
      (lib : Library) (origin : Text) (drawn : Bool) (touch_at : ℕ) (k : Commit) (token : Text)
      (r : Option Request) (op : Operation) (now : ℕ) (db : Tables)
      → P db
      → P (run lib origin drawn touch_at k token r op now db).0
  unfolding run
  run_keeps lib origin drawn touch_at k token r op now db p =
      some_cases (λ (o : Tables × Result Error SessionView). P o.0) (token_hash lib token)
        (db, err unauthenticated) _ (λ e. p)
        (λ hash e.
          if_cases (λ (o : Tables × Result Error SessionView). P o.0)
            (mutates op && not (is_post lib origin drawn touch_at k r)) (λ i. p)
            (λ i. loaded hash (load_session db hash now)))
    where
      permitted :
          (hash : Text) (s : Snapshot) (o : Option Session.Error)
          → P (permit lib origin drawn touch_at k op hash s db o).0
      permitted hash s none = operate-Keeps lib origin drawn touch_at k op hash s db p
      permitted hash s (some e) = p

      loaded :
          (hash : Text) (o : Result Error Snapshot)
          → P (authorized lib origin drawn touch_at k op r hash db o).0
      loaded hash (err e) = p
      loaded hash (ok s) = permitted hash s (admitted lib origin drawn touch_at k op r s.csrf)

module _ (P : Tables → Type 0) where
  pub reauth_keeps :
      (lib : Library) (hex : Text → Text) (token : Text) (r : Command) (action target raw : Text)
      (at : ℕ) (db : Tables)
      → P db
      → ((hash : Text) (row : Proof) → row.consumed ≡ false → P (spent db hash row))
      → P (consume_reauth lib hex token r action target raw at db).0
  unfolding consume_reauth
  reauth_keeps lib hex token r action target raw at db p q =
      let Q = λ (o : Tables × Result Error (Unit {0})). P o.0 in
      if_cases Q (not (length r.reauth_tokens == 1)) (λ i. p)
        (λ i.
          some_cases Q (token_hash lib (get r.reauth_tokens)) (db, err forbidden) _ (λ e. p)
            (λ hash e.
              some_cases Q (lookup hash db.proofs) (db, err forbidden) _ (λ e. p)
                (λ row e.
                  if_cases Q
                    (not (
                      is_usable row (session_hash lib token) action target
                        (action_request_digest hex r.method target (get r.if_match) raw) at))
                    (λ j. p) (λ j. q hash row (ground arith)))))
