-- ===== src/Auth/Store/Logout.antt =====
-- internal/adminauth/pgstore: the session that a logout ends, over the calls that follow.
use waiting_room.Base.{
  Bool-cases, inl, lookup-insert, ℕ, ◌≡◌, ◌≢◌, inr, refl, sym, ap, ◌∙◌, subst, arith, Bool, false,
  not, ◌&&◌, List, [], ◌∷◌, Option, none, some, ◌==◌, if_cases, some_cases, keep, Text, text_eq,
  text_eq_iff, length, lookup, Result, ok, err,
}
use waiting_room.Auth.Session
use waiting_room.Auth.Session.{
  AuthPolicy, Account, validate, is_none, check_session, session_idle_ttl, session_absolute_ttl,
}
use waiting_room.Auth.Validity.{Holds, check_session-Holds}
use waiting_room.Auth.Csrf.{Request}
use waiting_room.Auth.Store.{SessionRow, Tables, Commit, Library, token_hash}
use waiting_room.Auth.Store.Reauth.{Command, consume_reauth}
use waiting_room.Auth.Store.Frame.{IsSteady, run_keeps, reauth_keeps}
use waiting_room.Auth.Store.Counters.{audit_auth-same}
use waiting_room.Auth.Store.Sessions.{
  Operation, Error, SessionView, Snapshot, session_of, checked, commit, operate, permit, authorized,
  admitted, run, load_session, is_post, mutates, view, unauthenticated,
}

-- A lookup in the rows that are kept.
lookup-keep_removed {ℓ} :
    {V : Type ℓ} (h : Text) (m : List (Text × V))
    → lookup h (keep (λ e. not (text_eq e.0 h)) m) ≡ none
unfolding lookup keep
lookup-keep_removed h [] = refl
lookup-keep_removed h ((k, v) ∷ m) = ground (arith, lookup-keep_removed h m)

lookup-keep_other {ℓ} :
    {V : Type ℓ} (h j : Text) (m : List (Text × V))
    → text_eq j h ≡ false
    → lookup j (keep (λ e. not (text_eq e.0 h)) m) ≡ lookup j m
unfolding lookup keep
lookup-keep_other h j [] n = refl
lookup-keep_other h j ((k, v) ∷ m) n =
    ground (arith, lookup-keep_other h j m n, text_eq_iff k h, text_eq_iff k j, text_eq_iff j h)

-- What is known of the tables and the view of a result.
abbrev IfDone : (Tables → Type 0) → Tables × Result Error SessionView → Type 0
IfDone P (w, ok v) = P w
IfDone P (w, err e) = Unit

commit_done :
    (P : Tables → Type 0) (k : Commit) (db w : Tables) (v : SessionView)
    → P w
    → IfDone P (commit k db w v)
commit_done P Commit.committed db w v p = p
commit_done P Commit.aborted db w v p = tt
commit_done P Commit.lost db w v p = tt

-- The tables of a logout that is reported.
abbrev pub LoggedOut : Text → Tables → Tables → Type 0
LoggedOut hash before after =
    (lookup hash after.sessions ≡ none)
    × ((j : Text) → j ≢ hash → lookup j after.sessions ≡ lookup j before.sessions)
    × (after.policy ≡ before.policy)
    × (after.accounts ≡ before.accounts)
    × (after.credentials ≡ before.credentials)

module _ (lib : Library) (origin : Text) (drawn : Bool) (touch_at : ℕ) (k : Commit) (token : Text)
    (r : Option Request) (now : ℕ) (db : Tables) (hash : Text) where
  logout_done :
      (s : Snapshot)
      → IfDone (LoggedOut hash db) (operate lib origin drawn touch_at k Operation.logout hash s db)
  unfolding operate
  logout_done s =
      some_cases (IfDone (LoggedOut hash db)) _ (db, err Error.unavailable) _ (λ e. tt)
        (λ w e.
          let (p, a, c, _, sessions, _) = audit_auth-same _ _ _ _ _ _ w e in
          commit_done (LoggedOut hash db) k db w (view s) (
            ap (lookup hash) sessions ∙ lookup-keep_removed hash db.sessions,
            λ j n.
                ap (lookup j) sessions
                ∙ lookup-keep_other hash j db.sessions (ground (arith, text_eq_iff j hash)),
            p,
            a,
            c,
          ))

  logout_authorized :
      (o : Result Error Snapshot)
      → IfDone
          (LoggedOut hash db)
          (authorized lib origin drawn touch_at k Operation.logout r hash db o)
  logout_authorized (err e) = tt
  logout_authorized (ok s) =
      permitted (admitted lib origin drawn touch_at k Operation.logout r s.csrf)
    where
      permitted :
          (o : Option Session.Error)
          → IfDone
              (LoggedOut hash db)
              (permit lib origin drawn touch_at k Operation.logout hash s db o)
      permitted none = logout_done s
      permitted (some e) = tt

  run_logout :
      token_hash lib token ≡ some hash
      → IfDone (LoggedOut hash db) (run lib origin drawn touch_at k token r Operation.logout now db)
  unfolding run
  run_logout e = rw e (
      if_cases (IfDone (LoggedOut hash db))
        (mutates Operation.logout && not (is_post lib origin drawn touch_at k r)) (λ i. tt)
        (λ i. logout_authorized (load_session db hash now)))

-- A snapshot of the tables that CheckSession accepts.
abbrev IfLoaded : (Snapshot → Type 0) → Result Error Snapshot → Type 0
IfLoaded P (ok s) = P s
IfLoaded P (err e) = Unit

-- A session that is loaded is in its table, and holds.
abbrev IsLoaded : Tables → Text → ℕ → Snapshot → Type 0
IsLoaded db hash now s =
    (row : SessionRow) × (lookup hash db.sessions ≡ some row)
    × (s.session ≡ session_of row)
    × Holds s.account s.session s.policy now

checked-IsLoaded :
    (db : Tables) (hash : Text) (now : ℕ) (s : Snapshot) (row : SessionRow)
    → lookup hash db.sessions ≡ some row
    → s.session ≡ session_of row
    → (o : Option Session.Error) → o ≡ check_session s.account s.session s.policy now
    → IfLoaded (IsLoaded db hash now) (checked s o)
checked-IsLoaded db hash now s row e same none h =
    (row, e, same, (check_session-Holds s.account s.session s.policy now).0.0 (sym h))
checked-IsLoaded db hash now s row e same (some x) h = tt

load_session-IsLoaded :
    (db : Tables) (hash : Text) (now : ℕ)
    → IfLoaded (IsLoaded db hash now) (load_session db hash now)
unfolding load_session
load_session-IsLoaded db hash now =
    let P = IfLoaded (IsLoaded db hash now) in
    some_cases P db.policy (err Error.unavailable) _ (λ e. tt)
      (λ p e1.
        if_cases P (not (is_none (validate p))) (λ i. tt)
          (λ v.
            some_cases P (lookup hash db.sessions) (err unauthenticated) _ (λ e. tt)
              (λ row e2.
                some_cases P (lookup row.user_id db.accounts) (err unauthenticated) _ (λ e. tt)
                  (λ a e3.
                    if_cases P (not (length row.csrf_hash == 32)) (λ i. tt)
                      (λ i. checked-IsLoaded db hash now _ row e2 refl _ refl)))))

-- A session that is not there, which only a login makes.
abbrev IsGone : Text → Tables → Type 0
IsGone hash db = lookup hash db.sessions ≡ none

lookup-keep_missing {ℓ} :
    {V : Type ℓ} (h : Text) (p : Text × V → Bool) (m : List (Text × V))
    → lookup h m ≡ none
    → lookup h (keep p m) ≡ none
unfolding lookup keep
lookup-keep_missing h p [] e = refl
lookup-keep_missing h p ((k, v) ∷ m) e = elim (Bool-cases (text_eq k h)) [
  | inl here ↦ absurd (cc (rw here at e))
  | inr other ↦ ground (arith, lookup-keep_missing h p m (rw other at e))
]

IsGone-steady : (h : Text) → IsSteady (IsGone h)
IsGone-steady h = record {
  by_audit = λ same p. let (_, _, _, _, e, _) = same in ap (lookup h) e ∙ p;
  by_logout = λ {a} hash p. lookup-keep_missing h _ a.sessions p;
  by_touch = λ {a} hash r at found p. elim (Bool-cases (text_eq hash h)) [
    | inl same ↦ absurd (ground (arith, text_eq_iff hash h))
    | inr other ↦ lookup-insert hash h _ a.sessions ∙ rw other p
  ];
}

-- Calls that follow, logins apart: operations on sessions and uses of proofs, with whatever they draw
-- and read, and whichever of their commits fail.
pub data Quiet (lib : Library) (hex : Text → Text) (origin : Text) (before : Tables)
    : Tables → Type 0 where
  start : Quiet lib hex origin before before
  session :
      {t : Tables} (drawn : Bool) (touch_at : ℕ) (k : Commit) (token : Text) (r : Option Request)
      (op : Operation) (now : ℕ)
      → Quiet lib hex origin before t
      → Quiet lib hex origin before (run lib origin drawn touch_at k token r op now t).0
  reauth :
      {t : Tables} (token : Text) (r : Command) (action target raw : Text) (at : ℕ)
      → Quiet lib hex origin before t
      → Quiet lib hex origin before (consume_reauth lib hex token r action target raw at t).0

Quiet-IsGone :
    (lib : Library) (hex : Text → Text) (origin h : Text) (before : Tables) {end : Tables}
    → Quiet lib hex origin before end
    → IsGone h before
    → IsGone h end
Quiet-IsGone lib hex origin h before Quiet.start p = p
Quiet-IsGone lib hex origin h before (Quiet.session {t} drawn touch_at k token r op now q) p =
    run_keeps (IsGone-steady h) lib origin drawn touch_at k token r op now t
      (Quiet-IsGone lib hex origin h before q p)
Quiet-IsGone lib hex origin h before (Quiet.reauth {t} token r action target raw at q) p =
    let gone = Quiet-IsGone lib hex origin h before q p in
    reauth_keeps (IsGone h) lib hex token r action target raw at t gone (λ hash row fresh. gone)

-- After a logout that is reported, and any further operations on sessions and uses of proofs before
-- the next login, the session's token loads no session at any time. The logout leaves the sessions of
-- all other hashes, the policy, the accounts and the credentials as they were.
pub run_logout_ends :
    (lib : Library) (hex : Text → Text) (origin : Text) (drawn : Bool) (touch_at : ℕ) (k : Commit)
    (token hash : Text) (r : Option Request) (now at : ℕ) (before after : Tables) (v : SessionView)
    (s : Snapshot) {end : Tables}
    → token_hash lib token ≡ some hash
    → run lib origin drawn touch_at k token r Operation.logout now before ≡ (after, ok v)
    → Quiet lib hex origin after end
    → LoggedOut hash before after × (load_session end hash at ≢ ok s)
run_logout_ends lib hex origin drawn touch_at k token hash r now at before after v s {end} e h q =
    let left =
      subst (IfDone (LoggedOut hash before)) h
        (run_logout lib origin drawn touch_at k token r now before hash e) in
    let gone = Quiet-IsGone lib hex origin hash after q left.0 in
    (
      left,
      λ x.
          let (row, found, _, _) =
            subst (IfLoaded (IsLoaded end hash at)) x (load_session-IsLoaded end hash at) in
          absurd (cc (gone, found)),
    )
