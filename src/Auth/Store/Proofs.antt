-- ===== src/Auth/Store/Proofs.antt =====
-- internal/adminauth/pgstore/reauth.go: the one use of a proof.
use waiting_room.Base.{
  lookup-keep, ℕ, ◌<◌, ◌≤◌, ◌≡◌, ◌≢◌, inl, inr, refl, sym, ap, ◌∙◌, subst, arith, true, false, not,
  Bool-cases, some, ◌==◌, if_cases, some_cases, Text, text_eq, text_eq_iff, length, lookup,
  lookup-insert, lookup-insert_self, insert-Distinct, keep-Distinct, Distinct, Result, ok, err,
}
use waiting_room.Auth.Csrf.{get}
use waiting_room.Auth.Store.{Proof, Tables, Library, token_hash}
use waiting_room.Auth.Store.Counters.{SameTables}
use waiting_room.Auth.Store.Sessions.{Error, forbidden}
use waiting_room.Auth.Store.Reauth.{
  Command, consume_reauth, is_usable, spent, session_hash, action_request_digest,
}
use waiting_room.Auth.Store.Frame.{IsSteady, run_keeps, reauth_keeps}
use waiting_room.Auth.Store.LoginFrame.{IsStable, complete_totp_keeps}
use waiting_room.Auth.Store.Once.{Later}

-- The proof and the command that spends it.
pub record Spends (lib : Library) (hex : Text → Text) (token : Text) (r : Command)
    (action target raw : Text) (at : ℕ) (before after : Tables) : Type 0 where
  pub hash : Text
  pub proof : Proof
  pub single : length r.reauth_tokens ≡ 1
  pub hashed : token_hash lib (get r.reauth_tokens) ≡ some hash
  pub has_proof : lookup hash before.proofs ≡ some proof
  pub own_session : proof.session_hash ≡ session_hash lib token
  pub own_action : proof.action ≡ action
  pub own_target : proof.target_id ≡ target
  pub own_request :
      proof.request_digest ≡ action_request_digest hex r.method target (get r.if_match) raw
  pub unspent : proof.consumed ≡ false
  pub started : proof.created_at ≤ at
  pub unexpired : at < proof.expires_at
  pub left : after ≡ spent before hash proof

abbrev IfSpent : (Tables → Type 0) → Tables × Result Error (Unit {0}) → Type 0
IfSpent P (w, ok u) = P w
IfSpent P (w, err e) = Unit

spends :
    (lib : Library) (hex : Text → Text) (token : Text) (r : Command) (action target raw : Text)
    (at : ℕ) (db : Tables)
    → IfSpent
        (Spends lib hex token r action target raw at db)
        (consume_reauth lib hex token r action target raw at db)
unfolding consume_reauth
spends lib hex token r action target raw at db =
    let P = IfSpent (Spends lib hex token r action target raw at db) in
    let digest = action_request_digest hex r.method target (get r.if_match) raw in
    if_cases P (not (length r.reauth_tokens == 1)) (λ i. tt)
      (λ one.
        some_cases P (token_hash lib (get r.reauth_tokens)) (db, err forbidden) _ (λ e. tt)
          (λ hash e1.
            some_cases P (lookup hash db.proofs) (db, err forbidden) _ (λ e. tt)
              (λ p e2.
                if_cases P (not (is_usable p (session_hash lib token) action target digest at))
                  (λ j. tt)
                  (λ j. record {
                    hash = hash;
                    proof = p;
                    single = ground arith;
                    hashed = e1;
                    has_proof = e2;
                    own_session =
                        ground (arith, text_eq_iff p.session_hash (session_hash lib token));
                    own_action = ground (arith, text_eq_iff p.action action);
                    own_target = ground (arith, text_eq_iff p.target_id target);
                    own_request = ground (arith, text_eq_iff p.request_digest digest);
                    unspent = ground arith;
                    started = ground arith;
                    unexpired = ground arith;
                    left = refl;
                  }))))

-- A proof that is consumed, or gone, in a table where no hash has two rows.
abbrev IsGone : Text → Tables → Type 0
IsGone h db = Distinct db.proofs × ((p : Proof) → lookup h db.proofs ≡ some p → p.consumed ≡ true)

IsGone-same : (h : Text) (a w : Tables) → SameTables w a → IsGone h a → IsGone h w
IsGone-same h a w same g =
    let (_, _, _, _, _, e) = same in
    (subst Distinct (sym e) g.0, λ p f. g.1 p (sym (ap (lookup h) e) ∙ f))

IsGone-stable : (h : Text) → IsStable (IsGone h)
IsGone-stable h = record {
  by_audit = λ {a} {w} same g. IsGone-same h a w same g;
  by_count = λ user row n g. g;
  by_use = λ hash ch g. g;
  by_opening = λ c at g. g;
  by_try = λ hash ch found open' g. g;
}

IsGone-steady : (h : Text) → IsSteady (IsGone h)
IsGone-steady h = record {
  by_audit = λ {a} {w} same g. IsGone-same h a w same g;
  by_logout = λ {a} hash g. (
    keep-Distinct (λ e. not (text_eq e.1.session_hash hash)) a.proofs g.0,
    λ p f. g.1 p (lookup-keep (λ e. not (text_eq e.1.session_hash hash)) h a.proofs p g.0 f),
  );
  by_touch = λ hash r at e g. g;
}

-- A spent proof's row, seen by the lookup of any proof.
spent-IsGone :
    (h hash : Text) (row : Proof) (db : Tables) → IsGone h db → IsGone h (spent db hash row)
spent-IsGone h hash row db g = (
  insert-Distinct hash (record row { consumed = true }) db.proofs g.0,
  λ p f.
      let seen = sym (lookup-insert hash h (record row { consumed = true }) db.proofs) ∙ f in
      elim (Bool-cases (text_eq hash h)) [
        | inl same ↦
            let found : some (record row { consumed = true }) ≡ some p = rw same at seen in
            ground arith
        | inr other ↦ g.1 p (rw other at seen)
      ],
)

spent_self :
    (hash : Text) (row : Proof) (db : Tables) → Distinct db.proofs → IsGone hash (spent db hash row)
spent_self hash row db d = (
  insert-Distinct hash (record row { consumed = true }) db.proofs d,
  λ p f.
      let seen = sym (lookup-insert_self hash (record row { consumed = true }) db.proofs) ∙ f in
      ground arith,
)

Later-IsGone :
    (lib : Library) (hex : Text → Text) (origin h : Text) (before : Tables) {after : Tables}
    → Later lib hex origin before after
    → IsGone h before
    → IsGone h after
Later-IsGone lib hex origin h before Later.start g = g
Later-IsGone lib hex origin h before (Later.login {t} d challenge code l) g =
    complete_totp_keeps (IsGone-stable h) lib d challenge code t
      (Later-IsGone lib hex origin h before l g)
Later-IsGone lib hex origin h before (Later.session {t} drawn touch_at k token r op now l) g =
    run_keeps (IsGone-steady h) lib origin drawn touch_at k token r op now t
      (Later-IsGone lib hex origin h before l g)
Later-IsGone lib hex origin h before (Later.reauth {t} token r action target raw at l) g =
    let q = Later-IsGone lib hex origin h before l g in
    reauth_keeps (IsGone h) lib hex token r action target raw at t q
      (λ hash row e. spent-IsGone h hash row t q)

-- A proof of reauthentication that is accepted was made for the session, the action, the target and
-- the exact request that it is used for, was not used before and is within its time; it is the one row
-- that changes, and it authorizes nothing more: no later call with the same header is accepted, for
-- any session and command, after any sequence of logins, session operations and uses of proofs.
pub consume_reauth_once :
    (lib : Library) (hex : Text → Text) (origin token token' : Text) (r r' : Command)
    (action action' target target' raw raw' : Text) (at at' : ℕ) (before after later' end : Tables)
    → Distinct before.proofs
    → consume_reauth lib hex token r action target raw at before ≡ (after, ok tt)
    → Later lib hex origin after later'
    → r'.reauth_tokens ≡ r.reauth_tokens
    → Spends lib hex token r action target raw at before after
      × (consume_reauth lib hex token' r' action' target' raw' at' later' ≢ (end, ok tt))
consume_reauth_once lib hex origin token token' r r' action action' target target' raw raw' at at'
      before after later' end d h l same =
    let s =
      subst (IfSpent (Spends lib hex token r action target raw at before)) h
        (spends lib hex token r action target raw at before) in
    (
      s,
      λ again.
          let t =
            subst (IfSpent (Spends lib hex token' r' action' target' raw' at' later')) again
              (spends lib hex token' r' action' target' raw' at' later') in
          let gone =
            Later-IsGone lib hex origin s.hash after l
              (subst (IsGone s.hash) (sym s.left) (spent_self s.hash s.proof before d)) in
          let tokens : token_hash lib (get r.reauth_tokens) ≡ some t.hash =
            subst (λ x. token_hash lib (get x) ≡ some t.hash) same t.hashed in
          let hashes : t.hash ≡ s.hash = cc (tokens, s.hashed) in
          let row : lookup s.hash later'.proofs ≡ some t.proof =
            subst (λ x. lookup x later'.proofs ≡ some t.proof) hashes t.has_proof in
          absurd (cc (gone.1 t.proof row, t.unspent)),
    )
