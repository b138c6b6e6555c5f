-- ===== src/Auth/Store/Once.antt =====
-- internal/adminauth/pgstore: a login's challenge, over the calls that follow.
use waiting_room.Base.{
  ℕ, ◌≡◌, ◌≢◌, inl, inr, refl, sym, ap, ◌∙◌, subst, arith, Bool, true, false, Bool-cases, Option,
  some, Text, text_eq, text_eq_iff, lookup, insert, lookup-insert, lookup-insert_self, ok,
}
use waiting_room.Auth.Csrf.{Request}
use waiting_room.Auth.Store.{Challenge, Tables, Commit, Library}
use waiting_room.Auth.Store.Login.{Grant, Draw, tried, used, complete_totp}
use waiting_room.Auth.Store.Opened.{Opens, complete_totp-Opens}
use waiting_room.Auth.Store.Sessions.{Operation, run}
use waiting_room.Auth.Store.Reauth.{Command, consume_reauth}
use waiting_room.Auth.Store.Frame.{IsSteady, run_keeps, reauth_keeps}
use waiting_room.Auth.Store.LoginFrame.{IsStable, complete_totp_keeps}

-- The challenge is there, and consumed.
abbrev pub IsConsumed : Text → Tables → Type 0
IsConsumed h db = (ch : Challenge) × (lookup h db.challenges ≡ some ch) × (ch.consumed ≡ true)

consumed_insert :
    (h hash : Text) (ch : Challenge) (a b : Tables)
    → b.challenges ≡ insert hash ch a.challenges
    → (h ≡ hash → ch.consumed ≡ true)
    → IsConsumed h a
    → IsConsumed h b
consumed_insert h hash ch a b e here (c, found, yes') = elim (Bool-cases (text_eq hash h)) [
  | inl same ↦ (
    ch,
    ap (lookup h) e ∙ lookup-insert hash h ch a.challenges ∙ rw same refl,
    here (sym ((text_eq_iff hash h).0 same)),
  )
  | inr other ↦ (c, ap (lookup h) e ∙ lookup-insert hash h ch a.challenges ∙ rw other found, yes')
]

IsConsumed-stable : (h : Text) → IsStable (IsConsumed h)
IsConsumed-stable h = record {
  by_audit = λ same p. let (_, _, _, e, _, _) = same in (p.0, ap (lookup h) e ∙ p.1, p.2);
  by_count = λ user row n p. p;
  by_use = λ {a} hash ch p.
      consumed_insert h hash (record ch { consumed = true }) a (used a hash ch) refl (λ e. refl) p;
  by_opening = λ c at p. p;
  by_try = λ {a} hash ch found open' p.
      consumed_insert h hash _ a (tried a hash ch) refl
        (λ e.
          absurd (other a hash ch found open' (sym (ap (λ x. lookup x a.challenges) e) ∙ p.1) p.2))
        p;
}
  where
    other :
        (a : Tables) (hash : Text) (ch : Challenge) {c : Challenge}
        → lookup hash a.challenges ≡ some ch
        → ch.consumed ≡ false
        → lookup hash a.challenges ≡ some c
        → c.consumed ≡ true
        → ⊥
    other a hash ch found open' e yes' = absurd (ground arith)

-- The calls that follow, with whatever they draw and read, and whichever of their commits fail.
pub data Later (lib : Library) (hex : Text → Text) (origin : Text) (before : Tables)
    : Tables → Type 0 where
  start : Later lib hex origin before before
  login :
      {t : Tables} (d : Draw) (challenge code : Text)
      → Later lib hex origin before t
      → Later lib hex origin before (complete_totp lib d challenge code t).0
  session :
      {t : Tables} (drawn : Bool) (touch_at : ℕ) (k : Commit) (token : Text) (r : Option Request)
      (op : Operation) (now : ℕ)
      → Later lib hex origin before t
      → Later lib hex origin before (run lib origin drawn touch_at k token r op now t).0
  reauth :
      {t : Tables} (token : Text) (r : Command) (action target raw : Text) (at : ℕ)
      → Later lib hex origin before t
      → Later lib hex origin before (consume_reauth lib hex token r action target raw at t).0

IsConsumed-steady : (h : Text) → IsSteady (IsConsumed h)
IsConsumed-steady h = record {
  by_audit = λ same p. let (_, _, _, e, _, _) = same in (p.0, ap (lookup h) e ∙ p.1, p.2);
  by_logout = λ hash p. p;
  by_touch = λ hash r at e p. p;
}

Later-IsConsumed :
    (lib : Library) (hex : Text → Text) (origin h : Text) (before : Tables) {after : Tables}
    → Later lib hex origin before after
    → IsConsumed h before
    → IsConsumed h after
Later-IsConsumed lib hex origin h before Later.start p = p
Later-IsConsumed lib hex origin h before (Later.login {t} d challenge code l) p =
    complete_totp_keeps (IsConsumed-stable h) lib d challenge code t
      (Later-IsConsumed lib hex origin h before l p)
Later-IsConsumed lib hex origin h before (Later.session {t} drawn touch_at k token r op now l) p =
    run_keeps (IsConsumed-steady h) lib origin drawn touch_at k token r op now t
      (Later-IsConsumed lib hex origin h before l p)
Later-IsConsumed lib hex origin h before (Later.reauth {t} token r action target raw at l) p =
    let q = Later-IsConsumed lib hex origin h before l p in
    reauth_keeps (IsConsumed h) lib hex token r action target raw at t q (λ hash row e. q)

-- A login that opened a session consumed its challenge.
opened-IsConsumed :
    (lib : Library) (d : Draw) (challenge code : Text) (before after : Tables) (g : Grant)
    (o : Opens lib d challenge code before after g)
    → IsConsumed o.hash after
opened-IsConsumed lib d challenge code before after g o =
    let row = record o.accepted.challenge { consumed = true } in
    (
      row,
      ap (lookup o.hash) o.accepted.challenges_set
          ∙ lookup-insert_self o.hash row before.challenges,
      refl,
    )

-- A challenge opens one session: once CompleteTOTP granted a session for it, no later call for it does,
-- with any code, after any sequence of logins, session operations and uses of proofs whose commits
-- may fail.
pub complete_totp_once :
    (lib : Library) (hex : Text → Text) (origin : Text) (d d' : Draw) (challenge code code' : Text)
    (before after later' end : Tables) (g g' : Grant)
    → complete_totp lib d challenge code before ≡ (after, ok g)
    → Later lib hex origin after later'
    → complete_totp lib d' challenge code' later' ≢ (end, ok g')
complete_totp_once lib hex origin d d' challenge code code' before after later' end g g' h l again =
    let first = complete_totp-Opens lib d challenge code before after g h in
    let second = complete_totp-Opens lib d' challenge code' later' end g' again in
    let (ch, found, yes') =
      Later-IsConsumed lib hex origin first.hash after l
        (opened-IsConsumed lib d challenge code before after g first) in
    let hash : first.hash ≡ second.hash = ground (arith, first.hashed, second.hashed) in
    let row = second.has_row in
    let found' : lookup second.hash later'.challenges ≡ some ch =
      subst (λ x. lookup x later'.challenges ≡ some ch) hash found in
    let live = second.live in ground arith
