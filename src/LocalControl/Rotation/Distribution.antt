-- ===== src/LocalControl/Rotation/Distribution.antt =====
-- internal/localcontrol: the roles' identity files under RotateKeys.
use waiting_room.Base.{
  ◌≡◌, ◌⊎◌, inl, inr, refl, ap, subst, arith, true, false, List, [], ◌∷◌, Option, none, some, Text,
  text_eq, text_eq_refl, length, Result, ok, err, is_ok,
}
use waiting_room.Keyring.{
  Set, Ed25519, validate, for_role, owner, control, gateway, coordinator, sanitize, keys_ok, keys,
  refused_key,
}
use waiting_room.Keyring.Given.{IsServiceRole}
use waiting_room.Keyring.Roles.{for_role-validate}
use waiting_room.LocalControl.Rotation.{Error, File, NodeIdentity, Files}
use waiting_room.LocalControl.Rotation.Calls.{
  Role, name_of, file_of, put_file, outcome, later, on_write, on_load, distribute,
}
use waiting_room.LocalControl.Rotation.Identity.{
  State, Write, Crypto, agrees, refused_identity, keyring_ok, load_identity, scoped,
}

service_role : (r : Role) → IsServiceRole (name_of r)
service_role Role.control_role = inl refl
service_role Role.gateway_role = inr (inr refl)
service_role Role.coordinator_role = inr (inl refl)

agrees-scoped :
    (st : State) (s : Set) (role : Text) (n : NodeIdentity)
    → agrees (scoped st s role n) (for_role s role).current ≡ true
unfolding agrees scoped
agrees-scoped st s role n =
    let k = (for_role s role).current in
    ground (
      arith,
      text_eq_refl k.config_public,
      text_eq_refl k.admission_public,
      text_eq_refl k.config_private,
      text_eq_refl k.admission_private,
      text_eq_refl k.replay,
      text_eq_refl k.return,
    )

-- The keyring of an identity that is made for a role.
keyring_scoped :
    (ed : Ed25519) (st : State) (s : Set) (r : Role) (n : NodeIdentity)
    → validate ed s owner ≡ none
    → length st.public_source ≡ 32
    → keyring_ok ed (name_of r) (scoped st s (name_of r) n) ≡ true
unfolding keyring_ok scoped text_eq
keyring_scoped ed st s Role.control_role n v l =
    ground (arith, (for_role-validate ed s control (inl refl) v).0, agrees-scoped st s control n)
keyring_scoped ed st s Role.gateway_role n v l =
    ground
      (arith, (for_role-validate ed s gateway (inr (inr refl)) v).0, agrees-scoped st s gateway n)
keyring_scoped ed st s Role.coordinator_role n v l = ground (
  arith,
  (for_role-validate ed s coordinator (inr (inl refl)) v).0,
  agrees-scoped st s coordinator n,
)

-- The rest of what LoadIdentity looks at, which the keys do not change but for the public keys.
identity_scoped :
    (ed : Ed25519) (st : State) (s : Set) (name : Text) (n : NodeIdentity)
    → length s.current.config_public ≡ 32
    → length s.current.admission_public ≡ 32
    → refused_identity name n ≡ false
    → refused_identity name (scoped st s name n) ≡ false
unfolding refused_identity scoped for_role sanitize
identity_scoped ed st s name n p q h = ground arith

public_lengths :
    (ed : Ed25519) (s : Set)
    → validate ed s owner ≡ none
    → (length s.current.config_public ≡ 32) × (length s.current.admission_public ≡ 32)
unfolding validate keys_ok keys refused_key
public_lengths ed s v = (ground arith, ground arith)

certificate_scoped :
    (c : Crypto) (st : State) (s : Set) (role : Text) (n : NodeIdentity)
    → c.tls
        (scoped st s role n).ca
        (scoped st s role n).certificate
        (scoped st s role n).private_key
        (scoped st s role n).node
      ≡ c.tls n.ca n.certificate n.private_key n.node
unfolding scoped
certificate_scoped c st s role n = refl

-- A file that LoadIdentity accepts for the role.
abbrev pub Loads : Crypto → Role → File NodeIdentity → Type 0
Loads c r f = is_ok (load_identity c (name_of r) f) ≡ true

scoped-Loads :
    (c : Crypto) (st : State) (s : Set) (r : Role) (n : NodeIdentity)
    → validate c.ed s owner ≡ none
    → length st.public_source ≡ 32
    → Loads c r (File.holds n)
    → Loads c r (File.holds (scoped st s (name_of r) n))
unfolding load_identity
scoped-Loads c st s r n v l h =
    let (p, q) = public_lengths c.ed s v in
    let same : c.tls (scoped st s (name_of r) n).ca (scoped st s (name_of r) n).certificate
          (scoped st s (name_of r) n).private_key (scoped st s (name_of r) n).node
        ≡ c.tls n.ca n.certificate n.private_key n.node =
      certificate_scoped c st s (name_of r) n in
    ground
      (arith, keyring_scoped c.ed st s r n v l, identity_scoped c.ed st s (name_of r) n p q, same)

abbrev pub AllLoad : Crypto → Files → Type 0
AllLoad c f = (r : Role) → Loads c r (file_of f r)

-- The role's file has the keys that the role is given of the set.
abbrev pub IsGiven : Set → Files → Role → Type 0
IsGiven s f r =
    (n : NodeIdentity) × (file_of f r ≡ File.holds n) × (n.keys ≡ some (for_role s (name_of r)))

-- A property of a role's file, which a write of another role's file does not change.
put_file-at :
    (P : (r : Role) → File NodeIdentity → Type 0) (f : Files) (r' : Role) (n : NodeIdentity)
    (r : Role)
    → P r (file_of f r)
    → P r' (File.holds n)
    → P r (file_of (put_file f r' n) r)
put_file-at P f Role.control_role n Role.control_role p q = q
put_file-at P f Role.control_role n Role.gateway_role p q = p
put_file-at P f Role.control_role n Role.coordinator_role p q = p
put_file-at P f Role.gateway_role n Role.control_role p q = p
put_file-at P f Role.gateway_role n Role.gateway_role p q = q
put_file-at P f Role.gateway_role n Role.coordinator_role p q = p
put_file-at P f Role.coordinator_role n Role.control_role p q = p
put_file-at P f Role.coordinator_role n Role.gateway_role p q = p
put_file-at P f Role.coordinator_role n Role.coordinator_role p q = q

put_file_self :
    (f : Files) (r : Role) (n : NodeIdentity) → file_of (put_file f r n) r ≡ File.holds n
put_file_self f Role.control_role n = refl
put_file_self f Role.gateway_role n = refl
put_file_self f Role.coordinator_role n = refl

scoped_keys :
    (st : State) (s : Set) (role : Text) (n : NodeIdentity)
    → (scoped st s role n).keys ≡ some (for_role s role)
unfolding scoped
scoped_keys st s role n = refl

load_identity-holds :
    (c : Crypto) (name : Text) (f : File NodeIdentity) (n : NodeIdentity)
    → load_identity c name f ≡ ok n
    → f ≡ File.holds n
unfolding load_identity
load_identity-holds c name File.missing n h = cc
load_identity-holds c name File.unreadable n h = cc
load_identity-holds c name (File.holds m) n h = ground arith

-- The ways in which the next role's file is loaded and written.
module _ {ℓ} (P : Files × Option Error → Type ℓ) where
  on_load_cases :
      (o : Result Error NodeIdentity) (f : Files) (rest : NodeIdentity → Files × Option Error)
      → ((e : Error) → o ≡ err e → P (f, some e))
      → ((n : NodeIdentity) → o ≡ ok n → P (rest n))
      → P (on_load o f rest)
  on_load_cases (err e) f rest p q = p e refl
  on_load_cases (ok n) f rest p q = q n refl

  pub on_write_cases :
      (w : Write) (f f' : Files) (rest : Files × Option Error)
      → P (f, some Error.unavailable)
      → P (f', some Error.unavailable)
      → P rest
      → P (on_write w f f' rest)
  on_write_cases Write.written f f' rest p p' q = q
  on_write_cases Write.published f f' rest p p' q = p'
  on_write_cases Write.failed f f' rest p p' q = p

abbrev pub In : Role → List Role → Type 0
In r [] = ⊥
In r (x ∷ xs) = (x ≡ r) ⊎ In r xs

abbrev pub OnSuccess : (Files → Type 0) → Files × Option Error → Type 0
OnSuccess P (f, none) = P f
OnSuccess P (f, some e) = Unit

module _ (c : Crypto) (st : State) (s : Set) (v : validate c.ed s owner ≡ none)
    (l : length st.public_source ≡ 32) where
  written-AllLoad :
      (f : Files) (r : Role) (n : NodeIdentity)
      → AllLoad c f
      → load_identity c (name_of r) (file_of f r) ≡ ok n
      → AllLoad c (put_file f r (scoped st s (name_of r) n))
  written-AllLoad f r n h e =
      let loads : Loads c r (File.holds n) =
        subst (Loads c r) (load_identity-holds c (name_of r) (file_of f r) n e) (h r) in
      λ x.
        put_file-at (Loads c) f r (scoped st s (name_of r) n) x (h x)
          (scoped-Loads c st s r n v l loads)

  pub distribute-AllLoad :
      (rs : List Role) (ws : List Write) (f : Files)
      → AllLoad c f
      → AllLoad c (distribute c st s rs ws f).0
  unfolding distribute
  distribute-AllLoad [] ws f h = h
  distribute-AllLoad (r ∷ rs) ws f h =
      on_load_cases (λ (o : Files × Option Error). AllLoad c o.0)
        (load_identity c (name_of r) (file_of f r)) f
        (λ n.
          let f' = put_file f r (scoped st s (name_of r) n) in
          on_write (outcome ws) f f' (distribute c st s rs (later ws) f'))
        (λ e i. h)
        (λ n i.
          let f' = put_file f r (scoped st s (name_of r) n) in
          let h' = written-AllLoad f r n h i in
          on_write_cases (λ (o : Files × Option Error). AllLoad c o.0) (outcome ws) f f'
            (distribute c st s rs (later ws) f') h h' (distribute-AllLoad rs (later ws) f' h'))

  -- Where every file loads and every write succeeds, the loop comes to its end.
  pub distribute_completes :
      (rs : List Role) (f : Files) → AllLoad c f → (distribute c st s rs [] f).1 ≡ none
  unfolding distribute
  distribute_completes [] f h = refl
  distribute_completes (r ∷ rs) f h =
      on_load_cases (λ (o : Files × Option Error). o.1 ≡ none)
        (load_identity c (name_of r) (file_of f r)) f
        (λ n. distribute c st s rs [] (put_file f r (scoped st s (name_of r) n)))
        (λ e i. absurd (cc (h r, ap is_ok i)))
        (λ n i.
          distribute_completes rs (put_file f r (scoped st s (name_of r) n))
            (written-AllLoad f r n h i))

pub distribute-IsGiven :
    (c : Crypto) (st : State) (s : Set) (rs : List Role) (ws : List Write) (f : Files)
    → ((r : Role) → In r rs ⊎ IsGiven s f r)
    → OnSuccess (λ g. (r : Role) → IsGiven s g r) (distribute c st s rs ws f)
unfolding distribute
distribute-IsGiven c st s [] ws f h = λ r. elim (h r) [ inl i ↦ absurd i | inr g ↦ g ]
distribute-IsGiven c st s (x ∷ rs) ws f h =
    on_load_cases (OnSuccess (λ g. (r : Role) → IsGiven s g r))
      (load_identity c (name_of x) (file_of f x)) f
      (λ n.
        let f' = put_file f x (scoped st s (name_of x) n) in
        on_write (outcome ws) f f' (distribute c st s rs (later ws) f'))
      (λ e i. tt)
      (λ n i.
        let f' = put_file f x (scoped st s (name_of x) n) in
        on_write_cases (OnSuccess (λ g. (r : Role) → IsGiven s g r)) (outcome ws) f f'
          (distribute c st s rs (later ws) f') tt tt
          (distribute-IsGiven c st s rs (later ws) f' (λ r. next n r (h r))))
  where
    here : (n : NodeIdentity) → IsGiven s (put_file f x (scoped st s (name_of x) n)) x
    here n = (
      scoped st s (name_of x) n,
      put_file_self f x (scoped st s (name_of x) n),
      scoped_keys st s (name_of x) n,
    )

    next :
        (n : NodeIdentity) (r : Role)
        → In r (x ∷ rs) ⊎ IsGiven s f r
        → In r rs ⊎ IsGiven s (put_file f x (scoped st s (name_of x) n)) r
    next n r (inl (inl e)) =
        inr (subst (IsGiven s (put_file f x (scoped st s (name_of x) n))) e (here n))
    next n r (inl (inr i)) = inl i
    next n r (inr g) = inr (
        put_file-at
          (λ r file.
            (m : NodeIdentity) × (file ≡ File.holds m) × (m.keys ≡ some (for_role s (name_of r))))
          f x (scoped st s (name_of x) n) r g
          (scoped st s (name_of x) n, refl, scoped_keys st s (name_of x) n))
