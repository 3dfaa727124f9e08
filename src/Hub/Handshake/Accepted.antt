-- ===== src/Hub/Handshake/Accepted.antt =====
-- Which agents src/http_server/hosts/listener.rs accepts.
use procinsh.Prelude.{
  ℕ, ◌≡◌, refl, sym, ap, Bool, true, false, not, ◌==◌, Option, none, some, List, Result, ok, err,
  arith, if_split,
}
use mathlib.Core.Logic.{◌↔◌}
use procinsh.Hub.Names.{HostInfo, valid_host_name}
use procinsh.Hub.Registry.{HostRegistry, AdmitError, admit}
use procinsh.Hub.Frames.{Message, Hello}
use procinsh.Hub.Secrets.{same_secret_iff}
use procinsh.Hub.Handshake.{
  HandshakeError, host_info, unwrap_or_default, is_mismatch, refusing, Handshake, admission,
  answered, accept_agent_handshake,
}

-- The token that the hub wants, if it wants one, is offered.
abbrev pub Offers : Option (List ℕ) → Option (List ℕ) → Type 0
Offers none offered = Unit
Offers (some expected) offered = expected ≡ unwrap_or_default offered

is_mismatch_sound :
    (token offered : Option (List ℕ)) → is_mismatch token offered ≡ false → Offers token offered
unfolding is_mismatch
is_mismatch_sound none offered e = tt
is_mismatch_sound (some expected) offered e =
    (same_secret_iff expected (unwrap_or_default offered)).0 (ground arith)

is_mismatch_complete :
    (wanted offered : Option (List ℕ)) → Offers wanted offered → is_mismatch wanted offered ≡ false
unfolding is_mismatch
is_mismatch_complete none offered o = refl
is_mismatch_complete (some expected) offered o =
    let same = (same_secret_iff expected (unwrap_or_default offered)).1 o in ground (arith, same)

module _ (protect : HostInfo → HostInfo) (token : Option (List ℕ)) (now handle : ℕ) (h : Hello)
    (r : HostRegistry) where
  -- What an admission means: the hello is as it must be, and the registry admits the protected host.
  abbrev pub IsAdmitted : ℕ → HostRegistry → Type 0
  IsAdmitted id after =
      (h.protocol ≡ 2)
      × Offers token h.token
      × (valid_host_name h.host ≡ true)
      × (admit now (protect (host_info h)) handle r ≡ (ok id, after))

  refusing_sound :
      (x : Result AdmitError ℕ × HostRegistry) (id : ℕ) (after : HostRegistry)
      → refusing x ≡ (ok id, after)
      → x ≡ (ok id, after)
  refusing_sound (err e, r') id after f = absurd (cc f)
  refusing_sound (ok n, r') id after f = ground arith

  admission_sound :
      (id : ℕ) (after : HostRegistry)
      → admission protect token now handle h r ≡ (ok id, after)
      → IsAdmitted id after
  unfolding admission
  admission_sound id after =
      let P =
        λ (x : Result HandshakeError ℕ × HostRegistry). x ≡ (ok id, after) → IsAdmitted id after in
      if_split P (not (h.protocol == 2)) (λ _ f. absurd (cc f))
        (λ p.
          if_split P (is_mismatch token h.token) (λ _ f. absurd (cc f))
            (λ o.
              if_split P (not (valid_host_name h.host)) (λ _ f. absurd (cc f))
                (λ v f. (
                  ground arith,
                  is_mismatch_sound token h.token o,
                  ground arith,
                  refusing_sound (admit now (protect (host_info h)) handle r) id after f,
                ))))

  admission_complete :
      (id : ℕ) (after : HostRegistry)
      → IsAdmitted id after
      → admission protect token now handle h r ≡ (ok id, after)
  unfolding admission
  admission_complete id after (p, o, v, e) =
      let same : (h.protocol == 2) ≡ true = ground arith in
      rw (admission, same, is_mismatch_complete token h.token o, v, e)

module _ {R : Type 0} (protect : HostInfo → HostInfo) (describe : HandshakeError → List ℕ)
    (version : List ℕ) (token : Option (List ℕ)) (now handle : ℕ) (r : HostRegistry) where
  -- An agent was accepted under a name and a link id.
  abbrev pub IsAccepted : Option (Message R) → Handshake R → List ℕ → ℕ → Type 0
  IsAccepted first out name id =
      (h : Hello) × (first ≡ some (Message.hello h))
      × IsAdmitted protect token now handle h r id out.registry
      × (name ≡ (protect (host_info h)).name)
      × (out.answer ≡ some (Message.welcome 2 version))

  answered_sound :
      (written : Bool) (h : Hello) (x : Result HandshakeError ℕ × HostRegistry) (name : List ℕ)
      (id : ℕ)
      → admission protect token now handle h r ≡ x
      → (answered {R = R} protect describe version written h x).result ≡ ok (name, id)
      → IsAccepted (some (Message.hello h)) (answered protect describe version written h x) name id
  unfolding answered
  answered_sound true h (err e, after) name id a f = absurd (cc f)
  answered_sound false h (err e, after) name id a f = absurd (cc f)
  answered_sound false h (ok n, after) name id a f = absurd (cc f)
  answered_sound true h (ok n, after) name id a f =
      let same : n ≡ id = ground arith in
      (
        h,
        refl,
        admission_sound protect token now handle h r id after (rw same at a),
        ground arith,
        refl,
      )

  accept_sound :
      (first : Option (Message R)) (name : List ℕ) (id : ℕ) (out : Handshake R)
      → accept_agent_handshake protect describe version token now handle true first r ≡ out
      → out.result ≡ ok (name, id)
      → IsAccepted first out name id
  unfolding accept_agent_handshake
  accept_sound none name id out e f = absurd (ground arith)
  accept_sound (some (Message.hello h)) name id out e f =
      rw (← e)
        (answered_sound true h (admission protect token now handle h r) name id refl (rw e f))
  accept_sound (some (Message.welcome a b)) name id out e f = absurd (ground arith)
  accept_sound (some (Message.reject a)) name id out e f = absurd (ground arith)
  accept_sound (some (Message.request a b)) name id out e f = absurd (ground arith)
  accept_sound (some (Message.response a b)) name id out e f = absurd (ground arith)
  accept_sound (some Message.ping) name id out e f = absurd (ground arith)
  accept_sound (some Message.pong) name id out e f = absurd (ground arith)

  pub accept_complete :
      (written : Bool) (h : Hello) (id : ℕ) (after : HostRegistry)
      → IsAdmitted protect token now handle h r id after
      → accept_agent_handshake protect describe version token now handle written
          (some (Message.hello h))
          r
        ≡ answered {R = R} protect describe version written h (ok id, after)
  unfolding accept_agent_handshake
  accept_complete written h id after a =
      ap (answered {R = R} protect describe version written h)
        (admission_complete protect token now handle h r id after a)

  -- An agent whose answer is written is accepted exactly when its first message is a hello with protocol
  -- 2, the token that the hub wants and a valid name, and the registry admits it under its protected name;
  -- the answer is then a welcome.
  pub accept_agent_handshake_iff :
      (first : Option (Message R)) (name : List ℕ) (id : ℕ)
      → ((accept_agent_handshake protect describe version token now handle true first r).result
          ≡ ok (name, id))
        ↔ IsAccepted first
            (accept_agent_handshake protect describe version token now handle true first r)
            name
            id
  unfolding answered
  accept_agent_handshake_iff first name id = (
    accept_sound first name id _ refl,
    λ (h, same, admitted, named, welcomed).
        let done = accept_complete true h id _ admitted in
        rw (same, done) (ap (λ (n : List ℕ). ok (n, id)) (sym named)),
  )
