-- ===== src/Fleet/Revocation.antt =====
-- What revoking a mirror lease does in tools/fleet_control_plane.py.
-- The lease `id` is stored, and it is revoked.
use mathlib.Core.Path.{subst}
use quest_termux_lab.Base.{
  All, Bool, Bool-cases, List, Option, String, [], all, and_true, different, eq_refl, false, inl,
  inr, not, not-true, refl, some, some_inj, sym, true, ◌==◌, ◌∙◌, ◌∷◌, ◌≡◌,
}
use quest_termux_lab.Fleet.Intents.{
  new_lease, revoke_found, revoke_mirror_lease, revoked_lease, submit_mirror_intent,
}
use quest_termux_lab.Fleet.Invariant.{AllReadable, Sound}
use quest_termux_lab.Fleet.Lease.{Authorised, submit_mirror_intent-Authorised}
use quest_termux_lab.Fleet.Mirror.{set_lease}
use quest_termux_lab.Fleet.Session.{Request, post_lease, replay}
use quest_termux_lab.Fleet.State.{
  Env, FleetState, append_log, gets, modify, pure, read_clock, response, utc_now, ◌>>=◌,
}
use quest_termux_lab.Fleet.Trace.{Respects, replay-Sound, revoke_mirror_lease-Keeps}
use quest_termux_lab.Py.Dict.{Table, get, get?-put, insert, lookup, lookup-insert}
use quest_termux_lab.Py.Value.{Fields, Value, is_str, text, truthy}

abbrev pub IsRevoked : String → Table Fields → Type 0
IsRevoked id t =
    (lease : Fields) × (lookup t id ≡ some lease) × (truthy (get lease "revoked") ≡ true)

revoked_lease-revoked :
    (lease : Fields) (now : String) (revoked_by : Value)
    → truthy (get (revoked_lease lease now revoked_by) "revoked") ≡ true
unfolding revoked_lease
revoked_lease-revoked lease now revoked_by = elim (Bool-cases (is_str revoked_by)) [
  | inl e ↦ rw (e, get?-put, get?-put, get?-put) refl
  | inr e ↦ rw (e, get?-put, get?-put) refl
]

revoking-IsRevoked :
    (id : String) (t : Table Fields) (other : String) (lease : Fields) (now : String)
    (revoked_by : Value)
    → IsRevoked id t
    → IsRevoked id (insert t other (revoked_lease lease now revoked_by))
revoking-IsRevoked id t other lease now revoked_by (held, there, revoked) =
    elim (Bool-cases (other == id)) [
      | inl e ↦ (
        revoked_lease lease now revoked_by,
        lookup-insert t other id _ ∙ rw e refl,
        revoked_lease-revoked lease now revoked_by,
      )
      | inr e ↦ (held, lookup-insert t other id _ ∙ rw e there, revoked)
    ]

abbrev pub names_other : String → Request → Bool
names_other id (post_lease payload) = not (text (get payload "lease_id") == id)
names_other id _ = true

storing-IsRevoked :
    (id : String) (t : Table Fields) (other : String) (lease : Fields)
    → (other == id) ≡ false
    → IsRevoked id t
    → IsRevoked id (insert t other lease)
storing-IsRevoked id t other lease different (held, there, revoked) =
    (held, lookup-insert t other id lease ∙ rw different there, revoked)

names_other-Respects :
    (env : Env) (id : String) (request : Request)
    → names_other id request ≡ true
    → Respects env (IsRevoked id) (revoking-IsRevoked id) request
names_other-Respects env id (post_lease payload) h = λ t r.
    storing-IsRevoked id t (text (get payload "lease_id")) (new_lease payload) (not-true _ h) r
names_other-Respects env id _ h = tt

all_other-Respects :
    (env : Env) (id : String) (requests : List Request)
    → all (names_other id) requests ≡ true
    → All (Respects env (IsRevoked id) (revoking-IsRevoked id)) requests
all_other-Respects env id [] h = tt
all_other-Respects env id (request ∷ requests) h =
    let (first_other, rest_other) = and_true (names_other id request) _ h in
    (names_other-Respects env id request first_other, all_other-Respects env id requests rest_other)

stored-IsRevoked :
    (id : String) (t : Table Fields) (lease : Fields) (now : String) (revoked_by : Value)
    → IsRevoked id (insert t id (revoked_lease lease now revoked_by))
stored-IsRevoked id t lease now revoked_by = (
  revoked_lease lease now revoked_by,
  lookup-insert t id id _ ∙ rw (eq_refl id) refl,
  revoked_lease-revoked lease now revoked_by,
)

revoke_mirror_lease-IsRevoked :
    (env : Env) (id : String) (payload lease : Fields) (s : FleetState)
    → lookup s.mirror_leases id ≡ some lease
    → IsRevoked id (revoke_mirror_lease env id payload s).1.mirror_leases
unfolding revoke_mirror_lease revoke_found ◌>>=◌ gets utc_now read_clock pure modify set_lease
    append_log response
revoke_mirror_lease-IsRevoked env id payload lease s stored =
    rw stored (stored-IsRevoked id s.mirror_leases lease _ (get payload "revoked_by"))

unauthorised :
    (env : Env) (found : Option Fields) (id : String) (t : Table Fields) (intent : Fields)
    → found ≡ lookup t id
    → IsRevoked id t
    → Authorised env found intent
    → ⊥
unauthorised env found id t intent same (held, there, revoked) a =
    let same_lease : held ≡ a.lease = some_inj (sym there ∙ sym same ∙ a.is_there) in
    let still : truthy (get a.lease "revoked") ≡ true =
      subst (λ l. truthy (get l "revoked") ≡ true) same_lease revoked in
    absurd (cc (sym still ∙ a.active))

-- Once a lease is revoked, no run of requests that does not store a lease of the same name makes it
-- forward an intent again: submitting an intent that names it then leaves every queue as it is.
pub replay-held :
    (env : Env) (id : String) (payload lease intent : Fields) (requests : List Request)
    (s : FleetState)
    → AllReadable env s
    → lookup s.mirror_leases id ≡ some lease
    → all (names_other id) requests ≡ true
    → text (get intent "lease_id") ≡ id
    → (submit_mirror_intent env intent
        (replay env requests (revoke_mirror_lease env id payload s).1)).1.commands
      ≡ (replay env requests (revoke_mirror_lease env id payload s).1).commands
replay-held env id payload lease intent requests s readable stored others named =
    let revoked = (revoke_mirror_lease env id payload s).1 in
    let start : Sound env (IsRevoked id) revoked = (
      ((revoke_mirror_lease-Keeps env (λ _. Unit {0}) (λ t i l n b u. tt) id payload).run s
          (readable, tt)).0,
      revoke_mirror_lease-IsRevoked env id payload lease s stored,
    ) in
    let (_, held) =
      replay-Sound env (IsRevoked id) (revoking-IsRevoked id) requests revoked
        (all_other-Respects env id requests others) start in
    elim (submit_mirror_intent-Authorised env intent (replay env requests revoked)) [
      | inl kept ↦ kept
      | inr a ↦ absurd (unauthorised env _ id _ intent (rw named refl) held a)
    ]
