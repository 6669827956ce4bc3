-- ===== src/Gossip/Relay.antt =====
-- What relay_envelope of tools/peer_mesh_gossip.py lets through, and how often an envelope can be
-- relayed.
use mathlib.Core.Path.{subst}
use quest_termux_lab.Base.{
  String, ap, arith, refl, some, some_inj, suc, sym, true, zero, ℕ, ◌+◌, ◌-◌, ◌∙◌, ◌≡◌, ◌≤◌,
}
use quest_termux_lab.Gossip.Envelope.{heard_from, relay_envelope, relayed_fields, validate_envelope}
use quest_termux_lab.Py.Dict.{get?, item, item-eq-ok, list_of}
use quest_termux_lab.Py.Result.{map_ok, ok, ok-injective, on_guard, on_ok}
use quest_termux_lab.Py.Stdlib.{Stdlib, int_of}
use quest_termux_lab.Py.Value.{Fields, Value, int, is_pos, minus_one, negsuc, pos, ℤ}

-- What a relay did with an envelope.
pub record IsRelay (lib : Stdlib) (envelope relayed : Fields) : Type 0 where
  pub ttl : Value
  pub hops : ℕ
  pub given : get? envelope "hop_ttl" ≡ some ttl
  pub positive : int_of lib ttl ≡ ok (pos (suc hops))
  pub spent : get? relayed "hop_ttl" ≡ some (int (pos hops))
  pub source_valid : validate_envelope envelope ≡ ok tt
  pub valid : validate_envelope relayed ≡ ok tt
  pub same_fleet : get? relayed "fleet_id" ≡ get? envelope "fleet_id"

positive_hops : (z : ℤ) → is_pos z ≡ true → (n : ℕ) × (z ≡ pos (suc n))
positive_hops (pos zero) h = cc
positive_hops (pos (suc n)) h = (n, refl)
positive_hops (negsuc n) h = cc

module _ (lib : Stdlib) (now : String) (sender message_id : String) where
  -- A relay takes one hop from a positive count, keeps the fleet, and both envelopes are valid.
  pub relay_envelope-IsRelay :
      (envelope relayed : Fields)
      → relay_envelope lib now envelope sender message_id ≡ ok relayed
      → IsRelay lib envelope relayed
  unfolding relay_envelope
  relay_envelope-IsRelay envelope relayed h =
      on_ok (validate_envelope envelope) h λ _ source_valid h1.
        on_ok (item envelope "hop_ttl") h1 λ ttl given h2.
          on_ok (int_of lib ttl) h2 λ hop_ttl read h3. on_guard (is_pos hop_ttl) _ h3 λ positive h4.
            on_ok (item envelope "observations") h4 λ observations _ h5.
              on_ok (list_of observations) h5 λ entries _ h6.
                on_ok (map_ok (heard_from sender) entries) h6 λ updated _ h7.
                  on_ok (item envelope "fleet_id") h7 λ fleet_id fleet h8.
                    on_ok (item envelope "authority_boundary") h8 λ boundary _ h9.
                      on_ok (list_of boundary) h9 λ boundary_list _ h10.
                        on_ok
                          (validate_envelope (
                            relayed_fields now sender message_id fleet_id (minus_one hop_ttl)
                              updated boundary_list))
                          h10
                          λ _ valid h11.
                            let (hops, counted) = positive_hops hop_ttl positive in
                            record {
                              ttl = ttl;
                              hops = hops;
                              given = item-eq-ok envelope "hop_ttl" ttl given;
                              positive = rw (← counted) read;
                              spent =
                                  ap (λ d. get? d "hop_ttl") (sym (ok-injective h11))
                                  ∙ ap (λ z. some (int (minus_one z))) counted;
                              source_valid = source_valid;
                              valid =
                                  subst (λ d. validate_envelope d ≡ ok tt) (ok-injective h11) valid;
                              same_fleet =
                                  ap (λ d. get? d "fleet_id") (sym (ok-injective h11))
                                  ∙ sym (item-eq-ok envelope "fleet_id" fleet_id fleet);
                            }

-- A chain of relays, by any senders at any times.
pub data Relayed (lib : Stdlib) (origin : Fields) : ℕ → Fields → Type 0 where
  sent : Relayed lib origin 0 origin
  relay :
      {n : ℕ} {e r : Fields} (now sender message_id : String)
      → Relayed lib origin n e
      → relay_envelope lib now e sender message_id ≡ ok r
      → Relayed lib origin (suc n) r

abbrev HopsLeft : Fields → ℕ → Type 0
HopsLeft e n = get? e "hop_ttl" ≡ some (int (pos n))

same_hops :
    (lib : Stdlib) {v : Value} {m n : ℕ} → int_of lib v ≡ ok (pos m) → v ≡ int (pos n) → n ≡ m
same_hops lib {v} {m} {n} read same =
    let e : ok (pos n) ≡ ok (pos m) = subst (λ w. int_of lib w ≡ ok (pos m)) same read in cc

Relayed-HopsLeft :
    (lib : Stdlib) (origin : Fields) {n : ℕ} {e : Fields} (h : ℕ)
    → HopsLeft origin h
    → Relayed lib origin n e
    → (k : ℕ) × HopsLeft e k × (k + n ≡ h)
Relayed-HopsLeft lib origin h given sent = (h, given, omega arith)
Relayed-HopsLeft lib origin h given
      (relay {n = n} {e = e} {r = r} now sender message_id chain step) =
    let (k, left, total) = Relayed-HopsLeft lib origin h given chain in
    let one = relay_envelope-IsRelay lib now sender message_id e r step in
    let ttl_eq : one.ttl ≡ int (pos k) = some_inj (sym one.given ∙ left) in
    let k_eq : k ≡ suc one.hops = same_hops lib one.positive ttl_eq in
    (one.hops, one.spent, omega arith)

-- An envelope that starts with `h` hops is relayed at most `h` times, whoever relays it; the hops
-- left and the relays done always add up to `h`.
pub Relayed-le :
    (lib : Stdlib) (origin e : Fields) (n h : ℕ)
    → get? origin "hop_ttl" ≡ some (int (pos h))
    → Relayed lib origin n e
    → (n ≤ h) × (get? e "hop_ttl" ≡ some (int (pos (h - n))))
Relayed-le lib origin e n h given chain =
    let (k, left, total) = Relayed-HopsLeft lib origin h given chain in
    let same : k ≡ h - n = omega arith in (omega arith, subst (λ m. HopsLeft e m) same left)
