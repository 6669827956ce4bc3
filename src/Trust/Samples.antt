-- ===== src/Trust/Samples.antt =====
-- The sample envelopes that tools/peer_mesh_trust_gate.py trusts.
use mathlib.Core.Path.{subst}
use quest_termux_lab.Base.{
  All, All-imp, Bool, Bool-cases, List, String, [], any, any-false, ap, arith, false, if◌then◌else◌,
  inl, inr, is_empty, keep, keep-empty, length, member, not, not-false, refl, sym, true, ◌++◌, ◌==◌,
  ◌∙◌, ◌∷◌, ◌≡◌,
}
use quest_termux_lab.Entries.{texts_of, when}
use quest_termux_lab.Gossip.Envelope.{if_int, validate_envelope}
use quest_termux_lab.Py.Dict.{get, item}
use quest_termux_lab.Py.Result.{
  Result, err, map_ok-All, map_ok-length, ok, ok-injective, on_ok, on_value_error, value_error,
}
use quest_termux_lab.Py.Stdlib.{Stdlib, int_of}
use quest_termux_lab.Py.Text.{sort_texts}
use quest_termux_lab.Py.Text.Sorted.{length-sort_texts}
use quest_termux_lab.Py.Value.{Fields, Value, count_of, lt_ℤ, pos, ℤ}
use quest_termux_lab.Trust.Gate.{envelope_untrusted}
use quest_termux_lab.Trust.Reviews.{
  EnvelopeReview, distinct, envelope_participants, envelope_reasons, envelope_review,
  envelope_reviews, judge_envelope, review_fields, trust_of, unknown_participants,
}

pub record Trustworthy (lib : Stdlib) (policy envelope : Fields) : Type 0 where
  pub valid : validate_envelope envelope ≡ ok tt
  pub given : Value
  pub held : item envelope "hop_ttl" ≡ ok given
  pub hops : ℤ
  pub read : int_of lib given ≡ ok hops
  pub within : lt_ℤ (pos (count_of (get policy "max_hop_ttl"))) hops ≡ false
  pub members :
      All
        (λ s. member s (texts_of (get policy "allowed_agent_ids")) ≡ true)
        (envelope_participants lib envelope)

no_texts : (xs : List String) → length xs ≡ 0 → xs ≡ []
no_texts [] h = refl
no_texts (x ∷ xs) h = absurd (omega (arith, h))

distinct-empty : (xs : List String) → distinct xs ≡ [] → xs ≡ []
unfolding distinct
distinct-empty [] h = refl
distinct-empty (s ∷ rest) h = elim (Bool-cases (member s rest)) [
  | inl there ↦
      let none = subst (λ b. (if b then distinct rest else s ∷ distinct rest) ≡ []) there h in
      absurd (cc (subst (λ l. member s l ≡ true) (distinct-empty rest none) there))
  | inr away ↦
      absurd (cc (subst (λ b. (if b then distinct rest else s ∷ distinct rest) ≡ []) away h))
]

sort_texts-empty : (xs : List String) → sort_texts xs ≡ [] → xs ≡ []
sort_texts-empty xs h = no_texts xs (sym (length-sort_texts xs) ∙ ap length h)

all_known :
    (lib : Stdlib) (policy envelope : Fields)
    → unknown_participants lib policy envelope ≡ []
    → All
        (λ s. member s (texts_of (get policy "allowed_agent_ids")) ≡ true)
        (envelope_participants lib envelope)
unfolding unknown_participants
all_known lib policy envelope h =
    let allowed = texts_of (get policy "allowed_agent_ids") in
    let outside = λ (s : String). not (member s allowed) in
    let names = envelope_participants lib envelope in
    let none = distinct-empty (keep outside names) (sort_texts-empty _ h) in
    All-imp (λ s. outside s ≡ false) (λ s. member s allowed ≡ true)
      (λ s. not-false (member s allowed)) names (keep-empty outside names none)

is_empty-nil : (xs : List String) → is_empty xs ≡ true → xs ≡ []
is_empty-nil [] h = refl
is_empty-nil (x ∷ xs) h = absurd (cc h)

no_trouble :
    (a b : Bool) (r s : String)
    → (trust_of (when a r ++ when (not b) s) == "untrusted") ≡ false
    → (a ≡ false) × (b ≡ true)
no_trouble false true r s h = (refl, refl)
no_trouble true b r s h = absurd (cc h)
no_trouble false false r s h = absurd (cc h)

judged-Trustworthy :
    (lib : Stdlib) (policy envelope : Fields) (review : EnvelopeReview)
    → judge_envelope lib policy envelope ≡ ok review
    → envelope_untrusted review ≡ false
    → Trustworthy lib policy envelope
unfolding judge_envelope envelope_reasons
judged-Trustworthy lib policy envelope review h trusted =
    on_ok (validate_envelope envelope) h λ _ valid h1.
      on_ok (item envelope "hop_ttl") h1 λ given held h2.
        on_ok (int_of lib given) h2 λ hops read h3.
          let e = subst (λ r. envelope_untrusted r ≡ false) (sym (ok-injective h3)) trusted in
          let (within, known) = no_trouble _ _ _ _ e in
          record {
            valid = valid;
            given = given;
            held = held;
            hops = hops;
            read = read;
            within = within;
            members = all_known lib policy envelope (is_empty-nil _ known);
          }

caught-untrusted :
    (lib : Stdlib) (policy envelope : Fields) (judged : Result EnvelopeReview)
    (review : EnvelopeReview)
    → on_value_error judged (λ message.
      review_fields lib envelope (if_int (get envelope "hop_ttl")) "untrusted" message)
      ≡ ok review
    → envelope_untrusted review ≡ false
    → judged ≡ ok review
caught-untrusted lib policy envelope (ok r) review h trusted = h
caught-untrusted lib policy envelope (err (value_error m)) review h trusted =
    absurd (cc (subst (λ r. envelope_untrusted r ≡ false) (sym (ok-injective h)) trusted))
caught-untrusted lib policy envelope (err e) review h trusted = absurd (cc h)

pub envelope_review-Trustworthy :
    (lib : Stdlib) (policy envelope : Fields) (review : EnvelopeReview)
    → envelope_review lib policy envelope ≡ ok review
    → envelope_untrusted review ≡ false
    → Trustworthy lib policy envelope
unfolding envelope_review
envelope_review-Trustworthy lib policy envelope review h trusted =
    judged-Trustworthy lib policy envelope review
      (caught-untrusted lib policy envelope (judge_envelope lib policy envelope) review h trusted)
      trusted

pub envelope_reviews-Trustworthy :
    (lib : Stdlib) (policy : Fields) (envelopes : List Fields) (reviews : List EnvelopeReview)
    → envelope_reviews lib policy envelopes ≡ ok reviews
    → any envelope_untrusted reviews ≡ false
    → All (Trustworthy lib policy) envelopes × (length reviews ≡ length envelopes)
unfolding envelope_reviews
envelope_reviews-Trustworthy lib policy envelopes reviews h trusted = (
  map_ok-All (Trustworthy lib policy) (λ r. envelope_untrusted r ≡ false)
      (envelope_review lib policy) (envelope_review-Trustworthy lib policy) envelopes reviews h
      (any-false envelope_untrusted reviews trusted),
  map_ok-length (envelope_review lib policy) envelopes reviews h,
)
