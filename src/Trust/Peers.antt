-- ===== src/Trust/Peers.antt =====
-- The configured peers that tools/peer_mesh_trust_gate.py trusts.
use quest_termux_lab.Base.{
  All, Bool, List, String, [], any, false, member, not, or_false, refl, true, ◌++◌, ◌==◌, ◌∷◌, ◌≡◌,
}
use quest_termux_lab.Entries.{texts_of, when}
use quest_termux_lab.Py.Dict.{get, get_or}
use quest_termux_lab.Py.Stdlib.{Stdlib}
use quest_termux_lab.Py.Value.{Fields, Value, arr, array, bool, float, int, null, obj, str, to_list}
use quest_termux_lab.Trust.Gate.{peer_untrusted}
use quest_termux_lab.Trust.Reviews.{
  PeerReview, review_routes, reviews_in, route_reasons, route_review, route_reviews, trust_of,
}

pub record PeerAllowed (policy : Fields) (review : PeerReview) : Type 0 where
  pub target_allowed :
      member review.target_agent_id (texts_of (get policy "allowed_agent_ids")) ≡ true
  pub mode_allowed :
      member review.transport_mode (texts_of (get policy "allowed_transport_modes")) ≡ true

two_reasons :
    (a b : Bool) (r s : String)
    → (trust_of (when (not a) r ++ when (not b) s) == "untrusted") ≡ false
    → (a ≡ true) × (b ≡ true)
two_reasons true true r s h = (refl, refl)
two_reasons false b r s h = absurd (cc h)
two_reasons true false r s h = absurd (cc h)

route_review-PeerAllowed :
    (lib : Stdlib) (policy route : Fields)
    → peer_untrusted (route_review lib policy route) ≡ false
    → PeerAllowed policy (route_review lib policy route)
unfolding route_review route_reasons
route_review-PeerAllowed lib policy route h =
    let (a, b) = two_reasons _ _ _ _ h in record { target_allowed = a; mode_allowed = b }

review_routes-PeerAllowed :
    (lib : Stdlib) (policy : Fields) (vs : List Value)
    → any peer_untrusted (review_routes lib policy vs) ≡ false
    → All (PeerAllowed policy) (review_routes lib policy vs)
unfolding review_routes
review_routes-PeerAllowed lib policy [] h = tt
review_routes-PeerAllowed lib policy (obj route ∷ vs) h =
    let (here, there) = or_false _ _ h in
    (route_review-PeerAllowed lib policy route here, review_routes-PeerAllowed lib policy vs there)
review_routes-PeerAllowed lib policy (arr v ∷ vs) h = review_routes-PeerAllowed lib policy vs h
review_routes-PeerAllowed lib policy (null ∷ vs) h = review_routes-PeerAllowed lib policy vs h
review_routes-PeerAllowed lib policy (bool b ∷ vs) h = review_routes-PeerAllowed lib policy vs h
review_routes-PeerAllowed lib policy (int z ∷ vs) h = review_routes-PeerAllowed lib policy vs h
review_routes-PeerAllowed lib policy (float t ∷ vs) h = review_routes-PeerAllowed lib policy vs h
review_routes-PeerAllowed lib policy (str s ∷ vs) h = review_routes-PeerAllowed lib policy vs h

reviews_in-PeerAllowed :
    (lib : Stdlib) (policy : Fields) (routes : Value)
    → any peer_untrusted (reviews_in lib policy routes) ≡ false
    → All (PeerAllowed policy) (reviews_in lib policy routes)
unfolding reviews_in
reviews_in-PeerAllowed lib policy (arr vs) h = review_routes-PeerAllowed lib policy (to_list vs) h
reviews_in-PeerAllowed lib policy null h = tt
reviews_in-PeerAllowed lib policy (bool b) h = tt
reviews_in-PeerAllowed lib policy (int z) h = tt
reviews_in-PeerAllowed lib policy (float t) h = tt
reviews_in-PeerAllowed lib policy (str s) h = tt
reviews_in-PeerAllowed lib policy (obj d) h = tt

pub route_reviews-PeerAllowed :
    (lib : Stdlib) (config policy : Fields)
    → any peer_untrusted (route_reviews lib config policy) ≡ false
    → All (PeerAllowed policy) (route_reviews lib config policy)
unfolding route_reviews
route_reviews-PeerAllowed lib config policy h =
    reviews_in-PeerAllowed lib policy (get_or config "routes" (array [])) h
