-- ===== src/Solution2/Constants/Routing.antt =====
-- A routing key tells the mode, the tier and the model class.
use metered_compute.Base.{
  ◌≡◌, refl, Option, some, none, String, List, [], ◌∷◌, str_eq, if◌then◌else◌,
}
use metered_compute.Solution2.Constants.{
  SubscriptionTier, free, pro, enterprise, RequestMode, async, sync, batch, ModelClass, small,
  medium, large, compute_routing_key,
}

abbrev Route : Type 0
Route = (RequestMode × SubscriptionTier) × ModelClass

abbrev models : RequestMode → SubscriptionTier → List Route → List Route
models m t rest = ((m, t), small) ∷ ((m, t), medium) ∷ ((m, t), large) ∷ rest

abbrev tiers : RequestMode → List Route → List Route
tiers m rest = models m free (models m pro (models m enterprise rest))

abbrev routes : List Route
routes = tiers async (tiers sync (tiers batch []))

find_route : String → List Route → Option Route
unfolding compute_routing_key
find_route key [] = none
find_route key (r ∷ rest) =
    let found = find_route key rest in
    if str_eq (compute_routing_key r.0.0 r.0.1 r.1) key then some r else found

-- The route with this routing key
unfoldable pub parse_routing_key : String → Option Route
unfolding find_route
parse_routing_key key = find_route key routes

-- A routing key determines the mode, the tier and the model class that it was made of.
pub parse-compute_routing_key :
    (m : RequestMode) (t : SubscriptionTier) (c : ModelClass)
    → parse_routing_key (compute_routing_key m t c) ≡ some ((m, t), c)
unfolding parse_routing_key find_route compute_routing_key
parse-compute_routing_key async free small = refl
parse-compute_routing_key async free medium = refl
parse-compute_routing_key async free large = refl
parse-compute_routing_key async pro small = refl
parse-compute_routing_key async pro medium = refl
parse-compute_routing_key async pro large = refl
parse-compute_routing_key async enterprise small = refl
parse-compute_routing_key async enterprise medium = refl
parse-compute_routing_key async enterprise large = refl
parse-compute_routing_key sync free small = refl
parse-compute_routing_key sync free medium = refl
parse-compute_routing_key sync free large = refl
parse-compute_routing_key sync pro small = refl
parse-compute_routing_key sync pro medium = refl
parse-compute_routing_key sync pro large = refl
parse-compute_routing_key sync enterprise small = refl
parse-compute_routing_key sync enterprise medium = refl
parse-compute_routing_key sync enterprise large = refl
parse-compute_routing_key batch free small = refl
parse-compute_routing_key batch free medium = refl
parse-compute_routing_key batch free large = refl
parse-compute_routing_key batch pro small = refl
parse-compute_routing_key batch pro medium = refl
parse-compute_routing_key batch pro large = refl
parse-compute_routing_key batch enterprise small = refl
parse-compute_routing_key batch enterprise medium = refl
parse-compute_routing_key batch enterprise large = refl
