-- ===== src/PushSdk/Route.antt =====
-- `parseRoute` of internal/pushsdk/service.go, over a model of strings.Split by "/".
pub mod Paths
use Prim.Native.Char.{Char, code}
use face_recognition_proxy.Prelude.{
  ◌&&◌, ◌||◌, not, Option, none, some, List, [], ◌∷◌, String, nat_eq, string_eq, ◌==◌,
  if◌then◌else◌,
}

pub add_to_first : Char → List String → List String
add_to_first c [] = (String.◌∷◌ c "") ∷ []
add_to_first c (part ∷ parts) = String.◌∷◌ c part ∷ parts

-- strings.Split(path, "/")
unfoldable pub split : String → List String
unfolding add_to_first
split String.[] = "" ∷ []
split (String.◌∷◌ c path) =
    let parts = split path in if code c == b'/' then "" ∷ parts else add_to_first c parts

unfoldable pub route_of : List String → Option (String × String)
route_of
      (root ∷ iot ∷ serial ∷ global ∷ zero_global ∷ model ∷ service ∷ operate ∷ push ∷ action
        ∷ []) =
    if not (iot == "iot")
      || not (global == "global")
      || not (zero_global == "0-global")
      || not (model == "model")
      || not (service == "service")
      || not (operate == "operate")
      || not (push == "PUSH")
    then none
    else if serial == "" || action == ""
    then none
    else some (serial, action)
route_of _ = none

unfoldable pub parse_route : String → Option (String × String)
unfolding split route_of
parse_route path = route_of (split path)
