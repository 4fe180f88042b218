-- ===== src/PushSdk/Route/Paths.antt =====
-- Which request paths are terminal routes.
use Prim.Native.Char.{Char, code}
use mathlib.Core.Path.{ap₂, subst}
use Prim.Native.String.{◌++◌ as join}
use text.Mathlib.TextEquality.{Char-path}
use text.Mathlib.TextLemmas.{nil-append, cons-append}
use face_recognition_proxy.Prelude.{
  ◌≡◌, ◌≢◌, ◌↔◌, refl, sym, ap, ◌∙◌, ◌||◌, Bool, true, false, some, List, [], ◌∷◌, String, eq_iff,
  arith, nat_eq, string_eq, ◌==◌, All, inl, inr, Bool-cases, nat_beq_iff,
}
use face_recognition_proxy.PushSdk.Route.{add_to_first, split, route_of, parse_route}

abbrev pub has_slash : String → Bool
has_slash String.[] = false
has_slash (String.◌∷◌ c s) = code c == b'/' || has_slash s

-- The parts with a "/" between each two.
unfoldable pub join_slash : List String → String
join_slash [] = ""
join_slash (part ∷ []) = part
join_slash (part ∷ next ∷ parts) = join part (join "/" (join_slash (next ∷ parts)))

-- The path of a terminal's action; `root` stands before the first "/", and is empty in a request.
abbrev pub terminal_parts : String → String → String → List String
terminal_parts root serial action =
    root ∷ "iot" ∷ serial ∷ "global" ∷ "0-global" ∷ "model" ∷ "service" ∷ "operate" ∷ "PUSH"
    ∷ action ∷ []

abbrev slash : Char
slash = "/"

join_slash-add_to_first :
    (c : Char) (parts : List String)
    → parts ≢ []
    → join_slash (add_to_first c parts) ≡ String.◌∷◌ c (join_slash parts)
unfolding join_slash add_to_first
join_slash-add_to_first c [] h = absurd (h refl)
join_slash-add_to_first c (part ∷ []) h = refl
join_slash-add_to_first c (part ∷ next ∷ parts) h = rw cons-append

join_slash-empty_first :
    (parts : List String)
    → parts ≢ []
    → join_slash ("" ∷ parts) ≡ String.◌∷◌ slash (join_slash parts)
unfolding join_slash
join_slash-empty_first [] h = absurd (h refl)
join_slash-empty_first (part ∷ parts) h =
    let rest = join_slash (part ∷ parts) in
    nil-append (join "/" rest) ∙ cons-append slash "" rest ∙ ap (String.◌∷◌ slash) (nil-append rest)

is_slash : (c : Char) → (code c == b'/') ≡ true → slash ≡ c
is_slash c e = Char-path slash c (sym ((nat_beq_iff (code c) b'/').0 e))

split-ne-nil : (path : String) → split path ≢ []
unfolding split add_to_first
split-ne-nil String.[] = λ e. cc
split-ne-nil (String.◌∷◌ c path) = ground arith

pub join_slash-split : (path : String) → join_slash (split path) ≡ path
unfolding split join_slash
join_slash-split String.[] = refl
join_slash-split (String.◌∷◌ c path) = elim (Bool-cases (code c == b'/')) [
  | inl e ↦ rw e (
      join_slash-empty_first (split path) (split-ne-nil path)
      ∙ ap₂ (λ (d : Char) (rest : String). String.◌∷◌ d rest) (is_slash c e)
          (join_slash-split path))
  | inr e ↦ rw e (
      join_slash-add_to_first c (split path) (split-ne-nil path)
      ∙ ap (String.◌∷◌ c) (join_slash-split path))
]

abbrev pub NoSlash : String → Type 0
NoSlash part = has_slash part ≡ false

add_to_first-NoSlash :
    (c : Char) (parts : List String)
    → (code c == b'/') ≡ false
    → All NoSlash parts
    → All NoSlash (add_to_first c parts)
unfolding add_to_first
add_to_first-NoSlash c [] e h = (rw e, tt)
add_to_first-NoSlash c (part ∷ parts) e h = (rw e h.0, h.1)

split-NoSlash : (path : String) → All NoSlash (split path)
unfolding split
split-NoSlash String.[] = (refl, tt)
split-NoSlash (String.◌∷◌ c path) = elim (Bool-cases (code c == b'/')) [
  | inl e ↦ rw e (refl, split-NoSlash path)
  | inr e ↦ rw e (add_to_first-NoSlash c (split path) e (split-NoSlash path))
]

split_one : (part : String) → NoSlash part → split part ≡ part ∷ []
unfolding split add_to_first
split_one String.[] h = refl
split_one (String.◌∷◌ c part) h = ground (arith, split_one part)

split-join :
    (part rest : String) → NoSlash part → split (join part (join "/" rest)) ≡ part ∷ split rest
unfolding split add_to_first
split-join String.[] rest h =
    ap split (nil-append (join "/" rest) ∙ cons-append slash "" rest)
    ∙ ap (λ (t : String). split (String.◌∷◌ slash t)) (nil-append rest)
split-join (String.◌∷◌ c part) rest h =
    ap split (cons-append c part (join "/" rest)) ∙ ground (arith, split-join part rest)

pub split-join_slash :
    (part : String) (parts : List String)
    → All NoSlash (part ∷ parts)
    → split (join_slash (part ∷ parts)) ≡ part ∷ parts
unfolding join_slash
split-join_slash part [] h = split_one part h.0
split-join_slash part (next ∷ parts) h =
    split-join part (join_slash (next ∷ parts)) h.0
    ∙ ap (λ (rest : List String). part ∷ rest) (split-join_slash next parts h.1)

pub record IsTerminalPath (path serial action : String) : Type 0 where
  pub root : String
  pub path_parts : path ≡ join_slash (terminal_parts root serial action)
  pub serial_given : serial ≢ ""
  pub action_given : action ≢ ""
  pub root_plain : NoSlash root
  pub serial_plain : NoSlash serial
  pub action_plain : NoSlash action

route_parts :
    (parts : List String) (serial action : String)
    → route_of parts ≡ some (serial, action)
    → (root : String) × (parts ≡ terminal_parts root serial action) × (serial ≢ "") × (action ≢ "")
unfolding route_of
route_parts (root ∷ iot ∷ s ∷ global ∷ zero_global ∷ model ∷ service ∷ operate ∷ push ∷ a ∷ [])
      serial action h =
    (
      root,
      ground (
        arith,
        eq_iff iot "iot",
        eq_iff global "global",
        eq_iff zero_global "0-global",
        eq_iff model "model",
        eq_iff service "service",
        eq_iff operate "operate",
        eq_iff push "PUSH",
      ),
      ground (arith, eq_iff s "", eq_iff serial ""),
      ground (arith, eq_iff a "", eq_iff action ""),
    )
route_parts _ serial action h = cc

route_of-terminal_parts :
    (root serial action : String)
    → serial ≢ ""
    → action ≢ ""
    → route_of (terminal_parts root serial action) ≡ some (serial, action)
unfolding route_of
route_of-terminal_parts root serial action s a = ground (arith, eq_iff serial "", eq_iff action "")

parse_route-IsTerminalPath :
    (path serial action : String)
    → parse_route path ≡ some (serial, action)
    → IsTerminalPath path serial action
unfolding parse_route
parse_route-IsTerminalPath path serial action h =
    let (root, parts, serial_given, action_given) = route_parts (split path) serial action h in
    let plain = subst (All NoSlash) parts (split-NoSlash path) in
    record {
      root = root;
      path_parts = sym (join_slash-split path) ∙ ap join_slash parts;
      serial_given = serial_given;
      action_given = action_given;
      root_plain = plain.0;
      serial_plain = plain.1.1.0;
      action_plain = plain.1.1.1.1.1.1.1.1.1.0;
    }

parse_route_accepts :
    (path serial action : String)
    → IsTerminalPath path serial action
    → parse_route path ≡ some (serial, action)
unfolding parse_route
parse_route_accepts path serial action t =
    let parts = terminal_parts t.root serial action in
    let plain : All NoSlash parts = (
      t.root_plain,
      (
        refl,
        (t.serial_plain, (refl, (refl, (refl, (refl, (refl, (refl, (t.action_plain, tt)))))))),
      ),
    ) in
    ap route_of (ap split t.path_parts ∙ split-join_slash _ _ plain)
    ∙ route_of-terminal_parts t.root serial action t.serial_given t.action_given

-- The route of a path is a serial and an action exactly when the path has the ten parts of a
-- terminal's path with these two in their places, both not empty and without a slash.
pub parse_route-eq-some_iff :
    (path serial action : String)
    → (parse_route path ≡ some (serial, action)) ↔ IsTerminalPath path serial action
parse_route-eq-some_iff path serial action =
    (parse_route-IsTerminalPath path serial action, parse_route_accepts path serial action)
