-- ===== src/Server/Announce/Classes.antt =====
-- service/announce.rs: what stands in `v3_class_map` once the actions are gone through.
use scamp_rs.Common.{
  ◌≡◌, refl, sym, ap, subst, ◌∙◌, some, List, [], ◌∷◌, Text, Bool-cases, Option-cases, ◌⊎◌, inl,
  inr, same, same→eq,
}
use scamp_rs.Common.Members.{In, In-append_left, In-append_right, In-append-cases, In-single}
use scamp_rs.Json.{Value}
use scamp_rs.Server.Announce.Actions.{
  ActionInfo, ClassMap, text_leb, push_class, add_action, class_map, action_array, announced_flags,
}
use scamp_rs.Strings.Fields.{rsplit_once}

-- The value stands in the class of the namespace.
abbrev pub InClass : Text → Value → ClassMap → Type 0
InClass ns v [] = ⊥
InClass ns v ((k, vs) ∷ classes) = ((k ≡ ns) × In v vs) ⊎ InClass ns v classes

-- The action gives the value to the class of the namespace.
abbrev pub Gives : ActionInfo → Text → Value → Type 0
Gives a ns v =
    (method : Text) × (rsplit_once 0x2E a.name ≡ some (ns, method))
    × (v ≡ action_array method (announced_flags a.flags) a.version)

push_class_new :
    (ns : Text) (v : Value) (classes : ClassMap) → InClass ns v (push_class ns v classes)
unfolding push_class
push_class_new ns v [] = inl (refl, inl refl)
push_class_new ns v ((k, vs) ∷ classes) = elim (Bool-cases (same k ns)) [
  | inl known ↦ rw known (inl (same→eq k ns known, In-append_right v vs (v ∷ []) (inl refl)))
  | inr other ↦ elim (Bool-cases (text_leb ns k)) [
    | inl before ↦ rw (other, before) (inl (refl, inl refl))
    | inr behind ↦ rw (other, behind) (inr (push_class_new ns v classes))
  ]
]

push_class_old :
    (ns : Text) (v : Value) (k : Text) (w : Value) (classes : ClassMap)
    → InClass k w classes
    → InClass k w (push_class ns v classes)
unfolding push_class
push_class_old ns v k w [] h = absurd h
push_class_old ns v k w ((j, vs) ∷ classes) h = elim (Bool-cases (same j ns)) [
  | inl known ↦ rw known (elim h [
    | inl (e, inside) ↦ inl (e, In-append_left w vs (v ∷ []) inside)
    | inr further ↦ inr further
  ])
  | inr other ↦ elim (Bool-cases (text_leb ns j)) [
    | inl before ↦ rw (other, before) (inr h)
    | inr behind ↦
        rw (other, behind)
          (elim h [
            | inl here ↦ inl here
            | inr further ↦ inr (push_class_old ns v k w classes further)
          ])
  ]
]

push_class-cases :
    (ns : Text) (v : Value) (k : Text) (w : Value) (classes : ClassMap)
    → InClass k w (push_class ns v classes)
    → ((ns ≡ k) × (v ≡ w)) ⊎ InClass k w classes
unfolding push_class
push_class-cases ns v k w [] (inl (e, here)) = inl (e, In-single w v here)
push_class-cases ns v k w [] (inr h) = absurd h
push_class-cases ns v k w ((j, vs) ∷ classes) h = elim (Bool-cases (same j ns)) [
  | inl known ↦ elim (rw (known, push_class) at h) [
    | inl (e, inside) ↦ elim (In-append-cases w vs (v ∷ []) inside) [
      | inl old ↦ inr (inl (e, old))
      | inr new ↦ inl (sym (same→eq j ns known) ∙ e, In-single w v new)
    ]
    | inr further ↦ inr (inr further)
  ]
  | inr other ↦ elim (Bool-cases (text_leb ns j)) [
    | inl before ↦ elim (rw (other, before, push_class) at h) [
      | inl (e, here) ↦ inl (e, In-single w v here)
      | inr further ↦ inr further
    ]
    | inr behind ↦ elim (rw (other, behind, push_class) at h) [
      | inl here ↦ inr (inl here)
      | inr further ↦ elim (push_class-cases ns v k w classes further) [
        | inl new ↦ inl new
        | inr old ↦ inr (inr old)
      ]
    ]
  ]
]

add_action_new :
    (a : ActionInfo) (ns : Text) (v : Value) (classes : ClassMap)
    → Gives a ns v
    → InClass ns v (add_action a classes)
unfolding add_action
add_action_new a ns v classes (method, named, e) =
    rw (named, add_action)
      (subst (λ u. InClass ns u (push_class ns v' classes)) (sym e) (push_class_new ns v' classes))
  where
    v' : Value
    v' = action_array method (announced_flags a.flags) a.version

add_action_old :
    (a : ActionInfo) (k : Text) (w : Value) (classes : ClassMap)
    → InClass k w classes
    → InClass k w (add_action a classes)
unfolding add_action
add_action_old a k w classes h = elim (Option-cases (rsplit_once 0x2E a.name)) [
  | inl nameless ↦ rw (nameless, add_action) h
  | inr ((ns, method), named) ↦
      rw (named, add_action)
        (push_class_old ns (action_array method (announced_flags a.flags) a.version) k w classes h)
]

add_action-cases :
    (a : ActionInfo) (k : Text) (w : Value) (classes : ClassMap)
    → InClass k w (add_action a classes)
    → Gives a k w ⊎ InClass k w classes
unfolding add_action
add_action-cases a k w classes h = elim (Option-cases (rsplit_once 0x2E a.name)) [
  | inl nameless ↦ inr (rw (nameless, add_action) at h)
  | inr ((ns, method), named) ↦
      elim (push_class-cases ns (action_array method (announced_flags a.flags) a.version) k w
        classes (rw (named, add_action) at h)) [
          | inl (e, given) ↦ inl (method, named ∙ ap (λ n. some (n, method)) e, sym given)
          | inr old ↦ inr old
        ]
]

class_map_old :
    (actions : List ActionInfo) (classes : ClassMap) (ns : Text) (v : Value)
    → InClass ns v classes
    → InClass ns v (class_map actions classes)
unfolding class_map
class_map_old [] classes ns v h = h
class_map_old (a ∷ actions) classes ns v h =
    class_map_old actions (add_action a classes) ns v (add_action_old a ns v classes h)

-- What an action gives stands in the map.
pub class_map_new :
    (actions : List ActionInfo) (classes : ClassMap) (a : ActionInfo) (ns : Text) (v : Value)
    → In a actions
    → Gives a ns v
    → InClass ns v (class_map actions classes)
unfolding class_map
class_map_new [] classes a ns v there g = absurd there
class_map_new (b ∷ actions) classes a ns v (inl e) g =
    class_map_old actions (add_action b classes) ns v
      (add_action_new b ns v classes (subst (λ c. Gives c ns v) (sym e) g))
class_map_new (b ∷ actions) classes a ns v (inr there) g =
    class_map_new actions (add_action b classes) a ns v there g

-- What stands in the map stood there before, or an action gave it.
pub class_map-cases :
    (actions : List ActionInfo) (classes : ClassMap) (ns : Text) (v : Value)
    → InClass ns v (class_map actions classes)
    → ((a : ActionInfo) × In a actions × Gives a ns v) ⊎ InClass ns v classes
unfolding class_map
class_map-cases [] classes ns v h = inr h
class_map-cases (a ∷ actions) classes ns v h =
    elim (class_map-cases actions (add_action a classes) ns v h) [
      | inl (b, there, g) ↦ inl (b, inr there, g)
      | inr old ↦ elim (add_action-cases a ns v classes old) [
        | inl g ↦ inl (a, inl refl, g)
        | inr before ↦ inr before
      ]
    ]
