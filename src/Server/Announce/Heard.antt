-- ===== src/Server/Announce/Heard.antt =====
-- service/announce.rs and discovery/service_info/parse.rs: the classes of an announcement, read.
use scamp_rs.Common.{
  ℕ, ◌+◌, ◌^◌, ◌<◌, ◌≡◌, refl, sym, ap, subst, ◌∙◌, ◌%◌, List, [], ◌∷◌, ◌++◌, Text, Bool-cases, inl,
  inr, lt→ltb, ◌==◌, ==→eq, arith,
}
use scamp_rs.Common.Members.{In, In-append_left, In-append_right, In-append-cases}
use scamp_rs.Discovery.Announcement.{Action, Flag, v3}
use scamp_rs.Discovery.Parse.Result.{Parsed, ok, err, panics, Reader}
use scamp_rs.Discovery.Parse.Flags.{parse_flags, action_path, pathver_of}
use scamp_rs.Discovery.Parse.V3.{
  v3_version, v3_fields, v3_items, v3_action, v3_actions, v3_namespace, v3_namespaces,
}
use scamp_rs.Json.{Value, to_list-of_list, as_str}
use scamp_rs.Proto.Header.Fields.{write_i32}
use scamp_rs.Server.Announce.Actions.{ClassMap, action_array, class_arrays}
use scamp_rs.Server.Announce.Classes.{InClass}

pub ok-injective : {A : Type 0} {a b : A} → Parsed.ok a ≡ ok b → a ≡ b
ok-injective {a} e = ap (λ r. elim r [ ok x ↦ x | err f ↦ a | panics ↦ a ]) e

small_mod : (n : ℕ) → n < 2 ^ 31 → n % 2 ^ 32 ≡ n
small_mod n h = omega arith

module _ {F : Type 0} (o : Reader F) (sector : Text) (envelopes : List Text) where
  -- The action as a parser knows it.
  abbrev pub heard : Text → Text → ℕ → List Flag → Action
  heard ns method version flags = record {
    path = action_path o ns method;
    version = version;
    pathver = pathver_of o (action_path o ns method) version;
    flags = flags;
    sector = sector;
    envelopes = envelopes;
    packet_section = v3;
  }

  -- The parser makes the action of the value, wherever it stands in the announcement.
  abbrev pub Reads : Text → Value → Action → Type 0
  Reads ns v x = (i j : ℕ) → v3_action o i j ns sector envelopes v ≡ ok x

  pub v3_action-action_array :
      (ns method flags : Text) (version : ℕ) (gs : List Flag)
      → version < 2 ^ 31
      → parse_flags o flags ≡ ok gs
      → Reads ns (action_array method flags version) (heard ns method version gs)
  unfolding v3_action v3_items v3_fields v3_version action_array write_i32 as_str
  v3_action-action_array ns method flags version gs small e i j = elim (Bool-cases (version == 1)) [
    | inl one ↦
        subst
          (λ n.
            v3_action o i j ns sector envelopes (action_array method flags n)
            ≡ ok (heard ns method n gs))
          (sym (==→eq version 1 one)) (rw e refl)
    | inr more ↦
        rw (more, lt→ltb version (2 ^ 31) small)
          (rw (e, v3_items, v3_fields)
            (ap (λ n. Parsed.ok (heard ns method n gs)) (small_mod version small)))
  ]

  -- The actions of one class.
  v3_actions-Reads :
      (ns : Text) (i j : ℕ) (vs : List Value)
      → ((v : Value) → In v vs → (x : Action) × Reads ns v x)
      → (xs : List Action) × (v3_actions o i j ns sector envelopes vs ≡ ok xs)
        × ((x : Action) → In x xs → (v : Value) × In v vs × Reads ns v x)
        × ((v : Value) (x : Action) → In v vs → Reads ns v x → In x xs)
  unfolding v3_actions
  v3_actions-Reads ns i j [] f = ([], refl, (λ x h. absurd h), (λ v x h r. absurd h))
  v3_actions-Reads ns i j (v ∷ vs) f =
      let (x, r) = f v (inl refl) in
      let (xs, e, from, onto) = v3_actions-Reads ns i (j + 1) vs (λ w h. f w (inr h)) in
      (
        x ∷ xs,
        rw (r i j, e) refl,
        (λ y h. elim h [
          | inl here ↦ (v, inl refl, subst (Reads ns v) here r)
          | inr further ↦ let (w, there, s) = from y further in (w, inr there, s)
        ]),
        (λ w y h s. elim h [
          | inl here ↦ inl (
              ok-injective (
                sym (r i j)
                ∙ subst (λ u. v3_action o i j ns sector envelopes u ≡ ok y) (sym here) (s i j)))
          | inr further ↦ inr (onto w y further s)
        ]),
      )

  pub v3_namespaces-Reads :
      (i : ℕ) (classes : ClassMap)
      → ((ns : Text) (v : Value) → InClass ns v classes → (x : Action) × Reads ns v x)
      → (xs : List Action) × (v3_namespaces o i sector envelopes (class_arrays classes) ≡ ok xs)
        × ((x : Action) → In x xs → (ns : Text) × (v : Value) × InClass ns v classes × Reads ns v x)
        × ((ns : Text) (v : Value) (x : Action) → InClass ns v classes → Reads ns v x → In x xs)
  unfolding v3_namespaces v3_namespace class_arrays as_str
  v3_namespaces-Reads i [] f = ([], refl, (λ x h. absurd h), (λ ns v x h r. absurd h))
  v3_namespaces-Reads i ((ns, vs) ∷ classes) f =
      let (xs, e, from, onto) = v3_actions-Reads ns i 0 vs (λ v h. f ns v (inl (refl, h))) in
      let (ys, e', from', onto') = v3_namespaces-Reads (i + 1) classes (λ k v h. f k v (inr h)) in
      (
        xs ++ ys,
        rw (to_list-of_list vs, e, e') refl,
        (λ x h. elim (In-append-cases x xs ys h) [
          | inl left ↦ let (v, there, r) = from x left in (ns, v, inl (refl, there), r)
          | inr right ↦ let (k, v, there, r) = from' x right in (k, v, inr there, r)
        ]),
        (λ k v x h r. elim h [
          | inl (here, there) ↦
              In-append_left x xs ys (onto v x there (subst (λ n. Reads n v x) (sym here) r))
          | inr further ↦ In-append_right x xs ys (onto' k v x further r)
        ]),
      )
